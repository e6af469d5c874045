-- ===== src/Tests.antt =====
-- Evaluations at concrete inputs, over an arithmetic of thousandths.
mod Thousandths
mod Trigger
mod Poller
mod Rtds
mod Renderer
mod Controller
mod Scraper
mod Reconcile
mod Metrics
mod Polling
mod Process
mod System
mod Watched
