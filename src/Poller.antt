-- ===== src/Poller.antt =====
-- internal/signal/poller.go: the poll loop with its debounce, and its output channel.
pub mod Config
pub mod Tick
pub mod Channel
pub mod Run
