-- ===== src/Trigger.antt =====
-- internal/trigger: when a policy switches its profile.
pub mod Types
pub mod Condition
pub mod Evaluate
