-- ===== src/Controller.antt =====
-- internal/controller/adaptivepolicy_controller.go: the parts of the reconciler.
pub mod Pollers
pub mod Validate
pub mod Conditions
pub mod Prune
pub mod Detection
pub mod Deliver
pub mod Messages
pub mod FilterEffective
pub mod Report
pub mod Manager
pub mod Reconcile
