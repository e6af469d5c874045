-- ===== src/Api.antt =====
-- api/v1alpha1/adaptivepolicy_types.go: the AdaptivePolicy resource.
mod Filters
mod Triggers
mod Spec
mod Status
mod Policy
pub use Filters.*
pub use Triggers.*
pub use Spec.*
pub use Status.*
unfoldable pub use Policy.*
