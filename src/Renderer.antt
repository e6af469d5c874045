-- ===== src/Renderer.antt =====
-- internal/renderer: from a policy to the resources of the mesh, the runtime layers and the status.
pub mod Json
pub mod Result
pub mod Istio
pub mod Cilium
pub mod Detect
pub mod Layers
