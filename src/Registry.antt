-- ===== src/Registry.antt =====
-- RI/src/emcp_bus/registry/: manifests, their lifecycle, the store and the publishing pipeline.
pub mod Models
pub mod Lifecycle
pub mod Store
pub mod Pipeline
pub mod Catalogue
