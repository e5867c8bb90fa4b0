-- ===== src/Artifacts.antt =====
-- Manifests of runtime artifacts and their installation (voxedge/artifacts).
pub mod Result
pub mod Json
pub mod Manifest
pub mod Download
