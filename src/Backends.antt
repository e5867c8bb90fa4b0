-- ===== src/Backends.antt =====
-- The adapters of voxedge/backends that are the repository's own logic.
pub mod CancelReceipts
pub mod WorkerIo
