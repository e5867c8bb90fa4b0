-- ===== src/Engine.antt =====
-- The conversation engine (voxedge/engine).
pub mod AsrWorker
pub mod AsrRecovery
pub mod AsrManager
pub mod Capability
pub mod Coordinator
pub mod TtsBuffer
pub mod TurnDriver
pub mod SessionState
pub mod AsrLoop
pub mod AudioDispatcher
pub mod RemoteTools
pub mod ClientEvents
pub mod SentenceBuffer
pub mod ToolRegistry
pub mod SpokenNumbers
pub mod TtsSequencer
