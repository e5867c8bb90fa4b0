-- ===== src/Audio.antt =====
-- Audio helpers (voxedge/audio).
pub mod Segment
