-- ===== src/Text.antt =====
-- Texts are lists of code points, as Python's `str`; and what cleans up a transcript (voxedge/text).
pub mod Equality
pub mod Strip
pub mod Decimal
pub mod Degenerate
pub mod Period
pub mod Tail
pub mod Interior
pub mod Collapse
pub mod Join
pub mod Numerals
