-- ===== src/Engine/TurnDriver.antt =====
-- engine/turn_driver.py: one turn of the conversation with the language model and its tools.
pub mod Host
pub mod Stream
pub mod Tools
pub mod Loop
pub mod Steps
pub mod Dialogue
pub mod Outcome
mod Tests
