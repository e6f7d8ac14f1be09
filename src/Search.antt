-- ===== src/Search.antt =====
-- The search's shared state and policies.
pub mod TtEntry
pub mod Tt
pub mod TtStore
pub mod TtScore
pub mod History
pub mod Score
pub mod MoveSort
pub mod MovePicker
mod PickerExamples
mod Examples
mod TableExamples
