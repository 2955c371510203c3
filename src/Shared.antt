-- ===== src/Shared.antt =====
-- The small state of frontend/src/shared and of the emoji picker: taps and shares that wait for the
-- page, recent emojis, the text of a last visit, and the stack of the back button.
pub mod Pending
pub mod Emojis
pub mod Dates
pub mod Back
mod Tests
