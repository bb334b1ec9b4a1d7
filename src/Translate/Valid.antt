-- ===== src/Translate/Valid.antt =====
-- The invariant of the translator's state, between two callbacks.
pub mod Out
pub mod Inc
pub mod Frame
pub mod Pacing
pub mod Reach
pub mod Switches
