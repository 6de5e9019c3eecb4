-- ===== src/Examples.antt =====
-- Concrete inputs, at which the theorems with hypotheses are applied.
pub mod Frames
pub mod Media
pub mod Replays
pub mod Sessions
