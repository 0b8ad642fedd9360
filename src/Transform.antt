-- ===== src/Transform.antt =====
-- crates/pinakey-core/src/transform_utils.rs, by what its functions do: Extract splits a composition,
-- Validity checks it, Target finds what a rule acts on, and Generate makes new transformations. The
-- other children hold what is proved of them.
pub mod Extract
pub mod Validity
pub mod Target
pub mod Generate
pub mod Found
pub mod Live
pub mod Makes
pub mod Outcome
pub mod Refresh
pub mod Break
pub mod Undo
pub mod Split
pub mod Syllable
