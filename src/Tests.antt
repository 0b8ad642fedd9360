-- ===== src/Tests.antt =====
-- Sample parameters, sample sessions, and the theorems at concrete inputs.
pub mod World
pub mod Sessions
pub mod Witnesses
pub mod Parts
pub mod Events
