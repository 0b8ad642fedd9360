-- ===== src/KeyEngine.antt =====
-- crates/pinakey-engine: key symbols, the choice of a transport for a program, and the key event engine. The
-- children behind Handler hold the proofs.
pub mod Keysym
pub mod Transport
pub mod Core
pub mod View
pub mod Commit
pub mod Handler
pub mod Invariant
pub mod Returns
pub mod Passes
pub mod Sentence
pub mod Encoded
