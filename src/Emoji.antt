-- ===== src/Emoji.antt =====
-- crates/pinakey-emoji: recent emoji, the two ways of finding emoji, and the macros.
pub mod Recent
pub mod Fuzzy
pub mod Macro
pub mod Trie
pub mod Search
pub mod Index
