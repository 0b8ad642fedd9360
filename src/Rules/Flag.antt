-- ===== src/Rules/Flag.antt =====
-- `pub mod flag` of crates/pinakey-core/src/rules.rs: the engine's feature flags.
use pinakey.Base.{ℕ}

abbrev pub free_tone_marking : ℕ
free_tone_marking = 1

abbrev pub std_tone_style : ℕ
std_tone_style = 2

abbrev pub auto_correct_enabled : ℕ
auto_correct_enabled = 4

abbrev pub std_flags : ℕ
std_flags = 3
