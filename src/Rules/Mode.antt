-- ===== src/Rules/Mode.antt =====
-- `pub mod mode` of crates/pinakey-core/src/rules.rs: how a composition is processed and rendered.
use pinakey.Base.{ℕ}

abbrev pub vietnamese : ℕ
vietnamese = 1

abbrev pub english : ℕ
english = 2

abbrev pub tone_less : ℕ
tone_less = 4

abbrev pub mark_less : ℕ
mark_less = 8

abbrev pub lower_case : ℕ
lower_case = 16

abbrev pub full_text : ℕ
full_text = 32

abbrev pub punctuation : ℕ
punctuation = 64

abbrev pub in_reverse_order : ℕ
in_reverse_order = 128
