-- ===== src/InputMethod/Tones.antt =====
-- The tones of the rules that rules_parser.rs reads, and what `add_tone_to_char` of utils.rs makes of them.
use pinakey.Base.{ℕ, ◌+◌, ◌-◌, ◌%◌, ◌<◌, true, some, length, ◌≡◌}
use pinakey.Rules.{Rule, Rules, effect, effect_type, is_tone}
use pinakey.Chars.{vowels, find_vowel_position}
use pinakey.InputMethod.{InputMethod}

-- If the rule sets a tone, it is one of the six.
record IsToneBelow (r : Rule) : Type 0 where
  pub below : is_tone (effect_type r) ≡ true → effect r < 6

-- If the rule sets a tone, the place at which `add_tone_to_char` then reads the table of vowels, for a
-- character that is at `p` in it, is inside the table.
pub record IsInTable (r : Rule) : Type 0 where
  pub inside :
      (c p : ℕ)
      → is_tone (effect_type r) ≡ true
      → find_vowel_position c ≡ some p
      → p - p % 6 + effect r < length vowels
