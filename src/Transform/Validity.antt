-- ===== src/Transform/Validity.antt =====
-- crates/pinakey-core/src/transform_utils.rs: `is_valid`, `has_valid_tone`, `extract_last_syllable`.
use pinakey.Base.{
  ℕ, zero, suc, ◌+◌, leb, if◌then◌else◌, Bool, true, false, not, ◌||◌, Option, none, some, List, [],
  ◌∷◌, ◌++◌, reverse, length, take, drop, is_empty, codes, Text, text_eq,
}
use pinakey.Rules.{Tone, effect, effect_type, is_tone, tone_from_u8}
use pinakey.Rules.Store.{Store, rule_of}
use pinakey.Chars.{Unicode}
use pinakey.Flattener.{flatten}
use pinakey.Spelling.{is_valid_cvc}
use pinakey.Transform.Extract.{Composition, extract_cvc_trans, extract_last_word}

abbrev pub one_of : List Text → Text → Bool
one_of [] t = false
one_of (s ∷ ss) t = text_eq s t || one_of ss t

abbrev pub is_free_tone : Tone → Bool
is_free_tone Tone.none = true
is_free_tone Tone.acute = true
is_free_tone Tone.dot = true
is_free_tone _ = false

-- The last consonants that only take the tones acute and dot.
abbrev pub stops : List Text
stops = codes "c" ∷ codes "k" ∷ codes "p" ∷ codes "t" ∷ codes "ch" ∷ []

-- The last tone of a reversed composition.
abbrev pub first_tone : Store → Composition → Option Tone
first_tone s [] = none
first_tone s (t ∷ ts) =
    let rest = first_tone s ts in
    if is_tone (effect_type (rule_of s t)) then some (tone_from_u8 (effect (rule_of s t))) else rest

module _ (u : Unicode) where
  -- The mode is `ENGLISH | LOWER_CASE`.
  unfoldable pub has_valid_tone : Store → Composition → Tone → Bool
  unfolding text_eq extract_cvc_trans flatten
  has_valid_tone s comp tone =
      let lc = (extract_cvc_trans s comp).lc in
      if is_free_tone tone
      then true
      else if is_empty lc
      then true
      else not (one_of stops (flatten u s lc 18))

  -- The mode is `VIETNAMESE | LOWER_CASE | TONE_LESS`.
  unfoldable pub is_valid : Store → Composition → Bool → Bool
  unfolding has_valid_tone is_valid_cvc tone_from_u8
  is_valid s comp full =
      let p = extract_cvc_trans s comp in
      let spelled =
        is_valid_cvc (flatten u s p.fc 21) (flatten u s p.vo 21) (flatten u s p.lc 21) full in
      let toned : Bool = elim (first_tone s (reverse comp)) [
        | none ↦ true
        | some tone ↦ has_valid_tone s comp tone
      ] in
      if leb (length comp) 1 then true else if not toned then false else spelled

  -- The loop of `extract_last_syllable`, with `n` rounds left from `i` on: the final `anchor`.
  unfoldable pub find_anchor : Store → Composition → ℕ → ℕ → ℕ → ℕ
  unfolding is_valid
  find_anchor s last zero i anchor = anchor
  find_anchor s last (suc n) i anchor =
      find_anchor s last n (i + 1)
        (if is_valid s (drop anchor (take (i + 1) last)) false then anchor else i)

  unfoldable pub extract_last_syllable : Store → Composition → Composition × Composition
  unfolding find_anchor extract_last_word
  extract_last_syllable s comp =
      let (previous, last) = extract_last_word u s comp [] in
      let anchor = find_anchor s last (length last) 0 0 in
      (previous ++ take anchor last, drop anchor last)
