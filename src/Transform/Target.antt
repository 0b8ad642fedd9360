-- ===== src/Transform/Target.antt =====
-- crates/pinakey-core/src/transform_utils.rs: the transformation that a rule acts on. A candidate is
-- tried in a copy of the store: the code drops it again, so no other function can see it.
use pinakey.Base.{
  ℕ, ◌==◌, ltb, if◌then◌else◌, has_flag, Bool, true, false, not, ◌&&◌, ◌||◌, Option, none, some,
  List, [], ◌∷◌, ◌++◌, reverse, is_empty, codes, Text, text_eq, code,
}
use pinakey.Rules.{
  EffectType, Rule, default_rule, effect, effect_on, effect_type, result, is_mark, is_tone,
  same_type, tone_from_u8, is_tone_none, TransRef,
}
use pinakey.Rules.Flag
use pinakey.Rules.Store.{Store, new_ref, rule_of, target_of}
use pinakey.Chars.{Unicode, is_vowel, find_tone_from_char}
use pinakey.Flattener.{flatten}
use pinakey.Transform.Extract.{
  Composition, extract_cvc_trans, filter_appending_composition, find_last_appending_trans,
  find_root_target,
}
use pinakey.Transform.Validity.{has_valid_tone, is_valid}

-- `tgt.unwrap_or_else(|| trans.clone())`.
abbrev pub target_or_self : Store → TransRef → TransRef
target_or_self s t = elim (target_of s t) [ none ↦ t | some a ↦ a ]

-- The loop over `vo` in the standard style: the last `ơ` or `ê` decides.
abbrev pub last_main_vowel : Store → Composition → Option TransRef → Option TransRef
last_main_vowel s [] target = target
last_main_vowel s (t ∷ ts) target = last_main_vowel s ts (
    if (result (rule_of s t) == code "ơ") || (result (rule_of s t) == code "ê")
    then some (target_or_self s t)
    else target)

abbrev pub or_else : Option TransRef → TransRef → Option TransRef
or_else none a = some a
or_else (some b) a = some b

abbrev pub glides : Text → Bool
glides s =
    text_eq s (codes "oa")
    || text_eq s (codes "oe")
    || text_eq s (codes "uy")
    || text_eq s (codes "ue")
    || text_eq s (codes "uo")

-- Whether nothing of the composition acts on `trans` with this type of effect.
unfoldable pub is_free : Store → Composition → Option TransRef → EffectType → Bool
is_free s [] trans type = true
is_free s (t ∷ ts) trans type =
    let rest = is_free s ts trans type in
    let matches : Bool = elim (target_of s t) [
      | none ↦ elim trans [ none ↦ true | some _ ↦ false ]
      | some x ↦ elim trans [ none ↦ false | some y ↦ x == y ]
    ] in
    if matches && same_type (effect_type (rule_of s t)) type then false else rest

abbrev pub first_fit : (Rule → Bool) → List Rule → Option Rule
first_fit p [] = none
first_fit p (r ∷ rs) = let rest = first_fit p rs in if p r then some r else rest

-- The tone that takes a tone away from a vowel without one acts on nothing.
unfoldable pub drop_idle_target : Store → Composition → Rule → Option TransRef → Option TransRef
unfolding is_free find_tone_from_char tone_from_u8
drop_idle_target s comp r none = none
drop_idle_target s comp r (some t) =
    if is_tone_none (tone_from_u8 (effect r))
      && is_free s comp (some t) EffectType.tone_transformation
      && is_tone_none (find_tone_from_char (result (rule_of s t)))
    then none
    else some t

module _ (u : Unicode) where
  -- The branches on the vowels; the mode is `ENGLISH | LOWER_CASE | TONE_LESS | MARK_LESS`.
  unfoldable pub tone_position :
      Store → Composition → Composition → Bool → Composition → Option TransRef
  unfolding flatten text_eq
  tone_position s vo lc std_style [] = none
  tone_position s vo lc std_style (a ∷ []) = some a
  tone_position s vo lc std_style (a ∷ b ∷ []) =
      if std_style
      then or_else (last_main_vowel s vo none) (if is_empty lc then a else b)
      else if not (is_empty lc)
      then some b
      else if glides (flatten u s (a ∷ b ∷ []) 30)
      then some b
      else some a
  tone_position s vo lc std_style (a ∷ b ∷ c ∷ []) =
      if text_eq (flatten u s (a ∷ b ∷ c ∷ []) 30) (codes "uye") then some c else some b
  tone_position s vo lc std_style (a ∷ b ∷ c ∷ d ∷ more) = none

  unfoldable pub find_tone_target : Store → Composition → Bool → Option TransRef
  unfolding tone_position extract_cvc_trans filter_appending_composition
  find_tone_target s comp std_style =
      let p = extract_cvc_trans s comp in
      if is_empty comp
      then none
      else tone_position s p.vo p.lc std_style (filter_appending_composition s p.vo)

  -- `flatten(&with_appended(composition, temp), mode)`.
  unfoldable pub flatten_with : Store → Composition → Rule → Option TransRef → ℕ → Text
  unfolding new_ref flatten
  flatten_with s comp r target m =
      let (s', temp) = new_ref s r target false in flatten u s' (comp ++ temp ∷ []) m

  -- `is_valid(&with_appended(composition, temp2), false)`.
  unfoldable pub is_valid_with : Store → Composition → Rule → Option TransRef → Bool
  unfolding new_ref is_valid
  is_valid_with s comp r target =
      let (s', temp) = new_ref s r target false in is_valid u s' (comp ++ temp ∷ []) false

  -- The body of the inner loop of `find_mark_target`.
  unfoldable pub mark_fits : Store → Composition → Text → TransRef → Rule → Bool
  unfolding find_root_target flatten_with is_valid_with text_eq
  mark_fits s comp shown trans r =
      is_mark (effect_type r)
      && ((result (rule_of s trans) == effect_on r) && ltb 0 (effect r))
      && (let target = some (find_root_target s trans) in
          not (text_eq shown (flatten_with s comp r target 1)) && is_valid_with s comp r target)

  -- The outer loop, over the reversed composition.
  unfoldable pub find_mark_loop :
      Store → Composition → Text → List Rule → Composition → Option TransRef × Rule
  unfolding mark_fits
  find_mark_loop s comp shown rules [] = (none, default_rule)
  find_mark_loop s comp shown rules (t ∷ ts) =
      let rest = find_mark_loop s comp shown rules ts in
      elim (first_fit (mark_fits s comp shown t) rules) [
        | none ↦ rest
        | some r ↦ (some (find_root_target s t), r)
      ]

  unfoldable pub find_mark_target : Store → Composition → List Rule → Option TransRef × Rule
  unfolding find_mark_loop
  find_mark_target s comp rules = find_mark_loop s comp (flatten u s comp 1) rules (reverse comp)

  -- Where a tone rule would put its tone.
  unfoldable pub tone_target : Store → Composition → Rule → ℕ → Option TransRef
  unfolding find_tone_target has_valid_tone find_last_appending_trans
  tone_target s comp r flags =
      if has_flag flags Flag.free_tone_marking
      then (if has_valid_tone u s comp (tone_from_u8 (effect r))
          then find_tone_target s comp (has_flag flags Flag.std_tone_style)
          else none)
      else elim (find_last_appending_trans s comp) [
        | none ↦ none
        | some a ↦ if is_vowel (effect_on (rule_of s a)) then some a else none
      ]

  -- The loop of `find_target` over the tone rules, and the marks behind it.
  unfoldable pub find_target_loop :
      Store → Composition → ℕ → Text → List Rule → List Rule → Option TransRef × Rule
  unfolding tone_target flatten_with drop_idle_target find_mark_target text_eq
  find_target_loop s comp flags shown rules [] = find_mark_target s comp rules
  find_target_loop s comp flags shown rules (r ∷ rs) =
      let rest = find_target_loop s comp flags shown rules rs in
      let target = tone_target s comp r flags in
      if not (is_tone (effect_type r))
      then rest
      else if text_eq shown (flatten_with s comp r target 1)
      then rest
      else (drop_idle_target s comp r target, r)

  unfoldable pub find_target : Store → Composition → List Rule → ℕ → Option TransRef × Rule
  unfolding find_target_loop
  find_target s comp rules flags = find_target_loop s comp flags (flatten u s comp 1) rules rules
