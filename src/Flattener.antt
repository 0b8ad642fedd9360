-- ===== src/Flattener.antt =====
-- crates/pinakey-core/src/flattener.rs: the rendering of a composition as a text.
pub mod Raw
pub mod Typed
use pinakey.Base.{
  ℕ, ◌==◌, if◌then◌else◌, has_flag, Bool, true, false, not, ◌&&◌, Option, none, some, List, [], ◌∷◌,
  select, map, Text,
}
use pinakey.Rules.{EffectType, Rule, key, effect, effect_type, effect_on, is_appending, TransRef}
use pinakey.Rules.Mode
use pinakey.Rules.Store.{Store, rule_of, target_of}
use pinakey.Chars.{Unicode, to_lower, to_upper, add_mark_to_char, add_tone_to_char}

-- `Rc::ptr_eq` on a target.
abbrev pub targets : Store → TransRef → TransRef → Bool
targets s a t = elim (target_of s t) [ none ↦ false | some b ↦ a == b ]

-- `appending_list`: what is rendered, each with its own characters.
unfoldable pub shown : Store → Bool → TransRef → Bool
shown s english t =
    not (key (rule_of s t) == 0)
    && (if english then true else is_appending (effect_type (rule_of s t)))

-- `appending_map.get(&key)`: the effects on one appending, in the order of the composition.
unfoldable pub effects_on : Store → List TransRef → TransRef → List TransRef
effects_on s comp a =
    select (λ t. not (is_appending (effect_type (rule_of s t))) && targets s a t) comp

-- One effect on the character of an appending whose key is `k`.
unfoldable pub apply_effect : ℕ → ℕ → Rule → ℕ
unfolding add_mark_to_char add_tone_to_char
apply_effect k c r = elim (effect_type r) [
  | EffectType.mark_transformation ↦ if effect r == 5 then k else add_mark_to_char c (effect r)
  | EffectType.tone_transformation ↦ add_tone_to_char c (effect r)
  | _ ↦ c
]

unfoldable pub apply_effects : Store → ℕ → ℕ → List TransRef → ℕ
unfolding apply_effect
apply_effects s k c [] = c
apply_effects s k c (t ∷ ts) = apply_effects s k (apply_effect k c (rule_of s t)) ts

module _ (u : Unicode) where
  -- The end of the loop's body: the mode and the case.
  unfoldable pub adjust : ℕ → Bool → ℕ → ℕ
  unfolding to_lower to_upper add_mark_to_char add_tone_to_char
  adjust m up c =
      let toneless = if has_flag m Mode.tone_less then add_tone_to_char c 0 else c in
      let markless = if has_flag m Mode.mark_less then add_mark_to_char toneless 0 else toneless in
      if has_flag m Mode.lower_case
      then to_lower u markless
      else if up
      then to_upper u markless
      else markless

  unfoldable pub render : Store → List TransRef → ℕ → TransRef → ℕ
  unfolding effects_on apply_effects adjust
  render s comp m a =
      let r = rule_of s a in
      let c =
        if has_flag m Mode.english
        then key r
        else apply_effects s (key r) (effect_on r) (effects_on s comp a) in
      adjust m (s.cells a).is_upper_case c

  unfoldable pub get_canvas : Store → List TransRef → ℕ → Text
  unfolding render shown
  get_canvas s comp m = map (render s comp m) (select (shown s (has_flag m Mode.english)) comp)

  unfoldable pub flatten : Store → List TransRef → ℕ → Text
  unfolding get_canvas
  flatten s comp m = get_canvas s comp m
