-- ===== src/Transform/Generate.antt =====
-- crates/pinakey-core/src/transform_utils.rs: the functions that make new transformations. Each takes
-- the store and returns it with the new cells. The two regular expressions are run by the crate
-- `regex`, which is the parameter `Regexes`; `none` is the panic of `vowels[0]` on an empty slice.
use pinakey.Base.{
  ℕ, ◌==◌, if◌then◌else◌, Bool, true, false, not, ◌&&◌, ◌||◌, Option, none, some, List, [], ◌∷◌,
  ◌++◌, reverse, is_empty, Text, text_eq,
}
use pinakey.Rules.{
  EffectType, Rule, Rules, key, effect, effect_on, effect_type, result, appended_rules, with_key,
  is_appending, is_mark, is_tone, TransRef,
}
use pinakey.Rules.Store.{Store, new_ref, rule_of, target_of, set_target}
use pinakey.Chars.{Unicode, to_lower, is_upper}
use pinakey.Flattener.{flatten}
use pinakey.Transform.Extract.{
  Composition, filter_appending_composition, find_root_target, get_right_most_vowels,
}
use pinakey.Transform.Validity.{is_valid}
use pinakey.Transform.Target.{tone_target, find_target, find_tone_target, flatten_with}

-- `REG_UH_O.is_match` for `(ưo|ươ)`, and `REG_UO_H_TAIL.is_match` for `(uơ|ưo)\p{L}+`.
pub record Regexes : Type 0 where
  pub uh_o : Text → Bool
  pub uo_h_tail : Text → Bool

-- A new transformation behind the ones made so far.
abbrev pub push : Store × Composition → Rule → Option TransRef → Bool → Store × Composition
push (s, made) r target up = let (s', t) = new_ref s r target up in (s', made ++ t ∷ [])

abbrev pub appending_rule : ℕ → Rule
appending_rule k = Rule.rule k 0 EffectType.appending k k Rules.nil

-- The rules with key `'\0'` that the code makes by hand: a mark or a tone of the given effect.
abbrev pub virtual_mark : ℕ → Rule
virtual_mark e = Rule.rule 0 e EffectType.mark_transformation 0 0 Rules.nil

abbrev pub virtual_tone : ℕ → Rule
virtual_tone e = Rule.rule 0 e EffectType.tone_transformation 0 0 Rules.nil

-- `new_appending_trans`, pushed.
abbrev pub push_appending : Store × Composition → ℕ → Bool → Store × Composition
push_appending made k up = push made (appending_rule k) none up

-- An appending rule with its letter in lower case, under the given key.
abbrev pub lower_rule : Unicode → ℕ → Rule → Rule
lower_rule u k r =
    Rule.rule k (effect r) (effect_type r) (to_lower u (effect_on r)) (to_lower u (effect_on r))
      (appended_rules r)

-- The first appending rule of the key.
abbrev pub find_appending : List Rule → ℕ → Option Rule
find_appending [] k = none
find_appending (r ∷ rs) k =
    let rest = find_appending rs k in
    if (key r == k) && is_appending (effect_type r) then some r else rest

-- The last tone with a target, of a reversed composition.
abbrev pub first_tone_trans : Store → Composition → Option TransRef
first_tone_trans s [] = none
first_tone_trans s (t ∷ ts) =
    let rest = first_tone_trans s ts in
    elim (target_of s t) [
      | none ↦ rest
      | some _ ↦ if is_tone (effect_type (rule_of s t)) then some t else rest
    ]

unfoldable pub get_last_tone_transformation : Store → Composition → Option TransRef
get_last_tone_transformation s comp = first_tone_trans s (reverse comp)

abbrev pub differs : Option TransRef → Option TransRef → Bool
differs none none = false
differs (some a) (some b) = not (a == b)
differs none (some _) = true
differs (some _) none = true

unfoldable pub break_loop : Store × Composition → Composition → Store × Composition
unfolding new_ref
break_loop (s, made) [] = (s, made)
break_loop (s, made) (t ∷ ts) =
    let k = key (rule_of s t) in
    break_loop (if k == 0 then (s, made) else push_appending (s, made) k (s.cells t).is_upper_case)
      ts

unfoldable pub break_composition : Store → Composition → Store × Composition
unfolding break_loop
break_composition s comp = break_loop (s, []) comp

-- `key` is an effect key typed twice in a row.
unfoldable pub undoes_last : Store → Composition → ℕ → Option TransRef
undoes_last s comp k = elim (reverse comp) [
  | [] ↦ none
  | t ∷ _ ↦
      let r = rule_of s t in
      if is_appending (effect_type r) && ((key r == k) && not (key r == result r))
      then some t
      else none
]

-- The tone moves to the vowel that now bears it: the old transformation is redirected in place.
unfoldable pub move_tone : Store → TransRef → Option TransRef → Store × Composition
unfolding set_target new_ref
move_tone s tone target =
    push (push (set_target s tone target, []) (virtual_tone 0) target false)
      (with_key 0 (rule_of s tone)) target false

module _ (u : Unicode) where
  -- One more effect of the undo: a tone, where it would stand on a vowel.
  unfoldable pub undo_tone : Composition → ℕ → Rule → Store × Composition → Store × Composition
  unfolding tone_target new_ref
  undo_tone comp flags r (s, made) = elim (tone_target u s comp r flags) [
    | none ↦ (s, made)
    | some t ↦ push (s, made) (virtual_tone 0) (some t) false
  ]

  -- The mark rule against each transformation, the last one first; the mode is
  -- `VIETNAMESE | TONE_LESS | LOWER_CASE`.
  unfoldable pub undo_mark :
      Composition → Text → Rule → Store × Composition → Composition → Store × Composition
  unfolding find_root_target flatten_with new_ref
  undo_mark comp shown r (s, made) [] = (s, made)
  undo_mark comp shown r (s, made) (t ∷ ts) =
      let target = some (find_root_target s t) in
      undo_mark comp shown r
        (if (result (rule_of s t) == effect_on r)
            && not (text_eq shown (flatten_with u s comp (virtual_mark 0) target 21))
          then push (s, made) (virtual_mark 0) target false
          else (s, made))
        ts

  unfoldable pub undo_rule :
      Composition → Text → ℕ → Rule → Store × Composition → Store × Composition
  unfolding undo_tone undo_mark
  undo_rule comp shown flags r made =
      if is_tone (effect_type r)
      then undo_tone comp flags r made
      else if is_mark (effect_type r)
      then undo_mark comp shown r made (reverse comp)
      else made

  unfoldable pub undo_rules :
      Composition → Text → ℕ → List Rule → Store × Composition → Store × Composition
  unfolding undo_rule
  undo_rules comp shown flags [] made = made
  undo_rules comp shown flags (r ∷ rs) made =
      undo_rules comp shown flags rs (undo_rule comp shown flags r made)

  unfoldable pub generate_undo_transformations :
      Store → Composition → List Rule → ℕ → Store × Composition
  unfolding undo_rules
  generate_undo_transformations s comp rules flags =
      undo_rules comp (flatten u s comp 21) flags rules (s, [])

  -- The branch of `generate_transformations` in which a rule has a target. The second target is the
  -- shortcut for `uow`.
  unfoldable pub apply_rule :
      Store → Composition → List Rule → ℕ → Bool → TransRef → Rule → Store × Composition
  unfolding new_ref is_valid find_target
  apply_rule s comp rules flags up target r =
      let made = push (s, []) r (some target) up in
      let comp' = comp ++ made.1 in
      if not (is_mark (effect_type r))
      then made
      else if is_valid u made.0 comp' true
      then made
      else elim (find_target u made.0 comp' rules flags).0 [
        | none ↦ made
        | some target2 ↦
            push made (with_key 0 (find_target u made.0 comp' rules flags).1) (some target2) false
      ]

  unfoldable pub undo_or_nothing :
      Store → Composition → List Rule → ℕ → ℕ → Bool → Store × Composition
  unfolding generate_undo_transformations new_ref
  undo_or_nothing s comp rules flags k up =
      let made = generate_undo_transformations s comp rules flags in
      if is_empty made.1 then made else push_appending made k up

  -- The branch for `ươ` or `ưo` before `o`: the mark is taken from the first vowel, `v`, if the rule
  -- then finds another target.
  unfoldable pub shift_horn :
      Store → Composition → List Rule → ℕ → Bool → TransRef → Option (Store × Composition)
  unfolding new_ref find_target
  shift_horn s comp rules flags up v =
      let made = push (s, []) (virtual_mark 0) (some v) false in
      let found = find_target u made.0 (comp ++ made.1) rules flags in
      elim found.0 [
        | none ↦ none
        | some t ↦ if t == v then none else some (push made found.1 (some t) up)
      ]

  module _ (re : Regexes) where
    -- The branch of `generate_transformations` in which no rule has a target.
    unfoldable pub without_target :
        Store → Composition → List Rule → ℕ → ℕ → Bool → Option (Store × Composition)
    unfolding undo_or_nothing shift_horn flatten filter_appending_composition
    without_target s comp rules flags k up =
        if re.uh_o (flatten u s comp 21)
        then elim (filter_appending_composition s (get_right_most_vowels s comp)) [
          | [] ↦ none
          | v ∷ _ ↦ elim (shift_horn s comp rules flags up v) [
            | some made ↦ some made
            | none ↦ some (undo_or_nothing s comp rules flags k up)
          ]
        ]
        else some (undo_or_nothing s comp rules flags k up)

    -- `Mark::Raw` is 5.
    unfoldable pub generate_transformations :
        Store → Composition → List Rule → ℕ → ℕ → Bool → Option (Store × Composition)
    unfolding undoes_last apply_rule without_target find_target new_ref
    generate_transformations s comp rules flags k up = elim (undoes_last s comp k) [
      | some t ↦ some (push (s, []) (virtual_mark 5) (some t) false)
      | none ↦ elim (find_target u s comp rules flags).0 [
        | some target ↦
            some (apply_rule s comp rules flags up target (find_target u s comp rules flags).1)
        | none ↦ without_target s comp rules flags k up
      ]
    ]

  -- The appended rules of the fallback's rule.
  unfoldable pub push_appended : Rules → Bool → Store × Composition → Store × Composition
  unfolding to_lower is_upper new_ref
  push_appended Rules.nil up made = made
  push_appended (Rules.cons r rs) up made =
      push_appended rs up (push made (lower_rule u 0 r) none (up || is_upper u (effect_on r)))

  unfoldable pub generate_fallback_transformations :
      Store → List Rule → ℕ → Bool → Store × Composition
  unfolding push_appended to_lower is_upper new_ref
  generate_fallback_transformations s rules k up = elim (find_appending rules k) [
    | none ↦ push_appending (s, []) k up
    | some r ↦
        push_appended (appended_rules r) up
          (push (s, []) (lower_rule u (key r) r) none (up || is_upper u (effect_on r)))
  ]

  unfoldable pub refresh_last_tone_target : Store → Composition → Bool → Store × Composition
  unfolding get_last_tone_transformation find_tone_target move_tone
  refresh_last_tone_target s comp std_style =
      if is_empty (get_right_most_vowels s comp)
      then (s, [])
      else elim (get_last_tone_transformation s comp) [
        | none ↦ (s, [])
        | some tone ↦
            let target = find_tone_target u s comp std_style in
            if differs (target_of s tone) target then move_tone s tone target else (s, [])
      ]
