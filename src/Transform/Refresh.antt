-- ===== src/Transform/Refresh.antt =====
-- What `refresh_last_tone_target` of transform_utils.rs makes.
use pinakey.Base.{
  if◌then◌else◌, Bool, true, false, Option, none, some, [], ◌∷◌, reverse, is_empty, ◌≡◌, ◌≢◌, refl,
  All, All-reverse, arith, Bool-cases, Option-cases, if-elim, inl, inr,
}
use mathlib.Core.Path.{subst}
use pinakey.Rules.{EffectType, Rule, effect_type, is_appending, is_tone, with_key, TransRef}
use pinakey.Rules.Store.{
  Store, rule_of, target_of, set_target, IsWellFormed, IsLive, Extends, Extends-refl, Allowed,
  set_target-Extends, set_target-IsWellFormed, IsRoot-Extends,
}
use pinakey.Chars.{Unicode}
use pinakey.Flattener.Raw.{raw_keys}
use pinakey.Transform.Extract.{Composition, get_right_most_vowels}
use pinakey.Transform.Found.{RootOrNone, find_tone_target-RootOrNone}
use pinakey.Transform.Makes.{Makes, Makes-nothing, push_virtual-Makes}
use pinakey.Transform.Target.{find_tone_target}
use pinakey.Transform.Generate.{
  push, virtual_tone, first_tone_trans, get_last_tone_transformation, differs, move_tone,
  refresh_last_tone_target,
}

-- A transformation that moves may point nowhere, or at a root.
Allowed-RootOrNone :
    {s s' : Store} (r : Rule) (o : Option TransRef)
    → Extends s s'
    → RootOrNone s o
    → is_appending (effect_type r) ≡ false
    → Allowed s' r o
Allowed-RootOrNone r none e h a = tt
Allowed-RootOrNone r (some t) e (RootOrNone.root h) a = (IsRoot-Extends e h, a)

-- The tone to be refreshed is in use, is a tone, and acts on something.
record IsLastTone (s : Store) (t : TransRef) : Type 0 where
  live : IsLive s t
  tone : is_appending (effect_type (rule_of s t)) ≡ false
  acts : target_of s t ≢ none

first_tone-IsLastTone :
    (s : Store) (ts : Composition) {t : TransRef}
    → All (IsLive s) ts
    → first_tone_trans s ts ≡ some t
    → IsLastTone s t
first_tone-IsLastTone s [] h e = cc
first_tone-IsLastTone s (x ∷ xs) {t} h e = elim (Option-cases (target_of s x)) [
  | inl q ↦ first_tone-IsLastTone s xs {t = t} h.1 (rw (q, first_tone_trans) at e)
  | inr (y, q) ↦ elim (Bool-cases (is_tone (effect_type (rule_of s x)))) [
    | inr b ↦ first_tone-IsLastTone s xs {t = t} h.1 (ground arith)
    | inl b ↦
        let f : x ≡ t = ground arith in
        subst (IsLastTone s) f
          (record { live = h.0; tone = effective (effect_type (rule_of s x)) b; acts = λ z. cc })
  ]
]
  where
    effective : (t : EffectType) → is_tone t ≡ true → is_appending t ≡ false
    effective t h = ground arith

module _ (u : Unicode) (s : Store) (w : IsWellFormed s) where
  move_tone-Makes :
      (tone : TransRef) (o : Option TransRef)
      → IsLastTone s tone
      → RootOrNone s o
      → Makes s (move_tone s tone o) []
  unfolding move_tone raw_keys
  move_tone-Makes tone o l r =
      push_virtual-Makes first (with_key 0 (rule_of s tone)) o false second
        (Allowed-RootOrNone (with_key 0 (rule_of s tone)) o second.extends r l.tone) refl
    where
      moved : Store
      moved = set_target s tone o

      grown : Extends s moved
      grown = set_target-Extends s tone o l.acts

      start : Makes s (moved, []) []
      start = record {
        extends = grown;
        well_formed =
            set_target-IsWellFormed s tone o w l.acts l.live
              (Allowed-RootOrNone (rule_of s tone) o (Extends-refl s) r l.tone);
        live = tt;
        keys = refl;
      }

      first : Store × Composition
      first = push (moved, []) (virtual_tone 0) o false

      second : Makes s first []
      second =
          push_virtual-Makes (moved, []) (virtual_tone 0) o false start
            (Allowed-RootOrNone (virtual_tone 0) o grown r refl) refl

  refresh-Makes :
      (comp : Composition) (std : Bool) (o : Option TransRef)
      → All (IsLive s) comp
      → ((t : TransRef) → o ≡ some t → IsLastTone s t)
      → Makes s
          (elim o [
            | none ↦ (s, [])
            | some tone ↦
                let target = find_tone_target u s comp std in
                if differs (target_of s tone) target then move_tone s tone target else (s, [])
          ])
          []
  refresh-Makes comp std none h g = Makes-nothing w
  refresh-Makes comp std (some t) h g =
      if-elim (λ made. Makes s made []) _ _ (s, [])
        (λ _. move_tone-Makes t _ (g t refl) (find_tone_target-RootOrNone s w u comp std h))
        (λ _. Makes-nothing w)

  -- In a well-formed store with the composition in it, the refresh of the tone keeps the store
  -- well formed, although it redirects a transformation in place, keeps the rules of the cells,
  -- and adds only transformations without a key.
  pub refresh_last_tone_target-Makes :
      (comp : Composition) (std : Bool)
      → All (IsLive s) comp
      → Makes s (refresh_last_tone_target u s comp std) []
  unfolding refresh_last_tone_target get_last_tone_transformation
  refresh_last_tone_target-Makes comp std h =
      if-elim (λ made. Makes s made []) (is_empty (get_right_most_vowels s comp)) (s, []) _
        (λ _. Makes-nothing w)
        (λ _.
          refresh-Makes comp std _ h
            (λ t e. first_tone-IsLastTone s (reverse comp) (All-reverse (IsLive s) comp h) e))
