-- ===== src/Engine/Panic.antt =====
-- The panic on `vowels[0]` in `generate_transformations` of transform_utils.rs, and what reaches it from
-- `process_key` of engine.rs. The panic of `add_tone_to_char` on a tone above 5 is not in the model;
-- rules that are read from definitions have no such tone (InputMethod.Tones).
use pinakey.Base.{
  ℕ, has_flag, Bool, true, false, not, ◌||◌, ◌&&◌, if◌then◌else◌, Option, none, some, List, [], ◌∷◌,
  is_empty, ◌≡◌, ◌↔◌, refl, arith, Bool-cases, Option-cases, inl, inr,
}
use pinakey.Rules.{Rule, TransRef}
use pinakey.Rules.Mode
use pinakey.Rules.Store.{Store}
use pinakey.Chars.{Unicode, to_lower, is_upper}
use pinakey.Flattener.{flatten}
use pinakey.InputMethod.{InputMethod}
use pinakey.Transform.Extract.{Composition, filter_appending_composition, get_right_most_vowels}
use pinakey.Transform.Target.{find_target}
use pinakey.Transform.Validity.{extract_last_syllable}
use pinakey.Transform.Generate
use pinakey.Transform.Generate.{
  Regexes, undoes_last, without_target, shift_horn, undo_or_nothing, generate_transformations,
}
use pinakey.Engine.{
  PinaKeyEngine, can_process_key, get_applicable_rules, engine_generate_transformations,
  new_composition, process_key,
}

branch-none :
    (uh : Bool) (vowels : Composition) (shifted : TransRef → Option (Store × Composition))
    (kept : Store × Composition)
    → ((if uh
          then elim vowels [
            | [] ↦ none
            | v ∷ _ ↦ elim (shifted v) [ some made ↦ some made | none ↦ some kept ]
          ]
          else some kept)
        ≡ none)
      ↔ ((uh && is_empty vowels) ≡ true)
branch-none false vowels shifted kept = ((λ h. cc), (λ h. cc))
branch-none true [] shifted kept = ((λ h. refl), (λ h. refl))
branch-none true (v ∷ vs) shifted kept = ((λ h. ground arith), (λ h. cc))

module _ (u : Unicode) (re : Regexes) where
  -- The slice is indexed, and is empty: the syllable shows a horned `uo` and has no vowel of its own.
  abbrev pub lacks_vowel : Store → Composition → Bool
  lacks_vowel s comp =
      re.uh_o (flatten u s comp 21)
      && is_empty (filter_appending_composition s (get_right_most_vowels s comp))

  -- What has to hold when `vowels[0]` panics.
  record Panics (s : Store) (comp : Composition) (rules : List Rule) (flags k : ℕ) : Type 0 where
    fresh : undoes_last s comp k ≡ none
    no_target : (find_target u s comp rules flags).0 ≡ none
    no_vowel : lacks_vowel s comp ≡ true

  module _ (s : Store) (comp : Composition) (rules : List Rule) (flags k : ℕ) (up : Bool) where
    without_target-none :
        (without_target u re s comp rules flags k up ≡ none) ↔ (lacks_vowel s comp ≡ true)
    unfolding without_target
    without_target-none =
        branch-none (re.uh_o (flatten u s comp 21))
          (filter_appending_composition s (get_right_most_vowels s comp))
          (shift_horn u s comp rules flags up) (undo_or_nothing u s comp rules flags k up)

    -- `none` is answered exactly if the key undoes nothing, no rule has a target, the syllable shows a
    -- horned `uo`, and it has no vowel of its own.
    generate_transformations-none :
        (generate_transformations u re s comp rules flags k up ≡ none) ↔ Panics s comp rules flags k
    unfolding generate_transformations
    generate_transformations-none = (
      (λ h. elim (Option-cases (undoes_last s comp k)) [
        | inr (t, q) ↦ let c : some _ ≡ none = rw (q, generate_transformations) at h in cc
        | inl q ↦ elim (Option-cases (find_target u s comp rules flags).0) [
          | inr (t, p) ↦ let c : some _ ≡ none = rw (q, p, generate_transformations) at h in cc
          | inl p ↦ record {
            fresh = q;
            no_target = p;
            no_vowel = without_target-none.0 (rw (q, p, generate_transformations) at h);
          }
        ]
      ]),
      (λ p. rw (p.fresh, p.no_target, generate_transformations) (without_target-none.1 p.no_vowel)),
    )

  engine_generate-none :
      (im : InputMethod) (flags : ℕ) (s : Store) (comp : Composition) (k : ℕ) (up : Bool)
      → engine_generate_transformations u re im flags s comp k up ≡ none
      → lacks_vowel s comp ≡ true
  unfolding engine_generate_transformations
  engine_generate-none im flags s comp k up h =
      elim (Option-cases
        (Generate.generate_transformations u re s comp (get_applicable_rules u im k) flags k up)) [
          | inl q ↦
              ((generate_transformations-none s comp (get_applicable_rules u im k) flags k up).0
                q).no_vowel
          | inr (made, q) ↦
              let c : some _ ≡ none = rw (q, engine_generate_transformations) at h in cc
        ]

  new_composition-none :
      (im : InputMethod) (flags : ℕ) (s : Store) (comp : Composition) (k : ℕ) (up : Bool)
      → new_composition u re im flags s comp k up ≡ none
      → lacks_vowel s (extract_last_syllable u s comp).1 ≡ true
  unfolding new_composition
  new_composition-none im flags s comp k up h =
      elim (Option-cases
        (engine_generate_transformations u re im flags s (extract_last_syllable u s comp).1 k up)) [
          | inl q ↦ engine_generate-none im flags s (extract_last_syllable u s comp).1 k up q
          | inr (made, q) ↦ let c : some _ ≡ none = rw (q, new_composition) at h in cc
        ]

  process_key-none :
      (e : PinaKeyEngine) (k m : ℕ)
      → process_key u re e k m ≡ none
      → lacks_vowel e.store (extract_last_syllable u e.store e.composition).1 ≡ true
  unfolding process_key
  process_key-none e k m h =
      elim (Bool-cases (has_flag m Mode.english || not (can_process_key e (to_lower u k)))) [
        | inl b ↦ let c : some _ ≡ none = rw (b, process_key) at h in cc
        | inr b ↦
            elim (Option-cases (
              new_composition u re e.input_method e.flags e.store e.composition (to_lower u k)
                (is_upper u k))) [
                  | inl q ↦
                      new_composition-none e.input_method e.flags e.store e.composition
                        (to_lower u k) (is_upper u k) q
                  | inr (made, q) ↦ let c : some _ ≡ none = rw (b, q, process_key) at h in cc
                ]
      ]

  -- A key press does not end in the panic on `vowels[0]` unless the last syllable shows a horned `uo` and has no vowel of its own.
  pub process_key-returns :
      (e : PinaKeyEngine) (k m : ℕ)
      → lacks_vowel e.store (extract_last_syllable u e.store e.composition).1 ≡ false
      → (e' : PinaKeyEngine) × (process_key u re e k m ≡ some e')
  process_key-returns e k m h = elim (Option-cases (process_key u re e k m)) [
    | inl q ↦ let c = process_key-none e k m q in cc
    | inr returned ↦ returned
  ]
