-- ===== src/Transform/Split.antt =====
-- The splits of transform_utils.rs lose and reorder nothing: the parts put together are the
-- composition.
use pinakey.Base.{
  ℕ, zero, suc, ◌+◌, ◌-◌, ◌==◌, if◌then◌else◌, Bool, not, ◌&&◌, List, [], ◌∷◌, ◌++◌, reverse,
  length, take, drop, take-append-drop, append_assoc, append-nil, Text, ◌≡◌, refl, ap, ◌∙◌, if-elim,
}
use mathlib.Core.List.{reverse-cons, reverse-reverse}
use pinakey.Chars.{Unicode, is_alpha, is_space, in_key_list}
use pinakey.Flattener.{get_canvas}
use pinakey.Rules.Mode
use pinakey.Rules.Store.{Store}
use pinakey.Transform.Extract.{
  Composition, extract_atomic_loop, extract_atomic_trans, cut_from, breaks_at, extract_last_word,
  extract_last_word_with_punctuation_marks,
}
use pinakey.Transform.Validity.{extract_last_syllable, find_anchor}

-- The two parts make up `comp`.
pub record Splits (comp : Composition) (cut : Composition × Composition) : Type 0 where
  pub whole : cut.0 ++ cut.1 ≡ comp

cut_from-Splits :
    (canvas : Composition → Text) (breaks : ℕ → Bool) (comp : Composition) (n : ℕ)
    → Splits comp (cut_from canvas breaks comp n)
unfolding cut_from
cut_from-Splits canvas breaks comp zero = record { whole = refl }
cut_from-Splits canvas breaks comp (suc i) =
    let cut : Composition × Composition =
      if i == length comp - 1 then (comp, []) else (take (i + 1) comp, drop (i + 1) comp) in
    if-elim (Splits comp) (breaks_at breaks (canvas (drop i comp))) cut
      (cut_from canvas breaks comp i)
      (λ _.
        if-elim (Splits comp) (i == length comp - 1) (comp, [])
          (take (i + 1) comp, drop (i + 1) comp) (λ _. record { whole = append-nil comp })
          (λ _. record { whole = take-append-drop (i + 1) comp }))
      (λ _. cut_from-Splits canvas breaks comp i)

extract_atomic_loop-Splits :
    (s : Store) (v : Bool) (comp last : Composition)
    → Splits (reverse comp ++ last) (extract_atomic_loop s v comp last)
unfolding extract_atomic_loop
extract_atomic_loop-Splits s v [] last = record { whole = refl }
extract_atomic_loop-Splits s v (t ∷ rest) last =
    if-elim (Splits (reverse (t ∷ rest) ++ last)) _ (reverse (t ∷ rest), last)
      (extract_atomic_loop s v rest (t ∷ last)) (λ _. record { whole = refl })
      (λ _. record { whole = (extract_atomic_loop-Splits s v rest (t ∷ last)).whole ∙ moved })
  where
    moved : reverse rest ++ (t ∷ last) ≡ reverse (t ∷ rest) ++ last
    moved = simp (reverse-cons, append_assoc)

extract_atomic_trans-Splits :
    (s : Store) (comp : Composition) (v : Bool) → Splits comp (extract_atomic_trans s comp [] v)
unfolding extract_atomic_trans
extract_atomic_trans-Splits s comp v = record {
  whole =
      (extract_atomic_loop-Splits s v (reverse comp) []).whole
      ∙ (append-nil (reverse (reverse comp)) ∙ reverse-reverse comp);
}

module _ (u : Unicode) (s : Store) (comp : Composition) where
  -- The two parts that `extract_last_word` answers, put together, are the composition, for every
  -- list of effect keys.
  pub extract_last_word-Splits : (keys : List ℕ) → Splits comp (extract_last_word u s comp keys)
  unfolding extract_last_word
  extract_last_word-Splits keys =
      cut_from-Splits (λ c. get_canvas u s c 29) (λ c. not (is_alpha c) && not (in_key_list keys c))
        comp (length comp)

  -- So does `extract_last_word_with_punctuation_marks`.
  pub extract_last_word_with_punctuation_marks-Splits :
      (keys : List ℕ) → Splits comp (extract_last_word_with_punctuation_marks u s comp keys)
  unfolding extract_last_word_with_punctuation_marks
  extract_last_word_with_punctuation_marks-Splits keys =
      cut_from-Splits (λ c. get_canvas u s c Mode.english) is_space comp (length comp)

  -- The two parts that `extract_last_syllable` answers, put together, are the composition.
  pub extract_last_syllable-Splits : Splits comp (extract_last_syllable u s comp)
  unfolding extract_last_syllable
  extract_last_syllable-Splits = record {
    whole =
        append_assoc _ (take anchor word.1) (drop anchor word.1)
        ∙ (ap (word.0 ++◌) (take-append-drop anchor word.1) ∙ (extract_last_word-Splits []).whole);
  }
    where
      word : Composition × Composition
      word = extract_last_word u s comp []

      anchor : ℕ
      anchor = find_anchor u s word.1 (length word.1) 0 0
