-- ===== src/Spelling/Lookup.antt =====
-- `lookup` of spelling.rs: which rows of a table it returns.
use pinakey.Base.{
  ℕ, zero, suc, ◌+◌, ◌<◌, ◌==◌, if◌then◌else◌, Bool, true, false, none, some, List, [], ◌∷◌,
  get_elem?, elem, ◌||◌, ◌++◌, append-nil, append_assoc, text_eq, Text, ◌≡◌, refl, arith,
  Bool-cases, Option-cases, length, ap, ◌∙◌, inl, inr,
}
use mathlib.Core.Path.{subst}
use pinakey.Spelling.{row_matches, canvas_matches, chars_match, char_matches, lookup_from, lookup}

-- The test of row `i`, where there is one.
abbrev pub row_at : List Text → ℕ → (Text → Bool) → Bool
row_at seq i test = elim (get_elem? seq i) [ none ↦ false | some row ↦ test row ]

module _ (input : Text) (full complete : Bool) where
  lookup_from-skips :
      (seq : List Text) (index i : ℕ)
      → i < index
      → elem i (lookup_from index seq input full complete) ≡ false
  unfolding elem lookup_from
  lookup_from-skips [] index i h = refl
  lookup_from-skips (row ∷ seq) index i h = ground (arith, lookup_from-skips seq (suc index) i)

  elem-lookup_from :
      (seq : List Text) (index i : ℕ)
      → elem (index + i) (lookup_from index seq input full complete)
        ≡ row_at seq i (row_matches full complete input [])
  unfolding elem lookup_from
  elem-lookup_from [] index i = refl
  elem-lookup_from (row ∷ seq) index zero =
      ground (arith, lookup_from-skips seq (suc index) (index + zero))
  elem-lookup_from (row ∷ seq) index (suc i) = ground (arith, elem-lookup_from seq (suc index) i)

  -- `lookup` returns exactly the indices of the rows of the table that match the input.
  pub elem-lookup :
      (seq : List Text) (i : ℕ)
      → elem i (lookup seq input full complete) ≡ row_at seq i (row_matches full complete input [])
  unfolding lookup
  elem-lookup seq i =
      let e : 0 + i ≡ i = omega arith in
      subst
        (λ n.
          elem n (lookup_from 0 seq input full complete)
          ≡ row_at seq i (row_matches full complete input []))
        e (elem-lookup_from seq 0 i)

-- The first word of a row, and the words behind it; words end at spaces.
abbrev pub cut_words : Text → Text × List Text
cut_words [] = ([], [])
cut_words (c ∷ row) =
    let (word, others) = cut_words row in
    if c == b' ' then ([], word ∷ others) else (c ∷ word, others)

abbrev pub some_word : (Text → Bool) → Text × List Text → Bool
some_word test (word, []) = test word
some_word test (word, next ∷ others) = test word || some_word test (next, others)

module _ (input : Text) where
  row_matches-some_word :
      (full complete : Bool) (canvas row : Text)
      → row_matches full complete input canvas row
        ≡ some_word
            (canvas_matches full complete input)
            (canvas ++ (cut_words row).0, (cut_words row).1)
  unfolding row_matches
  row_matches-some_word full complete canvas [] = rw (append-nil canvas) refl
  row_matches-some_word full complete canvas (c ∷ row) = elim (Bool-cases (c == b' ')) [
    | inl q ↦
        rw (q, row_matches, append-nil canvas)
          (ap (canvas_matches full complete input canvas ||◌)
            (row_matches-some_word full complete [] row))
    | inr q ↦
        rw (q, row_matches)
          (row_matches-some_word full complete (canvas ++ c ∷ []) row
            ∙ ap (λ w. some_word (canvas_matches full complete input) (w, (cut_words row).1))
                (append_assoc canvas (c ∷ []) (cut_words row).0))
  ]

chars_match-text_eq :
    (input canvas : Text)
    → length input ≡ length canvas
    → chars_match true input canvas ≡ text_eq input canvas
unfolding chars_match char_matches text_eq
chars_match-text_eq [] [] h = refl
chars_match-text_eq [] (c ∷ canvas) h = absurd (omega (arith, h))
chars_match-text_eq (i ∷ input) [] h = absurd (omega (arith, h))
chars_match-text_eq (i ∷ input) (c ∷ canvas) h =
    let rest = chars_match-text_eq input canvas (omega (arith, h)) in ground arith

text_eq-length : (s t : Text) → text_eq s t ≡ true → length s ≡ length t
unfolding text_eq
text_eq-length [] [] h = refl
text_eq-length [] (b ∷ t) h = cc
text_eq-length (a ∷ s) [] h = cc
text_eq-length (a ∷ s) (b ∷ t) h = ground (arith, text_eq-length s t)

canvas_matches-text_eq :
    (input canvas : Text) → canvas_matches true true input canvas ≡ text_eq input canvas
unfolding canvas_matches
canvas_matches-text_eq input canvas =
    ground (arith, chars_match-text_eq input canvas, text_eq-length input canvas)

some_word-same :
    (p q : Text → Bool)
    → ((w : Text) → p w ≡ q w)
    → (word : Text) (others : List Text) → some_word p (word, others) ≡ some_word q (word, others)
some_word-same p q same word [] = same word
some_word-same p q same word (next ∷ others) = rw (same word, some_word-same p q same next others)

row_at-same :
    (p q : Text → Bool)
    → ((w : Text) → p w ≡ q w)
    → (seq : List Text) (i : ℕ) → row_at seq i p ≡ row_at seq i q
row_at-same p q same seq i = elim (Option-cases (get_elem? seq i)) [
  | inl e ↦ rw (e, row_at)
  | inr (row, e) ↦ rw (e, row_at) (same row)
]

-- On a complete input, `lookup` returns exactly the indices of the rows that have the input among their
-- words, letter for letter, where the words of a row are what stands between its spaces.
pub elem-lookup_complete :
    (input : Text) (seq : List Text) (i : ℕ)
    → elem i (lookup seq input true true)
      ≡ row_at seq i (λ row. some_word (text_eq input) (cut_words row))
elem-lookup_complete input seq i =
    elem-lookup input true true seq i
    ∙ row_at-same _ _
        (λ row.
          row_matches-some_word input true true [] row
          ∙ some_word-same _ _ (canvas_matches-text_eq input) (cut_words row).0 (cut_words row).1)
        seq i
