-- ===== src/Spelling/Partial.antt =====
-- `is_valid_cvc` of spelling.rs: a complete syllable and one that is still being typed.
use pinakey.Base.{
  ℕ, suc, ◌==◌, if◌then◌else◌, Bool, true, false, not, ◌&&◌, List, [], ◌∷◌, ◌++◌, is_empty, get_or,
  Text, ◌≡◌, refl, arith,
}
use pinakey.Spelling.{
  char_matches, chars_match, canvas_matches, row_matches, lookup_from, lookup, any_in, meets,
  cv_matrix, vc_matrix, is_valid_cv, is_valid_vc, rows_fit, is_valid_cvc, first_consonant_seqs,
  vowel_seqs, last_consonant_seqs,
}

-- A test that passes wherever another does.
Implies : Bool → Bool → Type 0
Implies a b = a ≡ true → b ≡ true

-- Every test that passes somewhere on `xs` passes somewhere on `ys`.
Within : List ℕ → List ℕ → Type 0
Within xs ys = (p : ℕ → Bool) → Implies (any_in p xs) (any_in p ys)

module _ (f f' c c' : Bool) (full : Implies f' f) (complete : Implies c' c) (input : Text) where
  chars_match-weaker :
      (input canvas : Text) → Implies (chars_match c input canvas) (chars_match c' input canvas)
  unfolding Implies chars_match char_matches
  chars_match-weaker [] canvas h = refl
  chars_match-weaker (ic ∷ input) [] h = h
  chars_match-weaker (ic ∷ input) (tc ∷ canvas) h =
      ground (arith, chars_match-weaker input canvas, complete)

  canvas_matches-weaker :
      (canvas : Text)
      → Implies (canvas_matches f c input canvas) (canvas_matches f' c' input canvas)
  unfolding Implies canvas_matches
  canvas_matches-weaker canvas h = ground (arith, chars_match-weaker input canvas, full)

  row_matches-weaker :
      (canvas row : Text)
      → Implies (row_matches f c input canvas row) (row_matches f' c' input canvas row)
  unfolding Implies row_matches
  row_matches-weaker canvas [] h = canvas_matches-weaker canvas h
  row_matches-weaker canvas (k ∷ row) h = ground (
    arith,
    canvas_matches-weaker canvas,
    row_matches-weaker [] row,
    row_matches-weaker (canvas ++ k ∷ []) row,
  )

  lookup_from-Within :
      (index : ℕ) (seq : List Text)
      → Within (lookup_from index seq input f c) (lookup_from index seq input f' c')
  unfolding Implies Within lookup_from
  lookup_from-Within index [] p h = h
  lookup_from-Within index (row ∷ seq) p h =
      ground (arith, row_matches-weaker [] row, lookup_from-Within (suc index) seq p)

any_in-weaker :
    (p q : ℕ → Bool)
    → ((n : ℕ) → Implies (p n) (q n))
    → (xs : List ℕ) → Implies (any_in p xs) (any_in q xs)
unfolding Implies
any_in-weaker p q w [] h = h
any_in-weaker p q w (x ∷ xs) h = ground (arith, w x, any_in-weaker p q w xs)

meets-weaker : (cs ys zs : List ℕ) → Within ys zs → Implies (meets cs ys) (meets cs zs)
unfolding Within
meets-weaker cs ys zs w = any_in-weaker _ _ (λ x. w (λ y. x == y)) cs

is_valid_cv-weaker :
    (fcs fcs' vos vos' : List ℕ)
    → Within fcs fcs'
    → Within vos vos'
    → Implies (is_valid_cv fcs vos) (is_valid_cv fcs' vos')
unfolding Implies Within is_valid_cv
is_valid_cv-weaker fcs fcs' vos vos' w v h =
    w _ (any_in-weaker _ _ (λ fc. meets-weaker (get_or cv_matrix fc []) vos vos' v) fcs h)

is_valid_vc-weaker :
    (vos vos' lcs lcs' : List ℕ)
    → Within vos vos'
    → Within lcs lcs'
    → Implies (is_valid_vc vos lcs) (is_valid_vc vos' lcs')
unfolding Implies Within is_valid_vc
is_valid_vc-weaker vos vos' lcs lcs' w v h =
    w _ (any_in-weaker _ _ (λ vo. meets-weaker (get_or vc_matrix vo []) lcs lcs' v) vos h)

Within-is_empty : (xs ys : List ℕ) → Within xs ys → is_empty ys ≡ true → is_empty xs ≡ true
unfolding Within Implies
Within-is_empty [] ys w h = refl
Within-is_empty (x ∷ xs) [] w h = let c : false ≡ true = w (λ _. true) refl in cc
Within-is_empty (x ∷ xs) (y ∷ ys) w h = h

-- The rows found for a part of the syllable, when it is complete and when it is not.
record FoundRows (absent : Bool) (xs ys : List ℕ) : Type 0 where
  within : Within xs ys
  absent_both : absent ≡ true → (is_empty xs ≡ true) × (is_empty ys ≡ true)

looked_up : Bool → List Text → Text → Bool → Bool → List ℕ
looked_up absent seq input f c = if absent then [] else lookup seq input f c

looked_up-FoundRows :
    (absent : Bool) (seq : List Text) (input : Text) (f f' c c' : Bool)
    → Implies f' f
    → Implies c' c
    → FoundRows absent (looked_up absent seq input f c) (looked_up absent seq input f' c')
unfolding looked_up lookup Within Implies
looked_up-FoundRows true seq input f f' c c' full complete = record {
  within = λ p h. h;
  absent_both = λ h. (refl, refl);
}
looked_up-FoundRows false seq input f f' c c' full complete = record {
  within = lookup_from-Within f f' c c' full complete input 0 seq;
  absent_both = λ h. cc;
}

-- The end of `is_valid_cvc`, after the lookups.
after_lookup : Bool → Bool → Bool → List ℕ → List ℕ → List ℕ → Bool
after_lookup no_fc no_vo no_lc fcs vos lcs =
    if not no_fc && is_empty fcs
    then false
    else if not no_vo && is_empty vos
    then false
    else if not no_lc && is_empty lcs
    then false
    else rows_fit fcs vos lcs

after_lookup-weaker :
    (no_fc no_vo no_lc : Bool) {fcs fcs' vos vos' lcs lcs' : List ℕ}
    → FoundRows no_fc fcs fcs'
    → FoundRows no_vo vos vos'
    → FoundRows no_lc lcs lcs'
    → Implies
        (after_lookup no_fc no_vo no_lc fcs vos lcs)
        (after_lookup no_fc no_vo no_lc fcs' vos' lcs')
unfolding Implies after_lookup rows_fit
after_lookup-weaker no_fc no_vo no_lc {fcs} {fcs'} {vos} {vos'} {lcs} {lcs'} f v l h = ground (
  arith,
  f.absent_both,
  v.absent_both,
  l.absent_both,
  Within-is_empty fcs fcs' f.within,
  Within-is_empty vos vos' v.within,
  Within-is_empty lcs lcs' l.within,
  is_valid_cv-weaker fcs fcs' vos vos' f.within v.within,
  is_valid_vc-weaker vos vos' lcs lcs' v.within l.within,
)

-- Parts of a syllable that are valid as a complete syllable are valid as one that is still being
-- typed.
pub is_valid_cvc-partial :
    (fc vo lc : Text) → is_valid_cvc fc vo lc true ≡ true → is_valid_cvc fc vo lc false ≡ true
unfolding is_valid_cvc after_lookup looked_up Implies
is_valid_cvc-partial fc vo lc h =
    after_lookup-weaker (is_empty fc) (is_empty vo) (is_empty lc)
      (looked_up-FoundRows (is_empty fc) first_consonant_seqs fc true (not (is_empty vo)) true true
        (λ _. refl) (λ h. h))
      (looked_up-FoundRows (is_empty vo) vowel_seqs vo true (not (is_empty lc)) true false
        (λ _. refl) (λ _. refl))
      (looked_up-FoundRows (is_empty lc) last_consonant_seqs lc true false true true (λ _. refl)
        (λ h. h))
      h
