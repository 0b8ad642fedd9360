-- ===== src/Chars/Tables.antt =====
-- Statements about every character from a check of the table of letters: utils.rs leaves all others
-- alone.
use pinakey.Base.{
  ℕ, zero, suc, ◌<◌, ◌==◌, ==_iff, Bool, true, false, ◌&&◌, none, List, [], ◌∷◌, ◌++◌, codes, elem,
  ◌≡◌, ◌⊎◌, inl, inr, refl, arith, Bool-cases,
}
use pinakey.Chars.{vowels, marks_map, position, find_vowel_position, is_vowel}

-- The letters that carry a tone or a mark.
abbrev pub letters : List ℕ
letters = vowels ++ codes "dđ"

unfoldable pub all_of : (ℕ → Bool) → List ℕ → Bool
all_of p [] = true
all_of p (x ∷ xs) = p x && all_of p xs

-- Every value of a small index passes the test.
unfoldable pub each_upto : (ℕ → Bool) → ℕ → Bool
each_upto test zero = true
each_upto test (suc top) = each_upto test top && test top

pub each_upto-holds :
    (test : ℕ → Bool) (top i : ℕ) → i < top → each_upto test top ≡ true → test i ≡ true
unfolding each_upto
each_upto-holds test zero i below h = absurd (omega (arith, below))
each_upto-holds test (suc top) i below h = ground (arith, each_upto-holds test top i)

all_of_sound :
    (p : ℕ → Bool) (c : ℕ) (xs : List ℕ) → all_of p xs ≡ true → elem c xs ≡ true → p c ≡ true
unfolding all_of elem
all_of_sound p c [] h e = cc
all_of_sound p c (x ∷ xs) h e = elim (Bool-cases (x == c)) [
  | inl q ↦ let f : x ≡ c = (==_iff x c).0 q in rw (← f) (ground arith)
  | inr q ↦ ground (arith, all_of_sound p c xs)
]

elem-subset :
    (c : ℕ) (ys xs : List ℕ)
    → all_of (λ y. elem y xs) ys ≡ true
    → elem c xs ≡ false
    → elem c ys ≡ false
unfolding all_of elem
elem-subset c [] xs h e = refl
elem-subset c (y ∷ ys) xs h e = elim (Bool-cases (y == c)) [
  | inl q ↦ let f : y ≡ c = (==_iff y c).0 q in let g = rw f at h in ground arith
  | inr q ↦ ground (arith, elem-subset c ys xs)
]

position-none : (c : ℕ) (xs : List ℕ) → elem c xs ≡ false → position c xs ≡ none
unfolding position elem
position-none c [] h = refl
position-none c (x ∷ xs) h = ground (arith, position-none c xs)

-- No letter: no place in the table of vowels, no family of marks.
pub record IsPlain (c : ℕ) : Type 0 where
  pub no_position : find_vowel_position c ≡ none
  pub no_vowel : is_vowel c ≡ false
  pub no_marks : marks_map c ≡ none

IsPlain-of : (c : ℕ) → elem c letters ≡ false → IsPlain c
unfolding find_vowel_position is_vowel marks_map all_of
IsPlain-of c h = record {
  no_position = position-none c vowels (elem-subset c vowels letters refl h);
  no_vowel = elem-subset c vowels letters refl h;
  no_marks = ground (
    arith,
    elem-subset c (codes "aâă") letters refl h,
    elem-subset c (codes "eê") letters refl h,
    elem-subset c (codes "oôơ") letters refl h,
    elem-subset c (codes "uư") letters refl h,
    elem-subset c (codes "dđ") letters refl h,
  );
}

-- A test of all letters, and what is known of the rest.
pub letter_cases : (p : ℕ → Bool) (c : ℕ) → all_of p letters ≡ true → (p c ≡ true) ⊎ IsPlain c
letter_cases p c h = elim (Bool-cases (elem c letters)) [
  | inl q ↦ inl (all_of_sound p c letters h q)
  | inr q ↦ inr (IsPlain-of c q)
]
