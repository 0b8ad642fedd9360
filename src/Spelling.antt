-- ===== src/Spelling.antt =====
-- crates/pinakey-core/src/spelling.rs: the check of a syllable's first consonant, vowels and last
-- consonant against tables of sequences and two compatibility matrices.
pub mod Lookup
pub mod Partial
use pinakey.Base.{
  ℕ, zero, suc, ◌+◌, ◌==◌, ltb, if◌then◌else◌, Bool, true, false, not, ◌&&◌, ◌||◌, List, [], ◌∷◌,
  ◌++◌, codes, length, get_or, is_empty, Text,
}
use pinakey.Chars.{add_mark_to_toneless_char}

abbrev pub first_consonant_seqs : List Text
first_consonant_seqs =
    codes "b d đ g gh m n nh p ph r s t tr v z"
    ∷ codes "c h k kh qu th"
    ∷ codes "ch gi l ng ngh x"
    ∷ codes "đ l"
    ∷ codes "h"
    ∷ []

abbrev pub vowel_seqs : List Text
vowel_seqs =
    codes "ê i ua uê uy y"
    ∷ codes "a iê oa uyê yê"
    ∷ codes "â ă e o oo ô ơ oe u ư uâ uô ươ"
    ∷ codes "oă"
    ∷ codes "uơ"
    ∷ codes
        "ai ao au âu ay ây eo êu ia iêu iu oai oao oay oeo oi ôi ơi ưa uây ui ưi uôi ươi ươu ưu uya uyu yêu"
    ∷ codes "ă"
    ∷ codes "i"
    ∷ []

abbrev pub last_consonant_seqs : List Text
last_consonant_seqs = codes "ch nh" ∷ codes "c ng" ∷ codes "m n p t" ∷ codes "k" ∷ codes "c" ∷ []

abbrev pub cv_matrix : List (List ℕ)
cv_matrix =
    (0 ∷ 1 ∷ 2 ∷ 5 ∷ [])
    ∷ (0 ∷ 1 ∷ 2 ∷ 3 ∷ 4 ∷ 5 ∷ [])
    ∷ (0 ∷ 1 ∷ 2 ∷ 3 ∷ 5 ∷ [])
    ∷ (6 ∷ [])
    ∷ (7 ∷ [])
    ∷ []

abbrev pub vc_matrix : List (List ℕ)
vc_matrix =
    (0 ∷ 2 ∷ [])
    ∷ (0 ∷ 1 ∷ 2 ∷ [])
    ∷ (1 ∷ 2 ∷ [])
    ∷ (1 ∷ 2 ∷ [])
    ∷ []
    ∷ []
    ∷ (3 ∷ [])
    ∷ (4 ∷ [])
    ∷ []

-- The test of one character of the input, `ic`, against one of the table, `tc`.
unfoldable pub char_matches : Bool → ℕ → ℕ → Bool
char_matches complete ic tc = (ic == tc) || (not complete && (add_mark_to_toneless_char tc 0 == ic))

-- The loop over the input's characters, once the lengths were compared.
unfoldable pub chars_match : Bool → Text → Text → Bool
unfolding char_matches
chars_match complete [] canvas = true
chars_match complete (ic ∷ input) [] = false
chars_match complete (ic ∷ input) (tc ∷ canvas) =
    char_matches complete ic tc && chars_match complete input canvas

-- One sequence of a row against the input.
unfoldable pub canvas_matches : Bool → Bool → Text → Text → Bool
unfolding chars_match
canvas_matches full complete input canvas =
    if ltb (length canvas) (length input) || (full && ltb (length input) (length canvas))
    then false
    else chars_match complete input canvas

-- The loop over a row: `canvas` collects the characters since the last space, and the end of the
-- row counts as a space.
unfoldable pub row_matches : Bool → Bool → Text → Text → Text → Bool
unfolding canvas_matches
row_matches full complete input canvas [] = canvas_matches full complete input canvas
row_matches full complete input canvas (c ∷ row) = elim (c == b' ') [
  | true ↦ canvas_matches full complete input canvas || row_matches full complete input [] row
  | false ↦ row_matches full complete input (canvas ++ c ∷ []) row
]

-- The loop over the rows, from `index` on: the indices of the rows with a match.
unfoldable pub lookup_from : ℕ → List Text → Text → Bool → Bool → List ℕ
unfolding row_matches
lookup_from index [] input full complete = []
lookup_from index (row ∷ seq) input full complete =
    let rest = lookup_from (suc index) seq input full complete in
    if row_matches full complete input [] row then index ∷ rest else rest

unfoldable pub lookup : List Text → Text → Bool → Bool → List ℕ
unfolding lookup_from
lookup seq input full complete = lookup_from 0 seq input full complete

abbrev pub any_in : (ℕ → Bool) → List ℕ → Bool
any_in p [] = false
any_in p (x ∷ xs) = p x || any_in p xs

-- The two inner loops of `is_valid_cv` and `is_valid_vc`: a number of both lists.
abbrev pub meets : List ℕ → List ℕ → Bool
meets xs ys = any_in (λ x. any_in (λ y. x == y) ys) xs

unfoldable pub is_valid_cv : List ℕ → List ℕ → Bool
is_valid_cv fcs vos = any_in (λ fc. meets (get_or cv_matrix fc []) vos) fcs

unfoldable pub is_valid_vc : List ℕ → List ℕ → Bool
is_valid_vc vos lcs = any_in (λ vo. meets (get_or vc_matrix vo []) lcs) vos

-- What follows the three table lookups, on the rows found.
unfoldable pub rows_fit : List ℕ → List ℕ → List ℕ → Bool
unfolding is_valid_cv is_valid_vc
rows_fit fcs vos lcs =
    if is_empty vos
    then not (is_empty fcs)
    else let cv = is_valid_cv fcs vos in
      if not (is_empty fcs) && (not cv || is_empty lcs)
      then cv
      else if not (is_empty lcs)
      then is_valid_vc vos lcs
      else true

-- The three lookups with their early returns.
unfoldable pub is_valid_cvc : Text → Text → Text → Bool → Bool
unfolding lookup rows_fit
is_valid_cvc fc vo lc full =
    let fcs =
      if is_empty fc then [] else lookup first_consonant_seqs fc (full || not (is_empty vo)) true in
    let vos = if is_empty vo then [] else lookup vowel_seqs vo (full || not (is_empty lc)) full in
    let lcs = if is_empty lc then [] else lookup last_consonant_seqs lc full true in
    if not (is_empty fc) && is_empty fcs
    then false
    else if not (is_empty vo) && is_empty vos
    then false
    else if not (is_empty lc) && is_empty lcs
    then false
    else rows_fit fcs vos lcs
