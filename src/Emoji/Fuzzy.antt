-- ===== src/Emoji/Fuzzy.antt =====
-- crates/pinakey-emoji/src/fuzzy.rs: the score of a query against a key.
use pinakey.Base.{
  ℕ, zero, suc, ◌+◌, ◌==◌, if◌then◌else◌, Bool, true, false, ◌||◌, Option, none, some, [], ◌∷◌,
  ◌++◌, length, Text, ◌≡◌, ◌≢◌, ◌↔◌, refl, arith, ==_iff, Bool-cases, Option-cases, ◌⊎◌, sym, inl,
  inr,
}
use mathlib.Core.Path.{subst}
use pinakey.Chars.{Unicode}

-- The score, an `i32`: what was won less what was lost.
pub data ℤ : Type 0 where
  pos : ℕ → ℤ
  negsuc : ℕ → ℤ

unfoldable pub minus : ℕ → ℕ → ℤ
minus a zero = ℤ.pos a
minus zero (suc b) = ℤ.negsuc b
minus (suc a) (suc b) = minus a b

-- What one matching character wins: at the start of the key, at the start of a word, and behind
-- another match.
unfoldable pub bonus : Bool → Bool → ℕ → ℕ
bonus start prev_matched prev_char =
    (if start then 16 else 0)
    + ((if start || ((prev_char == b'_') || ((prev_char == b'-') || (prev_char == b' ')))
          then 10
          else 0)
        + (if prev_matched then 8 else 0))

-- The loop over the key: `c ∷ cs` is what is left of the query.
unfoldable pub score_loop : Text → ℕ → Bool → Bool → ℕ → ℕ → Text → Option ℕ
unfolding bonus
score_loop [] score start prev_matched prev_char c cs = none
score_loop (kc ∷ key) score start prev_matched prev_char c cs = elim (kc == c) [
  | false ↦ score_loop key score false false kc c cs
  | true ↦ elim cs [
    | [] ↦ some (score + bonus start prev_matched prev_char)
    | d ∷ ds ↦ score_loop key (score + bonus start prev_matched prev_char) false true kc d ds
  ]
]

unfoldable pub score_prepared : Text → Text → ℕ → Option ℤ
unfolding score_loop minus
score_prepared [] key key_len = none
score_prepared (c ∷ cs) key key_len = elim (score_loop key 0 true false 0 c cs) [
  | none ↦ none
  | some score ↦ some (minus score key_len)
]

abbrev pub flat_map : (ℕ → Text) → Text → Text
flat_map f [] = []
flat_map f (c ∷ t) = f c ++ flat_map f t

unfoldable pub fuzzy_score : Unicode → Text → Text → Option ℤ
unfolding score_prepared
fuzzy_score u query key =
    score_prepared (flat_map u.to_lowercase query) (u.text_to_lowercase key)
      (length (u.text_to_lowercase key))

-- The query is what is left of the key when some characters are struck out.
pub data Subsequence : Text → Text → Type 0 where
  done : {key : Text} → Subsequence [] key
  skip : {q key : Text} {c : ℕ} → Subsequence q key → Subsequence q (c ∷ key)
  keep : {q key : Text} {c : ℕ} → Subsequence q key → Subsequence (c ∷ q) (c ∷ key)

-- The key's first character is struck out, or is the query's first.
Subsequence-split :
    {c k : ℕ} {cs key : Text}
    → Subsequence (c ∷ cs) (k ∷ key)
    → Subsequence (c ∷ cs) key ⊎ ((k ≡ c) × Subsequence cs key)
Subsequence-split (Subsequence.skip s) = inl s
Subsequence-split (Subsequence.keep s) = inr (refl, s)

Subsequence-tail : {c : ℕ} {cs key : Text} → Subsequence (c ∷ cs) key → Subsequence cs key
Subsequence-tail (Subsequence.skip s) = Subsequence.skip (Subsequence-tail s)
Subsequence-tail (Subsequence.keep s) = Subsequence.skip s

no_Subsequence : {c : ℕ} {cs : Text} → ¬ (Subsequence (c ∷ cs) [])
no_Subsequence s = elim s [ ]

found_first :
    {c kc : ℕ} {cs key : Text}
    → (kc == c) ≡ true
    → Subsequence cs key
    → Subsequence (c ∷ cs) (kc ∷ key)
found_first {c} {kc} {cs} {key} q s =
    subst (λ k. Subsequence (c ∷ cs) (k ∷ key)) (sym ((==_iff kc c).0 q)) (Subsequence.keep s)

score_loop-Subsequence :
    (key : Text) (score : ℕ) (start prev : Bool) (pc c : ℕ) (cs : Text) {s : ℕ}
    → score_loop key score start prev pc c cs ≡ some s
    → Subsequence (c ∷ cs) key
unfolding score_loop
score_loop-Subsequence [] score start prev pc c cs h = cc
score_loop-Subsequence (kc ∷ key) score start prev pc c [] h = elim (Bool-cases (kc == c)) [
  | inl q ↦ found_first q Subsequence.done
  | inr q ↦
      Subsequence.skip
        (score_loop-Subsequence key score false false kc c [] (rw (q, score_loop) at h))
]
score_loop-Subsequence (kc ∷ key) score start prev pc c (d ∷ ds) h = elim (Bool-cases (kc == c)) [
  | inl q ↦ found_first q (
      score_loop-Subsequence key (score + bonus start prev pc) false true kc d ds
        (rw (q, score_loop) at h))
  | inr q ↦
      Subsequence.skip
        (score_loop-Subsequence key score false false kc c (d ∷ ds) (rw (q, score_loop) at h))
]

skipped_first :
    {c kc : ℕ} {cs key : Text}
    → (kc == c) ≡ false
    → Subsequence (c ∷ cs) (kc ∷ key)
    → Subsequence (c ∷ cs) key
skipped_first {c} {kc} q h = elim (Subsequence-split h) [
  | inl s ↦ s
  | inr (e, s) ↦ let f : true ≡ false = ground arith in cc
]

matched_first : {c kc : ℕ} {cs key : Text} → Subsequence (c ∷ cs) (kc ∷ key) → Subsequence cs key
matched_first h = elim (Subsequence-split h) [ inl s ↦ Subsequence-tail s | inr (e, s) ↦ s ]

Subsequence-score_loop :
    (key : Text) (score : ℕ) (start prev : Bool) (pc c : ℕ) (cs : Text)
    → Subsequence (c ∷ cs) key
    → (s : ℕ) × (score_loop key score start prev pc c cs ≡ some s)
unfolding score_loop
Subsequence-score_loop [] score start prev pc c cs h = absurd (no_Subsequence h)
Subsequence-score_loop (kc ∷ key) score start prev pc c [] h = elim (Bool-cases (kc == c)) [
  | inl q ↦ (score + bonus start prev pc, rw (q, score_loop) refl)
  | inr q ↦
      let (s, e) = Subsequence-score_loop key score false false kc c [] (skipped_first q h) in
      (s, rw (q, score_loop) e)
]
Subsequence-score_loop (kc ∷ key) score start prev pc c (d ∷ ds) h = elim (Bool-cases (kc == c)) [
  | inl q ↦
      let (s, e) =
        Subsequence-score_loop key (score + bonus start prev pc) false true kc d ds
          (matched_first h) in
      (s, rw (q, score_loop) e)
  | inr q ↦
      let (s, e) = Subsequence-score_loop key score false false kc c (d ∷ ds) (skipped_first q h) in
      (s, rw (q, score_loop) e)
]

-- A key has a score exactly if the query is not empty and is a subsequence of the key, although the
-- loop takes each character at its first occurrence and never goes back.
pub score_prepared-Subsequence :
    (q key : Text) (key_len : ℕ)
    → ((s : ℤ) × (score_prepared q key key_len ≡ some s)) ↔ ((q ≢ []) × Subsequence q key)
unfolding score_prepared
score_prepared-Subsequence [] key key_len = ((λ h. let (s, e) = h in cc), (λ h. absurd (h.0 refl)))
score_prepared-Subsequence (c ∷ cs) key key_len = (
  (λ h. (
    λ e. cc,
    elim (Option-cases (score_loop key 0 true false 0 c cs)) [
      | inl q ↦ let (s, e) = h in let f : none ≡ some s = rw (q, score_prepared) at e in cc
      | inr (n, q) ↦ score_loop-Subsequence key 0 true false 0 c cs q
    ],
  )),
  (λ h.
      let (n, q) = Subsequence-score_loop key 0 true false 0 c cs h.1 in
      (minus n key_len, rw (q, score_prepared) refl)),
)
