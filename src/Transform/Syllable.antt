-- ===== src/Transform/Syllable.antt =====
-- Where `extract_last_syllable` of transform_utils.rs cuts the last word.
use pinakey.Base.{
  ℕ, zero, suc, ◌+◌, ◌-◌, ◌≤◌, ◌<◌, leb, true, false, [], ◌∷◌, ◌++◌, length, take, drop, ◌≡◌, refl,
  arith, ◌⊎◌, inl, inr, Bool-cases, if-elim,
}
use mathlib.Core.Path.{subst}
use pinakey.Chars.{Unicode}
use pinakey.Rules.Store.{Store}
use pinakey.Transform.Extract.{Composition, extract_last_word}
use pinakey.Transform.Validity.{is_valid, find_anchor, extract_last_syllable}

-- At most one element lies behind the first `i` of the first `m`.
short : (comp : Composition) (i m : ℕ) → m ≤ i + 1 → leb (length (drop i (take m comp))) 1 ≡ true
short [] zero zero h = refl
short [] zero (suc m) h = refl
short [] (suc i) zero h = refl
short [] (suc i) (suc m) h = refl
short (t ∷ ts) zero zero h = refl
short (t ∷ ts) zero (suc zero) h = refl
short (t ∷ ts) zero (suc (suc m)) h = absurd (omega arith)
short (t ∷ ts) (suc i) zero h = refl
short (t ∷ ts) (suc i) (suc m) h = short ts i m (omega arith)

module _ (u : Unicode) (s : Store) where
  -- The first `n` transformations of a word, from `start` on, read as a syllable.
  abbrev pub Reads : Composition → ℕ → ℕ → Type 0
  Reads word start n = is_valid u s (drop start (take n word)) false ≡ true

  -- A syllable that starts at `j` is over at `n`.
  abbrev pub Fails : Composition → ℕ → ℕ → Type 0
  Fails word j n = is_valid u s (drop j (take n word)) false ≡ false

  -- `start` is where the last syllable of the first `n` transformations of a word starts.
  pub record IsStart (word : Composition) (n start : ℕ) : Type 0 where
    pub inside : start ≤ n - 1
    pub reads : (m : ℕ) → m ≤ n → Reads word start m
    pub forced : (start ≡ 0) ⊎ ((j : ℕ) × ((j < start) × Fails word j (start + 1)))

  Reads-short : (word : Composition) (i m : ℕ) → m ≤ i + 1 → Reads word i m
  unfolding is_valid
  Reads-short word i m h = rw (short word i m h) refl

  kept_IsStart :
      (word : Composition) (i start : ℕ)
      → IsStart word i start
      → Reads word start (i + 1)
      → IsStart word (i + 1) start
  kept_IsStart word i start h r = record {
    inside = omega (arith, h.inside);
    reads = λ m below. elim (Bool-cases (leb m i)) [
      | inl q ↦ h.reads m (ground arith)
      | inr q ↦ let e : i + 1 ≡ m = ground arith in subst (Reads word start) e r
    ];
    forced = h.forced;
  }

  moved_IsStart :
      (word : Composition) (i start : ℕ)
      → IsStart word i start
      → Fails word start (i + 1)
      → IsStart word (i + 1) i
  moved_IsStart word zero start h r = record {
    inside = omega arith;
    reads = λ m below. Reads-short word 0 m below;
    forced = inl refl;
  }
  moved_IsStart word (suc i) start h r = record {
    inside = omega arith;
    reads = λ m below. Reads-short word (suc i) m below;
    forced = inr (start, (omega (arith, h.inside), r));
  }

  find_anchor-IsStart :
      (word : Composition) (n i start : ℕ)
      → IsStart word i start
      → IsStart word (i + n) (find_anchor u s word n i start)
  unfolding find_anchor
  find_anchor-IsStart word zero i start h = subst (λ m. IsStart word m start) (omega arith) h
  find_anchor-IsStart word (suc n) i start h =
      let stepped =
        if-elim (IsStart word (i + 1)) (is_valid u s (drop start (take (i + 1) word)) false) start i
          (kept_IsStart word i start h) (moved_IsStart word i start h) in
      subst (λ m. IsStart word m (find_anchor u s word (suc n) i start)) (omega arith)
        (find_anchor-IsStart word n (i + 1) _ stepped)

  -- How `extract_last_syllable` cuts a composition whose last word is `word.1`.
  pub record CutsSyllable (word cut : Composition × Composition) : Type 0 where
    pub start : ℕ
    pub before : cut.0 ≡ word.0 ++ take start word.1
    pub syllable : cut.1 ≡ drop start word.1
    pub is_start : IsStart word.1 (length word.1) start

  -- `extract_last_syllable` cuts the last word in two. The syllable, which is not empty unless the
  -- word is, reads as a syllable, and so did it at each of its transformations; and it starts with
  -- the word, or at a transformation where a syllable that started before was over.
  pub extract_last_syllable-CutsSyllable :
      (comp : Composition)
      → CutsSyllable (extract_last_word u s comp []) (extract_last_syllable u s comp)
  unfolding extract_last_syllable
  extract_last_syllable-CutsSyllable comp = record {
    start = _;
    before = refl;
    syllable = refl;
    is_start =
        subst (λ m. IsStart word m (find_anchor u s word (length word) 0 0)) (omega arith)
          (find_anchor-IsStart word (length word) 0 0 record {
            inside = omega arith;
            reads = λ m below. Reads-short word 0 m (omega (arith, below));
            forced = inl refl;
          });
  }
    where
      word : Composition
      word = (extract_last_word u s comp []).1
