-- ===== src/Transform/Live.antt =====
-- The extractions of transform_utils.rs take their elements from the composition: what holds of every
-- element of the composition holds of every element of a part.
use pinakey.Base.{
  ℕ, zero, suc, ◌+◌, ◌-◌, ◌==◌, if◌then◌else◌, Bool, true, false, not, ◌&&◌, some, List, [], ◌∷◌,
  reverse, length, take, drop, select, Text, ◌≡◌, All, All-append, All-reverse, All-select,
  All-take, All-drop, arith, Bool-cases, if-elim, inl, inr,
}
use mathlib.Core.Path.{subst}
use pinakey.Chars.{Unicode, is_alpha, in_key_list}
use pinakey.Rules.{TransRef}
use pinakey.Rules.Store.{Store}
use pinakey.Flattener.{targets, get_canvas}
use pinakey.Transform.Extract.{
  Composition, appends, has_target, first_appending, find_last_appending_trans, extract_atomic_loop,
  extract_atomic_trans, Parts, parts, move_semivowel, extract_cvc_appending_trans, acting_on,
  all_acting, extend_with_effects, extract_cvc_trans, cut_from, breaks_at, extract_last_word,
}
use pinakey.Transform.Validity.{extract_last_syllable}

module _ (P : TransRef → Type 0) where
  -- Every element of the three parts.
  pub record AllParts (p : Parts) : Type 0 where
    pub fc : All P p.fc
    pub vo : All P p.vo
    pub lc : All P p.lc

  pub record AllPair (c : Composition × Composition) : Type 0 where
    pub left : All P c.0
    pub right : All P c.1

  extract_atomic_loop-All :
      (s : Store) (v : Bool) (comp last : Composition)
      → All P comp
      → All P last
      → AllPair (extract_atomic_loop s v comp last)
  unfolding extract_atomic_loop
  extract_atomic_loop-All s v [] last h k = record { left = tt; right = k }
  extract_atomic_loop-All s v (t ∷ rest) last h k =
      if-elim AllPair _ (reverse (t ∷ rest), last) (extract_atomic_loop s v rest (t ∷ last))
        (λ _. record { left = All-reverse P (t ∷ rest) h; right = k })
        (λ _. extract_atomic_loop-All s v rest (t ∷ last) h.1 (h.0, k))

  extract_atomic_trans-All :
      (s : Store) (comp : Composition) (v : Bool)
      → All P comp
      → AllPair (extract_atomic_trans s comp [] v)
  unfolding extract_atomic_trans
  extract_atomic_trans-All s comp v h =
      extract_atomic_loop-All s v (reverse comp) [] (All-reverse P comp h) tt

  move_semivowel-All :
      (s : Store) (fc vo lc : Composition)
      → All P fc
      → All P vo
      → All P lc
      → AllParts (move_semivowel s fc vo lc)
  unfolding move_semivowel
  move_semivowel-All s [] vo lc f v l = record { fc = f; vo = v; lc = l }
  move_semivowel-All s (a ∷ []) [] lc f v l = record { fc = f; vo = v; lc = l }
  move_semivowel-All s (a ∷ []) (b ∷ bs) lc f v l =
      if-elim AllParts _ (parts (a ∷ b ∷ []) bs lc) (parts (a ∷ []) (b ∷ bs) lc)
        (λ _. record { fc = (f.0, (v.0, tt)); vo = v.1; lc = l })
        (λ _. record { fc = f; vo = v; lc = l })
  move_semivowel-All s (a ∷ a' ∷ as') vo lc f v l = record { fc = f; vo = v; lc = l }

  extract_cvc_appending_trans-All :
      (s : Store) (comp : Composition) → All P comp → AllParts (extract_cvc_appending_trans s comp)
  unfolding extract_cvc_appending_trans
  extract_cvc_appending_trans-All s comp h =
      let outer = extract_atomic_trans-All s comp false h in
      let inner = extract_atomic_trans-All s _ true outer.left in
      if-elim AllParts _ _ _ (λ _. move_semivowel-All s _ [] [] outer.right tt tt)
        (λ _. move_semivowel-All s _ _ _ inner.left inner.right outer.right)

  all_acting-All :
      (s : Store) (comp base : Composition) → All P comp → All P (all_acting s comp base)
  unfolding acting_on
  all_acting-All s comp [] h = tt
  all_acting-All s comp (t ∷ ts) h =
      All-append P (acting_on s comp t) (all_acting s comp ts) (All-select P (targets s t) comp h)
        (all_acting-All s comp ts h)

  extend_with_effects-All :
      (s : Store) (comp base : Composition)
      → All P comp
      → All P base
      → All P (extend_with_effects s comp base)
  unfolding extend_with_effects
  extend_with_effects-All s comp base h k =
      All-append P base (all_acting s comp base) k (all_acting-All s comp base h)

  pub extract_cvc_trans-All :
      (s : Store) (comp : Composition) → All P comp → AllParts (extract_cvc_trans s comp)
  unfolding extract_cvc_trans
  extract_cvc_trans-All s comp h = record {
    fc = extend_with_effects-All s comp _ h roots.fc;
    vo = extend_with_effects-All s comp _ h roots.vo;
    lc = extend_with_effects-All s comp _ h roots.lc;
  }
    where
      roots : AllParts (extract_cvc_appending_trans s (select (λ t. not (has_target s t)) comp))
      roots = extract_cvc_appending_trans-All s _ (All-select P (λ t. not (has_target s t)) comp h)

  pub cut_from-All :
      (canvas : Composition → Text) (breaks : ℕ → Bool) (comp : Composition) (n : ℕ)
      → All P comp
      → AllPair (cut_from canvas breaks comp n)
  unfolding cut_from
  cut_from-All canvas breaks comp zero h = record { left = tt; right = h }
  cut_from-All canvas breaks comp (suc i) h =
      let cut : Composition × Composition =
        if i == length comp - 1 then (comp, []) else (take (i + 1) comp, drop (i + 1) comp) in
      if-elim AllPair (breaks_at breaks (canvas (drop i comp))) cut (cut_from canvas breaks comp i)
        (λ _.
          if-elim AllPair (i == length comp - 1) (comp, []) (take (i + 1) comp, drop (i + 1) comp)
            (λ _. record { left = h; right = tt })
            (λ _. record { left = All-take P (i + 1) comp h; right = All-drop P (i + 1) comp h }))
        (λ _. cut_from-All canvas breaks comp i h)

  -- An appending that was found.
  first_appending-All :
      (s : Store) (comp : Composition) {a : TransRef}
      → All P comp
      → first_appending s comp ≡ some a
      → P a × (appends s a ≡ true)
  first_appending-All s [] h e = cc
  first_appending-All s (t ∷ ts) {a} h e = elim (Bool-cases (appends s t)) [
    | inl q ↦ let f : t ≡ a = ground arith in (subst P f h.0, subst (λ x. appends s x ≡ true) f q)
    | inr q ↦ first_appending-All s ts h.1 (ground arith)
  ]

  pub find_last_appending_trans-All :
      (s : Store) (comp : Composition) {a : TransRef}
      → All P comp
      → find_last_appending_trans s comp ≡ some a
      → P a × (appends s a ≡ true)
  unfolding find_last_appending_trans
  find_last_appending_trans-All s comp h e =
      first_appending-All s (reverse comp) (All-reverse P comp h) e

  -- Both parts of `extract_last_word`, and of `extract_last_syllable`.
  module _ (u : Unicode) (s : Store) (comp : Composition) (h : All P comp) where
    pub extract_last_word-All : (keys : List ℕ) → AllPair (extract_last_word u s comp keys)
    unfolding extract_last_word
    extract_last_word-All keys =
        cut_from-All (λ c. get_canvas u s c 29) (λ c. not (is_alpha c) && not (in_key_list keys c))
          comp (length comp) h

    pub extract_last_syllable-All : AllPair (extract_last_syllable u s comp)
    unfolding extract_last_syllable
    extract_last_syllable-All =
        let word = extract_last_word-All [] in
        record {
          left = All-append P _ _ word.left (All-take P _ _ word.right);
          right = All-drop P _ _ word.right;
        }
