-- ===== src/Engine/Without.antt =====
-- What is left of a composition when a letter is removed.
use pinakey.Base.{
  true, false, none, some, [], ◌∷◌, ◌++◌, reverse, select, ◌==◌, ==_iff, ◌≡◌, ◌≢◌, refl, sym, ap,
  ◌∙◌, All, All-reverse, append_assoc, Bool-cases, Option-cases, if-elim, ◌⊎◌, ◌↔◌, inl, inr, arith,
}
use mathlib.Core.List.{reverse-append, reverse-cons, reverse-reverse}
use mathlib.Core.Path.{subst}
use pinakey.Rules.{TransRef}
use pinakey.Rules.Store.{Store, target_of}
use pinakey.Transform.Extract.{Composition, appends, first_appending, find_last_appending_trans}
use pinakey.Flattener.{targets}
use pinakey.Engine.{survives}

-- The second composition is the first without `a` and without all that acts on `a`.
pub data Without (s : Store) (a : TransRef) : Composition → Composition → Type 0 where
  done : Without s a [] []
  letter : {ts us : Composition} → Without s a ts us → Without s a (a ∷ ts) us
  effect :
      {t : TransRef} {ts us : Composition}
      → target_of s t ≡ some a
      → Without s a ts us
      → Without s a (t ∷ ts) us
  other :
      {t : TransRef} {ts us : Composition}
      → t ≢ a
      → target_of s t ≢ some a
      → Without s a ts us
      → Without s a (t ∷ ts) (t ∷ us)

-- `a` is the last of the appendings.
pub record IsLastLetter (s : Store) (comp : Composition) (a : TransRef) : Type 0 where
  pub before : Composition
  pub after : Composition
  pub here : comp ≡ before ++ a ∷ after
  pub appending : appends s a ≡ true
  pub no_later : All (λ t. appends s t ≡ false) after

-- The first of the appendings of a list.
record IsFirst (s : Store) (ts : Composition) (a : TransRef) : Type 0 where
  passed : Composition
  later : Composition
  here : ts ≡ passed ++ a ∷ later
  appending : appends s a ≡ true
  no_earlier : All (λ t. appends s t ≡ false) passed

module _ (s : Store) where
  first_appending-IsFirst :
      (ts : Composition) {a : TransRef} → first_appending s ts ≡ some a → IsFirst s ts a
  first_appending-IsFirst [] e = cc
  first_appending-IsFirst (t ∷ ts) {a} e = elim (Bool-cases (appends s t)) [
    | inl q ↦
        let c : some t ≡ some a = rw (q, first_appending) at e in
        let d : t ≡ a = cc in
        subst (IsFirst s (t ∷ ts)) d
          (record { passed = []; later = ts; here = refl; appending = q; no_earlier = tt })
    | inr q ↦
        let first = first_appending-IsFirst ts (rw (q, first_appending) at e) in
        record {
          passed = t ∷ first.passed;
          later = first.later;
          here = ap (t ∷◌) first.here;
          appending = first.appending;
          no_earlier = (q, first.no_earlier);
        }
  ]

  first_appending-none :
      (ts : Composition) → first_appending s ts ≡ none → All (λ t. appends s t ≡ false) ts
  first_appending-none [] e = tt
  first_appending-none (t ∷ ts) e = elim (Bool-cases (appends s t)) [
    | inl q ↦ let c : some t ≡ none = rw (q, first_appending) at e in cc
    | inr q ↦ (q, first_appending-none ts (rw (q, first_appending) at e))
  ]

  pub find_last_appending_trans-IsLastLetter :
      (comp : Composition) {a : TransRef}
      → find_last_appending_trans s comp ≡ some a
      → IsLastLetter s comp a
  unfolding find_last_appending_trans
  find_last_appending_trans-IsLastLetter comp {a} e =
      let first = first_appending-IsFirst (reverse comp) e in
      record {
        before = reverse first.later;
        after = reverse first.passed;
        here =
            sym (reverse-reverse comp) ∙ (ap reverse first.here ∙ turned first.passed first.later);
        appending = first.appending;
        no_later = All-reverse (λ t. appends s t ≡ false) first.passed first.no_earlier;
      }
    where
      turned : (xs ys : Composition) → reverse (xs ++ a ∷ ys) ≡ reverse ys ++ a ∷ reverse xs
      turned xs ys = simp (reverse-append, reverse-cons, append_assoc)

  pub find_last_appending_trans-none :
      (comp : Composition)
      → find_last_appending_trans s comp ≡ none
      → All (λ t. appends s t ≡ false) comp
  unfolding find_last_appending_trans
  find_last_appending_trans-none comp e =
      subst (All (λ t. appends s t ≡ false)) (reverse-reverse comp) (
        All-reverse (λ t. appends s t ≡ false) (reverse comp)
          (first_appending-none (reverse comp) e))

  targets_iff : (a t : TransRef) → (targets s a t ≡ true) ↔ (target_of s t ≡ some a)
  targets_iff a t = elim (Option-cases (target_of s t)) [
    | inl q ↦ rw q ((λ h. cc), (λ h. cc))
    | inr (b, q) ↦
        rw (q, targets)
          ((λ h. ap some (sym ((==_iff a b).0 h))), (λ h. let c : a ≡ b = cc in (==_iff a b).1 c))
  ]

  dropped : (a t : TransRef) → survives s a t ≡ false → (t ≡ a) ⊎ (target_of s t ≡ some a)
  dropped a t h = elim (Bool-cases (t == a)) [
    | inl q ↦ inl ((==_iff t a).0 q)
    | inr q ↦ inr ((targets_iff a t).0 (ground arith))
  ]

  kept : (a t : TransRef) → survives s a t ≡ true → (t ≢ a) × (target_of s t ≢ some a)
  kept a t h = (
    (λ e. let c = (==_iff t a).1 e in ground arith),
    (λ e. let c = (targets_iff a t).1 e in ground arith),
  )

  -- The loops of `remove_last_char`.
  pub survives-Without :
      (a : TransRef) (ts : Composition) → Without s a ts (select (survives s a) ts)
  survives-Without a [] = Without.done
  survives-Without a (t ∷ ts) =
      let rest : Composition = select (survives s a) ts in
      let later : Without s a ts rest = survives-Without a ts in
      if-elim (Without s a (t ∷ ts)) (survives s a t) (t ∷ rest) rest
        (λ h. Without.other (kept a t h).0 (kept a t h).1 later)
        (λ h. elim (dropped a t h) [
          | inl e ↦ subst (λ x. Without s a (x ∷ ts) rest) (sym e) (Without.letter later)
          | inr e ↦ Without.effect e later
        ])
