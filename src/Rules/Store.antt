-- ===== src/Rules/Store.antt =====
-- The heap of `Rc<RefCell<Transformation>>` cells of crates/pinakey-core/src/rules.rs. An address is
-- given out once, so `Rc::ptr_eq` and the map keys made of `Rc::as_ptr` are equality of addresses.
use pinakey.Base.{
  suc, ◌==◌, if◌then◌else◌, Bool, true, false, Option, none, some, ◌<◌, ◌≤◌, ◌≡◌, ◌≢◌, refl, arith,
  ◌∙◌, Bool-cases, inl, inr,
}
use mathlib.Core.Path.{subst}
use pinakey.Rules.{Rule, Transformation, TransRef, default_rule, effect_type, is_appending}

pub record Store : Type 0 where
  pub cells : TransRef → Transformation
  pub next : TransRef

-- No cell is allocated yet.
abbrev pub empty_store : Store
empty_store = record {
  cells = λ _. record { rule = default_rule; target = none; is_upper_case = false };
  next = 0;
}

unfoldable pub write : Store → TransRef → Transformation → Store
write s a t = record s { cells = λ b. if b == a then t else s.cells b }

-- `Transformation::new_ref`: the new store and the new address.
unfoldable pub new_ref : Store → Rule → Option TransRef → Bool → Store × TransRef
new_ref s r t up = (
  record {
    cells =
        λ b. if b == s.next then record { rule = r; target = t; is_upper_case = up } else s.cells b;
    next = suc s.next;
  },
  s.next,
)

-- `borrow_mut().target = t`.
unfoldable pub set_target : Store → TransRef → Option TransRef → Store
unfolding write
set_target s a t = write s a (record (s.cells a) { target = t })

abbrev pub rule_of : Store → TransRef → Rule
rule_of s a = (s.cells a).rule

abbrev pub target_of : Store → TransRef → Option TransRef
target_of s a = (s.cells a).target

-- An address that was given out.
abbrev pub IsLive : Store → TransRef → Type 0
IsLive s a = a < s.next

-- A live address of a transformation that acts on no other.
pub record IsRoot (s : Store) (a : TransRef) : Type 0 where
  pub live : a < s.next
  pub free : target_of s a ≡ none

-- What holds of every cell: an appending acts on nothing, and what another acts on is a root.
pub record IsWellFormed (s : Store) : Type 0 where
  pub roots : (a t : TransRef) → a < s.next → target_of s a ≡ some t → IsRoot s t
  pub appendings :
      (a : TransRef)
      → a < s.next
      → is_appending (effect_type (rule_of s a)) ≡ true
      → target_of s a ≡ none

-- From `s` to `s'` cells were added, and the old ones keep their rule and their case.
pub record Extends (s s' : Store) : Type 0 where
  pub grows : s.next ≤ s'.next
  pub rules : (a : TransRef) → a < s.next → rule_of s' a ≡ rule_of s a
  pub cases : (a : TransRef) → a < s.next → (s'.cells a).is_upper_case ≡ (s.cells a).is_upper_case
  pub roots : (a : TransRef) → a < s.next → target_of s a ≡ none → target_of s' a ≡ none

pub Extends-refl : (s : Store) → Extends s s
Extends-refl s = record {
  grows = omega arith;
  rules = λ a h. refl;
  cases = λ a h. refl;
  roots = λ a h e. e;
}

pub Extends-trans : {s t u : Store} → Extends s t → Extends t u → Extends s u
Extends-trans {s} {t} {u} e f = record {
  grows = omega (arith, e.grows, f.grows);
  rules = λ a h. f.rules a (omega (arith, e.grows)) ∙ e.rules a h;
  cases = λ a h. f.cases a (omega (arith, e.grows)) ∙ e.cases a h;
  roots = λ a h z. f.roots a (omega (arith, e.grows)) (e.roots a h z);
}

-- What a transformation may act on, when it is created or moved.
abbrev pub Allowed : Store → Rule → Option TransRef → Type 0
Allowed s r none = Unit
Allowed s r (some t) = IsRoot s t × (is_appending (effect_type r) ≡ false)

module _ (s : Store) (r : Rule) (t : Option TransRef) (up : Bool) where
  pub new_ref-Extends : Extends s (new_ref s r t up).0
  unfolding new_ref
  new_ref-Extends = record {
    grows = omega arith;
    rules = λ a h. ground arith;
    cases = λ a h. ground arith;
    roots = λ a h e. ground arith;
  }

  pub new_ref-IsLive : IsLive (new_ref s r t up).0 (new_ref s r t up).1
  unfolding new_ref
  new_ref-IsLive = omega arith

  pub rule_of-new_ref : rule_of (new_ref s r t up).0 (new_ref s r t up).1 ≡ r
  unfolding new_ref
  rule_of-new_ref = ground arith

pub IsRoot-Extends : {s s' : Store} {a : TransRef} → Extends s s' → IsRoot s a → IsRoot s' a
IsRoot-Extends {a = a} e r = record {
  live = omega (arith, e.grows, r.live);
  free = e.roots a r.live r.free;
}

-- The target of a cell after `new_ref`.
target_of-new_ref :
    (s : Store) (r : Rule) (t : Option TransRef) (up : Bool) (a : TransRef)
    → target_of (new_ref s r t up).0 a ≡ (if a == s.next then t else target_of s a)
unfolding new_ref
target_of-new_ref s r t up a = ground arith

Allowed-IsRoot :
    (s : Store) (r : Rule) (t : Option TransRef) (b : TransRef)
    → Allowed s r t
    → t ≡ some b
    → IsRoot s b
Allowed-IsRoot s r none b p e = cc
Allowed-IsRoot s r (some c) b p e = let f : c ≡ b = cc in subst (IsRoot s) f p.0

Allowed-appending :
    (s : Store) (r : Rule) (t : Option TransRef)
    → Allowed s r t
    → is_appending (effect_type r) ≡ true
    → t ≡ none
Allowed-appending s r none p e = refl
Allowed-appending s r (some c) p e = let f = p.1 in cc

module _ (s : Store) (r : Rule) (t : Option TransRef) (up : Bool) (w : IsWellFormed s) where
  new_ref-roots :
      (a b : TransRef)
      → a < suc s.next
      → Allowed s r t
      → target_of (new_ref s r t up).0 a ≡ some b
      → IsRoot s b
  new_ref-roots a b h p e = elim (Bool-cases (a == s.next)) [
    | inl q ↦ Allowed-IsRoot s r t b p (ground (arith, target_of-new_ref s r t up a))
    | inr q ↦ w.roots a b (ground arith) (ground (arith, target_of-new_ref s r t up a))
  ]

  new_ref-appendings :
      (a : TransRef)
      → a < suc s.next
      → Allowed s r t
      → is_appending (effect_type (rule_of (new_ref s r t up).0 a)) ≡ true
      → target_of (new_ref s r t up).0 a ≡ none
  unfolding new_ref
  new_ref-appendings a h p e = elim (Bool-cases (a == s.next)) [
    | inl q ↦ ground (arith, Allowed-appending s r t p)
    | inr q ↦ ground (arith, w.appendings a)
  ]

  -- A cell whose target is allowed keeps the store well formed.
  pub new_ref-IsWellFormed : Allowed s r t → IsWellFormed (new_ref s r t up).0
  new_ref-IsWellFormed p = record {
    roots = λ a b h e.
        IsRoot-Extends (new_ref-Extends s r t up) (new_ref-roots a b (unfold new_ref in h) p e);
    appendings = λ a h e. new_ref-appendings a (unfold new_ref in h) p e;
  }

-- A cell with a target that is moved to a root, or loses its target, is nobody's target.
module _ (s : Store) (a : TransRef) (t : Option TransRef) where
  pub set_target-Extends : (target_of s a ≢ none) → Extends s (set_target s a t)
  unfolding set_target
  set_target-Extends n = record {
    grows = omega arith;
    rules = λ b h. ground arith;
    cases = λ b h. ground arith;
    roots = λ b h e. elim (Bool-cases (b == a)) [
      | inl q ↦ let f : b ≡ a = ground arith in absurd (n (rw (← f) e))
      | inr q ↦ ground arith
    ];
  }

  target_of-set_target :
      (b : TransRef) → target_of (set_target s a t) b ≡ (if b == a then t else target_of s b)
  unfolding set_target
  target_of-set_target b = ground arith

  pub set_target-IsWellFormed :
      IsWellFormed s
      → (target_of s a ≢ none)
      → (a < s.next)
      → Allowed s (rule_of s a) t
      → IsWellFormed (set_target s a t)
  set_target-IsWellFormed w n l p = record {
    roots = λ b c h e. IsRoot-Extends (set_target-Extends n) (root b c (unfold set_target in h) e);
    appendings = λ b h e. appending b (unfold set_target in h) e;
  }
    where
      root : (b c : TransRef) → b < s.next → target_of (set_target s a t) b ≡ some c → IsRoot s c
      root b c h e = elim (Bool-cases (b == a)) [
        | inl q ↦ Allowed-IsRoot s (rule_of s a) t c p (ground (arith, target_of-set_target b))
        | inr q ↦ w.roots b c h (ground (arith, target_of-set_target b))
      ]

      appending :
          (b : TransRef)
          → b < s.next
          → is_appending (effect_type (rule_of (set_target s a t) b)) ≡ true
          → target_of (set_target s a t) b ≡ none
      appending b h e =
          let same : rule_of (set_target s a t) b ≡ rule_of s b =
            (set_target-Extends n).rules b h in
          let old : target_of s b ≡ none = w.appendings b h (rw same at e) in
          elim (Bool-cases (b == a)) [
            | inl q ↦ let f : b ≡ a = ground arith in absurd (n (rw (← f) old))
            | inr q ↦ ground (arith, target_of-set_target b)
          ]
