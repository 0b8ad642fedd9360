-- ===== src/Base/Partial.antt =====
-- Steps that may fail, and what holds of a step's value where there is one.
use mathlib.Core.Option.{Option, none, some}
use mathlib.Core.Path.{◌≡◌, refl}

infixl 5 ◌>>=◌
abbrev pub ◌>>=◌ {ℓ κ} : {A : Type ℓ} {B : Type κ} → Option A → (A → Option B) → Option B
none >>= f = none
some a >>= f = f a

abbrev pub WhenSome {ℓ κ} : {A : Type ℓ} → (A → Type κ) → Option A → Type κ
WhenSome P none = Unit
WhenSome P (some a) = P a

module _ {ℓ κ} {A : Type ℓ} where
  pub WhenSome-at : (P : A → Type κ) {o : Option A} (a : A) → o ≡ some a → WhenSome P o → P a
  WhenSome-at P {o} a e h = rw e at h

  pub WhenSome-intro : (P : A → Type κ) (o : Option A) → ((a : A) → o ≡ some a → P a) → WhenSome P o
  WhenSome-intro P none h = tt
  WhenSome-intro P (some a) h = h a refl

pub WhenSome-bind {ℓ μ κ ν} :
    {A : Type ℓ} {B : Type μ} (P : A → Type κ) (Q : B → Type ν) (o : Option A) (f : A → Option B)
    → WhenSome P o
    → ((a : A) → P a → WhenSome Q (f a))
    → WhenSome Q (o >>= f)
WhenSome-bind P Q none f h k = tt
WhenSome-bind P Q (some a) f h k = k a h

abbrev pub Returns {ℓ} : {A : Type ℓ} → Option A → Type ℓ
Returns {A} o = (a : A) × (o ≡ some a)

module _ {ℓ κ} {A : Type ℓ} {B : Type κ} where
  pub Returns-bind :
      (o : Option A) (f : A → Option B) → Returns o → ((a : A) → Returns (f a)) → Returns (o >>= f)
  Returns-bind none f (a, q) k = cc
  Returns-bind (some b) f r k = k b
