-- ===== src/Transform/Makes.antt =====
-- What the functions of transform_utils.rs that make transformations leave behind: a store that extends
-- the old one and is well formed, new transformations in it, and the keys that these carry.
use pinakey.Base.{
  ℕ, Bool, Option, List, [], ◌∷◌, ◌++◌, ◌≡◌, refl, ◌∙◌, ap, All, All-append, append-nil, arith,
}
use mathlib.Core.Path.{subst}
use pinakey.Rules.{Rule, key, TransRef}
use pinakey.Rules.Store.{
  Store, new_ref, rule_of, IsWellFormed, IsLive, Extends, Extends-refl, Extends-trans, Allowed,
  new_ref-Extends, new_ref-IsLive, new_ref-IsWellFormed, rule_of-new_ref,
}
use pinakey.Flattener.Raw.{raw_keys, visible, raw_keys-append, raw_keys-Extends}
use pinakey.Transform.Extract.{Composition}
use pinakey.Transform.Generate.{push}

pub record Makes (s : Store) (made : Store × Composition) (ks : List ℕ) : Type 0 where
  pub extends : Extends s made.0
  pub well_formed : IsWellFormed made.0
  pub live : All (IsLive made.0) made.1
  pub keys : raw_keys made.0 made.1 ≡ ks

pub All-IsLive-Extends :
    {s s' : Store} (comp : Composition) → Extends s s' → All (IsLive s) comp → All (IsLive s') comp
All-IsLive-Extends [] e h = tt
All-IsLive-Extends (t ∷ ts) e h = (omega (arith, e.grows, h.0), All-IsLive-Extends ts e h.1)

pub Makes-nothing : {s : Store} → IsWellFormed s → Makes s (s, []) []
unfolding raw_keys
Makes-nothing {s} w = record { extends = Extends-refl s; well_formed = w; live = tt; keys = refl }

raw_keys-single : (s : Store) (t : TransRef) → raw_keys s (t ∷ []) ≡ visible (key (rule_of s t))
unfolding raw_keys
raw_keys-single s t = append-nil (visible (key (rule_of s t)))

-- One more transformation.
pub push-Makes :
    {s : Store} (made : Store × Composition) (r : Rule) (target : Option TransRef) (up : Bool)
    {ks : List ℕ}
    → Makes s made ks
    → Allowed made.0 r target
    → Makes s (push made r target up) (ks ++ visible (key r))
push-Makes {s} made r target up {ks} m a = record {
  extends = Extends-trans m.extends grown;
  well_formed = new_ref-IsWellFormed made.0 r target up m.well_formed a;
  live =
      All-append (IsLive new) made.1 (t ∷ []) (All-IsLive-Extends made.1 grown m.live)
        (new_ref-IsLive made.0 r target up, tt);
  keys =
      raw_keys-append new made.1 (t ∷ [])
      ∙ (ap (◌++ raw_keys new (t ∷ [])) (raw_keys-Extends made.1 grown m.live ∙ m.keys)
          ∙ ap (ks ++◌) (
              raw_keys-single new t
              ∙ ap (λ x. visible (key x)) (rule_of-new_ref made.0 r target up)));
}
  where
    grown : Extends made.0 (new_ref made.0 r target up).0
    grown = new_ref-Extends made.0 r target up

    new : Store
    new = (new_ref made.0 r target up).0

    t : TransRef
    t = (new_ref made.0 r target up).1

-- One more virtual transformation: no key.
pub push_virtual-Makes :
    {s : Store} (made : Store × Composition) (r : Rule) (target : Option TransRef) (up : Bool)
    {ks : List ℕ}
    → Makes s made ks
    → Allowed made.0 r target
    → key r ≡ 0
    → Makes s (push made r target up) ks
push_virtual-Makes {s} made r target up {ks} m a e =
    subst (Makes s (push made r target up)) (ap (λ k. ks ++ visible k) e ∙ append-nil ks)
      (push-Makes made r target up m a)
