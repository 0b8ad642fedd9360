-- ===== src/Flattener/Raw.antt =====
-- The keys of a composition, without the virtual ones.
use pinakey.Base.{
  ℕ, ◌==◌, if◌then◌else◌, List, [], ◌∷◌, ◌++◌, ◌≡◌, refl, ap, sym, ◌∙◌, All, append_assoc,
}
use pinakey.Rules.{key, TransRef}
use pinakey.Rules.Store.{Store, rule_of, IsLive, Extends}

-- A key that was typed, and not a virtual one.
abbrev pub visible : ℕ → List ℕ
visible k = if k == 0 then [] else k ∷ []

-- The keys that were typed for a composition, in order.
unfoldable pub raw_keys : Store → List TransRef → List ℕ
raw_keys s [] = []
raw_keys s (t ∷ ts) = visible (key (rule_of s t)) ++ raw_keys s ts

pub raw_keys-append :
    (s : Store) (a b : List TransRef) → raw_keys s (a ++ b) ≡ raw_keys s a ++ raw_keys s b
unfolding raw_keys
raw_keys-append s [] b = refl
raw_keys-append s (t ∷ ts) b =
    ap (visible (key (rule_of s t)) ++◌) (raw_keys-append s ts b)
    ∙ sym (append_assoc (visible (key (rule_of s t))) (raw_keys s ts) (raw_keys s b))

-- Later cells change no key.
pub raw_keys-Extends :
    {s s' : Store} (comp : List TransRef)
    → Extends s s'
    → All (IsLive s) comp
    → raw_keys s' comp ≡ raw_keys s comp
unfolding raw_keys
raw_keys-Extends [] e h = refl
raw_keys-Extends (t ∷ ts) e h = rw (e.rules t h.0, raw_keys-Extends ts e h.1)
