-- ===== src/Engine/Session.antt =====
-- `process_string` of engine.rs: whole sessions.
use pinakey.Base.{ℕ, has_flag, false, none, some, [], ◌∷◌, ◌≡◌, Text, arith, Option-cases, inl, inr}
use mathlib.Core.Path.{subst}
use pinakey.Rules.Mode
use pinakey.Flattener.Raw.{raw_keys}
use pinakey.Chars.{Unicode, to_lower}
use pinakey.InputMethod.{InputMethod}
use pinakey.Transform.Generate.{Regexes}
use pinakey.Engine.{PinaKeyEngine, new_engine, process_key, process_string}
use pinakey.Engine.Invariant.{IsSound, process_key-IsSound}

-- A new engine satisfies the invariant of a session, for every input method and all flags.
pub new_engine-IsSound :
    (u : Unicode) (im : InputMethod) (flags : ℕ) → IsSound u (new_engine im flags)
unfolding new_engine raw_keys
new_engine-IsSound u im flags = record {
  well_formed = record { roots = λ a t h e. ground arith; appendings = λ a h e. ground arith };
  live = tt;
  lowered = tt;
}

module _ (u : Unicode) (re : Regexes) where
  -- A run of keys that returns keeps the invariant of the session. The keys are not typed in
  -- reverse order, and lower case is taken to be stable under lowering.
  pub process_string-IsSound :
      (e e' : PinaKeyEngine) (ks : Text) (m : ℕ)
      → ((c : ℕ) → to_lower u (to_lower u c) ≡ to_lower u c)
      → has_flag m Mode.in_reverse_order ≡ false
      → IsSound u e
      → process_string u re e ks m ≡ some e'
      → IsSound u e'
  unfolding process_string
  process_string-IsSound e e' [] m idem forward h p = let d : e ≡ e' = cc in subst (IsSound u) d h
  process_string-IsSound e e' (k ∷ ks) m idem forward h p =
      elim (Option-cases (process_key u re e k m)) [
        | inl q ↦ let c : none ≡ some e' = rw (q, process_string) at p in cc
        | inr (e1, q) ↦
            process_string-IsSound e1 e' ks m idem forward
              (process_key-IsSound u re e e1 k m idem forward h q) (rw (q, process_string) at p)
      ]
