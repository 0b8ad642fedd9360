-- ===== src/KeyEngine/Invariant/Session.antt =====
-- What the handler of crates/pinakey-engine/src/engine.rs does to its typing session: one step keeps the session
-- sound, and its input method.
use pinakey.Base.{
  ℕ, has_flag, Bool, true, false, not, ◌||◌, Option, none, some, ◌≡◌, refl, is_empty, Bool-cases,
  Option-cases, if-elim, inl, inr, WhenSome, WhenSome-at, WhenSome-intro, WhenSome-bind,
}
use pinakey.Rules.{key}
use pinakey.Rules.Mode
use pinakey.Rules.Store.{Store, rule_of}
use pinakey.Chars.{Unicode, to_lower}
use pinakey.Flattener.Raw.{raw_keys}
use pinakey.Transform.Extract.{Composition, extract_last_word, find_last_appending_trans}
use pinakey.Transform.Generate.{Regexes}
use pinakey.Engine.{
  PinaKeyEngine, can_process_key, process_key, with_composition, append_raw, remove_last_char,
  restore_last_word, reset,
}
use pinakey.Engine.Invariant.{IsSound, process_key-IsSound}
use pinakey.Engine.Remove.{remove_last_char-IsSound}
use pinakey.Engine.Restore.{restore_last_word-IsSound}
use pinakey.KeyEngine.Core.{EngineCore}
use pinakey.KeyEngine.Commit.{clear_buffer}
use pinakey.KeyEngine.Handler.{drop_char, press, press_if, restore, close_word}
use pinakey.KeyEngine.Invariant.{Follows, Follows-session}

abbrev pub SameMethod : PinaKeyEngine → PinaKeyEngine → Type 0
SameMethod e e' = e'.input_method ≡ e.input_method

made_method :
    (e : PinaKeyEngine) (o : Option (Store × Composition))
    → WhenSome (SameMethod e) (elim o [ none ↦ none | some made ↦ some (with_composition e made) ])
made_method e none = tt
made_method e (some made) = refl

module _ (u : Unicode) where
  pub reset-IsSound : (e : PinaKeyEngine) → IsSound u e → IsSound u (reset e)
  unfolding reset raw_keys
  reset-IsSound e h = record { well_formed = h.well_formed; live = tt; lowered = tt }

  pub clear_buffer-Follows : {e e' : EngineCore} → Follows u e e' → Follows u e (clear_buffer e')
  unfolding reset
  clear_buffer-Follows {e} {e'} h =
      Follows-session (reset e'.preeditor) h (reset-IsSound e'.preeditor h.coherent.sound) refl

  remove_last_char-SameMethod :
      (e : PinaKeyEngine) (refresh : Bool) → SameMethod e (remove_last_char u e refresh)
  unfolding remove_last_char
  remove_last_char-SameMethod e refresh =
      elim (Option-cases (find_last_appending_trans e.store e.composition)) [
        | inl q ↦ rw (q, remove_last_char) refl
        | inr (a, q) ↦ elim (Bool-cases (not (can_process_key e (key (rule_of e.store a))))) [
          | inl p ↦ rw (q, p, remove_last_char) refl
          | inr p ↦ rw (q, p, remove_last_char) refl
        ]
      ]

  pub drop_char-Follows :
      {e e' : EngineCore} (refresh : Bool) → Follows u e e' → Follows u e (drop_char u e' refresh)
  drop_char-Follows {e} {e'} refresh h =
      Follows-session (remove_last_char u e'.preeditor refresh) h
        (remove_last_char-IsSound u e'.preeditor h.coherent.sound refresh)
        (remove_last_char-SameMethod e'.preeditor refresh)

  module _ (re : Regexes) where
    process_key-SameMethod :
        (e : PinaKeyEngine) (k m : ℕ) → WhenSome (SameMethod e) (process_key u re e k m)
    unfolding process_key append_raw
    process_key-SameMethod e k m =
        if-elim (WhenSome (SameMethod e))
          (has_flag m Mode.english || not (can_process_key e (to_lower u k))) _ _ (λ _. refl)
          (λ _. made_method e _)

    restore_last_word-SameMethod :
        (e : PinaKeyEngine) → WhenSome (SameMethod e) (restore_last_word u re e false)
    unfolding restore_last_word
    restore_last_word-SameMethod e =
        elim (Bool-cases
          (is_empty (extract_last_word u e.store e.composition e.input_method.keys).1)) [
            | inl q ↦ rw (q, restore_last_word) refl
            | inr q ↦ rw (q, restore_last_word) refl
          ]

    module _ (idem : (c : ℕ) → to_lower u (to_lower u c) ≡ to_lower u c) where
      pub press-Follows :
          {e : EngineCore} (e' : EngineCore) (k m : ℕ)
          → has_flag m Mode.in_reverse_order ≡ false
          → Follows u e e'
          → WhenSome (Follows u e) (press u re e' k m)
      press-Follows {e} e' k m forward h =
          WhenSome-bind (λ p. IsSound u p × SameMethod e'.preeditor p) (Follows u e)
            (process_key u re e'.preeditor k m) _
            (WhenSome-intro _ (process_key u re e'.preeditor k m) (λ p q. (
              process_key-IsSound u re e'.preeditor p k m idem forward h.coherent.sound q,
              WhenSome-at (SameMethod e'.preeditor) p q (process_key-SameMethod e'.preeditor k m),
            )))
            (λ p s. Follows-session p h s.0 s.1)

      pub press_if-Follows :
          {e : EngineCore} (printable : Bool) (e' : EngineCore) (k : ℕ)
          → Follows u e e'
          → WhenSome (Follows u e) (press_if u re printable e' k)
      press_if-Follows true e' k h = press-Follows e' k Mode.english refl h
      press_if-Follows false e' k h = h

      pub close_word-Follows :
          {e : EngineCore} (e' : EngineCore) (is_wbs : Bool)
          → Follows u e e'
          → WhenSome (Follows u e) (close_word u re e' is_wbs)
      close_word-Follows e' true h =
          press-Follows (drop_char u e' false) b' ' Mode.english refl (drop_char-Follows false h)
      close_word-Follows e' false h = h

      pub restore-Follows :
          {e : EngineCore} (e' : EngineCore)
          → Follows u e e'
          → WhenSome (Follows u e) (restore u re e')
      restore-Follows {e} e' h =
          WhenSome-bind (λ p. IsSound u p × SameMethod e'.preeditor p) (Follows u e)
            (restore_last_word u re e'.preeditor false) _
            (WhenSome-intro _ (restore_last_word u re e'.preeditor false) (λ p q. (
              restore_last_word-IsSound u re e'.preeditor p h.coherent.sound false q,
              WhenSome-at (SameMethod e'.preeditor) p q (restore_last_word-SameMethod e'.preeditor),
            )))
            (λ p s. Follows-session p h s.0 s.1)
