-- ===== src/KeyEngine/Passes.antt =====
-- Which keys the handler of crates/pinakey-engine/src/engine.rs passes on to the program, and in what state it leaves
-- its buffer then.
use pinakey.Base.{
  ℕ, ◌==◌, ltb, if◌then◌else◌, has_flag, Bool, true, false, not, ◌&&◌, ◌||◌, some, [], ◌++◌, ◌≡◌,
  refl, sym, ◌∙◌, ap, length, Text, if-elim, Option-cases, inl, inr, ◌⊎◌, ◌>>=◌, WhenSome,
  WhenSome-intro, WhenSome-bind, WhenSome-at,
}
use pinakey.Rules.Mode
use pinakey.Chars
use pinakey.Chars.{Unicode, to_lower, is_word_break_symbol}
use pinakey.InputMethod.{InputMethod}
use pinakey.Emoji.Macro.{has_key, has_prefix}
use pinakey.Transform.Generate.{Regexes}
use pinakey.Engine.{can_process_key, reset}
use pinakey.KeyEngine.Core.{EngineCore}
use pinakey.KeyEngine.Keysym
use pinakey.KeyEngine.Keysym.{is_modifier_keysym}
use pinakey.KeyEngine.View.{
  Clock, rune_of, is_valid_state, has_macro_text, macro_enabled, get_macro_text, get_preedit_string,
  get_raw_key_len, bracket_upper,
}
use pinakey.KeyEngine.Commit.{
  apply_sentence_capitalize, commit_preedit_and_reset, commit_preedit_and_reset_for_wbs,
}
use pinakey.KeyEngine.Handler.{
  Event, CommitText, commit_of, w_suppressed, is_valid_key_val, is_printable_key, key_text, press,
  press_backspace, press_tab, typed_text, get_commit_text, show_or_commit, handle_non_vn_word,
  preedit_process_key_event, process_key_event,
}
use pinakey.KeyEngine.Invariant.{IsCoherent, Follows, Follows-refl}
use pinakey.KeyEngine.Invariant.Commit.{apply_sentence_capitalize-Follows}
use pinakey.KeyEngine.Invariant.Handler.{get_commit_text-Follows}
use pinakey.KeyEngine.Returns.{apply_sentence_capitalize-preeditor}

-- Where the key goes to the program, either nothing happened in the engine, or its buffer is empty.
PassesCleanly : EngineCore → Event → Type 0
PassesCleanly e ev =
    ev.handled ≡ false
    → ((ev.actions ≡ []) × (ev.engine.preeditor ≡ e.preeditor))
      ⊎ (ev.engine.preeditor.composition ≡ [])

and_left : (a b : Bool) → (a && b) ≡ true → a ≡ true
and_left true b h = refl
and_left false b h = cc

and_right : (a b : Bool) → (a && b) ≡ true → b ≡ true
and_right true b h = h
and_right false b h = cc

and_false : (a : Bool) → (a && false) ≡ false
and_false true = refl
and_false false = refl

module _ (u : Unicode) (clock : Clock) where
  -- The test of a key, by the keys of the input method.
  by_keys : ℕ → InputMethod → Bool
  by_keys key_val im =
      if (key_val == Keysym.key_backspace) || is_word_break_symbol (rune_of key_val)
      then true
      else Chars.can_process_key (rune_of key_val) im.keys

  valid_without_tab :
      (e : EngineCore) (key_val : ℕ)
      → (key_val == Keysym.key_tab) ≡ false
      → is_valid_key_val u clock e key_val ≡ by_keys key_val e.preeditor.input_method
  unfolding is_valid_key_val can_process_key by_keys
  valid_without_tab e key_val no_tab =
      rw (no_tab, is_valid_key_val) (rw (and_false (has_macro_text u clock e)) refl)

  -- A key but Tab is as printable under an engine with the same input method.
  is_printable_key-same :
      (e e' : EngineCore) (state key_val : ℕ)
      → (key_val == Keysym.key_tab) ≡ false
      → e'.preeditor.input_method ≡ e.preeditor.input_method
      → is_printable_key u clock e' state key_val ≡ is_printable_key u clock e state key_val
  unfolding is_printable_key
  is_printable_key-same e e' state key_val no_tab same = ap (is_valid_state state &&◌) (
      valid_without_tab e' key_val no_tab
      ∙ (ap (by_keys key_val) same ∙ sym (valid_without_tab e key_val no_tab)))

  module _ (re : Regexes) where
    -- A text that does not end the word comes from a printable key.
    composing_key :
        (e : EngineCore) (key_val state : ℕ)
        → WhenSome
            (λ (c : CommitText).
              c.is_word_break ≡ false → is_printable_key u clock e state key_val ≡ true)
            (get_commit_text u clock re e key_val state)
    unfolding get_commit_text
    composing_key e key_val state =
        if-elim (WhenSome Composing) (printable && w_suppressed u e (rune_of key_val)) _ _
          (λ q. raw (and_left printable _ q))
          (λ _.
            if-elim (WhenSome Composing)
              (printable && can_process_key e.preeditor (rune_of key_val)) _ _
              (λ q.
                WhenSome-intro Composing (typed_text u clock re e old_text key_rune)
                  (λ c _ _. and_left printable _ q))
              (λ _.
                if-elim (WhenSome Composing) (macro_enabled e && (printable && is_prefix)) _ _
                  (λ q. raw (
                    and_left printable is_prefix
                      (and_right (macro_enabled e) (printable && is_prefix) q)))
                  (λ _.
                    if-elim (WhenSome Composing)
                      (macro_enabled e && has_key u e.macro_table old_text) _ _ (λ _ c. cc)
                      (λ _.
                        WhenSome-bind {0, 0, 0, 0} (λ _. Unit) Composing
                          (handle_non_vn_word u clock re e key_val state) _
                          (WhenSome-intro (λ _. Unit)
                            (handle_non_vn_word u clock re e key_val state) (λ _ _. tt))
                          (λ _ _ c. cc)))))
      where
        printable : Bool
        printable = is_printable_key u clock e state key_val

        Composing : CommitText → Type 0
        Composing c = c.is_word_break ≡ false → printable ≡ true

        old_text : Text
        old_text = get_preedit_string u clock e

        key_rune : ℕ
        key_rune =
            if has_flag state Keysym.mod_lock
            then bracket_upper e (rune_of key_val)
            else rune_of key_val

        is_prefix : Bool
        is_prefix = has_prefix u e.macro_table (old_text ++ key_text printable (rune_of key_val))

        raw :
            printable ≡ true
            → WhenSome Composing (
                press u re e (rune_of key_val) Mode.english >>= (λ p.
                  some (commit_of p (old_text ++ key_text printable (rune_of key_val)) false)))
        raw h =
            WhenSome-intro Composing
              (press u re e (rune_of key_val) Mode.english >>= (λ p.
                some (commit_of p (old_text ++ key_text printable (rune_of key_val)) false)))
              (λ _ _ _. h)

    show_or_commit-PassesCleanly :
        (e0 e : EngineCore) (key_val state : ℕ) (c : CommitText)
        → (key_val == Keysym.key_tab) ≡ false
        → c.engine.preeditor.input_method ≡ e.preeditor.input_method
        → (c.is_word_break ≡ false → is_printable_key u clock e state key_val ≡ true)
        → PassesCleanly e0 (show_or_commit u clock re [] key_val state c)
    unfolding PassesCleanly commit_preedit_and_reset_for_wbs reset
    show_or_commit-PassesCleanly e0 e key_val state c no_tab same composing =
        if-elim (PassesCleanly e0) c.is_word_break _ _ (λ _ _. inr refl)
          (λ q h.
            let printable =
              is_printable_key-same e c.engine state key_val no_tab same ∙ composing q in
            cc)

    press_backspace-PassesCleanly :
        (e0 e : EngineCore)
        → e.preeditor ≡ e0.preeditor
        → PassesCleanly e0 (press_backspace u clock re e [])
    unfolding PassesCleanly press_backspace
    press_backspace-PassesCleanly e0 e same =
        if-elim (PassesCleanly e0) (length (get_preedit_string u clock e) == 1) _ _ (λ _ h. cc)
          (λ _.
            if-elim (PassesCleanly e0) (ltb 0 (get_raw_key_len u e)) _ _ (λ _ h. cc)
              (λ _ _. inl (refl, same)))

    press_tab-PassesCleanly : (e0 e : EngineCore) → PassesCleanly e0 (press_tab u clock re e [])
    unfolding PassesCleanly press_tab commit_preedit_and_reset reset
    press_tab-PassesCleanly e0 e = elim (Option-cases (get_macro_text u clock e)) [
      | inl q ↦ rw (q, press_tab) (λ _. inr refl)
      | inr (t, q) ↦ rw (q, press_tab) (λ _. inr refl)
    ]

    module _ (idem : (c : ℕ) → to_lower u (to_lower u c) ≡ to_lower u c) where
      preedit_process_key_event-PassesCleanly :
          (e0 e : EngineCore) (key_val state : ℕ)
          → e.preeditor ≡ e0.preeditor
          → IsCoherent u e
          → WhenSome (PassesCleanly e0) (preedit_process_key_event u clock re e [] key_val state)
      unfolding preedit_process_key_event PassesCleanly
      preedit_process_key_event-PassesCleanly e0 e key_val state same h =
          if-elim (WhenSome (PassesCleanly e0))
            (not (can_process_key e.preeditor (rune_of key_val))
              && ((get_raw_key_len u e == 0) && not (macro_enabled e)))
            _ _ (λ _ _. inl (refl, same))
            (λ _.
              if-elim (WhenSome (PassesCleanly e0)) (key_val == Keysym.key_backspace) _ _
                (λ _. press_backspace-PassesCleanly e0 e same)
                (λ _.
                  if-elim (WhenSome (PassesCleanly e0)) (key_val == Keysym.key_tab) _ _
                    (λ _. press_tab-PassesCleanly e0 e) (λ no_tab. texts no_tab)))
        where
          Composing : CommitText → Type 0
          Composing c = c.is_word_break ≡ false → is_printable_key u clock e state key_val ≡ true

          Both : CommitText → Type 0
          Both c = Follows u e c.engine × Composing c

          texts :
              (key_val == Keysym.key_tab) ≡ false
              → WhenSome (PassesCleanly e0) (
                  get_commit_text u clock re e key_val state
                  >>= (λ made. some (show_or_commit u clock re [] key_val state made)))
          texts no_tab =
              WhenSome-bind Both (PassesCleanly e0) (get_commit_text u clock re e key_val state) _
                (WhenSome-intro Both (get_commit_text u clock re e key_val state) (λ c q. (
                  WhenSome-at (λ (c : CommitText). Follows u e c.engine) c q
                      (get_commit_text-Follows u clock re idem e e key_val state (Follows-refl h)),
                  WhenSome-at Composing c q (composing_key e key_val state),
                )))
                (λ c b.
                  show_or_commit-PassesCleanly e0 e key_val state c no_tab
                    (ap (λ s. s.input_method) b.0.same) b.1)

      process_key_event-PassesCleanly :
          (e : EngineCore) (key_val state : ℕ)
          → IsCoherent u e
          → WhenSome (PassesCleanly e) (process_key_event u clock re e key_val state)
      unfolding process_key_event PassesCleanly
      process_key_event-PassesCleanly e key_val state h =
          if-elim (WhenSome (PassesCleanly e)) (has_flag state Keysym.mod_release) _ _
            (λ _ _. inl (refl, refl))
            (λ _.
              if-elim (WhenSome (PassesCleanly e)) (is_modifier_keysym key_val) _ _
                (λ _ _. inl (refl, refl))
                (λ _.
                  if-elim (WhenSome (PassesCleanly e)) (not (is_valid_state state)) _ _
                    (λ _ _. inl (refl, refl))
                    (λ _.
                      preedit_process_key_event-PassesCleanly e capital.0 capital.1 state
                        (apply_sentence_capitalize-preeditor disarmed key_val state)
                        (apply_sentence_capitalize-Follows u disarmed key_val state
                          (Follows-refl closed)).coherent)))
        where
          disarmed : EngineCore
          disarmed = record e { double_space_armed = false }

          capital : EngineCore × ℕ
          capital = apply_sentence_capitalize disarmed key_val state

          closed : IsCoherent u disarmed
          closed = record { sound = h.sound; armed = λ c. cc; waiting = h.waiting }

      -- When an event in a coherent engine returns and leaves its key to the program, either it gave no
      -- action and left the typing session as it was, or the composition of the session is empty behind
      -- it. Lower case is taken to be stable under lowering.
      pub process_key_event-passed :
          (e : EngineCore) (key_val state : ℕ) (ev : Event)
          → IsCoherent u e
          → process_key_event u clock re e key_val state ≡ some ev
          → ev.handled ≡ false
          → ((ev.actions ≡ []) × (ev.engine.preeditor ≡ e.preeditor))
            ⊎ (ev.engine.preeditor.composition ≡ [])
      unfolding PassesCleanly
      process_key_event-passed e key_val state ev h q =
          WhenSome-at (PassesCleanly e) ev q (process_key_event-PassesCleanly e key_val state h)
