-- ===== src/KeyEngine/Invariant/Handler.antt =====
-- The key event handler of crates/pinakey-engine/src/engine.rs keeps the engine coherent, and its settings.
use pinakey.Base.{
  ℕ, ◌==◌, ltb, has_flag, Bool, true, false, not, ◌&&◌, Option, some, List, [], ◌++◌, ◌≡◌, refl,
  elem, length, Text, if-elim, WhenSome, WhenSome-bind, Option-cases, inl, inr, ◌>>=◌,
}
use pinakey.Rules.Mode
use pinakey.Chars.{Unicode, to_lower, is_word_break_symbol, has_any_vietnamese_rune}
use pinakey.Emoji.Macro.{has_key, has_prefix}
use pinakey.Transform.Generate.{Regexes}
use pinakey.Engine.{can_process_key}
use pinakey.KeyEngine.Core.{Action, SentenceState, EngineCore}
use pinakey.KeyEngine.Keysym
use pinakey.KeyEngine.Keysym.{is_modifier_keysym}
use pinakey.KeyEngine.View.{
  Clock, rune_of, is_valid_state, text_in, macro_enabled, get_macro_text,
  should_fallback_to_english, get_input_mode, get_preedit_string, must_fallback_to_english,
  get_raw_key_len,
}
use pinakey.KeyEngine.Commit.{apply_sentence_capitalize}
use pinakey.KeyEngine.Handler.{
  Event, CommitText, commit_of, last_byte, w_suppressed, is_printable_key, key_text, press, restore,
  ends_with, ends_with_byte, text_now, press_if, handle_non_vn_word, close_word, appended_text,
  typed_text, get_commit_text, show_or_commit, press_backspace, press_tab,
  preedit_process_key_event, process_key_event,
}
use pinakey.KeyEngine.Invariant.{Follows}
use pinakey.KeyEngine.Invariant.Session.{
  drop_char-Follows, press-Follows, press_if-Follows, restore-Follows, close_word-Follows,
}
use pinakey.KeyEngine.Invariant.Commit.{
  Follows-armed, Follows-sentence, commit_preedit_and_reset-Follows,
  commit_preedit_and_reset_for_wbs-Follows, apply_sentence_capitalize-Follows,
}

module _ (u : Unicode) (clock : Clock) (re : Regexes)
    (idem : (c : ℕ) → to_lower u (to_lower u c) ≡ to_lower u c) (e : EngineCore) where
  abbrev TextFollows : CommitText → Type 0
  TextFollows c = Follows u e c.engine

  abbrev Kept : EngineCore × Text → Type 0
  Kept r = Follows u e r.0

  abbrev EventFollows : Event → Type 0
  EventFollows ev = Follows u e ev.engine

  then_text :
      (o : Option EngineCore) (f : EngineCore → CommitText)
      → ((e' : EngineCore) → Follows u e e' → TextFollows (f e'))
      → WhenSome (Follows u e) o
      → WhenSome TextFollows (o >>= (λ e'. some (f e')))
  then_text o f k h = WhenSome-bind (Follows u e) TextFollows o _ h k

  handle_non_vn_word-Follows :
      (e' : EngineCore) (key_val state : ℕ)
      → Follows u e e'
      → WhenSome Kept (handle_non_vn_word u clock re e' key_val state)
  unfolding handle_non_vn_word
  handle_non_vn_word-Follows e' key_val state h =
      if-elim (WhenSome Kept)
        (has_any_vietnamese_rune u (get_preedit_string u clock e') && must_fallback_to_english u e')
        _ _
        (λ _.
          WhenSome-bind (Follows u e) Kept (restore u re e') _ (restore-Follows u re idem e' h)
            (λ restored r.
              WhenSome-bind (Follows u e) Kept (press_if u re printable restored (rune_of key_val))
                _ (press_if-Follows u re idem printable restored (rune_of key_val) r) (λ _ p. p)))
        (λ _.
          WhenSome-bind (Follows u e) Kept (press_if u re printable e' (rune_of key_val)) _
            (press_if-Follows u re idem printable e' (rune_of key_val) h) (λ _ p. p))
    where
      printable : Bool
      printable = is_printable_key u clock e' state key_val

  appended_text-Follows :
      (e' : EngineCore) (old_text : Text) (key_rune : ℕ)
      → Follows u e e'
      → WhenSome TextFollows (appended_text u clock re e' old_text key_rune)
  unfolding appended_text
  appended_text-Follows e' old_text key_rune h =
      if-elim (WhenSome TextFollows) (ends_with_byte (text_in u e' Mode.vietnamese) key_rune) _ _
        (λ _. closed (is_word_break_symbol (last_byte (get_preedit_string u clock e'))) _)
        (λ _.
          if-elim (WhenSome TextFollows) (ends_with (text_now u clock e') key_rune) _ _
            (λ _. closed (is_word_break_symbol key_rune) _) (λ _. h))
    where
      closed :
          (is_wbs : Bool) (t : Text)
          → WhenSome TextFollows (close_word u re e' is_wbs >>= (λ p. some (commit_of p t is_wbs)))
      closed is_wbs t =
          then_text (close_word u re e' is_wbs) (λ p. commit_of p t is_wbs) (λ _ r. r)
            (close_word-Follows u re idem e' is_wbs h)

  input_mode_forward :
      (e' : EngineCore) → has_flag (get_input_mode u clock e') Mode.in_reverse_order ≡ false
  unfolding get_input_mode
  input_mode_forward e' =
      if-elim (λ m. has_flag m Mode.in_reverse_order ≡ false)
        (should_fallback_to_english u clock e' false) Mode.english Mode.vietnamese (λ _. refl)
        (λ _. refl)

  typed_text-Follows :
      (e' : EngineCore) (old_text : Text) (key_rune : ℕ)
      → Follows u e e'
      → WhenSome TextFollows (typed_text u clock re e' old_text key_rune)
  unfolding typed_text
  typed_text-Follows e' old_text key_rune h =
      WhenSome-bind (Follows u e) TextFollows (press u re e' key_rune (get_input_mode u clock e')) _
        (press-Follows u re idem e' key_rune (get_input_mode u clock e') (input_mode_forward e') h)
        (λ pressed p.
          if-elim (WhenSome TextFollows)
            (elem key_rune pressed.preeditor.input_method.appending_keys) _ _
            (λ _. appended_text-Follows pressed old_text key_rune p)
            (λ _. if-elim (WhenSome TextFollows) (macro_enabled pressed) _ _ (λ _. p) (λ _. p)))

  pub get_commit_text-Follows :
      (e' : EngineCore) (key_val state : ℕ)
      → Follows u e e'
      → WhenSome TextFollows (get_commit_text u clock re e' key_val state)
  unfolding get_commit_text
  get_commit_text-Follows e' key_val state h =
      if-elim (WhenSome TextFollows) (printable && w_suppressed u e' (rune_of key_val)) _ _
        (λ _. raw)
        (λ _.
          if-elim (WhenSome TextFollows)
            (printable && can_process_key e'.preeditor (rune_of key_val)) _ _
            (λ _. typed_text-Follows e' _ _ h)
            (λ _.
              if-elim (WhenSome TextFollows)
                (macro_enabled e' && (printable && has_prefix u e'.macro_table (old_text ++ key_s)))
                _ _ (λ _. raw)
                (λ _.
                  if-elim (WhenSome TextFollows)
                    (macro_enabled e' && has_key u e'.macro_table old_text) _ _ (λ _. h)
                    (λ _.
                      WhenSome-bind Kept TextFollows
                        (handle_non_vn_word u clock re e' key_val state) _
                        (handle_non_vn_word-Follows e' key_val state h) (λ _ r. r)))))
    where
      printable : Bool
      printable = is_printable_key u clock e' state key_val

      old_text : Text
      old_text = get_preedit_string u clock e'

      key_s : Text
      key_s = key_text printable (rune_of key_val)

      raw : WhenSome TextFollows (
          press u re e' (rune_of key_val) Mode.english
          >>= (λ p. some (commit_of p (old_text ++ key_s) false)))
      raw =
          then_text (press u re e' (rune_of key_val) Mode.english)
            (λ p. commit_of p (old_text ++ key_s) false) (λ _ r. r)
            (press-Follows u re idem e' (rune_of key_val) Mode.english refl h)

  press_backspace-Follows :
      (e' : EngineCore) (out : List Action)
      → Follows u e e'
      → EventFollows (press_backspace u clock re e' out)
  unfolding press_backspace
  press_backspace-Follows e' out h =
      if-elim EventFollows (length (get_preedit_string u clock e') == 1) _ _
        (λ _. commit_preedit_and_reset-Follows u (e', out) [] h)
        (λ _.
          if-elim EventFollows (ltb 0 (get_raw_key_len u e')) _ _ (λ _. drop_char-Follows u true h)
            (λ _. h))

  press_tab-Follows :
      (e' : EngineCore) (out : List Action)
      → Follows u e e'
      → EventFollows (press_tab u clock re e' out)
  unfolding press_tab
  press_tab-Follows e' out h = elim (Option-cases (get_macro_text u clock e')) [
    | inl q ↦ rw (q, press_tab) (commit_preedit_and_reset-Follows u (e', out) _ h)
    | inr (t, q) ↦ rw (q, press_tab) (commit_preedit_and_reset-Follows u (e', out) t h)
  ]

  show_or_commit-Follows :
      (out : List Action) (key_val state : ℕ) (c : CommitText)
      → TextFollows c
      → EventFollows (show_or_commit u clock re out key_val state c)
  show_or_commit-Follows out key_val state c h =
      if-elim EventFollows c.is_word_break _ _
        (λ _. commit_preedit_and_reset_for_wbs-Follows u (c.engine, out) c.text _ h) (λ _. h)

  preedit_process_key_event-Follows :
      (e' : EngineCore) (out : List Action) (key_val state : ℕ)
      → Follows u e e'
      → WhenSome EventFollows (preedit_process_key_event u clock re e' out key_val state)
  unfolding preedit_process_key_event
  preedit_process_key_event-Follows e' out key_val state h =
      if-elim (WhenSome EventFollows)
        (not (can_process_key e'.preeditor (rune_of key_val))
          && ((get_raw_key_len u e' == 0) && not (macro_enabled e')))
        _ _ (λ _. h)
        (λ _.
          if-elim (WhenSome EventFollows) (key_val == Keysym.key_backspace) _ _
            (λ _. press_backspace-Follows e' out h)
            (λ _.
              if-elim (WhenSome EventFollows) (key_val == Keysym.key_tab) _ _
                (λ _. press_tab-Follows e' out h)
                (λ _.
                  WhenSome-bind TextFollows EventFollows
                    (get_commit_text u clock re e' key_val state) _
                    (get_commit_text-Follows e' key_val state h)
                    (show_or_commit-Follows out key_val state))))

  pub process_key_event-Follows :
      (e' : EngineCore) (key_val state : ℕ)
      → Follows u e e'
      → WhenSome EventFollows (process_key_event u clock re e' key_val state)
  unfolding process_key_event
  process_key_event-Follows e' key_val state h =
      if-elim (WhenSome EventFollows) (has_flag state Keysym.mod_release) _ _ (λ _. h)
        (λ _.
          if-elim (WhenSome EventFollows) (is_modifier_keysym key_val) _ _ (λ _. h)
            (λ _.
              if-elim (WhenSome EventFollows) (not (is_valid_state state)) _ _
                (λ _. Follows-sentence u disarmed SentenceState.idle (λ c. cc) closed)
                (λ _.
                  preedit_process_key_event-Follows
                    (apply_sentence_capitalize disarmed key_val state).0 []
                    (apply_sentence_capitalize disarmed key_val state).1 state
                    (apply_sentence_capitalize-Follows u disarmed key_val state closed))))
    where
      disarmed : EngineCore
      disarmed = record e' { double_space_armed = false }

      closed : Follows u e disarmed
      closed = Follows-armed u e' false (λ c. cc) h
