-- ===== src/KeyEngine/Handler.antt =====
-- crates/pinakey-engine/src/engine.rs: the handler of a key event. `none` is the panic on `vowels[0]` of the typing session
-- (Engine); the methods that call `process_key` have it as a result, and no other does.
use pinakey.Base.{
  ℕ, ◌==◌, ltb, if◌then◌else◌, has_flag, Bool, true, false, not, ◌&&◌, ◌||◌, Option, none, some,
  List, [], ◌∷◌, ◌++◌, length, is_empty, elem, Text, ◌>>=◌,
}
use pinakey.Rules.Mode
use pinakey.Chars.{Unicode, is_word_break_symbol, has_any_vietnamese_rune}
use pinakey.Charset.Utf8.{utf8}
use pinakey.Emoji.Macro.{has_key, has_prefix}
use pinakey.Transform.Generate.{Regexes}
use pinakey.Engine.{can_process_key, process_key, remove_last_char, restore_last_word}
use pinakey.KeyEngine.Core.{Action, SentenceState, EngineCore}
use pinakey.KeyEngine.Keysym
use pinakey.KeyEngine.Keysym.{is_modifier_keysym}
use pinakey.KeyEngine.View.{
  Clock, rune_of, is_valid_state, last_or_nul, text_in, macro_enabled, expand_macro, get_macro_text,
  has_macro_text, should_fallback_to_english, get_input_mode, get_preedit_string,
  must_fallback_to_english, get_composed_string, get_raw_key_len, bracket_upper,
}
use pinakey.KeyEngine.Commit.{
  Output, update_preedit, commit_preedit_and_reset, commit_preedit_and_reset_for_wbs,
  apply_sentence_capitalize,
}

-- What a key event leaves: the engine, whether the key is handled, and the actions.
pub record Event : Type 0 where
  pub engine : EngineCore
  pub handled : Bool
  pub actions : List Action

-- What `get_commit_text` gives: the engine, the text, and whether the word ends.
pub record CommitText : Type 0 where
  pub engine : EngineCore
  pub text : Text
  pub is_word_break : Bool

abbrev pub event_of : Output → Bool → Event
event_of o handled = record { engine = o.0; handled = handled; actions = o.1 }

abbrev pub commit_of : EngineCore → Text → Bool → CommitText
commit_of e text is_word_break = record { engine = e; text = text; is_word_break = is_word_break }

-- `s.as_bytes().last()` as a character.
abbrev pub last_byte : Text → ℕ
last_byte s = last_or_nul (utf8 s)

-- `key_s`.
abbrev pub key_text : Bool → ℕ → Text
key_text printable key_rune = if printable then key_rune ∷ [] else []

abbrev pub ends_with_byte : Text → ℕ → Bool
ends_with_byte s key_rune = not (is_empty s) && (last_byte s == key_rune)

abbrev pub ends_with : Text → ℕ → Bool
ends_with s key_rune = not (is_empty s) && (last_or_nul s == key_rune)

module _ (u : Unicode) where
  abbrev pub drop_char : EngineCore → Bool → EngineCore
  drop_char e refresh = record e { preeditor = remove_last_char u e.preeditor refresh }

  unfoldable pub w_suppressed : EngineCore → ℕ → Bool
  w_suppressed e key_rune =
      (e.config.w_shortcut == 1)
      && (((key_rune == b'w') || (key_rune == b'W')) && is_empty (text_in u e Mode.english))

  module _ (re : Regexes) where
    abbrev pub press : EngineCore → ℕ → ℕ → Option EngineCore
    press e key_rune m =
        process_key u re e.preeditor key_rune m >>= (λ p. some (record e { preeditor = p }))

    abbrev pub restore : EngineCore → Option EngineCore
    restore e =
        restore_last_word u re e.preeditor false >>= (λ p. some (record e { preeditor = p }))

    abbrev pub press_if : Bool → EngineCore → ℕ → Option EngineCore
    press_if printable e key_rune = if printable then press e key_rune Mode.english else some e

    -- The key of a symbol that ends a word is taken back, and a blank is put for it.
    abbrev pub close_word : EngineCore → Bool → Option EngineCore
    close_word e is_wbs = if is_wbs then press (drop_char e false) b' ' Mode.english else some e

  module _ (clock : Clock) where
    unfoldable pub is_valid_key_val : EngineCore → ℕ → Bool
    unfolding rune_of is_word_break_symbol get_macro_text can_process_key
    is_valid_key_val e key_val =
        if (key_val == Keysym.key_backspace) || is_word_break_symbol (rune_of key_val)
        then true
        else if has_macro_text u clock e && (key_val == Keysym.key_tab)
        then true
        else can_process_key e.preeditor (rune_of key_val)

    unfoldable pub is_printable_key : EngineCore → ℕ → ℕ → Bool
    unfolding is_valid_key_val is_valid_state
    is_printable_key e state key_val = is_valid_state state && is_valid_key_val e key_val

    -- `new_text`, of the engine behind the key.
    abbrev pub text_now : EngineCore → Text
    text_now e =
        if should_fallback_to_english u clock e true
        then text_in u e Mode.english
        else text_in u e Mode.vietnamese

    module _ (re : Regexes) where
      -- The mode 66 is `PUNCTUATION | ENGLISH`.
      unfoldable pub handle_non_vn_word : EngineCore → ℕ → ℕ → Option (EngineCore × Text)
      unfolding rune_of is_printable_key get_preedit_string has_any_vietnamese_rune
          must_fallback_to_english restore_last_word process_key
      handle_non_vn_word e key_val state =
          let key_rune = rune_of key_val in
          let printable = is_printable_key e state key_val in
          let old_text = get_preedit_string u clock e in
          let key_s = key_text printable key_rune in
          if has_any_vietnamese_rune u old_text && must_fallback_to_english u e
          then restore re e >>= (λ restored.
            press_if re printable restored key_rune
            >>= (λ e'. some (e', text_in u restored 66 ++ key_s)))
          else press_if re printable e key_rune >>= (λ e'. some (e', old_text ++ key_s))

      -- The text after a key that the input method appends; `e` is the engine behind the key.
      unfoldable pub appended_text : EngineCore → Text → ℕ → Option CommitText
      unfolding should_fallback_to_english get_preedit_string is_word_break_symbol process_key
          remove_last_char utf8
      appended_text e old_text key_rune =
          let ret = get_preedit_string u clock e in
          if ends_with_byte (text_in u e Mode.vietnamese) key_rune
          then close_word re e (is_word_break_symbol (last_byte ret))
            >>= (λ e'. some (commit_of e' ret (is_word_break_symbol (last_byte ret))))
          else if ends_with (text_now e) key_rune
          then close_word re e (is_word_break_symbol key_rune) >>= (λ e'.
            some (commit_of e' (old_text ++ (key_rune ∷ [])) (is_word_break_symbol key_rune)))
          else some (commit_of e ret false)

      -- The branch of a key that the session can process, `key_rune` after Caps Lock.
      unfoldable pub typed_text : EngineCore → Text → ℕ → Option CommitText
      unfolding get_input_mode process_key appended_text macro_enabled get_preedit_string elem
      typed_text e old_text key_rune = press re e key_rune (get_input_mode u clock e) >>= (λ e'.
          if elem key_rune e'.preeditor.input_method.appending_keys
          then appended_text e' old_text key_rune
          else if macro_enabled e'
          then some (commit_of e' (text_in u e' Mode.punctuation) false)
          else some (commit_of e' (get_preedit_string u clock e') false))

      unfoldable pub get_commit_text : EngineCore → ℕ → ℕ → Option CommitText
      unfolding rune_of is_printable_key get_preedit_string w_suppressed process_key can_process_key
          bracket_upper typed_text macro_enabled has_prefix has_key expand_macro handle_non_vn_word
      get_commit_text e key_val state =
          let key_rune = rune_of key_val in
          let printable = is_printable_key e state key_val in
          let old_text = get_preedit_string u clock e in
          let key_s = key_text printable key_rune in
          if printable && w_suppressed e key_rune
          then press re e key_rune Mode.english
            >>= (λ e'. some (commit_of e' (old_text ++ key_s) false))
          else if printable && can_process_key e.preeditor key_rune
          then typed_text e old_text
              (if has_flag state Keysym.mod_lock then bracket_upper e key_rune else key_rune)
          else if macro_enabled e && (printable && has_prefix u e.macro_table (old_text ++ key_s))
          then press re e key_rune Mode.english
            >>= (λ e'. some (commit_of e' (old_text ++ key_s) false))
          else if macro_enabled e && has_key u e.macro_table old_text
          then some (commit_of e (expand_macro u clock e old_text ++ key_s) true)
          else handle_non_vn_word e key_val state >>= (λ made. some (commit_of made.0 made.1 true))

      -- `printable` is asked of the engine behind the key.
      abbrev pub show_or_commit : List Action → ℕ → ℕ → CommitText → Event
      show_or_commit out key_val state made =
          let printable = is_printable_key made.engine state key_val in
          if made.is_word_break
          then event_of (commit_preedit_and_reset_for_wbs u (made.engine, out) made.text printable)
              printable
          else event_of (made.engine, update_preedit made.engine out made.text) printable

      unfoldable pub press_backspace : EngineCore → List Action → Event
      unfolding get_preedit_string commit_preedit_and_reset get_raw_key_len remove_last_char
          update_preedit
      press_backspace e out =
          let dropped = drop_char e true in
          if length (get_preedit_string u clock e) == 1
          then event_of (commit_preedit_and_reset u (e, out) []) true
          else if ltb 0 (get_raw_key_len u e)
          then event_of (dropped, update_preedit dropped out (get_preedit_string u clock dropped))
              true
          else event_of (e, out) false

      unfoldable pub press_tab : EngineCore → List Action → Event
      unfolding get_macro_text commit_preedit_and_reset get_composed_string get_preedit_string
      press_tab e out = elim (get_macro_text u clock e) [
        | some mac_text ↦ event_of (commit_preedit_and_reset u (e, out) mac_text) true
        | none ↦
            event_of
              (commit_preedit_and_reset u (e, out)
                (get_composed_string u e (get_preedit_string u clock e)))
              false
      ]

      unfoldable pub preedit_process_key_event : EngineCore → List Action → ℕ → ℕ → Option Event
      unfolding rune_of can_process_key get_raw_key_len macro_enabled press_backspace press_tab
          get_commit_text is_printable_key commit_preedit_and_reset_for_wbs update_preedit
      preedit_process_key_event e out key_val state =
          if not (can_process_key e.preeditor (rune_of key_val))
            && ((get_raw_key_len u e == 0) && not (macro_enabled e))
          then some (event_of (e, out) false)
          else if key_val == Keysym.key_backspace
          then some (press_backspace e out)
          else if key_val == Keysym.key_tab
          then some (press_tab e out)
          else get_commit_text e key_val state
            >>= (λ made. some (show_or_commit out key_val state made))

      unfoldable pub process_key_event : EngineCore → ℕ → ℕ → Option Event
      unfolding is_modifier_keysym is_valid_state apply_sentence_capitalize
          preedit_process_key_event
      process_key_event e key_val state =
          if has_flag state Keysym.mod_release
          then some (event_of (e, []) false)
          else if is_modifier_keysym key_val
          then some (event_of (e, []) false)
          else (let disarmed : EngineCore = record e { double_space_armed = false } in
              if not (is_valid_state state)
              then some (event_of (record disarmed { sentence = SentenceState.idle }, []) false)
              else (let capital = apply_sentence_capitalize disarmed key_val state in
                  preedit_process_key_event capital.0 [] capital.1 state))
