-- ===== src/KeyEngine/Commit.antt =====
-- crates/pinakey-engine/src/engine.rs: the methods of `EngineCore` that make it anew, that write text out, and that
-- follow the sentence. A method that pushes to `out` takes the actions so far and gives them back with its own.
use pinakey.Base.{
  ℕ, ◌-◌, ◌==◌, leb, if◌then◌else◌, has_flag, Bool, true, false, not, ◌&&◌, ◌||◌, List, [], ◌∷◌,
  ◌++◌, length, reverse, Text,
}
use pinakey.Chars.{Unicode}
use pinakey.InputMethod.{Dsl}
use pinakey.Config.{Config, FileContent, load_config}
use pinakey.Config.Flags.{
  ib_macro_enabled, ib_no_underline, ib_workaround_for_fb_messenger, ib_capitalize_sentence,
  ib_double_space_period,
}
use pinakey.Engine.{reset}
use pinakey.KeyEngine.Core.{
  Action, SentenceState, ConfigSource, EngineCore, Files, macro_name, build_preeditor,
  build_macro_table, load_dictionary, load_transport_rules,
}
use pinakey.KeyEngine.Keysym
use pinakey.KeyEngine.View.{rune_of, is_valid_state, encode_text}

-- `self` and `out`.
abbrev pub Output : Type 0
Output = EngineCore × List Action

abbrev pub push_action : Output → Action → Output
push_action o a = (o.0, o.1 ++ (a ∷ []))

abbrev pub clear_buffer : EngineCore → EngineCore
clear_buffer e = record e { preeditor = reset e.preeditor }

unfoldable pub reset_preeditor : EngineCore → EngineCore
reset_preeditor e = record e {
  preeditor = reset e.preeditor;
  sentence = SentenceState.idle;
  double_space_armed = false;
}

unfoldable pub set_wm_class : EngineCore → Text → EngineCore
set_wm_class e class = record e { wm_class = class }

unfoldable pub double_space_consume : EngineCore → EngineCore
double_space_consume e = record e {
  sentence =
      if has_flag e.config.ib_flags ib_capitalize_sentence
      then SentenceState.ready_to_capitalize
      else e.sentence;
  double_space_armed = false;
}

module _ (u : Unicode) (d : Dsl) where
  unfoldable pub rebuild_preeditor : EngineCore → EngineCore
  unfolding build_preeditor
  rebuild_preeditor e = record e { preeditor = build_preeditor u d e.config }

module _ (u : Unicode) (d : Dsl) (files : Files) where
  unfoldable pub with_source : Config → ConfigSource → EngineCore
  unfolding build_preeditor build_macro_table load_dictionary load_transport_rules
  with_source c source = record {
    preeditor = build_preeditor u d c;
    config = c;
    macro_table = build_macro_table u files c (macro_name source);
    wm_class = [];
    dictionary = load_dictionary u files c;
    sentence = SentenceState.idle;
    double_space_armed = false;
    transport_rules = load_transport_rules u files;
    config_source = source;
  }

  unfoldable pub new : Config → EngineCore
  unfolding with_source
  new c = with_source c ConfigSource.injected

  unfoldable pub new_named : Config → Text → EngineCore
  unfolding with_source
  new_named c n = with_source c (ConfigSource.name n)

  -- Under the name of a file, and with what reading it meets.
  abbrev pub reload_named : EngineCore → Text → FileContent → EngineCore
  reload_named e n content =
      let c = (load_config content).0 in
      reset_preeditor (record e {
        config = c;
        preeditor = build_preeditor u d c;
        macro_table = build_macro_table u files c n;
        dictionary = load_dictionary u files c;
        transport_rules = load_transport_rules u files;
      })

  abbrev pub reload_from : ConfigSource → EngineCore → (Text → FileContent) → EngineCore × Bool
  reload_from ConfigSource.injected e config_file = (e, false)
  reload_from (ConfigSource.name n) e config_file = (reload_named e n (config_file n), true)

  unfoldable pub reload_config : EngineCore → (Text → FileContent) → EngineCore × Bool
  unfolding load_config reset_preeditor build_preeditor build_macro_table load_dictionary
      load_transport_rules
  reload_config e config_file = reload_from e.config_source e config_file

  unfoldable pub reload_data : EngineCore → EngineCore
  unfolding build_macro_table load_dictionary
  reload_data e = record e {
    macro_table =
        if has_flag e.config.ib_flags ib_macro_enabled
        then build_macro_table u files e.config (macro_name e.config_source)
        else e.macro_table;
    dictionary = load_dictionary u files e.config;
  }

unfoldable pub update_preedit : EngineCore → List Action → Text → List Action
unfolding encode_text
update_preedit e out processed_str =
    let encoded = encode_text e processed_str in
    if length encoded == 0
    then out ++ (Action.hide_preedit ∷ Action.hide_auxiliary ∷ Action.commit [] ∷ [])
    else out
      ++ (Action.update_preedit encoded (length encoded)
            (not (has_flag e.config.ib_flags ib_no_underline))
          ∷ [])

abbrev pub ends_sentence : ℕ → Bool
ends_sentence c = (c == b'.') || ((c == b'!') || (c == b'?'))

module _ (u : Unicode) where
  -- A space behind a letter or a digit, on the text in reverse.
  abbrev pub is_word_and_space : Text → Bool
  is_word_and_space [] = false
  is_word_and_space (_ ∷ []) = false
  is_word_and_space (c ∷ before ∷ _) = (c == b' ') && u.is_alphanumeric before

  unfoldable pub track_double_space_commit : EngineCore → Text → EngineCore
  track_double_space_commit e s =
      if has_flag e.config.ib_flags ib_double_space_period
      then record e { double_space_armed = is_word_and_space (reverse s) }
      else e

  -- The state after a text, read in reverse; the second argument is `saw_ws`.
  unfoldable pub sentence_after : Text → Bool → SentenceState
  sentence_after [] saw_ws = SentenceState.idle
  sentence_after (c ∷ before) saw_ws =
      let rest = sentence_after before true in
      if u.is_whitespace c
      then rest
      else if ends_sentence c
      then (if saw_ws then SentenceState.ready_to_capitalize else SentenceState.after_punct)
      else SentenceState.idle

  unfoldable pub track_sentence_commit : EngineCore → Text → EngineCore
  unfolding sentence_after
  track_sentence_commit e s =
      if has_flag e.config.ib_flags ib_capitalize_sentence
      then record e { sentence = sentence_after (reverse s) false }
      else e

  unfoldable pub commit_text : Output → Text → Output
  unfolding track_sentence_commit track_double_space_commit encode_text
  commit_text o [] = o
  commit_text (e, out) (c ∷ s) =
      let tracked = track_double_space_commit (track_sentence_commit e (c ∷ s)) (c ∷ s) in
      (tracked, out ++ (Action.commit (encode_text tracked (c ∷ s)) ∷ []))

  unfoldable pub commit_preedit_and_reset : Output → Text → Output
  unfolding commit_text
  commit_preedit_and_reset (e, out) s =
      let written =
        commit_text
          (e, out ++ (Action.hide_preedit ∷ Action.hide_auxiliary ∷ Action.hide_lookup_table ∷ []))
          s in
      (clear_buffer written.0, written.1)

  unfoldable pub commit_preedit_and_reset_for_wbs : Output → Text → Bool → Output
  unfolding commit_text
  commit_preedit_and_reset_for_wbs o s is_wbs =
      let written =
        if has_flag o.0.config.ib_flags ib_workaround_for_fb_messenger || is_wbs
        then push_action (commit_text o s) Action.hide_preedit
        else commit_text (push_action o Action.hide_preedit) s in
      let hidden =
        push_action (push_action written Action.hide_auxiliary) Action.hide_lookup_table in
      (clear_buffer hidden.0, hidden.1)

abbrev pub is_blank_key : ℕ → Bool
is_blank_key key_val = (rune_of key_val == b' ') || (key_val == Keysym.key_return)

abbrev pub is_lower_letter : ℕ → Bool
is_lower_letter c = leb b'a' c && leb c b'z'

-- The three arms, where the configuration has capitals.
abbrev pub capitalize_in : SentenceState → EngineCore → ℕ → ℕ → EngineCore × ℕ
capitalize_in SentenceState.idle e key_val state = (e, key_val)
capitalize_in SentenceState.after_punct e key_val state = (
  record e {
    sentence =
        if is_blank_key key_val then SentenceState.ready_to_capitalize else SentenceState.idle;
  },
  key_val,
)
capitalize_in SentenceState.ready_to_capitalize e key_val state =
    if is_blank_key key_val then (e, key_val) else (
      record e { sentence = SentenceState.idle },
      if is_lower_letter (rune_of key_val) && is_valid_state state then key_val - 32 else key_val,
    )

-- The second value is the key with which the handler goes on.
unfoldable pub apply_sentence_capitalize : EngineCore → ℕ → ℕ → EngineCore × ℕ
unfolding rune_of is_valid_state
apply_sentence_capitalize e key_val state =
    if has_flag e.config.ib_flags ib_capitalize_sentence
    then capitalize_in e.sentence e key_val state
    else (e, key_val)
