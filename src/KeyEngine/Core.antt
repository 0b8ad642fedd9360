-- ===== src/KeyEngine/Core.antt =====
-- crates/pinakey-engine/src/engine.rs: `EngineCore`, the state of the key event engine, how it is built from a
-- configuration, and what it reads of itself. What the process's surroundings give is a parameter: the Unicode
-- tables, the two matchers of the crate regex, the files, and the dates that the crate chrono writes.
use pinakey.Base.{
  ℕ, ◌-◌, ltb, if◌then◌else◌, has_flag, Bool, true, false, not, ◌&&◌, ◌||◌, Option, none, some,
  List, [], ◌∷◌, ◌++◌, Text, text_eq, codes,
}
use pinakey.Rules.{Rule, effect_type, is_tone}
use pinakey.Rules.Flag
use pinakey.Chars.{Unicode}
use pinakey.InputMethod.{Dsl, parse_rules, build_input_method, contains}
use pinakey.InputMethod.Builtin.{is_simple_telex}
use pinakey.Dict
use pinakey.Dict.{Dictionary}
use pinakey.Config.{Config, find_definition}
use pinakey.Config.Flags.{ib_macro_enabled, ib_spell_check_with_dicts, ib_auto_capitalize_macro}
use pinakey.Emoji.Macro
use pinakey.Emoji.Macro.{
  MacroTable, get_text, has_key, has_prefix, set_enabled, expand_placeholders,
}
use pinakey.Engine.{PinaKeyEngine, new_engine}
use pinakey.KeyEngine.Transport
use pinakey.KeyEngine.Transport.{TransportPref, TransportRules, append_layer, ascii_lowercase}

pub data Action : Type 0 where
  commit : Text → Action
  update_preedit : Text → ℕ → Bool → Action
  update_auxiliary : Text → Bool → Action
  hide_preedit : Action
  hide_auxiliary : Action
  hide_lookup_table : Action

-- `ReadyToCapitalize`: the next letter starts a sentence.
pub data SentenceState : Type 0 where
  idle after_punct ready_to_capitalize : SentenceState

pub data ConfigSource : Type 0 where
  name : Text → ConfigSource
  injected : ConfigSource

pub record EngineCore : Type 0 where
  pub preeditor : PinaKeyEngine
  pub config : Config
  pub macro_table : MacroTable
  pub wm_class : Text
  pub dictionary : Option Dictionary
  pub sentence : SentenceState
  pub double_space_armed : Bool
  pub transport_rules : TransportRules
  pub config_source : ConfigSource

-- The files of the surroundings, `none` where one cannot be read, with the two texts that are part of the
-- binary.
pub record Files : Type 0 where
  pub macro_file : Text → Option Text
  pub user_dict : Option Text
  pub bundled_dict : Text
  pub embedded_rules : Text
  pub system_rules : Option Text
  pub user_rules : Option Text

-- `macro_name`.
abbrev pub macro_name : ConfigSource → Text
macro_name (ConfigSource.name n) = n
macro_name ConfigSource.injected = codes "PinaKey"

-- A line whose rules of the key `w` set a tone.
abbrev pub any_tone : List Rule → Bool
any_tone [] = false
any_tone (r ∷ rules) = is_tone (effect_type r) || any_tone rules

module _ (u : Unicode) (d : Dsl) where
  unfoldable pub is_tone_line : Text → Bool
  unfolding parse_rules
  is_tone_line line = any_tone (parse_rules u d b'w' line)

  -- `w` is given the letter `Ư`, where its line has no letter and sets no tone.
  unfoldable pub add_w_shortcut : List (Text × Text) → List (Text × Text)
  unfolding is_tone_line contains
  add_w_shortcut [] = []
  add_w_shortcut ((k, v) ∷ pairs) =
      (
        k,
        if text_eq k (codes "w") && (not (contains (codes "__") v) && not (is_tone_line v))
            then v ++ codes "__Ư"
            else v,
      )
      ∷ add_w_shortcut pairs

  abbrev pub definition_or_nothing : Option (List (Text × Text)) → List (Text × Text)
  definition_or_nothing none = []
  definition_or_nothing (some pairs) = pairs

  -- Free tone marking is off for simple Telex; `flags & !FREE_TONE_MARKING` is a subtraction where
  -- the bit is set.
  unfoldable pub build_preeditor : Config → PinaKeyEngine
  unfolding find_definition add_w_shortcut build_input_method is_simple_telex new_engine
  build_preeditor c =
      let pairs =
        definition_or_nothing (find_definition c.input_method_definitions c.input_method) in
      let im =
        build_input_method u d c.input_method
          (if ltb 0 c.w_shortcut then add_w_shortcut pairs else pairs) in
      new_engine im (
        if is_simple_telex c.input_method && has_flag c.flags Flag.free_tone_marking
        then c.flags - Flag.free_tone_marking
        else c.flags)

module _ (u : Unicode) (files : Files) where
  abbrev pub load_if_there : MacroTable → Option Text → MacroTable
  load_if_there m none = m
  load_if_there m (some content) = Macro.load u m content

  unfoldable pub build_macro_table : Config → Text → MacroTable
  unfolding Macro.new set_enabled Macro.load
  build_macro_table c engine_name =
      let m = Macro.new (has_flag c.ib_flags ib_auto_capitalize_macro) in
      if has_flag c.ib_flags ib_macro_enabled
      then set_enabled (load_if_there m (files.macro_file engine_name)) true
      else m

  abbrev pub merge_if_there : Dictionary → Option Text → Dictionary
  merge_if_there dict none = dict
  merge_if_there dict (some text) = Dict.merge dict (Dict.load_str u text)

  unfoldable pub load_dictionary : Config → Option Dictionary
  unfolding Dict.load_str Dict.merge
  load_dictionary c =
      if has_flag c.ib_flags ib_spell_check_with_dicts
      then some (merge_if_there (Dict.load_str u files.bundled_dict) files.user_dict)
      else none

  abbrev pub append_if_there : TransportRules → Option Text → TransportRules
  append_if_there r none = r
  append_if_there r (some text) = append_layer u r text

  unfoldable pub load_transport_rules : TransportRules
  unfolding append_layer Transport.empty
  load_transport_rules =
      append_if_there
        (append_if_there (append_layer u Transport.empty files.embedded_rules) files.system_rules)
        files.user_rules
