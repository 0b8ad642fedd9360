-- ===== src/KeyEngine/View.antt =====
-- crates/pinakey-engine/src/engine.rs: what `EngineCore` reads of itself without changing it.
use pinakey.Base.{
  ℕ, ◌==◌, ltb, leb, if◌then◌else◌, has_flag, Bool, true, false, not, ◌&&◌, ◌||◌, Option, none,
  some, List, [], ◌∷◌, length, reverse, is_empty, elem, Text, code,
}
use pinakey.Rules.Mode
use pinakey.Chars.{Unicode, is_word_break_symbol, has_any_vietnamese_rune, has_any_vietnamese_vowel}
use pinakey.InputMethod.{contains}
use pinakey.Dict
use pinakey.Charset.{encode}
use pinakey.Charset.Utf8.{utf8, from_utf8_lossy}
use pinakey.Config.{default_macro_date_format, default_macro_time_format}
use pinakey.Config.Flags.{
  ib_macro_enabled, ib_auto_non_vn_restore, ib_dd_free_style, ib_spell_check_with_dicts,
  ib_auto_capitalize_macro,
}
use pinakey.Emoji.Macro.{get_text, has_key, expand_placeholders}
use pinakey.Engine
use pinakey.Engine.{PinaKeyEngine}
use pinakey.KeyEngine.Core.{EngineCore}
use pinakey.KeyEngine.Keysym
use pinakey.KeyEngine.Transport
use pinakey.KeyEngine.Transport.{TransportPref, ascii_lowercase}

-- The time now, under a format, or under the second one if the first is broken.
pub record Clock : Type 0 where
  pub formatted : Text → Text → Text

pub data MacroCase : Type 0 where
  all_small all_capital no_change : MacroCase

-- `char::from_u32(key_val).unwrap_or('\0')`.
unfoldable pub rune_of : ℕ → ℕ
rune_of key_val =
    if ltb key_val 0xd800 || (leb 0xe000 key_val && ltb key_val 0x110000) then key_val else 0

-- No modifier that makes the key a command.
unfoldable pub is_valid_state : ℕ → Bool
is_valid_state state =
    not (has_flag state Keysym.mod_control)
    && (not (has_flag state Keysym.mod_mod1)
        && (not (has_flag state Keysym.mod_mod3)
            && (not (has_flag state Keysym.mod_mod4)
                && (not (has_flag state Keysym.mod_ignored)
                    && (not (has_flag state Keysym.mod_super)
                        && (not (has_flag state Keysym.mod_hyper)
                            && not (has_flag state Keysym.mod_meta)))))))

abbrev pub last_or_nul : Text → ℕ
last_or_nul t = elim (reverse t) [ [] ↦ 0 | c ∷ _ ↦ c ]

unfoldable pub transport_for_app : EngineCore → TransportPref
unfolding Transport.lookup
transport_for_app e = Transport.lookup e.transport_rules e.wm_class

unfoldable pub is_surrounding_text_unreliable : EngineCore → Bool
unfolding transport_for_app
is_surrounding_text_unreliable e = elim (transport_for_app e) [
  | TransportPref.preedit ↦ true
  | _ ↦ false
]

unfoldable pub macro_enabled : EngineCore → Bool
macro_enabled e = has_flag e.config.ib_flags ib_macro_enabled

module _ (u : Unicode) where
  -- Behind the first character.
  abbrev pub rest_case : Text → MacroCase
  unfolding is_word_break_symbol
  rest_case [] = MacroCase.all_capital
  rest_case (c ∷ t) =
      let later = rest_case t in
      if u.is_lowercase c || is_word_break_symbol c then MacroCase.no_change else later

  unfoldable pub determine_macro_case : Text → MacroCase
  unfolding rest_case
  determine_macro_case [] = MacroCase.no_change
  determine_macro_case (c ∷ t) = if u.is_lowercase c then MacroCase.all_small else rest_case t

  unfoldable pub is_excluded_by : Text → List Text → Bool
  unfolding Dict.trim contains
  is_excluded_by w [] = false
  is_excluded_by w (p ∷ patterns) =
      let pattern = ascii_lowercase (Dict.trim u p) in
      (not (is_empty pattern) && contains pattern w) || is_excluded_by w patterns

  unfoldable pub is_program_excluded : EngineCore → Bool
  unfolding is_excluded_by
  is_program_excluded e =
      not (is_empty e.wm_class)
      && is_excluded_by (ascii_lowercase e.wm_class) e.config.english_exclude

  unfoldable pub dict_accepts : EngineCore → Text → Bool
  unfolding Dict.contains
  dict_accepts e word =
      has_flag e.config.ib_flags ib_spell_check_with_dicts
      && elim e.dictionary [ none ↦ false | some d ↦ Dict.contains u d word ]

  -- `get_processed_string`.
  abbrev pub text_in : EngineCore → ℕ → Text
  text_in e m = Engine.get_processed_string u e.preeditor m

  module _ (clock : Clock) where
    unfoldable pub expand_macro : EngineCore → Text → Text
    unfolding get_text expand_placeholders determine_macro_case
    expand_macro e s =
        let macro_text =
          expand_placeholders (clock.formatted e.config.macro_date_format default_macro_date_format)
            (clock.formatted e.config.macro_time_format default_macro_time_format)
            (get_text u e.macro_table s) in
        if has_flag e.config.ib_flags ib_auto_capitalize_macro
        then elim (determine_macro_case s) [
          | MacroCase.all_small ↦ u.text_to_lowercase macro_text
          | MacroCase.all_capital ↦ u.text_to_uppercase macro_text
          | MacroCase.no_change ↦ macro_text
        ]
        else macro_text

    unfoldable pub get_macro_text : EngineCore → Option Text
    unfolding macro_enabled has_key expand_macro
    get_macro_text e =
        let text = text_in e Mode.punctuation in
        if macro_enabled e && has_key u e.macro_table text then some (expand_macro e text) else none

    abbrev pub has_macro_text : EngineCore → Bool
    has_macro_text e = elim (get_macro_text e) [ none ↦ false | some _ ↦ true ]

    -- The mode 17 is `VIETNAMESE | LOWER_CASE`.
    unfoldable pub should_fallback_to_english : EngineCore → Bool → Bool
    unfolding get_macro_text has_any_vietnamese_vowel has_any_vietnamese_rune Engine.is_valid
    should_fallback_to_english e check_vn_rune =
        let vn_seq = text_in e 17 in
        if not (has_flag e.config.ib_flags ib_auto_non_vn_restore)
        then false
        else if is_empty vn_seq
        then false
        else if has_macro_text e
        then false
        else if has_flag e.config.ib_flags ib_dd_free_style
            && (not (has_any_vietnamese_vowel u vn_seq)
                && ((last_or_nul vn_seq == b'd') || elem (code "đ") vn_seq))
        then false
        else if check_vn_rune && not (has_any_vietnamese_rune u vn_seq)
        then false
        else not (Engine.is_valid u e.preeditor false)

    unfoldable pub get_input_mode : EngineCore → ℕ
    unfolding should_fallback_to_english
    get_input_mode e = if should_fallback_to_english e false then Mode.english else Mode.vietnamese

    unfoldable pub get_preedit_string : EngineCore → Text
    unfolding macro_enabled should_fallback_to_english
    get_preedit_string e =
        if macro_enabled e
        then text_in e Mode.punctuation
        else if should_fallback_to_english e true
        then text_in e Mode.english
        else text_in e Mode.vietnamese

  unfoldable pub must_fallback_to_english : EngineCore → Bool
  unfolding dict_accepts Engine.is_valid
  must_fallback_to_english e =
      let vn_seq = text_in e 17 in
      if not (has_flag e.config.ib_flags ib_auto_non_vn_restore)
      then false
      else if is_empty vn_seq
      then false
      else if has_flag e.config.ib_flags ib_dd_free_style && elem (code "đ") vn_seq
      then false
      else if dict_accepts e vn_seq
      then false
      else not (Engine.is_valid u e.preeditor true)

  unfoldable pub get_composed_string : EngineCore → Text → Text
  unfolding must_fallback_to_english has_any_vietnamese_rune
  get_composed_string e old_text =
      if has_any_vietnamese_rune u old_text && must_fallback_to_english e
      then text_in e Mode.english
      else old_text

  -- The mode 34 is `ENGLISH | FULL_TEXT`; the length is in bytes.
  unfoldable pub get_raw_key_len : EngineCore → ℕ
  unfolding utf8
  get_raw_key_len e = length (utf8 (text_in e 34))

unfoldable pub encode_text : EngineCore → Text → Text
unfolding encode from_utf8_lossy
encode_text e text = from_utf8_lossy (encode e.config.output_charset text)

-- `EngineCore::to_upper`: brackets under Caps Lock, where they are letters of the input method.
unfoldable pub bracket_upper : EngineCore → ℕ → ℕ
unfolding elem
bracket_upper e c =
    let appends = elem c e.preeditor.input_method.appending_keys in
    if (c == b'[') && appends
    then b'{'
    else if (c == b']') && appends
    then b'}'
    else if (c == b'{') && appends
    then b'['
    else if (c == b'}') && appends
    then b']'
    else c
