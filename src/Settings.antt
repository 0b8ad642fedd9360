-- ===== src/Settings.antt =====
-- crates/pinakey-settings/src/controller.rs: the state of the settings window, a draft of the configuration that knows
-- whether it was changed.
pub mod Saved
use pinakey.Base.{
  ℕ, ◌+◌, ◌-◌, ◌==◌, leb, ltb, if◌then◌else◌, has_flag, bit_and, Bool, true, false, not, ◌&&◌, ◌||◌,
  Option, none, some, List, [], ◌∷◌, map, Text, text_eq, codes,
}
use Prim.Native.Nat.{bit_or}
use pinakey.Base.{sort}
use pinakey.Charset.{get_charset_names}
use pinakey.Config.{Config, FileContent, default_cfg, load_config, find_definition}
use pinakey.Config.Flags.{
  ib_spell_check_enabled, ib_spell_check_with_rules, ib_spell_check_with_dicts,
  ib_auto_non_vn_restore, ib_dd_free_style, ib_macro_enabled, ib_auto_capitalize_macro,
  ib_no_underline, ib_capitalize_sentence, ib_double_space_period,
}

pub record SettingsController : Type 0 where
  pub config : Config
  pub engine_name : Text
  pub dirty : Bool

unfoldable pub settings_flags : List (ℕ × Text)
settings_flags =
    (ib_spell_check_enabled, codes "Kiểm tra chính tả")
    ∷ (ib_spell_check_with_rules, codes "Chính tả theo quy tắc")
    ∷ (ib_spell_check_with_dicts, codes "Chính tả theo từ điển")
    ∷ (ib_auto_non_vn_restore, codes "Tự khôi phục từ không phải tiếng Việt")
    ∷ (ib_dd_free_style, codes "Cho phép gõ dd tự do")
    ∷ (ib_macro_enabled, codes "Bật macro")
    ∷ (ib_auto_capitalize_macro, codes "Tự viết hoa macro")
    ∷ (ib_no_underline, codes "Không gạch chân preedit")
    ∷ (ib_capitalize_sentence, codes "Tự viết hoa đầu câu (sau . ! ?)")
    ∷ (ib_double_space_period, codes "Hai dấu cách liên tiếp → \". \"")
    ∷ []

unfoldable pub w_shortcut_levels : List (ℕ × Text)
w_shortcut_levels =
    (0, codes "Tắt") ∷ (1, codes "Không áp dụng ở đầu từ") ∷ (2, codes "Mọi nơi") ∷ []

unfoldable pub load : Text → FileContent → SettingsController
unfolding load_config
load engine_name content = record {
  config = (load_config content).0;
  engine_name = engine_name;
  dirty = false;
}

unfoldable pub from_config : Config → Text → SettingsController
from_config config engine_name = record {
  config = config;
  engine_name = engine_name;
  dirty = false;
}

unfoldable pub input_methods : SettingsController → List Text
unfolding sort
input_methods c = sort (map (λ p. p.0) c.config.input_method_definitions)

unfoldable pub charsets : SettingsController → List Text
unfolding get_charset_names
charsets c = get_charset_names

-- The field is written, and the draft is dirty.
abbrev pub edited : SettingsController → Config → SettingsController
edited c config = record c { config = config; dirty = true }

abbrev pub is_defined : Option (List (Text × Text)) → Bool
is_defined none = false
is_defined (some _) = true

unfoldable pub set_input_method : SettingsController → Text → SettingsController
unfolding find_definition
set_input_method c im =
    if text_eq im c.config.input_method
    then c
    else if is_defined (find_definition c.config.input_method_definitions im)
    then edited c (record c.config { input_method = im })
    else c

unfoldable pub set_output_charset : SettingsController → Text → SettingsController
set_output_charset c charset =
    if text_eq charset c.config.output_charset
    then c
    else edited c (record c.config { output_charset = charset })

unfoldable pub flag_enabled : SettingsController → ℕ → Bool
flag_enabled c flag = has_flag c.config.ib_flags flag

-- `flags | flag`, and `flags & !flag`.
unfoldable pub with_flag : ℕ → ℕ → Bool → ℕ
with_flag flags flag on = if on then bit_or flags flag else flags - bit_and flags flag

unfoldable pub set_flag : SettingsController → ℕ → Bool → SettingsController
unfolding with_flag
set_flag c flag on =
    let new = with_flag c.config.ib_flags flag on in
    if new == c.config.ib_flags then c else edited c (record c.config { ib_flags = new })

unfoldable pub toggle_flag : SettingsController → ℕ → SettingsController
unfolding set_flag flag_enabled
toggle_flag c flag = set_flag c flag (not (flag_enabled c flag))

unfoldable pub set_w_shortcut : SettingsController → ℕ → SettingsController
set_w_shortcut c level =
    if leb level 2 && not (level == c.config.w_shortcut)
    then edited c (record c.config { w_shortcut = level })
    else c

unfoldable pub set_macro_date_format : SettingsController → Text → SettingsController
set_macro_date_format c fmt =
    if text_eq fmt c.config.macro_date_format
    then c
    else edited c (record c.config { macro_date_format = fmt })

unfoldable pub set_macro_time_format : SettingsController → Text → SettingsController
set_macro_time_format c fmt =
    if text_eq fmt c.config.macro_time_format
    then c
    else edited c (record c.config { macro_time_format = fmt })

unfoldable pub reset_to_default : SettingsController → SettingsController
unfolding default_cfg
reset_to_default c = edited c default_cfg

-- `written`: whether the file could be written.
unfoldable pub save : SettingsController → Bool → SettingsController × Bool
save c written = if written then (record c { dirty = false }, true) else (c, false)
