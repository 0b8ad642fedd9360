-- ===== src/Config.antt =====
-- crates/pinakey-config/src/lib.rs: the configuration and its defaults. The file is JSON read and written by
-- the crate serde; what it holds is a parameter of the functions that read it.
pub mod Flags
use pinakey.Base.{
  ℕ, Bool, true, false, Option, none, some, List, [], ◌∷◌, ◌++◌, Text, text_eq, if◌then◌else◌,
  codes,
}
use pinakey.Rules.Flag
use pinakey.InputMethod.Builtin.{input_method_definitions}
use pinakey.Config.Flags.{ib_std_flags, preedit_im}

pub record Config : Type 0 where
  pub input_method : Text
  pub input_method_definitions : List (Text × List (Text × Text))
  pub output_charset : Text
  pub flags : ℕ
  pub ib_flags : ℕ
  pub shortcuts : List ℕ
  pub default_input_mode : ℕ
  pub input_mode_mapping : List (Text × ℕ)
  pub english_exclude : List Text
  pub w_shortcut : ℕ
  pub macro_date_format : Text
  pub macro_time_format : Text

abbrev pub default_macro_date_format : Text
default_macro_date_format = codes "%d/%m/%Y"

abbrev pub default_macro_time_format : Text
default_macro_time_format = codes "%H:%M"

unfoldable pub default_cfg : Config
default_cfg = record {
  input_method = codes "Telex";
  input_method_definitions = input_method_definitions;
  output_charset = codes "Unicode";
  flags = Flag.std_flags;
  ib_flags = ib_std_flags;
  shortcuts = 1 ∷ 126 ∷ 0 ∷ 0 ∷ 0 ∷ 0 ∷ 0 ∷ 0 ∷ 5 ∷ 117 ∷ [];
  default_input_mode = preedit_im;
  input_mode_mapping = [];
  english_exclude = [];
  w_shortcut = 0;
  macro_date_format = default_macro_date_format;
  macro_time_format = default_macro_time_format;
}

-- `HashMap::get` on the definitions.
unfoldable pub find_definition :
    List (Text × List (Text × Text)) → Text → Option (List (Text × Text))
find_definition [] name = none
find_definition ((n, d) ∷ definitions) name =
    let rest = find_definition definitions name in if text_eq n name then some d else rest

-- What reading the configuration file meets: no path to it, no file or an error, a text that serde refuses, or
-- a configuration.
pub data FileContent : Type 0 where
  no_directory unreadable corrupt : FileContent
  parsed : Config → FileContent

-- The second value: whether the file is moved aside before it is overwritten by a later save.
unfoldable pub load_config : FileContent → Config × Bool
unfolding default_cfg
load_config FileContent.no_directory = (default_cfg, false)
load_config FileContent.unreadable = (default_cfg, false)
load_config FileContent.corrupt = (default_cfg, true)
load_config (FileContent.parsed c) = (c, false)
