-- ===== src/Settings/Saved.antt =====
-- The settings window of crates/pinakey-settings/src/controller.rs and the configuration file: what the user does, as a
-- step relation with the file's configuration.
use pinakey.Base.{ℕ, ◌==◌, leb, Bool, true, false, not, ◌&&◌, Text, text_eq, ◌≡◌, refl, if-elim}
use pinakey.Config.{Config, FileContent, load_config, find_definition}
use pinakey.Settings.{
  SettingsController, load, is_defined, edited, set_input_method, set_output_charset, with_flag,
  set_flag, flag_enabled, toggle_flag, set_w_shortcut, set_macro_date_format, set_macro_time_format,
  reset_to_default, save,
}

-- An edit of the draft.
pub data Edit : Type 0 where
  input_method : Text → Edit
  output_charset : Text → Edit
  flag : ℕ → Bool → Edit
  toggle : ℕ → Edit
  w_shortcut : ℕ → Edit
  macro_date_format : Text → Edit
  macro_time_format : Text → Edit
  default : Edit

abbrev pub perform : SettingsController → Edit → SettingsController
perform c (Edit.input_method im) = set_input_method c im
perform c (Edit.output_charset charset) = set_output_charset c charset
perform c (Edit.flag f on) = set_flag c f on
perform c (Edit.toggle f) = toggle_flag c f
perform c (Edit.w_shortcut level) = set_w_shortcut c level
perform c (Edit.macro_date_format fmt) = set_macro_date_format c fmt
perform c (Edit.macro_time_format fmt) = set_macro_time_format c fmt
perform c Edit.default = reset_to_default c

-- A draft, and the configuration that was read or written last.
pub data Session : SettingsController → Config → Type 0 where
  opened :
      (engine_name : Text) (content : FileContent)
      → Session (load engine_name content) (load_config content).0
  changed :
      {c : SettingsController} {file : Config} (e : Edit)
      → Session c file
      → Session (perform c e) file
  written :
      {c : SettingsController} {file : Config} → Session c file → Session (save c true).0 c.config
  not_written :
      {c : SettingsController} {file : Config} → Session c file → Session (save c false).0 file

-- A clean draft is what is in the file.
Clean : Config → SettingsController → Type 0
Clean file c = c.dirty ≡ false → c.config ≡ file

edited-Clean :
    (file : Config) (c : SettingsController) (config : Config) → Clean file (edited c config)
unfolding Clean
edited-Clean file c config h = cc

perform-Clean :
    (file : Config) (c : SettingsController) (e : Edit) → Clean file c → Clean file (perform c e)
unfolding set_input_method set_output_charset set_flag toggle_flag set_w_shortcut
    set_macro_date_format set_macro_time_format reset_to_default
perform-Clean file c (Edit.input_method im) h =
    if-elim (Clean file) (text_eq im c.config.input_method) _ _ (λ _. h)
      (λ _.
        if-elim (Clean file) (is_defined (find_definition c.config.input_method_definitions im)) _ _
          (λ _. edited-Clean file c _) (λ _. h))
perform-Clean file c (Edit.output_charset charset) h =
    if-elim (Clean file) (text_eq charset c.config.output_charset) _ _ (λ _. h)
      (λ _. edited-Clean file c _)
perform-Clean file c (Edit.flag f on) h =
    if-elim (Clean file) (with_flag c.config.ib_flags f on == c.config.ib_flags) _ _ (λ _. h)
      (λ _. edited-Clean file c _)
perform-Clean file c (Edit.toggle f) h =
    if-elim (Clean file)
      (with_flag c.config.ib_flags f (not (flag_enabled c f)) == c.config.ib_flags) _ _ (λ _. h)
      (λ _. edited-Clean file c _)
perform-Clean file c (Edit.w_shortcut level) h =
    if-elim (Clean file) (leb level 2 && not (level == c.config.w_shortcut)) _ _
      (λ _. edited-Clean file c _) (λ _. h)
perform-Clean file c (Edit.macro_date_format fmt) h =
    if-elim (Clean file) (text_eq fmt c.config.macro_date_format) _ _ (λ _. h)
      (λ _. edited-Clean file c _)
perform-Clean file c (Edit.macro_time_format fmt) h =
    if-elim (Clean file) (text_eq fmt c.config.macro_time_format) _ _ (λ _. h)
      (λ _. edited-Clean file c _)
perform-Clean file c Edit.default h = edited-Clean file c _

Session-Clean : {c : SettingsController} {file : Config} → Session c file → Clean file c
unfolding load save Clean
Session-Clean (Session.opened engine_name content) h = refl
Session-Clean (Session.changed {c} {file} e s) h = perform-Clean file c e (Session-Clean s) h
Session-Clean (Session.written s) h = refl
Session-Clean (Session.not_written s) h = Session-Clean s h

-- After any opening, edits, and saves that succeed or fail, a draft that is not marked as changed
-- holds the configuration that was read from the file, or written to it, last.
pub dirty-false :
    (c : SettingsController) (file : Config) → Session c file → c.dirty ≡ false → c.config ≡ file
unfolding Clean
dirty-false c file s h = Session-Clean s h
