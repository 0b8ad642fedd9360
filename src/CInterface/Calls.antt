-- ===== src/CInterface/Calls.antt =====
-- crates/pinakey-ffi/src/lib.rs: the exported functions on an engine. A pointer is null or leads to an engine; a C
-- string is `none` where its pointer is null or it is not UTF-8.
use pinakey.Base.{
  ◌++◌, ◌∷◌, ℕ, if◌then◌else◌, has_flag, Bool, false, not, ◌||◌, Option, none, some, List, [], map,
  length, get_elem?, is_empty, Text, ◌>>=◌,
}
use pinakey.Chars.{Unicode}
use pinakey.InputMethod.{Dsl}
use pinakey.InputMethod.Builtin.{input_method_definitions}
use pinakey.Charset.{get_charset_names}
use pinakey.Config.{Config, FileContent, default_cfg, load_config}
use pinakey.Config.Flags.{ib_no_underline}
use pinakey.Transform.Generate.{Regexes}
use pinakey.Emoji.Recent.{RecentEmoji, record_use, file_text}
use pinakey.Emoji.Search.{IndexEntry, fuzzy_query}
use pinakey.KeyEngine.Core.{EngineCore, Files}
use pinakey.KeyEngine.View
use pinakey.KeyEngine.View.{Clock}
use pinakey.KeyEngine.Commit
use pinakey.KeyEngine.Commit.{reset_preeditor, rebuild_preeditor}
use pinakey.KeyEngine.Handler.{process_key_event}
use pinakey.CInterface.{PkEngine, to_cstring, build, apply, apply_replace, clear_display}

-- `Some(pointer)`, or a null pointer.
abbrev pub Pointer : Type 0
Pointer = Option PkEngine

-- `e.as_ref().map(f).unwrap_or(d)`.
abbrev pub read {ℓ} : {A : Type ℓ} → Pointer → (PkEngine → A) → A → A
read none f d = d
read (some e) f d = f e

-- `if let Some(engine) = e.as_mut()`.
abbrev pub change : Pointer → (PkEngine → PkEngine) → Pointer
change none f = none
change (some e) f = some (f e)

abbrev pub with_core : PkEngine → EngineCore → PkEngine
with_core e core = record e { core = core }

abbrev pub or_empty : Option Text → Text
or_empty none = []
or_empty (some t) = t

module _ (u : Unicode) (d : Dsl) (files : Files) where
  unfoldable pub from_config : Config → PkEngine
  unfolding build Commit.new
  from_config c = build (Commit.new u d files c)

  unfoldable pub from_named_config : Text → Config → PkEngine
  unfolding build Commit.new_named
  from_named_config n c = build (Commit.new_named u d files c n)

  unfoldable pub pk_engine_new : PkEngine
  unfolding from_config default_cfg
  pk_engine_new = from_config default_cfg

  unfoldable pub pk_engine_new_from_name : Option Text → (Text → FileContent) → PkEngine
  unfolding from_config default_cfg from_named_config load_config
  pk_engine_new_from_name none config_file = from_config default_cfg
  pk_engine_new_from_name (some n) config_file =
      if is_empty n
      then from_config default_cfg
      else from_named_config n (load_config (config_file n)).0

  -- `from_str` is the reader of JSON of the crate serde_json.
  unfoldable pub pk_engine_new_from_json : Option Text → (Text → Option Config) → PkEngine
  unfolding from_config default_cfg
  pk_engine_new_from_json json from_str = elim (json >>= from_str) [
    | none ↦ from_config default_cfg
    | some c ↦ from_config c
  ]

  unfoldable pub pk_engine_reload : Pointer → Pointer
  unfolding Commit.reload_data
  pk_engine_reload e = change e (λ x. with_core x (Commit.reload_data u d files x.core))

  abbrev pub show_config : PkEngine → EngineCore × Bool → PkEngine
  show_config e (core, reloaded) =
      if reloaded
      then clear_display (record e {
        core = core;
        im_name = to_cstring core.config.input_method;
        charset_name = to_cstring core.config.output_charset;
      })
      else with_core e core

  unfoldable pub pk_engine_reload_config : Pointer → (Text → FileContent) → Pointer
  unfolding Commit.reload_config to_cstring clear_display
  pk_engine_reload_config e config_file =
      change e (λ x. show_config x (Commit.reload_config u d files x.core config_file))

module _ (u : Unicode) (clock : Clock) (re : Regexes) where
  abbrev pub Handled : Type 0
  Handled = Bool × Pointer

  unfoldable pub pk_engine_process_key : Pointer → ℕ → ℕ → Option Handled
  unfolding process_key_event apply
  pk_engine_process_key none keyval state = some (false, none)
  pk_engine_process_key (some e) keyval state =
      process_key_event u clock re e.core keyval state
      >>= (λ ev. some (ev.handled, some (apply (with_core e ev.engine) ev.actions)))

  unfoldable pub pk_engine_process_key_replace : Pointer → ℕ → ℕ → Option Handled
  unfolding process_key_event apply_replace
  pk_engine_process_key_replace none keyval state = some (false, none)
  pk_engine_process_key_replace (some e) keyval state =
      process_key_event u clock re e.core keyval state
      >>= (λ ev. some (ev.handled, some (apply_replace (with_core e ev.engine) ev.actions)))

unfoldable pub pk_engine_replace_delete : Pointer → ℕ
pk_engine_replace_delete e = read e (λ x. x.replace_delete) 0

unfoldable pub pk_engine_replace_segment : Pointer → Text
pk_engine_replace_segment e = read e (λ x. x.replace_segment_c) []

unfoldable pub pk_engine_replace_insert : Pointer → Text
pk_engine_replace_insert e = read e (λ x. x.replace_insert) []

unfoldable pub pk_engine_no_underline : Pointer → Bool
pk_engine_no_underline e = read e (λ x. has_flag x.core.config.ib_flags ib_no_underline) false

unfoldable pub pk_engine_commit : Pointer → Text
pk_engine_commit e = read e (λ x. x.commit) []

unfoldable pub pk_engine_preedit : Pointer → Text
pk_engine_preedit e = read e (λ x. x.preedit) []

unfoldable pub pk_engine_preedit_cursor : Pointer → ℕ
pk_engine_preedit_cursor e = read e (λ x. x.preedit_cursor) 0

unfoldable pub pk_engine_preedit_visible : Pointer → Bool
pk_engine_preedit_visible e = read e (λ x. x.preedit_visible) false

unfoldable pub pk_engine_is_composing : Pointer → Bool
pk_engine_is_composing e = read e (λ x. x.preedit_visible || not (is_empty x.prev_displayed)) false

unfoldable pub pk_engine_preedit_underline : Pointer → Bool
pk_engine_preedit_underline e = read e (λ x. x.preedit_underline) false

unfoldable pub pk_engine_reset : Pointer → Pointer
unfolding reset_preeditor clear_display
pk_engine_reset e = change e (λ x. clear_display (with_core x (reset_preeditor x.core)))

-- The text that is given back is the new `commit`.
unfoldable pub pk_engine_flush_preedit : Pointer → Pointer
unfolding reset_preeditor
pk_engine_flush_preedit e = change e (λ x. record x {
  core = reset_preeditor x.core;
  commit = x.preedit;
  preedit = [];
  preedit_cursor = 0;
  preedit_visible = false;
  prev_displayed = [];
  replace_segment_c = [];
  replace_delete = 0;
  replace_insert = [];
})

unfoldable pub pk_engine_set_program : Pointer → Option Text → Pointer
unfolding Commit.set_wm_class
pk_engine_set_program e program =
    change e (λ x. with_core x (Commit.set_wm_class x.core (or_empty program)))

unfoldable pub pk_engine_program_excluded : Unicode → Pointer → Bool
unfolding View.is_program_excluded
pk_engine_program_excluded u e = read e (λ x. View.is_program_excluded u x.core) false

unfoldable pub pk_engine_surrounding_text_unreliable : Pointer → Bool
unfolding View.is_surrounding_text_unreliable
pk_engine_surrounding_text_unreliable e =
    read e (λ x. View.is_surrounding_text_unreliable x.core) false

unfoldable pub pk_engine_double_space_armed : Pointer → Bool
pk_engine_double_space_armed e = read e (λ x. x.core.double_space_armed) false

unfoldable pub pk_engine_double_space_consume : Pointer → Pointer
unfolding Commit.double_space_consume
pk_engine_double_space_consume e = change e (λ x. with_core x (Commit.double_space_consume x.core))

abbrev pub with_config : EngineCore → Config → EngineCore
with_config core c = record core { config = c }

unfoldable pub pk_engine_set_input_method : Unicode → Dsl → Pointer → Option Text → Pointer
unfolding rebuild_preeditor reset_preeditor clear_display to_cstring
pk_engine_set_input_method u d e none = e
pk_engine_set_input_method u d e (some n) = change e (λ x. clear_display (record x {
  core =
      reset_preeditor
        (rebuild_preeditor u d (with_config x.core (record x.core.config { input_method = n })));
  im_name = to_cstring n;
}))

unfoldable pub pk_engine_set_charset : Pointer → Option Text → Pointer
unfolding reset_preeditor clear_display to_cstring
pk_engine_set_charset e none = e
pk_engine_set_charset e (some n) = change e (λ x. clear_display (record x {
  core = reset_preeditor (with_config x.core (record x.core.config { output_charset = n }));
  charset_name = to_cstring n;
}))

unfoldable pub pk_engine_input_method : Pointer → Text
pk_engine_input_method e = read e (λ x. x.im_name) []

unfoldable pub pk_engine_charset : Pointer → Text
pk_engine_charset e = read e (λ x. x.charset_name) []

unfoldable pub im_names : List Text
unfolding to_cstring
im_names = map (λ p. to_cstring p.0) input_method_definitions

unfoldable pub charset_names : List Text
unfolding to_cstring get_charset_names
charset_names = map to_cstring get_charset_names

unfoldable pub pk_input_method_count : ℕ
unfolding im_names
pk_input_method_count = length im_names

unfoldable pub pk_input_method_name_at : ℕ → Text
unfolding im_names
pk_input_method_name_at i = or_empty (get_elem? im_names i)

unfoldable pub pk_charset_count : ℕ
unfolding charset_names
pk_charset_count = length charset_names

unfoldable pub pk_charset_name_at : ℕ → Text
unfolding charset_names
pk_charset_name_at i = or_empty (get_elem? charset_names i)

abbrev pub emoji_recent_cap : ℕ
emoji_recent_cap = 9

-- `out.join("\n")`.
unfoldable pub joined_lines : List Text → Text
joined_lines [] = []
joined_lines (t ∷ []) = t
joined_lines (t ∷ s ∷ ts) = t ++ (b'\n' ∷ joined_lines (s ∷ ts))

-- The list of recent emoji and the index are the statics of the library.
unfoldable pub pk_emoji_query : Unicode → RecentEmoji → List IndexEntry → Option Text → Text
unfolding fuzzy_query joined_lines to_cstring
pk_emoji_query u recent index query =
    let q = or_empty query in
    to_cstring (joined_lines (if is_empty q then recent.items else fuzzy_query u index q 60))

-- The list, and what is written to the file, if anything is.
unfoldable pub pk_emoji_record_use : RecentEmoji → Option Text → RecentEmoji × Option Text
unfolding record_use file_text
pk_emoji_record_use recent none = (recent, none)
pk_emoji_record_use recent (some emoji) =
    if is_empty emoji
    then (recent, none)
    else (record_use recent emoji, some (file_text (record_use recent emoji).items))
