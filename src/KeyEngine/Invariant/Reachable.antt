-- ===== src/KeyEngine/Invariant/Reachable.antt =====
-- The life of an `EngineCore` of crates/pinakey-engine/src/engine.rs: what the addon can do with it, in any order, as
-- a step relation.
use pinakey.Base.{ℕ, false, some, Text, ◌≡◌, WhenSome-at, if-elim, has_flag, Bool, true}
use pinakey.Chars.{Unicode, to_lower}
use pinakey.InputMethod.{Dsl}
use pinakey.Config.{Config, FileContent}
use pinakey.Config.Flags.{ib_capitalize_sentence}
use pinakey.Transform.Generate.{Regexes}
use pinakey.Engine.Invariant.{IsSound}
use pinakey.Engine.Session.{new_engine-IsSound}
use pinakey.KeyEngine.Core.{EngineCore, Files, ConfigSource, SentenceState, build_preeditor}
use pinakey.KeyEngine.View.{Clock}
use pinakey.KeyEngine.Commit.{
  with_source, reset_preeditor, set_wm_class, double_space_consume, rebuild_preeditor,
  reload_config, reload_from, reload_data,
}
use pinakey.KeyEngine.Handler.{Event, process_key_event}
use pinakey.KeyEngine.Invariant.{IsCoherent, is_idle, Follows, Follows-refl}
use pinakey.KeyEngine.Invariant.Session.{clear_buffer-Follows, reset-IsSound}
use pinakey.KeyEngine.Invariant.Handler.{process_key_event-Follows}

-- The engines that exist: the files and the time may be others at each step.
pub data Reachable (u : Unicode) (d : Dsl) (re : Regexes) : EngineCore → Type 0 where
  started :
      (files : Files) (c : Config) (source : ConfigSource)
      → Reachable u d re (with_source u d files c source)
  pressed :
      {e : EngineCore} (clock : Clock) (key_val state : ℕ) (ev : Event)
      → Reachable u d re e
      → process_key_event u clock re e key_val state ≡ some ev
      → Reachable u d re ev.engine
  left : {e : EngineCore} → Reachable u d re e → Reachable u d re (reset_preeditor e)
  spaced : {e : EngineCore} → Reachable u d re e → Reachable u d re (double_space_consume e)
  entered :
      {e : EngineCore} (class : Text) → Reachable u d re e → Reachable u d re (set_wm_class e class)
  -- The fields that the C interface writes.
  configured :
      {e : EngineCore} (input_method charset : Text)
      → Reachable u d re e
      → Reachable u d re (record e {
        config = record e.config { input_method = input_method; output_charset = charset };
      })
  rebuilt : {e : EngineCore} → Reachable u d re e → Reachable u d re (rebuild_preeditor u d e)
  reloaded :
      {e : EngineCore} (files : Files) (config_file : Text → FileContent)
      → Reachable u d re e
      → Reachable u d re (reload_config u d files e config_file).0
  refreshed :
      {e : EngineCore} (files : Files)
      → Reachable u d re e
      → Reachable u d re (reload_data u d files e)

module _ (u : Unicode) (d : Dsl) where
  reset_preeditor-IsCoherent : (e : EngineCore) → IsCoherent u e → IsCoherent u (reset_preeditor e)
  unfolding reset_preeditor
  reset_preeditor-IsCoherent e h = record {
    sound = (clear_buffer-Follows u (Follows-refl h)).coherent.sound;
    armed = λ c. cc;
    waiting = λ c. cc;
  }

  double_space_consume-IsCoherent :
      (e : EngineCore) → IsCoherent u e → IsCoherent u (double_space_consume e)
  unfolding double_space_consume
  double_space_consume-IsCoherent e h = record {
    sound = h.sound;
    armed = λ c. cc;
    waiting =
        if-elim (λ s. is_idle s ≡ false → on ≡ true) on SentenceState.ready_to_capitalize e.sentence
          (λ q _. q) (λ _. h.waiting);
  }
    where
      on : Bool
      on = has_flag e.config.ib_flags ib_capitalize_sentence

  build_preeditor-IsSound : (c : Config) → IsSound u (build_preeditor u d c)
  unfolding build_preeditor
  build_preeditor-IsSound c = new_engine-IsSound u _ _

  with_source-IsCoherent :
      (files : Files) (c : Config) (source : ConfigSource)
      → IsCoherent u (with_source u d files c source)
  unfolding with_source
  with_source-IsCoherent files c source = record {
    sound = build_preeditor-IsSound c;
    armed = λ c. cc;
    waiting = λ c. cc;
  }

  reload_from-IsCoherent :
      (files : Files) (source : ConfigSource) (e : EngineCore) (config_file : Text → FileContent)
      → IsCoherent u e
      → IsCoherent u (reload_from u d files source e config_file).0
  unfolding reset_preeditor
  reload_from-IsCoherent files ConfigSource.injected e config_file h = h
  reload_from-IsCoherent files (ConfigSource.name n) e config_file h = record {
    sound = reset-IsSound u (build_preeditor u d _) (build_preeditor-IsSound _);
    armed = λ c. cc;
    waiting = λ c. cc;
  }

  -- Whatever the addon does with an engine, in any order and with any files and times, the engine is coherent:
  -- its typing session is sound, the window of a double space is open only under the flag for double spaces,
  -- and the end of a sentence is awaited only under the flag for capitals. The steps are the key events that
  -- return, the reset on a change of focus, the report of a double space, the name of a program, a change
  -- of the input method or the charset, and the three ways of loading anew. Lower case is taken to be stable under lowering.
  pub Reachable-IsCoherent :
      (re : Regexes)
      → ((c : ℕ) → to_lower u (to_lower u c) ≡ to_lower u c)
      → (e : EngineCore) → Reachable u d re e
      → IsCoherent u e
  unfolding rebuild_preeditor set_wm_class reload_config reload_data
  Reachable-IsCoherent re idem _ (Reachable.started files c source) =
      with_source-IsCoherent files c source
  Reachable-IsCoherent re idem _ (Reachable.pressed {e} clock key_val state ev r q) =
      (WhenSome-at (λ (ev : Event). Follows u e ev.engine) ev q
        (process_key_event-Follows u clock re idem e e key_val state
          (Follows-refl (Reachable-IsCoherent re idem e r)))).coherent
  Reachable-IsCoherent re idem _ (Reachable.left {e} r) =
      reset_preeditor-IsCoherent e (Reachable-IsCoherent re idem e r)
  Reachable-IsCoherent re idem _ (Reachable.spaced {e} r) =
      double_space_consume-IsCoherent e (Reachable-IsCoherent re idem e r)
  Reachable-IsCoherent re idem _ (Reachable.entered {e} class r) =
      let h = Reachable-IsCoherent re idem e r in
      record { sound = h.sound; armed = h.armed; waiting = h.waiting }
  Reachable-IsCoherent re idem _ (Reachable.configured {e} input_method charset r) =
      let h = Reachable-IsCoherent re idem e r in
      record { sound = h.sound; armed = h.armed; waiting = h.waiting }
  Reachable-IsCoherent re idem _ (Reachable.rebuilt {e} r) =
      let h = Reachable-IsCoherent re idem e r in
      record { sound = build_preeditor-IsSound e.config; armed = h.armed; waiting = h.waiting }
  Reachable-IsCoherent re idem _ (Reachable.reloaded {e} files config_file r) =
      reload_from-IsCoherent files e.config_source e config_file (Reachable-IsCoherent re idem e r)
  Reachable-IsCoherent re idem _ (Reachable.refreshed {e} files r) =
      let h = Reachable-IsCoherent re idem e r in
      record { sound = h.sound; armed = h.armed; waiting = h.waiting }
