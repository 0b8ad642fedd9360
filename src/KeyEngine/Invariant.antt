-- ===== src/KeyEngine/Invariant.antt =====
-- The invariant of the key event engine of crates/pinakey-engine/src/engine.rs, and what no key event changes. The
-- children show that the methods and the handler keep it.
pub mod Session
pub mod Commit
pub mod Handler
pub mod Reachable
use pinakey.Base.{has_flag, Bool, true, false, Option, Text, ◌≡◌, refl, ◌∙◌, ap}
use pinakey.Chars.{Unicode}
use pinakey.InputMethod.{InputMethod}
use pinakey.Dict.{Dictionary}
use pinakey.Config.{Config}
use pinakey.Config.Flags.{ib_capitalize_sentence, ib_double_space_period}
use pinakey.Emoji.Macro.{MacroTable}
use pinakey.Engine.{PinaKeyEngine}
use pinakey.Engine.Invariant.{IsSound}
use pinakey.KeyEngine.Core.{SentenceState, ConfigSource, EngineCore}
use pinakey.KeyEngine.Transport.{TransportRules}

abbrev pub is_idle : SentenceState → Bool
is_idle SentenceState.idle = true
is_idle SentenceState.after_punct = false
is_idle SentenceState.ready_to_capitalize = false

-- The typing session is sound, the window of a double space is open only if the configuration has double
-- spaces, and a sentence is followed only if the configuration has capitals.
pub record IsCoherent (u : Unicode) (e : EngineCore) : Type 0 where
  pub sound : IsSound u e.preeditor
  pub armed : e.double_space_armed ≡ true → has_flag e.config.ib_flags ib_double_space_period ≡ true
  pub waiting :
      is_idle e.sentence ≡ false → has_flag e.config.ib_flags ib_capitalize_sentence ≡ true

-- What an engine was set up with.
pub record Settings : Type 0 where
  pub config : Config
  pub input_method : InputMethod
  pub macro_table : MacroTable
  pub wm_class : Text
  pub dictionary : Option Dictionary
  pub transport_rules : TransportRules
  pub config_source : ConfigSource

abbrev pub settings : EngineCore → Settings
settings e = record {
  config = e.config;
  input_method = e.preeditor.input_method;
  macro_table = e.macro_table;
  wm_class = e.wm_class;
  dictionary = e.dictionary;
  transport_rules = e.transport_rules;
  config_source = e.config_source;
}

-- The second engine is coherent, and set up as the first one.
pub record Follows (u : Unicode) (e e' : EngineCore) : Type 0 where
  pub coherent : IsCoherent u e'
  pub same : settings e' ≡ settings e

pub Follows-refl : {u : Unicode} {e : EngineCore} → IsCoherent u e → Follows u e e
Follows-refl h = record { coherent = h; same = refl }

-- A session that is sound and has the same input method, put in for the session.
pub Follows-session :
    {u : Unicode} {e e' : EngineCore} (p : PinaKeyEngine)
    → Follows u e e'
    → IsSound u p
    → p.input_method ≡ e'.preeditor.input_method
    → Follows u e (record e' { preeditor = p })
Follows-session {u} {e} {e'} p h s i = record {
  coherent = record { sound = s; armed = h.coherent.armed; waiting = h.coherent.waiting };
  same = moved ∙ h.same;
}
  where
    moved : settings (record e' { preeditor = p }) ≡ settings e'
    moved = ap (λ im. record (settings e') { input_method = im }) i
