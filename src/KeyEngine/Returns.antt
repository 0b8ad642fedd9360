-- ===== src/KeyEngine/Returns.antt =====
-- The key event handler of crates/pinakey-engine/src/engine.rs ends, with a result, for every key.
use pinakey.Base.{ℕ, has_flag, Bool, ◌≡◌, refl, if-elim}
use pinakey.Rules.Mode
use pinakey.Chars.{Unicode}
use pinakey.Transform.Validity.{extract_last_syllable}
use pinakey.Transform.Generate.{Regexes}
use pinakey.Engine.Panic.{lacks_vowel}
use pinakey.Config.Flags.{ib_capitalize_sentence}
use pinakey.KeyEngine.Core.{SentenceState, EngineCore}
use pinakey.KeyEngine.Keysym
use pinakey.KeyEngine.View.{Clock}
use pinakey.KeyEngine.Commit.{apply_sentence_capitalize, capitalize_in, is_blank_key}

capitalize_in-preeditor :
    (s : SentenceState) (e : EngineCore) (key_val state : ℕ)
    → (capitalize_in s e key_val state).0.preeditor ≡ e.preeditor
capitalize_in-preeditor SentenceState.idle e key_val state = refl
capitalize_in-preeditor SentenceState.after_punct e key_val state = refl
capitalize_in-preeditor SentenceState.ready_to_capitalize e key_val state =
    if-elim (λ (r : EngineCore × ℕ). r.0.preeditor ≡ e.preeditor) (is_blank_key key_val) _ _
      (λ _. refl) (λ _. refl)

pub apply_sentence_capitalize-preeditor :
    (e : EngineCore) (key_val state : ℕ)
    → (apply_sentence_capitalize e key_val state).0.preeditor ≡ e.preeditor
unfolding apply_sentence_capitalize
apply_sentence_capitalize-preeditor e key_val state =
    if-elim (λ (r : EngineCore × ℕ). r.0.preeditor ≡ e.preeditor)
      (has_flag e.config.ib_flags ib_capitalize_sentence) _ _
      (λ _. capitalize_in-preeditor e.sentence e key_val state) (λ _. refl)

module _ (u : Unicode) (re : Regexes) where
  module _ (clock : Clock) where
    -- The session shows a horned `uo` in its last syllable, and no vowel of its own.
    abbrev pub is_stuck : EngineCore → Bool
    is_stuck e =
        lacks_vowel u re e.preeditor.store
          (extract_last_syllable u e.preeditor.store e.preeditor.composition).1
