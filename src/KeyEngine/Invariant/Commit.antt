-- ===== src/KeyEngine/Invariant/Commit.antt =====
-- Writing text out, as crates/pinakey-engine/src/engine.rs does, keeps the engine coherent and its settings.
use pinakey.Base.{ℕ, has_flag, Bool, true, false, ◌||◌, [], ◌∷◌, ◌≡◌, reverse, Text, if-elim}
use pinakey.Chars.{Unicode}
use pinakey.Config.Flags.{
  ib_workaround_for_fb_messenger, ib_capitalize_sentence, ib_double_space_period,
}
use pinakey.KeyEngine.Core.{Action, SentenceState, EngineCore}
use pinakey.KeyEngine.Commit.{
  Output, push_action, is_word_and_space, sentence_after, track_double_space_commit,
  track_sentence_commit, commit_text, commit_preedit_and_reset, commit_preedit_and_reset_for_wbs,
  apply_sentence_capitalize, capitalize_in, is_blank_key,
}
use pinakey.KeyEngine.Invariant.{is_idle, Follows}
use pinakey.KeyEngine.Invariant.Session.{clear_buffer-Follows}

module _ (u : Unicode) {e : EngineCore} where
  pub Follows-armed :
      (e' : EngineCore) (b : Bool)
      → (b ≡ true → has_flag e'.config.ib_flags ib_double_space_period ≡ true)
      → Follows u e e'
      → Follows u e (record e' { double_space_armed = b })
  Follows-armed e' b on h = record {
    coherent = record { sound = h.coherent.sound; armed = on; waiting = h.coherent.waiting };
    same = h.same;
  }

  pub Follows-sentence :
      (e' : EngineCore) (s : SentenceState)
      → (is_idle s ≡ false → has_flag e'.config.ib_flags ib_capitalize_sentence ≡ true)
      → Follows u e e'
      → Follows u e (record e' { sentence = s })
  Follows-sentence e' s on h = record {
    coherent = record { sound = h.coherent.sound; armed = h.coherent.armed; waiting = on };
    same = h.same;
  }

  track_double_space_commit-Follows :
      (e' : EngineCore) (s : Text) → Follows u e e' → Follows u e (track_double_space_commit u e' s)
  unfolding track_double_space_commit
  track_double_space_commit-Follows e' s h =
      if-elim (Follows u e) (has_flag e'.config.ib_flags ib_double_space_period) _ _
        (λ on. Follows-armed e' (is_word_and_space u (reverse s)) (λ _. on) h) (λ _. h)

  track_sentence_commit-Follows :
      (e' : EngineCore) (s : Text) → Follows u e e' → Follows u e (track_sentence_commit u e' s)
  unfolding track_sentence_commit
  track_sentence_commit-Follows e' s h =
      if-elim (Follows u e) (has_flag e'.config.ib_flags ib_capitalize_sentence) _ _
        (λ on. Follows-sentence e' (sentence_after u (reverse s) false) (λ _. on) h) (λ _. h)

  commit_text-Follows :
      (o : Output) (s : Text) → Follows u e o.0 → Follows u e (commit_text u o s).0
  unfolding commit_text
  commit_text-Follows o [] h = h
  commit_text-Follows o (c ∷ s) h =
      track_double_space_commit-Follows _ (c ∷ s) (track_sentence_commit-Follows o.0 (c ∷ s) h)

  pub commit_preedit_and_reset-Follows :
      (o : Output) (s : Text) → Follows u e o.0 → Follows u e (commit_preedit_and_reset u o s).0
  unfolding commit_preedit_and_reset
  commit_preedit_and_reset-Follows o s h = clear_buffer-Follows u (commit_text-Follows _ s h)

  pub commit_preedit_and_reset_for_wbs-Follows :
      (o : Output) (s : Text) (is_wbs : Bool)
      → Follows u e o.0
      → Follows u e (commit_preedit_and_reset_for_wbs u o s is_wbs).0
  unfolding commit_preedit_and_reset_for_wbs
  commit_preedit_and_reset_for_wbs-Follows o s is_wbs h = clear_buffer-Follows u (
      if-elim (λ (w : Output). Follows u e w.0)
        (has_flag o.0.config.ib_flags ib_workaround_for_fb_messenger || is_wbs) _ _
        (λ _. commit_text-Follows o s h)
        (λ _. commit_text-Follows (push_action o Action.hide_preedit) s h))

  capitalize_in-Follows :
      (s : SentenceState) (e' : EngineCore) (key_val state : ℕ)
      → has_flag e'.config.ib_flags ib_capitalize_sentence ≡ true
      → Follows u e e'
      → Follows u e (capitalize_in s e' key_val state).0
  capitalize_in-Follows SentenceState.idle e' key_val state on h = h
  capitalize_in-Follows SentenceState.after_punct e' key_val state on h =
      Follows-sentence e' _ (λ _. on) h
  capitalize_in-Follows SentenceState.ready_to_capitalize e' key_val state on h =
      if-elim (λ (r : EngineCore × ℕ). Follows u e r.0) (is_blank_key key_val) _ _ (λ _. h)
        (λ _. Follows-sentence e' SentenceState.idle (λ _. on) h)

  pub apply_sentence_capitalize-Follows :
      (e' : EngineCore) (key_val state : ℕ)
      → Follows u e e'
      → Follows u e (apply_sentence_capitalize e' key_val state).0
  unfolding apply_sentence_capitalize
  apply_sentence_capitalize-Follows e' key_val state h =
      if-elim (λ (r : EngineCore × ℕ). Follows u e r.0)
        (has_flag e'.config.ib_flags ib_capitalize_sentence) _ _
        (λ on. capitalize_in-Follows e'.sentence e' key_val state on h) (λ _. h)
