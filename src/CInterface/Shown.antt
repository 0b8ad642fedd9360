-- ===== src/CInterface/Shown.antt =====
-- The actions of one key event of crates/pinakey-engine/src/engine.rs, as crates/pinakey-ffi/src/lib.rs folds them: a
-- text is written out only together with a change of what is being typed.
use pinakey.Base.{
  ℕ, ◌==◌, ltb, if◌then◌else◌, has_flag, Bool, true, false, not, ◌&&◌, ◌||◌, List, [], ◌∷◌, ◌++◌,
  ◌≡◌, refl, is_empty, length, Text, if-elim, WhenSome, WhenSome-intro, WhenSome-bind, Option-cases,
  inl, inr,
}
use pinakey.Chars.{Unicode}
use pinakey.Transform.Generate.{Regexes}
use pinakey.Engine.{can_process_key}
use pinakey.Config.Flags.{ib_workaround_for_fb_messenger}
use pinakey.KeyEngine.Core.{Action, EngineCore}
use pinakey.KeyEngine.Keysym
use pinakey.KeyEngine.Keysym.{is_modifier_keysym}
use pinakey.KeyEngine.View.{
  Clock, rune_of, is_valid_state, encode_text, macro_enabled, get_macro_text, get_preedit_string,
  get_raw_key_len,
}
use pinakey.KeyEngine.Commit.{
  push_action, update_preedit, commit_text, commit_preedit_and_reset,
  commit_preedit_and_reset_for_wbs, apply_sentence_capitalize,
}
use pinakey.KeyEngine.Handler.{
  Event, CommitText, drop_char, show_or_commit, press_backspace, press_tab, get_commit_text,
  preedit_process_key_event, process_key_event,
}
use pinakey.CInterface.{Folded, fold_actions, is_none}

-- What is being typed changes, or nothing is written out.
abbrev pub is_announced : Folded → Bool
is_announced f = not (is_none f.preedit && not f.hide) || is_empty f.commit

abbrev pub Announced : List Action → Type 0
Announced actions = is_announced (fold_actions actions) ≡ true

update_preedit-Announced : (e : EngineCore) (t : Text) → Announced (update_preedit e [] t)
unfolding update_preedit fold_actions
update_preedit-Announced e t =
    if-elim Announced (length (encode_text e t) == 0) _ _ (λ _. refl) (λ _. refl)

module _ (u : Unicode) where
  commit_preedit_and_reset-Announced :
      (e : EngineCore) (s : Text) → Announced (commit_preedit_and_reset u (e, []) s).1
  unfolding commit_preedit_and_reset commit_text fold_actions
  commit_preedit_and_reset-Announced e [] = refl
  commit_preedit_and_reset-Announced e (c ∷ s) = refl

  for_wbs_by :
      (b : Bool) (e : EngineCore) (s : Text)
      → Announced (
          (if b
            then push_action (commit_text u (e, []) s) Action.hide_preedit
            else commit_text u (push_action (e, []) Action.hide_preedit) s).1
          ++ (Action.hide_auxiliary ∷ [])
          ++ (Action.hide_lookup_table ∷ []))
  unfolding commit_text fold_actions
  for_wbs_by true e [] = refl
  for_wbs_by true e (c ∷ s) = refl
  for_wbs_by false e [] = refl
  for_wbs_by false e (c ∷ s) = refl

  for_wbs-Announced :
      (e : EngineCore) (s : Text) (is_wbs : Bool)
      → Announced (commit_preedit_and_reset_for_wbs u (e, []) s is_wbs).1
  unfolding commit_preedit_and_reset_for_wbs
  for_wbs-Announced e s is_wbs =
      for_wbs_by (has_flag e.config.ib_flags ib_workaround_for_fb_messenger || is_wbs) e s

  module _ (clock : Clock) (re : Regexes) where
    abbrev AnnouncedBy : Event → Type 0
    AnnouncedBy ev = Announced ev.actions

    press_backspace-Announced : (e : EngineCore) → AnnouncedBy (press_backspace u clock re e [])
    unfolding press_backspace fold_actions
    press_backspace-Announced e =
        if-elim AnnouncedBy (length (get_preedit_string u clock e) == 1) _ _
          (λ _. commit_preedit_and_reset-Announced e [])
          (λ _.
            if-elim AnnouncedBy (ltb 0 (get_raw_key_len u e)) _ _
              (λ _.
                update_preedit-Announced (drop_char u e true)
                  (get_preedit_string u clock (drop_char u e true)))
              (λ _. refl))

    press_tab-Announced : (e : EngineCore) → AnnouncedBy (press_tab u clock re e [])
    unfolding press_tab
    press_tab-Announced e = elim (Option-cases (get_macro_text u clock e)) [
      | inl q ↦ rw (q, press_tab) (commit_preedit_and_reset-Announced e _)
      | inr (t, q) ↦ rw (q, press_tab) (commit_preedit_and_reset-Announced e t)
    ]

    show_or_commit-Announced :
        (key_val state : ℕ) (c : CommitText)
        → AnnouncedBy (show_or_commit u clock re [] key_val state c)
    show_or_commit-Announced key_val state c =
        if-elim AnnouncedBy c.is_word_break _ _ (λ _. for_wbs-Announced c.engine c.text _)
          (λ _. update_preedit-Announced c.engine c.text)

    preedit_process_key_event-Announced :
        (e : EngineCore) (key_val state : ℕ)
        → WhenSome AnnouncedBy (preedit_process_key_event u clock re e [] key_val state)
    unfolding preedit_process_key_event fold_actions
    preedit_process_key_event-Announced e key_val state =
        if-elim (WhenSome AnnouncedBy)
          (not (can_process_key e.preeditor (rune_of key_val))
            && ((get_raw_key_len u e == 0) && not (macro_enabled e)))
          _ _ (λ _. refl)
          (λ _.
            if-elim (WhenSome AnnouncedBy) (key_val == Keysym.key_backspace) _ _
              (λ _. press_backspace-Announced e)
              (λ _.
                if-elim (WhenSome AnnouncedBy) (key_val == Keysym.key_tab) _ _
                  (λ _. press_tab-Announced e)
                  (λ _.
                    WhenSome-bind {0, 0, 0, 0} (λ _. Unit) AnnouncedBy
                      (get_commit_text u clock re e key_val state) _
                      (WhenSome-intro (λ _. Unit) (get_commit_text u clock re e key_val state)
                        (λ _ _. tt))
                      (λ c _. show_or_commit-Announced key_val state c))))

    -- The actions of a key event that returns write a text out only if they also hide or change what is being
    -- typed, whatever the key and the engine are.
    pub process_key_event-Announced :
        (e : EngineCore) (key_val state : ℕ)
        → WhenSome AnnouncedBy (process_key_event u clock re e key_val state)
    unfolding process_key_event fold_actions
    process_key_event-Announced e key_val state =
        if-elim (WhenSome AnnouncedBy) (has_flag state Keysym.mod_release) _ _ (λ _. refl)
          (λ _.
            if-elim (WhenSome AnnouncedBy) (is_modifier_keysym key_val) _ _ (λ _. refl)
              (λ _.
                if-elim (WhenSome AnnouncedBy) (not (is_valid_state state)) _ _ (λ _. refl)
                  (λ _.
                    preedit_process_key_event-Announced
                      (apply_sentence_capitalize disarmed key_val state).0
                      (apply_sentence_capitalize disarmed key_val state).1 state)))
      where
        disarmed : EngineCore
        disarmed = record e { double_space_armed = false }
