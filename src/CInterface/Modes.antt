-- ===== src/CInterface/Modes.antt =====
-- The two ways in which the addon shows what is typed, over crates/pinakey-ffi/src/lib.rs: with a preedit, and by edits
-- of the document (`process_key_replace`). Both show the same text.
use pinakey.Base.{
  ℕ, ◌<◌, Bool, true, false, Option, none, some, List, [], ◌∷◌, ◌++◌, ◌≡◌, refl, sym, ◌∙◌, ap, elem,
  length, append_assoc, append-nil, Text, WhenSome-at,
}
use pinakey.Chars.{Unicode}
use pinakey.Transform.Generate.{Regexes}
use pinakey.KeyEngine.Core.{Action, EngineCore}
use pinakey.KeyEngine.View.{Clock}
use pinakey.KeyEngine.Handler.{Event, process_key_event}
use pinakey.CInterface.{
  PkEngine, Preedit, Folded, to_cstring, fold_actions, diff_replace, text_or_empty, show_folded,
  replace_folded, apply, apply_replace,
}
use pinakey.CInterface.Calls.{with_core}
use pinakey.CInterface.Edit.{
  edit, edit-append, edit-diff_replace, elem-append_left, elem-append_right, elem-diff_replace,
}
use pinakey.CInterface.Shown.{Announced, is_announced, process_key_event-Announced}

-- The texts of the actions.
abbrev pub shown_text : List Action → Text
shown_text actions = (fold_actions actions).commit ++ text_or_empty (fold_actions actions).preedit

module _ (u : Unicode) (re : Regexes) where
  -- A session in both modes, from a document `doc` and an engine that shows nothing: the first engine has a preedit
  -- behind the first document, and the second one edits the second document. `program`: the program writes, while
  -- nothing is being typed.
  pub data BothTyped : PkEngine → PkEngine → Text → Text → Type 0 where
    begun :
        (a b : PkEngine) (doc : Text)
        → a.core ≡ b.core
        → a.preedit ≡ []
        → b.prev_displayed ≡ []
        → BothTyped a b doc doc
    typed :
        {a b : PkEngine} {doc edited : Text} (clock : Clock) (key_val state : ℕ) (ev : Event)
        → BothTyped a b doc edited
        → process_key_event u clock re a.core key_val state ≡ some ev
        → length b.prev_displayed < 0x100000000
        → elem 0 (shown_text ev.actions) ≡ false
        → BothTyped
            (apply (with_core a ev.engine) ev.actions)
            (apply_replace (with_core b ev.engine) ev.actions)
            (doc ++ (apply (with_core a ev.engine) ev.actions).commit)
            (edit edited
              (apply_replace (with_core b ev.engine) ev.actions).replace_delete
              (apply_replace (with_core b ev.engine) ev.actions).replace_insert)
    program :
        {a b : PkEngine} {doc edited : Text} (text : Text)
        → BothTyped a b doc edited
        → a.preedit ≡ []
        → BothTyped a b (doc ++ text) (edited ++ text)

-- What both modes have in common.
pub record Agree (a b : PkEngine) (doc edited : Text) : Type 0 where
  pub core : a.core ≡ b.core
  pub segment : a.preedit ≡ b.prev_displayed
  pub document : edited ≡ doc ++ a.preedit

to_cstring-clean : (t : Text) → elem 0 t ≡ false → to_cstring t ≡ t
unfolding to_cstring
to_cstring-clean t h = rw (h, to_cstring) refl

edit-nothing : (doc : Text) → edit doc 0 [] ≡ doc
edit-nothing doc =
    ap (λ t. edit t 0 []) (sym (append-nil doc)) ∙ (edit-append doc [] [] ∙ append-nil doc)

-- The edit of the second mode, where the event shows something.
edited_shows :
    (doc edited old new : Text)
    → edited ≡ doc ++ old
    → length old < 0x100000000
    → elem 0 new ≡ false
    → edit edited (diff_replace old new).0 (to_cstring (diff_replace old new).1) ≡ doc ++ new
edited_shows doc edited old new whole short clean =
    ap (edit edited (diff_replace old new).0)
      (to_cstring-clean (diff_replace old new).1 (elem-diff_replace old new clean))
    ∙ (ap (λ t. edit t (diff_replace old new).0 (diff_replace old new).1) whole
        ∙ edit-diff_replace doc old new short)

module _ (a b : PkEngine) (doc edited : Text) (agree : Agree a b doc edited)
    (short : length b.prev_displayed < 0x100000000) where
  abbrev Agrees : Folded → Type 0
  Agrees f =
      Agree (show_folded a f) (replace_folded b f) (doc ++ (show_folded a f).commit)
        (edit edited (replace_folded b f).replace_delete (replace_folded b f).replace_insert)

  shown :
      (commit t : Text)
      → elem 0 (commit ++ t) ≡ false
      → edit edited
          (diff_replace b.prev_displayed (commit ++ t)).0
          (to_cstring (diff_replace b.prev_displayed (commit ++ t)).1)
        ≡ (doc ++ to_cstring commit) ++ to_cstring t
  shown commit t clean = rw (to_cstring-clean commit (elem-append_left commit t clean)) (
      rw (to_cstring-clean t (elem-append_right commit t clean)) (
        edited_shows doc edited b.prev_displayed (commit ++ t)
          (agree.document ∙ ap (doc ++◌) agree.segment) short clean
        ∙ sym (append_assoc doc commit t)))

  agree_step :
      (commit : Text) (p : Option Preedit) (hide : Bool)
      → is_announced (record { commit = commit; preedit = p; hide = hide }) ≡ true
      → elem 0 (commit ++ text_or_empty p) ≡ false
      → Agrees (record { commit = commit; preedit = p; hide = hide })
  unfolding to_cstring
  agree_step [] none false q clean = record {
    core = agree.core;
    segment = agree.segment;
    document = edit-nothing edited ∙ (agree.document ∙ ap (◌++ a.preedit) (sym (append-nil doc)));
  }
  agree_step (c ∷ s) none false q clean = cc
  agree_step commit none true q clean = record {
    core = agree.core;
    segment = refl;
    document = shown commit [] clean;
  }
  agree_step commit (some p) hide q clean = record {
    core = agree.core;
    segment = to_cstring-clean p.text (elem-append_right commit p.text clean);
    document = shown commit p.text clean;
  }

restart :
    {a b : PkEngine} {doc edited : Text} {core : EngineCore}
    → Agree a b doc edited
    → Agree (with_core a core) (with_core b core) doc edited
restart k = record { core = refl; segment = k.segment; document = k.document }

-- After any events of one session in both modes, and any texts that the program writes while
-- nothing is being typed, the document that the second mode edits is the document of the first mode
-- with its preedit behind it, what the second mode takes for the segment being typed is that
-- preedit, and both engines are in the same state. Each event returns, shows texts without a nul,
-- and meets a segment whose length a `u32` can hold.
pub BothTyped-Agree :
    (u : Unicode) (re : Regexes) {a b : PkEngine} {doc edited : Text}
    → BothTyped u re a b doc edited
    → Agree a b doc edited
unfolding apply apply_replace
BothTyped-Agree u re (BothTyped.begun a b doc core p q) = record {
  core = core;
  segment = p ∙ sym q;
  document = sym (append-nil doc) ∙ ap (doc ++◌) (sym p);
}
BothTyped-Agree u re
      (BothTyped.typed {a} {b} {doc} {edited} clock key_val state ev r q short clean) =
    agree_step (with_core a ev.engine) (with_core b ev.engine) doc edited
      (restart (BothTyped-Agree u re r)) short (fold_actions ev.actions).commit
      (fold_actions ev.actions).preedit (fold_actions ev.actions).hide
      (WhenSome-at (λ (ev : Event). Announced ev.actions) ev q
        (process_key_event-Announced u clock re a.core key_val state))
      clean
BothTyped-Agree u re (BothTyped.program {a} {b} {doc} {edited} text r p) =
    let k : Agree a b doc edited = BothTyped-Agree u re r in
    record { core = k.core; segment = k.segment; document = appended k }
  where
    appended : Agree a b doc edited → edited ++ text ≡ (doc ++ text) ++ a.preedit
    appended k =
        ap (◌++ text) (k.document ∙ (ap (doc ++◌) p ∙ append-nil doc))
        ∙ (sym (append-nil (doc ++ text)) ∙ ap ((doc ++ text) ++◌) (sym p))
