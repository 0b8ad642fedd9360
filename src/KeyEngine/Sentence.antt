-- ===== src/KeyEngine/Sentence.antt =====
-- Capitals at the start of a sentence, in crates/pinakey-engine/src/engine.rs: when the next letter is to be a capital,
-- and which keys the handler changes.
use pinakey.Base.{
  ℕ, has_flag, true, false, List, [], ◌∷◌, ◌++◌, ◌≡◌, refl, ◌∙◌, reverse, Text, All, ap, Bool-cases,
  inl, inr, ◌↔◌, if-elim,
}
use pinakey.Chars.{Unicode}
use pinakey.Config.Flags.{ib_capitalize_sentence, ib_double_space_period}
use pinakey.KeyEngine.Core.{Action, SentenceState, EngineCore}
use pinakey.KeyEngine.Commit.{
  ends_sentence, sentence_after, track_sentence_commit, track_double_space_commit, commit_text,
}

-- The text, read from its end: at least one blank, and before the blanks a mark that ends a sentence.
pub record EndsSentence (u : Unicode) (s : Text) : Type 0 where
  pub blank : ℕ
  pub blanks : Text
  pub mark : ℕ
  pub before : Text
  pub backwards : reverse s ≡ blank ∷ (blanks ++ (mark ∷ before))
  pub first : u.is_whitespace blank ≡ true
  pub others : All (λ c. u.is_whitespace c ≡ true) blanks
  pub ending : ends_sentence mark ≡ true

module _ (u : Unicode) where
  record Skips (t : Text) : Type 0 where
    blanks : Text
    mark : ℕ
    before : Text
    whole : t ≡ blanks ++ (mark ∷ before)
    others : All (λ c. u.is_whitespace c ≡ true) blanks
    ending : ends_sentence mark ≡ true

  skip_blank : {t : Text} (c : ℕ) → u.is_whitespace c ≡ true → Skips t → Skips (c ∷ t)
  skip_blank c w k = record {
    blanks = c ∷ k.blanks;
    mark = k.mark;
    before = k.before;
    whole = ap (c ∷◌) k.whole;
    others = (w, k.others);
    ending = k.ending;
  }

  sentence_after-Skips :
      (t : Text) → sentence_after u t true ≡ SentenceState.ready_to_capitalize → Skips t
  unfolding sentence_after
  sentence_after-Skips [] h = cc
  sentence_after-Skips (c ∷ t) h = elim (Bool-cases (u.is_whitespace c)) [
    | inl w ↦ skip_blank c w (sentence_after-Skips t (rw (w, sentence_after) at h))
    | inr w ↦ elim (Bool-cases (ends_sentence c)) [
      | inl e ↦ record { blanks = []; mark = c; before = t; whole = refl; others = tt; ending = e }
      | inr e ↦
          let k : SentenceState.idle ≡ SentenceState.ready_to_capitalize =
            rw (w, e, sentence_after) at h in
          cc
    ]
  ]

  module _ (marks : (c : ℕ) → ends_sentence c ≡ true → u.is_whitespace c ≡ false) where
    skips_ready :
        (blanks : Text) (mark : ℕ) (before : Text)
        → All (λ c. u.is_whitespace c ≡ true) blanks
        → ends_sentence mark ≡ true
        → sentence_after u (blanks ++ (mark ∷ before)) true ≡ SentenceState.ready_to_capitalize
    unfolding sentence_after
    skips_ready [] mark before a e = rw (marks mark e, e, sentence_after) refl
    skips_ready (c ∷ blanks) mark before a e =
        rw (a.0, sentence_after) (skips_ready blanks mark before a.1 e)

    from_ready :
        (s t : Text)
        → reverse s ≡ t
        → sentence_after u t false ≡ SentenceState.ready_to_capitalize
        → EndsSentence u s
    unfolding sentence_after
    from_ready s [] q h = cc
    from_ready s (c ∷ t) q h = elim (Bool-cases (u.is_whitespace c)) [
      | inl w ↦
          let k : Skips t = sentence_after-Skips t (rw (w, sentence_after) at h) in
          record {
            blank = c;
            blanks = k.blanks;
            mark = k.mark;
            before = k.before;
            backwards = q ∙ ap (c ∷◌) k.whole;
            first = w;
            others = k.others;
            ending = k.ending;
          }
      | inr w ↦ elim (Bool-cases (ends_sentence c)) [
        | inl e ↦
            let k : SentenceState.after_punct ≡ SentenceState.ready_to_capitalize =
              rw (w, e, sentence_after) at h in
            cc
        | inr e ↦
            let k : SentenceState.idle ≡ SentenceState.ready_to_capitalize =
              rw (w, e, sentence_after) at h in
            cc
      ]
    ]

    to_ready :
        (s : Text)
        → EndsSentence u s
        → sentence_after u (reverse s) false ≡ SentenceState.ready_to_capitalize
    unfolding sentence_after
    to_ready s k =
        rw k.backwards
          (rw (k.first, sentence_after) (skips_ready k.blanks k.mark k.before k.others k.ending))

    track_double_space_commit-sentence :
        (e : EngineCore) (s : Text) → (track_double_space_commit u e s).sentence ≡ e.sentence
    unfolding track_double_space_commit
    track_double_space_commit-sentence e s =
        if-elim (λ (x : EngineCore). x.sentence ≡ e.sentence)
          (has_flag e.config.ib_flags ib_double_space_period) _ _ (λ _. refl) (λ _. refl)

    -- Behind a text that is written out, and is not empty, the next letter is to be a capital exactly if the text
    -- ends in a full stop, an exclamation mark or a question mark and then blanks, at least one. The
    -- configuration has capitals, and none of the three marks is a blank.
    pub commit_text-ready :
        (e : EngineCore) (out : List Action) (c : ℕ) (s : Text)
        → has_flag e.config.ib_flags ib_capitalize_sentence ≡ true
        → ((commit_text u (e, out) (c ∷ s)).0.sentence ≡ SentenceState.ready_to_capitalize)
          ↔ EndsSentence u (c ∷ s)
    unfolding commit_text track_sentence_commit track_double_space_commit
    commit_text-ready e out c s on =
        rw sentence (from_ready (c ∷ s) (reverse (c ∷ s)) refl, to_ready (c ∷ s))
      where
        sentence :
            (commit_text u (e, out) (c ∷ s)).0.sentence ≡ sentence_after u (reverse (c ∷ s)) false
        sentence =
            track_double_space_commit-sentence (track_sentence_commit u e (c ∷ s)) (c ∷ s)
            ∙ rw (on, track_sentence_commit) refl
