-- ===== src/Engine/Restore.antt =====
-- `restore_last_word` of engine.rs, both ways.
use pinakey.Base.{
  ℕ, ◌==◌, if◌then◌else◌, Bool, true, false, not, Option, none, some, [], ◌∷◌, ◌++◌, is_empty, ◌≡◌,
  refl, sym, ◌∙◌, ap, All, All-append, All-append_left, All-append_right, Bool-cases, Option-cases,
  inl, inr,
}
use mathlib.Core.Path.{subst}
use pinakey.Rules.{key}
use pinakey.Rules.Store.{Store, IsWellFormed, IsLive, Extends, Extends-refl, Extends-trans, rule_of}
use pinakey.Chars.{Unicode, to_lower}
use pinakey.Flattener.Raw.{raw_keys, visible, raw_keys-append, raw_keys-Extends}
use pinakey.InputMethod.{InputMethod}
use pinakey.Transform.Extract.{Composition, extract_last_word}
use pinakey.Transform.Generate.{Regexes, break_composition}
use pinakey.Transform.Live.{AllPair, extract_last_word-All}
use pinakey.Transform.Makes.{Makes, All-IsLive-Extends}
use pinakey.Transform.Undo.{break_composition-Makes}
use pinakey.Transform.Split.{extract_last_word-Splits}
use pinakey.Engine.{PinaKeyEngine, new_composition, replay, with_composition, restore_last_word}
use pinakey.Engine.Invariant.{
  IsSound, typed_keys, Grows, new_composition-Grows, pressed_keys-lowered,
}
use pinakey.Engine.Keys.{pressed_keys}
use pinakey.Transform.Validity.{extract_last_syllable}

-- A fact of all keys holds of the keys of both parts.
All-raw_keys :
    (Q : ℕ → Type 0) (s : Store) (a b : Composition)
    → All Q (raw_keys s (a ++ b))
    → All Q (raw_keys s a) × All Q (raw_keys s b)
All-raw_keys Q s a b h =
    let g = subst (All Q) (raw_keys-append s a b) h in
    (
      All-append_left Q (raw_keys s a) (raw_keys s b) g,
      All-append_right Q (raw_keys s a) (raw_keys s b) g,
    )

module _ (u : Unicode) (re : Regexes) where
  -- A composition made by a replay, in a store that grew from `s`.
  record Replayed (s : Store) (made : Store × Composition) : Type 0 where
    extends : Extends s made.0
    well_formed : IsWellFormed made.0
    live : All (IsLive made.0) made.1
    lowered : All (λ k. to_lower u k ≡ k) (raw_keys made.0 made.1)

  visible_low :
      (k : ℕ) → (k == 0) ≡ false → All (λ k. to_lower u k ≡ k) (visible k) → to_lower u k ≡ k
  visible_low k e h = let g : All (λ k. to_lower u k ≡ k) (k ∷ []) = rw e at h in g.0

  replay_step :
      (im : InputMethod) (flags : ℕ) (s : Store) (k : ℕ) (up : Bool) (made m : Store × Composition)
      → to_lower u k ≡ k
      → Replayed s made
      → new_composition u re im flags made.0 made.1 k up ≡ some m
      → Replayed s m
  replay_step im flags s k up made m low r e = record {
    extends = Extends-trans r.extends grown.extends;
    well_formed = grown.well_formed;
    live = grown.live;
    lowered = subst (All (λ k. to_lower u k ≡ k)) (sym grown.keys) (
        All-append (λ k. to_lower u k ≡ k) (raw_keys made.0 made.1) _ r.lowered
          (pressed_keys-lowered u re made.0 _ k low));
  }
    where
      grown :
          Grows made.0 made.1 m (pressed_keys made.0 (extract_last_syllable u made.0 made.1).1 k)
      grown = new_composition-Grows u re im flags made.0 made.1 k up m r.well_formed r.live low e

  replay-Replayed :
      (im : InputMethod) (flags : ℕ) (s : Store) (ts : Composition)
      (made made' : Store × Composition)
      → All (IsLive s) ts
      → All (λ k. to_lower u k ≡ k) (raw_keys s ts)
      → Replayed s made
      → replay u re im flags made ts ≡ some made'
      → Replayed s made'
  unfolding replay raw_keys
  replay-Replayed im flags s [] made made' h l r e =
      let d : made ≡ made' = cc in subst (Replayed s) d r
  replay-Replayed im flags s (t ∷ ts) made made' h l r e =
      let later =
        All-append_right (λ k. to_lower u k ≡ k) (visible (key (rule_of s t))) (raw_keys s ts) l in
      elim (Bool-cases (key (rule_of made.0 t) == 0)) [
        | inl q ↦ replay-Replayed im flags s ts made made' h.1 later r (rw (q, replay) at e)
        | inr q ↦
            elim (Option-cases (
              new_composition u re im flags made.0 made.1 (key (rule_of made.0 t))
                (made.0.cells t).is_upper_case)) [
                  | inl z ↦ let c : none ≡ some made' = rw (q, z, replay) at e in cc
                  | inr (m, z) ↦
                      let low : to_lower u (key (rule_of made.0 t)) ≡ key (rule_of made.0 t) =
                        visible_low (key (rule_of made.0 t)) q (
                          rw (r.extends.rules t h.0) (
                            All-append_left (λ k. to_lower u k ≡ k) (visible (key (rule_of s t)))
                              (raw_keys s ts) l)) in
                      replay-Replayed im flags s ts m made' h.1 later
                        (replay_step im flags s (key (rule_of made.0 t))
                          (made.0.cells t).is_upper_case made m low r z)
                        (rw (q, z, replay) at e)
                ]
      ]

  -- What `restore_last_word` returns, on the last word `word`.
  restored-IsSound :
      (e e' : PinaKeyEngine) (front : Composition) (made : Store × Composition)
      → IsSound u e
      → All (IsLive e.store) front
      → All (λ k. to_lower u k ≡ k) (raw_keys e.store front)
      → Replayed e.store made
      → with_composition e (made.0, front ++ made.1) ≡ e'
      → IsSound u e'
  restored-IsSound e e' front made h live low r d = subst (IsSound u) d (record {
    well_formed = r.well_formed;
    live = All-append (IsLive made.0) front made.1 (All-IsLive-Extends front r.extends live) r.live;
    lowered = subst (All (λ k. to_lower u k ≡ k)) (sym (raw_keys-append made.0 front made.1)) (
        All-append (λ k. to_lower u k ≡ k) (raw_keys made.0 front) (raw_keys made.0 made.1)
          (subst (All (λ k. to_lower u k ≡ k)) (sym (raw_keys-Extends front r.extends live)) low)
          r.lowered);
  })

  module _ (e e' : PinaKeyEngine) (h : IsSound u e) where
    word : Composition × Composition
    word = extract_last_word u e.store e.composition e.input_method.keys

    both : AllPair (IsLive e.store) word
    unfolding word
    both = extract_last_word-All (IsLive e.store) u e.store e.composition h.live e.input_method.keys

    keys_low :
        All (λ k. to_lower u k ≡ k) (raw_keys e.store word.0)
        × All (λ k. to_lower u k ≡ k) (raw_keys e.store word.1)
    unfolding word
    keys_low =
        All-raw_keys (λ k. to_lower u k ≡ k) e.store word.0 word.1
          (subst (λ c. All (λ k. to_lower u k ≡ k) (raw_keys e.store c))
            (sym (extract_last_word-Splits u e.store e.composition e.input_method.keys).whole)
            h.lowered)

    broken : Makes e.store (break_composition e.store word.1) (raw_keys e.store word.1)
    broken = break_composition-Makes e.store word.1 h.well_formed both.right

    -- Restoring the last word of a sound session, to what was typed or back to Vietnamese, keeps
    -- the invariant of the session when it returns.
    pub restore_last_word-IsSound :
        (to_vietnamese : Bool) → restore_last_word u re e to_vietnamese ≡ some e' → IsSound u e'
    unfolding restore_last_word word raw_keys
    restore_last_word-IsSound v p = elim (Bool-cases (is_empty word.1)) [
      | inl q ↦
          let c : some e ≡ some e' = rw (q, restore_last_word) at p in
          let d : e ≡ e' = cc in subst (IsSound u) d h
      | inr q ↦ by_direction v (rw (q, restore_last_word) at p)
    ]
      where
        from_nothing : Replayed e.store (e.store, [])
        from_nothing = record {
          extends = Extends-refl e.store;
          well_formed = h.well_formed;
          live = tt;
          lowered = tt;
        }

        back :
            (o : Option (Store × Composition))
            → ((made : Store × Composition) → o ≡ some made → Replayed e.store made)
            → (elim o [
              | none ↦ none
              | some made ↦ some (with_composition e (made.0, word.0 ++ made.1))
            ])
              ≡ some e'
            → IsSound u e'
        back none f c = cc
        back (some made) f c =
            restored-IsSound e e' word.0 made h both.left keys_low.0 (f made refl) (cc)

        by_direction :
            (v : Bool)
            → (if not v
                then some (
                    with_composition e (
                      (break_composition e.store word.1).0,
                      word.0 ++ (break_composition e.store word.1).1,
                    ))
                else elim (replay u re e.input_method e.flags (e.store, []) word.1) [
                  | none ↦ none
                  | some made ↦ some (with_composition e (made.0, word.0 ++ made.1))
                ])
              ≡ some e'
            → IsSound u e'
        by_direction false c =
            restored-IsSound e e' word.0 (break_composition e.store word.1) h both.left keys_low.0
              (record {
                extends = broken.extends;
                well_formed = broken.well_formed;
                live = broken.live;
                lowered = subst (All (λ k. to_lower u k ≡ k)) (sym broken.keys) keys_low.1;
              })
              (cc)
        by_direction true c =
            back (replay u re e.input_method e.flags (e.store, []) word.1)
              (λ made z.
                replay-Replayed e.input_method e.flags e.store word.1 (e.store, []) made both.right
                  keys_low.1 from_nothing z)
              c

    -- Restoring the last word of a sound session to what was typed keeps every key of the session,
    -- in order, when it returns.
    pub typed_keys-restore_last_word :
        restore_last_word u re e false ≡ some e' → typed_keys e' ≡ typed_keys e
    unfolding restore_last_word word raw_keys
    typed_keys-restore_last_word p = elim (Bool-cases (is_empty word.1)) [
      | inl q ↦
          let c : some e ≡ some e' = rw (q, restore_last_word) at p in
          let d : e' ≡ e = cc in ap typed_keys d
      | inr q ↦
          let c : some (
                with_composition e (
                  (break_composition e.store word.1).0,
                  word.0 ++ (break_composition e.store word.1).1,
                ))
              ≡ some e' =
            rw (q, restore_last_word) at p in
          let d : with_composition e (
            (break_composition e.store word.1).0,
            word.0 ++ (break_composition e.store word.1).1,
          )
              ≡ e' =
            cc in
          ap typed_keys (sym d) ∙ kept
    ]
      where
        made : Store × Composition
        made = break_composition e.store word.1

        kept : raw_keys made.0 (word.0 ++ made.1) ≡ typed_keys e
        kept =
            raw_keys-append made.0 word.0 made.1
            ∙ (ap (◌++ raw_keys made.0 made.1) (raw_keys-Extends word.0 broken.extends both.left)
                ∙ (ap (raw_keys e.store word.0 ++◌) broken.keys
                    ∙ (sym (raw_keys-append e.store word.0 word.1)
                        ∙ ap (raw_keys e.store)
                            (extract_last_word-Splits u e.store e.composition
                              e.input_method.keys).whole)))
