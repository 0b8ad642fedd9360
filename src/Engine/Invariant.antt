-- ===== src/Engine/Invariant.antt =====
-- engine.rs: the invariant of a typing session, and what each key does to the keys of the session.
use pinakey.Base.{
  ℕ, ◌==◌, if◌then◌else◌, has_flag, Bool, false, not, ◌||◌, none, some, List, [], ◌∷◌, ◌++◌, ◌≡◌,
  sym, ◌∙◌, ap, All, All-append, append_assoc, Bool-cases, Option-cases, if-elim, inl, inr,
}
use mathlib.Core.Path.{subst}
use pinakey.Rules.Mode
use pinakey.Rules.Store.{Store, IsWellFormed, IsLive, Extends}
use pinakey.Chars.{Unicode, to_lower, is_upper}
use pinakey.Flattener.Raw.{raw_keys, visible, raw_keys-append, raw_keys-Extends}
use pinakey.InputMethod.{InputMethod}
use pinakey.Transform.Extract.{Composition}
use pinakey.Transform.Generate.{Regexes, appending_rule, undoes_last}
use pinakey.Transform.Live.{AllPair, extract_last_syllable-All}
use pinakey.Transform.Makes.{Makes, Makes-nothing, push-Makes, All-IsLive-Extends}
use pinakey.Transform.Split.{extract_last_syllable-Splits}
use pinakey.Transform.Validity.{extract_last_syllable}
use pinakey.Engine.{
  PinaKeyEngine, can_process_key, engine_generate_transformations, new_composition, append_raw,
  with_composition, process_key,
}
use pinakey.Engine.Keys.{pressed_keys, engine_generate-Makes}

-- What holds between two calls: the store is well formed, the composition is in it, and the keys of the
-- composition are in lower case.
pub record IsSound (u : Unicode) (e : PinaKeyEngine) : Type 0 where
  pub well_formed : IsWellFormed e.store
  pub live : All (IsLive e.store) e.composition
  pub lowered : All (λ k. to_lower u k ≡ k) (raw_keys e.store e.composition)

-- The keys of the whole composition.
abbrev pub typed_keys : PinaKeyEngine → List ℕ
typed_keys e = raw_keys e.store e.composition

-- What a composition that grew by some transformations satisfies.
pub record Grows (s : Store) (comp : Composition) (made : Store × Composition) (ks : List ℕ)
    : Type 0 where
  pub extends : Extends s made.0
  pub well_formed : IsWellFormed made.0
  pub live : All (IsLive made.0) made.1
  pub keys : raw_keys made.0 made.1 ≡ raw_keys s comp ++ ks

-- New transformations behind a composition.
pub Grows-append :
    {s : Store} (comp : Composition) (made : Store × Composition) {ks : List ℕ}
    → All (IsLive s) comp
    → Makes s made ks
    → Grows s comp (made.0, comp ++ made.1) ks
Grows-append {s} comp made {ks} live m = record {
  extends = m.extends;
  well_formed = m.well_formed;
  live = All-append (IsLive made.0) comp made.1 (All-IsLive-Extends comp m.extends live) m.live;
  keys =
      raw_keys-append made.0 comp made.1
      ∙ (ap (◌++ raw_keys made.0 made.1) (raw_keys-Extends comp m.extends live)
          ∙ ap (raw_keys s comp ++◌) m.keys);
}

module _ (u : Unicode) (re : Regexes) where
  -- One key in the Vietnamese branch: the keys of the composition grow by the key, or by none where
  -- the key undoes its own effect on the last syllable.
  pub new_composition-Grows :
      (im : InputMethod) (flags : ℕ) (s : Store) (comp : Composition) (k : ℕ) (up : Bool)
      (made : Store × Composition)
      → IsWellFormed s
      → All (IsLive s) comp
      → to_lower u k ≡ k
      → new_composition u re im flags s comp k up ≡ some made
      → Grows s comp made (pressed_keys s (extract_last_syllable u s comp).1 k)
  unfolding new_composition
  new_composition-Grows im flags s comp k up made w live low e =
      elim (Option-cases (engine_generate_transformations u re im flags s cut.1 k up)) [
        | inl q ↦ let c : none ≡ some made = rw (q, new_composition) at e in cc
        | inr (m, q) ↦
            let c : some (m.0, cut.0 ++ (cut.1 ++ m.1)) ≡ some made =
              rw (q, new_composition) at e in
            let d : (m.0, cut.0 ++ (cut.1 ++ m.1)) ≡ made = cc in
            let grown : Makes s m (pressed_keys s cut.1 k) =
              engine_generate-Makes u im flags s w re cut.1 parts.right k up m low q in
            let whole : comp ++ m.1 ≡ cut.0 ++ (cut.1 ++ m.1) =
              ap (◌++ m.1) (sym (extract_last_syllable-Splits u s comp).whole)
              ∙ append_assoc cut.0 cut.1 m.1 in
            subst (λ x. Grows s comp x (pressed_keys s cut.1 k))
              (ap (λ (c : Composition). (m.0, c)) whole ∙ d) (Grows-append comp m live grown)
      ]
    where
      cut : Composition × Composition
      cut = extract_last_syllable u s comp

      parts : AllPair (IsLive s) cut
      parts = extract_last_syllable-All (IsLive s) u s comp live

  -- The English branch: the key is added at the end.
  append_raw-Grows :
      (e : PinaKeyEngine) (k : ℕ) (up : Bool)
      → IsSound u e
      → Grows e.store e.composition
          ((append_raw e k up false).store, (append_raw e k up false).composition)
          (visible k)
  unfolding append_raw
  append_raw-Grows e k up h =
      Grows-append e.composition _ h.live
        (push-Makes (e.store, []) (appending_rule k) none up (Makes-nothing h.well_formed) tt)

  -- What a press adds to the keys of the session.
  abbrev pub added_keys : PinaKeyEngine → ℕ → ℕ → List ℕ
  added_keys e k m =
      if has_flag m Mode.english || not (can_process_key e (to_lower u k))
      then visible (to_lower u k)
      else pressed_keys e.store (extract_last_syllable u e.store e.composition).1 (to_lower u k)

  process_key-Grows :
      (e e' : PinaKeyEngine) (k m : ℕ)
      → ((c : ℕ) → to_lower u (to_lower u c) ≡ to_lower u c)
      → has_flag m Mode.in_reverse_order ≡ false
      → IsSound u e
      → process_key u re e k m ≡ some e'
      → Grows e.store e.composition (e'.store, e'.composition) (added_keys e k m)
  unfolding process_key
  process_key-Grows e e' k m idem forward h p =
      elim (Bool-cases (has_flag m Mode.english || not (can_process_key e (to_lower u k)))) [
        | inl q ↦
            let c : some (append_raw e (to_lower u k) (is_upper u k) false) ≡ some e' =
              rw (q, forward, process_key) at p in
            let d : append_raw e (to_lower u k) (is_upper u k) false ≡ e' = cc in
            rw q (
              subst
                (λ x. Grows e.store e.composition (x.store, x.composition) (visible (to_lower u k)))
                d (append_raw-Grows e (to_lower u k) (is_upper u k) h))
        | inr q ↦ rw q (vietnamese (rw (q, process_key) at p))
      ]
    where
      low : ℕ
      low = to_lower u k

      vietnamese :
          (elim (new_composition u re e.input_method e.flags e.store e.composition low
              (is_upper u k)) [ none ↦ none | some made ↦ some (with_composition e made) ])
            ≡ some e'
          → Grows e.store e.composition
              (e'.store, e'.composition)
              (pressed_keys e.store (extract_last_syllable u e.store e.composition).1 low)
      vietnamese c =
          elim (Option-cases (
            new_composition u re e.input_method e.flags e.store e.composition low (is_upper u k))) [
              | inl q ↦ let d : none ≡ some e' = rw q at c in cc
              | inr (made, q) ↦
                  let d : some (with_composition e made) ≡ some e' = rw q at c in
                  let f : with_composition e made ≡ e' = cc in
                  subst
                    (λ x.
                      Grows e.store e.composition (x.store, x.composition)
                        (pressed_keys e.store (extract_last_syllable u e.store e.composition).1
                          low))
                    f
                    (new_composition-Grows e.input_method e.flags e.store e.composition low
                      (is_upper u k) made h.well_formed h.live (idem k) q)
            ]

  lowered_visible : (k : ℕ) → to_lower u k ≡ k → All (λ k. to_lower u k ≡ k) (visible k)
  lowered_visible k h =
      if-elim (All (λ k. to_lower u k ≡ k)) (k == 0) [] (k ∷ []) (λ _. tt) (λ _. (h, tt))

  pub pressed_keys-lowered :
      (s : Store) (syllable : Composition) (k : ℕ)
      → to_lower u k ≡ k
      → All (λ k. to_lower u k ≡ k) (pressed_keys s syllable k)
  pressed_keys-lowered s syllable k h = elim (Option-cases (undoes_last s syllable k)) [
    | inl q ↦ rw (q, pressed_keys) (lowered_visible k h)
    | inr (t, q) ↦ rw (q, pressed_keys) tt
  ]

  added_keys-lowered :
      (e : PinaKeyEngine) (k m : ℕ)
      → ((c : ℕ) → to_lower u (to_lower u c) ≡ to_lower u c)
      → All (λ k. to_lower u k ≡ k) (added_keys e k m)
  added_keys-lowered e k m idem =
      if-elim (All (λ k. to_lower u k ≡ k))
        (has_flag m Mode.english || not (can_process_key e (to_lower u k))) (visible (to_lower u k))
        _ (λ _. lowered_visible _ (idem k)) (λ _. pressed_keys-lowered e.store _ _ (idem k))

  pub Grows-IsSound :
      (e e' : PinaKeyEngine) {ks : List ℕ}
      → IsSound u e
      → Grows e.store e.composition (e'.store, e'.composition) ks
      → All (λ k. to_lower u k ≡ k) ks
      → IsSound u e'
  Grows-IsSound e e' {ks} h g l = record {
    well_formed = g.well_formed;
    live = g.live;
    lowered =
        subst (All (λ k. to_lower u k ≡ k)) (sym g.keys)
          (All-append (λ k. to_lower u k ≡ k) (typed_keys e) ks h.lowered l);
  }

  -- A key press that returns keeps the invariant of the session: the store stays well formed,
  -- although the handler adds transformations to it and redirects a tone in place, the composition
  -- stays in it, and its keys stay in lower case. The press is not in reverse order, and lower
  -- case is taken to be stable under lowering.
  pub process_key-IsSound :
      (e e' : PinaKeyEngine) (k m : ℕ)
      → ((c : ℕ) → to_lower u (to_lower u c) ≡ to_lower u c)
      → has_flag m Mode.in_reverse_order ≡ false
      → IsSound u e
      → process_key u re e k m ≡ some e'
      → IsSound u e'
  process_key-IsSound e e' k m idem forward h p =
      Grows-IsSound e e' h (process_key-Grows e e' k m idem forward h p)
        (added_keys-lowered e k m idem)

  -- No key is lost or made up: when a press in a sound session, not in reverse order, returns, the
  -- keys of the composition are those from before, in order, and behind them the key in lower
  -- case, whatever marks and tones the press sets, moves or takes away. Nothing is added if the
  -- key is nul, or if the press is handled as Vietnamese and undoes the effect of the same key on
  -- the last syllable. Lower case is taken to be stable under lowering.
  pub typed_keys-process_key :
      (e e' : PinaKeyEngine) (k m : ℕ)
      → ((c : ℕ) → to_lower u (to_lower u c) ≡ to_lower u c)
      → has_flag m Mode.in_reverse_order ≡ false
      → IsSound u e
      → process_key u re e k m ≡ some e'
      → typed_keys e' ≡ typed_keys e ++ added_keys e k m
  typed_keys-process_key e e' k m idem forward h p =
      (process_key-Grows e e' k m idem forward h p).keys
