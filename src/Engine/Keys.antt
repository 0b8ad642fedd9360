-- ===== src/Engine/Keys.antt =====
-- engine.rs, on the store: what a key press makes of a composition, on every branch of the handler.
use pinakey.Base.{
  ℕ, ◌==◌, has_flag, Bool, true, false, ◌&&◌, Option, none, some, List, [], ◌∷◌, ◌++◌, is_empty,
  select, ◌≡◌, refl, ◌∙◌, ap, All, All-append, append-nil, ==_iff, Option-cases, if-elim, inl, inr,
}
use mathlib.Core.Path.{subst}
use pinakey.Rules.{Rule, key, effect_type, is_appending, TransRef}
use pinakey.Rules.Flag
use pinakey.Rules.Store.{Store, IsRoot, IsWellFormed, IsLive, Extends-trans}
use pinakey.Chars.{Unicode, to_lower}
use pinakey.Flattener.{flatten}
use pinakey.Flattener.Raw.{raw_keys, visible, raw_keys-append, raw_keys-Extends}
use pinakey.InputMethod.{InputMethod}
use pinakey.Transform.Extract.{Composition}
use pinakey.Transform.Found.{Found, Found-effective, find_target-Found}
use pinakey.Transform.Generate
use pinakey.Transform.Generate.{Regexes, push, undoes_last, generate_fallback_transformations}
use pinakey.Transform.Makes.{Makes, Makes-nothing, push_virtual-Makes, All-IsLive-Extends}
use pinakey.Transform.Refresh.{refresh_last_tone_target-Makes}
use pinakey.Transform.Outcome.{Typed, Outcome, generate_transformations-Outcome}
use pinakey.Transform.Undo.{generate_fallback-Makes}
use pinakey.Transform.Validity
use pinakey.Transform.Validity.{extract_last_syllable}
use pinakey.Engine.{
  get_applicable_rules, as_virtual, push_found, uow_shortcut, engine_refresh_last_tone_target,
  apply_uow_shortcut, fall_back, or_fall_back, then_refresh, engine_generate_transformations,
}

-- The key that a press adds to a syllable: none where it undoes the effect of the same key.
abbrev pub pressed_keys : Store → Composition → ℕ → List ℕ
pressed_keys s syllable k = elim (undoes_last s syllable k) [ none ↦ visible k | some _ ↦ [] ]

select-All {ℓ} : {A : Type ℓ} (p : A → Bool) (xs : List A) → All (λ x. p x ≡ true) (select p xs)
select-All p [] = tt
select-All p (x ∷ xs) =
    if-elim (All (λ x. p x ≡ true)) (p x) (x ∷ select p xs) (select p xs)
      (λ e. (e, select-All p xs)) (λ _. select-All p xs)

keys_of_tests :
    (k : ℕ) (rules : List Rule) → All (λ r. (key r == k) ≡ true) rules → All (λ r. key r ≡ k) rules
keys_of_tests k [] h = tt
keys_of_tests k (r ∷ rs) h = ((==_iff (key r) k).0 h.0, keys_of_tests k rs h.1)

-- A virtual transformation that may be added.
data Shortcut (s : Store) : Option (TransRef × Rule) → Type 0 where
  nothing : Shortcut s none
  shortcut :
      {t : TransRef} {r : Rule}
      → IsRoot s t
      → is_appending (effect_type r) ≡ false
      → key r ≡ 0
      → Shortcut s (some (t, r))

push_found-Makes :
    (s : Store) (made : Store × Composition) (o : Option (TransRef × Rule)) {ks : List ℕ}
    → Makes s made ks
    → Shortcut made.0 o
    → Makes s (push_found made o) ks
push_found-Makes s made none m f = m
push_found-Makes s made (some (t, r)) m (Shortcut.shortcut root e q) =
    push_virtual-Makes made r (some t) false m (root, e) q

module _ (u : Unicode) (im : InputMethod) (flags : ℕ) where
  -- The rules that apply to a key are of that key, in lower case.
  pub get_applicable_rules-key :
      (k : ℕ) → All (λ r. key r ≡ to_lower u k) (get_applicable_rules u im k)
  unfolding get_applicable_rules
  get_applicable_rules-key k = keys_of_tests _ _ (select-All _ im.rules)

  as_virtual-Shortcut :
      (s : Store) (j : ℕ) (o : Option TransRef) (r : Rule)
      → Found s j o r
      → Shortcut s (as_virtual (o, r))
  as_virtual-Shortcut s j none r f = Shortcut.nothing
  as_virtual-Shortcut s j (some t) r (Found.found root e _) =
      Shortcut.shortcut root (Found-effective (effect_type r) e) refl

  uow_shortcut-Shortcut :
      (re : Regexes) (s : Store) (w : IsWellFormed s) (syllable : Composition)
      → All (IsLive s) syllable
      → (supers : List ℕ) → Shortcut s (uow_shortcut u re im flags s syllable supers)
  unfolding uow_shortcut
  uow_shortcut-Shortcut re s w syllable live [] = Shortcut.nothing
  uow_shortcut-Shortcut re s w syllable live (j ∷ js) =
      if-elim (Shortcut s) (re.uo_h_tail (flatten u s syllable 20)) _ none
        (λ _. as_virtual-Shortcut s (to_lower u j) _ _ (
          find_target-Found s w u (to_lower u j) syllable live (get_applicable_rules u im j) flags
            (get_applicable_rules-key j)))
        (λ _. Shortcut.nothing)

  pub engine_refresh-Makes :
      (s : Store) (w : IsWellFormed s) (comp : Composition)
      → All (IsLive s) comp
      → Makes s (engine_refresh_last_tone_target u flags s comp) []
  unfolding engine_refresh_last_tone_target
  engine_refresh-Makes s w comp h =
      if-elim (λ made. Makes s made [])
        (has_flag flags Flag.free_tone_marking && Validity.is_valid u s comp false)
        (Generate.refresh_last_tone_target u s comp (has_flag flags Flag.std_tone_style)) (s, [])
        (λ _. refresh_last_tone_target-Makes u s w comp (has_flag flags Flag.std_tone_style) h)
        (λ _. Makes-nothing w)

  module _ (s : Store) (w : IsWellFormed s) where
    module _ (re : Regexes) (comp : Composition) (live : All (IsLive s) comp) (k : ℕ)
        (up : Bool) where
      fall_back-Makes : Makes s (fall_back u re im flags s comp k up) (visible k)
      unfolding fall_back apply_uow_shortcut
      fall_back-Makes = push_found-Makes s made _ start (
          uow_shortcut-Shortcut re made.0 start.well_formed (comp ++ made.1)
            (All-append (IsLive made.0) comp made.1 (All-IsLive-Extends comp start.extends live)
              start.live)
            im.super_keys)
        where
          made : Store × Composition
          made = generate_fallback_transformations u s (get_applicable_rules u im k) k up

          start : Makes s made (visible k)
          start = generate_fallback-Makes u s (get_applicable_rules u im k) k up w

      or_fall_back-Typed :
          (made : Store × Composition)
          → Typed s k made
          → Makes s (or_fall_back u re im flags s comp k up made) (visible k)
      or_fall_back-Typed made (Typed.nothing e) = rw e fall_back-Makes
      or_fall_back-Typed made (Typed.typed m) =
          if-elim (λ made. Makes s made (visible k)) (is_empty made.1)
            (fall_back u re im flags s comp k up) made (λ _. fall_back-Makes) (λ _. m)

      or_fall_back-Makes :
          (made : Store × Composition)
          → Outcome s comp k made
          → Makes s (or_fall_back u re im flags s comp k up made) (pressed_keys s comp k)
      or_fall_back-Makes made (Outcome.retyped q e m) = rw (q, e, pressed_keys) m
      or_fall_back-Makes made (Outcome.pressed q t) =
          rw (q, pressed_keys) (or_fall_back-Typed made t)

      then_refresh-Makes :
          (made : Store × Composition) {ks : List ℕ}
          → Makes s made ks
          → Makes s (then_refresh u flags comp made) ks
      then_refresh-Makes made {ks} m = record {
        extends = Extends-trans m.extends moved.extends;
        well_formed = moved.well_formed;
        live =
            All-append (IsLive after) made.1 _ (All-IsLive-Extends made.1 moved.extends m.live)
              moved.live;
        keys =
            raw_keys-append after made.1 _
            ∙ (ap (raw_keys after made.1 ++◌) moved.keys
                ∙ (append-nil _ ∙ (raw_keys-Extends made.1 moved.extends m.live ∙ m.keys)));
      }
        where
          after : Store
          after = (engine_refresh_last_tone_target u flags made.0 (comp ++ made.1)).0

          moved : Makes made.0 (engine_refresh_last_tone_target u flags made.0 (comp ++ made.1)) []
          moved = engine_refresh-Makes made.0 m.well_formed (comp ++ made.1) (
              All-append (IsLive made.0) comp made.1 (All-IsLive-Extends comp m.extends live)
                m.live)

      -- The transformations that the engine adds to a syllable for a key carry that key, or none
      -- where the key undoes its own effect; the store stays well formed.
      pub engine_generate-Makes :
          (made : Store × Composition)
          → to_lower u k ≡ k
          → engine_generate_transformations u re im flags s comp k up ≡ some made
          → Makes s made (pressed_keys s comp k)
      unfolding engine_generate_transformations
      engine_generate-Makes made low e =
          elim (Option-cases (
            Generate.generate_transformations u re s comp (get_applicable_rules u im k) flags k
              up)) [
                | inl q ↦
                    let c : none ≡ some made = rw (q, engine_generate_transformations) at e in cc
                | inr (m, q) ↦
                    let c : some
                          (then_refresh u flags comp (or_fall_back u re im flags s comp k up m))
                        ≡ some made =
                      rw (q, engine_generate_transformations) at e in
                    let d : then_refresh u flags comp (or_fall_back u re im flags s comp k up m)
                        ≡ made =
                      cc in
                    subst (λ x. Makes s x (pressed_keys s comp k)) d
                      (then_refresh-Makes _ (
                        or_fall_back-Makes m (
                          generate_transformations-Outcome u s w comp live
                            (get_applicable_rules u im k) flags k up rules re m q)))
              ]
        where
          rules : All (λ r. key r ≡ k) (get_applicable_rules u im k)
          rules =
              subst (λ x. All (λ r. key r ≡ x) (get_applicable_rules u im k)) low
                (get_applicable_rules-key k)
