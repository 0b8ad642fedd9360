-- ===== src/Transform/Outcome.antt =====
-- What `generate_transformations` of transform_utils.rs makes, on every branch.
use pinakey.Base.{
  ℕ, ◌==◌, if◌then◌else◌, Bool, true, false, not, ◌&&◌, Option, none, some, List, [], ◌∷◌, ◌++◌,
  reverse, is_empty, ◌≡◌, refl, All, All-append, All-reverse, arith, Bool-cases, Option-cases,
  if-elim, inl, inr,
}
use mathlib.Core.Path.{subst}
use pinakey.Rules.{Rule, key, effect_type, result, is_appending, is_mark, with_key, TransRef}
use pinakey.Rules.Store.{Store, rule_of, IsRoot, IsWellFormed, IsLive}
use pinakey.Chars.{Unicode}
use pinakey.Flattener.{flatten}
use pinakey.Flattener.Raw.{visible}
use pinakey.Transform.Extract.{Composition, filter_appending_composition, get_right_most_vowels}
use pinakey.Transform.Live.{extract_cvc_trans-All}
use pinakey.Transform.Found.{Found, Found-effective, find_target-Found, vowels-IsRoot}
use pinakey.Transform.Makes.{
  Makes, Makes-nothing, push-Makes, push_virtual-Makes, All-IsLive-Extends,
}
use pinakey.Transform.Undo.{generate_undo-Makes}
use pinakey.Transform.Validity.{is_valid}
use pinakey.Transform.Target.{find_target}
use pinakey.Transform.Generate.{
  Regexes, push, appending_rule, virtual_mark, undoes_last, apply_rule, undo_or_nothing, shift_horn,
  without_target, generate_transformations, generate_undo_transformations,
}

-- `made` carries the key, or nothing was made.
pub data Typed (s : Store) (k : ℕ) (made : Store × Composition) : Type 0 where
  typed : Makes s made (visible k) → Typed s k made
  nothing : is_empty made.1 ≡ true → Typed s k made

-- The effect key typed again takes its own effect back and is not kept; else `made` carries the key,
-- or nothing was made.
pub data Outcome (s : Store) (comp : Composition) (k : ℕ) (made : Store × Composition)
    : Type 0 where
  retyped :
      {t : TransRef}
      → undoes_last s comp k ≡ some t
      → is_empty made.1 ≡ false
      → Makes s made []
      → Outcome s comp k made
  pressed : undoes_last s comp k ≡ none → Typed s k made → Outcome s comp k made

-- The key that is typed again is an appending: a root.
undoes_last-IsRoot :
    (s : Store) (comp : Composition) (k : ℕ) {t : TransRef}
    → IsWellFormed s
    → All (IsLive s) comp
    → undoes_last s comp k ≡ some t
    → IsRoot s t
unfolding undoes_last
undoes_last-IsRoot s comp k {t} w h e = last_of (reverse comp) (All-reverse (IsLive s) comp h) e
  where
    last_of :
        (ts : Composition)
        → All (IsLive s) ts
        → (elim ts [
          | [] ↦ none
          | t ∷ _ ↦
              if is_appending (effect_type (rule_of s t))
                && ((key (rule_of s t) == k) && not (key (rule_of s t) == result (rule_of s t)))
              then some t
              else none
        ])
          ≡ some t
        → IsRoot s t
    last_of [] h e = cc
    last_of (x ∷ xs) h e =
        let f : x ≡ t = ground arith in
        subst (IsRoot s) f (record { live = h.0; free = w.appendings x h.0 (ground arith) })

module _ (u : Unicode) (s : Store) (w : IsWellFormed s) (comp : Composition)
    (live : All (IsLive s) comp) where
  module _ (rules : List Rule) (flags k : ℕ) (up : Bool) (h : All (λ r. key r ≡ k) rules) where
    -- What `find_target` finds after some transformations, on the composition with them.
    later_Found :
        (made : Store × Composition) {ks : List ℕ}
        → Makes s made ks
        → Found made.0 k
            (find_target u made.0 (comp ++ made.1) rules flags).0
            (find_target u made.0 (comp ++ made.1) rules flags).1
    later_Found made m =
        find_target-Found made.0 m.well_formed u k (comp ++ made.1)
          (All-append (IsLive made.0) comp made.1 (All-IsLive-Extends comp m.extends live) m.live)
          rules flags h

    apply_second :
        (made : Store × Composition) (o : Option TransRef) (r : Rule) {ks : List ℕ}
        → Makes s made ks
        → Found made.0 k o r
        → Makes s (elim o [ none ↦ made | some t ↦ push made (with_key 0 r) (some t) false ]) ks
    apply_second made none r m f = m
    apply_second made (some t) r m (Found.found root e _) =
        push_virtual-Makes made (with_key 0 r) (some t) false m
          (root, Found-effective (effect_type r) e) refl

    apply_rule-Makes :
        (target : TransRef) (r : Rule)
        → IsRoot s target
        → is_appending (effect_type r) ≡ false
        → key r ≡ k
        → Makes s (apply_rule u s comp rules flags up target r) (visible k)
    unfolding apply_rule
    apply_rule-Makes target r root e q =
        if-elim (λ made. Makes s made (visible k)) (not (is_mark (effect_type r))) made _
          (λ _. first)
          (λ _.
            if-elim (λ made. Makes s made (visible k)) (is_valid u made.0 (comp ++ made.1) true)
              made _ (λ _. first) (λ _. apply_second made _ _ first (later_Found made first)))
      where
        made : Store × Composition
        made = push (s, []) r (some target) up

        first : Makes s made (visible k)
        first =
            subst (λ x. Makes s made (visible x)) q
              (push-Makes (s, []) r (some target) up (Makes-nothing w) (root, e))

    undo_or_nothing-Typed : Typed s k (undo_or_nothing u s comp rules flags k up)
    unfolding undo_or_nothing
    undo_or_nothing-Typed =
        if-elim (Typed s k) (is_empty made.1) made _ (λ e. Typed.nothing e)
          (λ _. Typed.typed (push-Makes made (appending_rule k) none up undo tt))
      where
        made : Store × Composition
        made = generate_undo_transformations u s comp rules flags

        undo : Makes s made []
        undo = generate_undo-Makes u s comp live rules flags w

    shift_second :
        (v : TransRef) (made : Store × Composition) (o : Option TransRef) (r : Rule)
        → Makes s made []
        → Found made.0 k o r
        → (made' : Store × Composition)
        → (elim o [
          | none ↦ none
          | some t ↦ if t == v then none else some (push made r (some t) up)
        ])
          ≡ some made'
        → Makes s made' (visible k)
    shift_second v made none r m f made' e = cc
    shift_second v made (some t) r m (Found.found root a q) made' e = elim (Bool-cases (t == v)) [
      | inl b ↦ let c : none ≡ some made' = rw b at e in cc
      | inr b ↦
          let c : some (push made r (some t) up) ≡ some made' = rw b at e in
          let d : push made r (some t) up ≡ made' = cc in
          subst (λ x. Makes s x (visible k)) d
            (subst (λ x. Makes s (push made r (some t) up) (visible x)) q
              (push-Makes made r (some t) up m (root, Found-effective (effect_type r) a)))
    ]

    shift_horn-Makes :
        (v : TransRef) (made : Store × Composition)
        → IsRoot s v
        → shift_horn u s comp rules flags up v ≡ some made
        → Makes s made (visible k)
    unfolding shift_horn
    shift_horn-Makes v made root e = shift_second v first _ _ moved (later_Found first moved) made e
      where
        first : Store × Composition
        first = push (s, []) (virtual_mark 0) (some v) false

        moved : Makes s first []
        moved =
            push_virtual-Makes (s, []) (virtual_mark 0) (some v) false (Makes-nothing w)
              (root, refl) refl

    module _ (re : Regexes) where
      after_shift :
          (o : Option (Store × Composition)) (made : Store × Composition)
          → ((m : Store × Composition) → o ≡ some m → Makes s m (visible k))
          → (elim o [ some m ↦ some m | none ↦ some (undo_or_nothing u s comp rules flags k up) ])
            ≡ some made
          → Typed s k made
      after_shift none made g e =
          let d : undo_or_nothing u s comp rules flags k up ≡ made = cc in
          subst (Typed s k) d undo_or_nothing-Typed
      after_shift (some m) made g e =
          let d : m ≡ made = cc in Typed.typed (subst (λ x. Makes s x (visible k)) d (g m refl))

      with_vowels :
          (vowels : Composition) (made : Store × Composition)
          → All (IsRoot s) vowels
          → (elim vowels [
            | [] ↦ none
            | v ∷ _ ↦ elim (shift_horn u s comp rules flags up v) [
              | some m ↦ some m
              | none ↦ some (undo_or_nothing u s comp rules flags k up)
            ]
          ])
            ≡ some made
          → Typed s k made
      with_vowels [] made r e = cc
      with_vowels (v ∷ vs) made r e =
          after_shift (shift_horn u s comp rules flags up v) made
            (λ m q. shift_horn-Makes v m r.0 q) e

      without_target-Typed :
          (made : Store × Composition)
          → without_target u re s comp rules flags k up ≡ some made
          → Typed s k made
      unfolding without_target
      without_target-Typed made e = elim (Bool-cases (re.uh_o (flatten u s comp 21))) [
        | inl q ↦
            with_vowels (filter_appending_composition s (get_right_most_vowels s comp)) made
              (vowels-IsRoot s w _ (extract_cvc_trans-All (IsLive s) s comp live).vo) (rw q at e)
        | inr q ↦
            let c : some (undo_or_nothing u s comp rules flags k up) ≡ some made = rw q at e in
            let d : undo_or_nothing u s comp rules flags k up ≡ made = cc in
            subst (Typed s k) d undo_or_nothing-Typed
      ]

      not_retyped :
          (o : Option TransRef) (r : Rule) (made : Store × Composition)
          → Found s k o r
          → (elim o [
            | some target ↦ some (apply_rule u s comp rules flags up target r)
            | none ↦ without_target u re s comp rules flags k up
          ])
            ≡ some made
          → Typed s k made
      not_retyped none r made f e = without_target-Typed made e
      not_retyped (some t) r made (Found.found root a q) e =
          let d : apply_rule u s comp rules flags up t r ≡ made = cc in
          Typed.typed (
            subst (λ x. Makes s x (visible k)) d
              (apply_rule-Makes t r root (Found-effective (effect_type r) a) q))

      -- In a well-formed store with the composition in it, and with rules of the pressed key,
      -- whatever `generate_transformations` returns, the new transformations carry no key where
      -- the key undoes its own effect; else they carry the pressed key once and the store stays
      -- well formed, or there are none of them.
      pub generate_transformations-Outcome :
          (made : Store × Composition)
          → generate_transformations u re s comp rules flags k up ≡ some made
          → Outcome s comp k made
      unfolding generate_transformations
      generate_transformations-Outcome made e = elim (Option-cases (undoes_last s comp k)) [
        | inl q ↦ Outcome.pressed q (
            not_retyped _ _ made (find_target-Found s w u k comp live rules flags h)
              (rw (q, generate_transformations) at e))
        | inr (t, q) ↦
            let c : some (push (s, []) (virtual_mark 5) (some t) false) ≡ some made =
              rw (q, generate_transformations) at e in
            let d : push (s, []) (virtual_mark 5) (some t) false ≡ made = cc in
            Outcome.retyped q (subst (λ x. is_empty x.1 ≡ false) d refl) (
              subst (λ x. Makes s x []) d
                (push_virtual-Makes (s, []) (virtual_mark 5) (some t) false (Makes-nothing w)
                  (undoes_last-IsRoot s comp k w live q, refl) refl))
      ]
