-- ===== src/Transform/Undo.antt =====
-- The loops of transform_utils.rs that make several transformations: the undo, the fallback and
-- `break_composition`. Each keeps the store well formed, and its keys are known.
use pinakey.Base.{
  ℕ, ◌==◌, if◌then◌else◌, Bool, false, ◌&&◌, ◌||◌, Option, none, some, List, [], ◌∷◌, ◌++◌, reverse,
  Text, ◌≡◌, refl, sym, ◌∙◌, ap, All, All-reverse, append-nil, append_assoc, arith, Bool-cases,
  Option-cases, if-elim, inl, inr,
}
use mathlib.Core.Path.{subst}
use pinakey.Rules.{
  Rule, Rules, key, effect_type, effect_on, is_appending, is_tone, is_mark, appended_rules,
  TransRef,
}
use pinakey.Rules.Store.{Store, rule_of, IsWellFormed, IsLive}
use pinakey.Chars.{Unicode, is_upper}
use pinakey.Flattener.Raw.{raw_keys, visible}
use pinakey.Transform.Extract.{Composition, find_root_target}
use pinakey.Transform.Found.{RootOrNone, tone_target-RootOrNone, find_root_target-IsRoot}
use pinakey.Transform.Makes.{
  Makes, Makes-nothing, push-Makes, push_virtual-Makes, All-IsLive-Extends,
}
use pinakey.Transform.Target.{tone_target}
use pinakey.Transform.Generate.{
  push, push_appending, appending_rule, virtual_tone, virtual_mark, undo_tone, undo_mark, undo_rule,
  undo_rules, generate_undo_transformations, lower_rule, push_appended, find_appending,
  generate_fallback_transformations, break_loop, break_composition,
}

module _ (u : Unicode) (s : Store) (comp : Composition) (live : All (IsLive s) comp) where
  undo_tone-Makes :
      (flags : ℕ) (r : Rule) (made : Store × Composition)
      → Makes s made []
      → Makes s (undo_tone u comp flags r made) []
  unfolding undo_tone
  undo_tone-Makes flags r made m = pushed (tone_target u made.0 comp r flags) (
      tone_target-RootOrNone made.0 m.well_formed u comp r flags
        (All-IsLive-Extends comp m.extends live))
    where
      pushed :
          (o : Option TransRef)
          → RootOrNone made.0 o
          → Makes s (elim o [ none ↦ made | some t ↦ push made (virtual_tone 0) (some t) false ]) []
      pushed none h = m
      pushed (some t) (RootOrNone.root h) =
          push_virtual-Makes made (virtual_tone 0) (some t) false m (h, refl) refl

  undo_mark-Makes :
      (shown : Text) (r : Rule) (ts : Composition) (made : Store × Composition)
      → All (IsLive s) ts
      → Makes s made []
      → Makes s (undo_mark u comp shown r made ts) []
  unfolding undo_mark
  undo_mark-Makes shown r [] made h m = m
  undo_mark-Makes shown r (t ∷ ts) made h m = undo_mark-Makes shown r ts _ h.1 (
      if-elim (λ made. Makes s made []) _
        (push made (virtual_mark 0) (some (find_root_target made.0 t)) false) made
        (λ _.
          push_virtual-Makes made (virtual_mark 0) _ false m
            (
              find_root_target-IsRoot made.0 m.well_formed t (omega (arith, h.0, m.extends.grows)),
              refl,
            )
            refl)
        (λ _. m))

  undo_rule-Makes :
      (shown : Text) (flags : ℕ) (r : Rule) (made : Store × Composition)
      → Makes s made []
      → Makes s (undo_rule u comp shown flags r made) []
  unfolding undo_rule
  undo_rule-Makes shown flags r made m =
      if-elim (λ made. Makes s made []) (is_tone (effect_type r)) _ _
        (λ _. undo_tone-Makes flags r made m)
        (λ _.
          if-elim (λ made. Makes s made []) (is_mark (effect_type r)) _ made
            (λ _. undo_mark-Makes shown r (reverse comp) made (All-reverse (IsLive s) comp live) m)
            (λ _. m))

  undo_rules-Makes :
      (shown : Text) (flags : ℕ) (rules : List Rule) (made : Store × Composition)
      → Makes s made []
      → Makes s (undo_rules u comp shown flags rules made) []
  unfolding undo_rules
  undo_rules-Makes shown flags [] made m = m
  undo_rules-Makes shown flags (r ∷ rs) made m =
      undo_rules-Makes shown flags rs _ (undo_rule-Makes shown flags r made m)

  -- The undo makes only virtual transformations.
  pub generate_undo-Makes :
      (rules : List Rule) (flags : ℕ)
      → IsWellFormed s
      → Makes s (generate_undo_transformations u s comp rules flags) []
  unfolding generate_undo_transformations
  generate_undo-Makes rules flags w = undo_rules-Makes _ flags rules (s, []) (Makes-nothing w)

push_appended-Makes :
    (u : Unicode) (s : Store) (rules : Rules) (up : Bool) (made : Store × Composition) {ks : List ℕ}
    → Makes s made ks
    → Makes s (push_appended u rules up made) ks
unfolding push_appended
push_appended-Makes u s Rules.nil up made m = m
push_appended-Makes u s (Rules.cons r rs) up made m =
    push_appended-Makes u s rs up _ (push_virtual-Makes made (lower_rule u 0 r) none _ m tt refl)

find_appending-key :
    (rules : List Rule) (k : ℕ) {r : Rule} → find_appending rules k ≡ some r → key r ≡ k
find_appending-key [] k e = cc
find_appending-key (x ∷ xs) k {r} e =
    elim (Bool-cases ((key x == k) && is_appending (effect_type x))) [
      | inl q ↦ let f : x ≡ r = ground arith in subst (λ y. key y ≡ k) f (ground arith)
      | inr q ↦ find_appending-key xs k {r = r} (ground arith)
    ]

-- In a well-formed store the fallback keeps the store well formed, and its transformations
-- together carry the pressed key once, or no key if that is nul.
pub generate_fallback-Makes :
    (u : Unicode) (s : Store) (rules : List Rule) (k : ℕ) (up : Bool)
    → IsWellFormed s
    → Makes s (generate_fallback_transformations u s rules k up) (visible k)
unfolding generate_fallback_transformations
generate_fallback-Makes u s rules k up w = elim (Option-cases (find_appending rules k)) [
  | inl e ↦
      rw (e, generate_fallback_transformations)
        (push-Makes (s, []) (appending_rule k) none up (Makes-nothing w) tt)
  | inr (r, e) ↦
      rw (e, generate_fallback_transformations)
        (push_appended-Makes u s (appended_rules r) up _ (
          subst
            (λ x.
              Makes s (push (s, []) (lower_rule u (key r) r) none (up || is_upper u (effect_on r)))
                (visible x))
            (find_appending-key rules k e)
            (push-Makes (s, []) (lower_rule u (key r) r) none _ (Makes-nothing w) tt)))
]

break_step-Makes :
    (s : Store) (made : Store × Composition) (k : ℕ) (up : Bool) {ks : List ℕ}
    → Makes s made ks
    → Makes s (if k == 0 then made else push_appending made k up) (ks ++ visible k)
break_step-Makes s made k up {ks} m = elim (Bool-cases (k == 0)) [
  | inl q ↦ rw q (subst (Makes s made) (sym (append-nil ks)) m)
  | inr q ↦ let pushed = push-Makes made (appending_rule k) none up m tt in rw q (rw q at pushed)
]

break_loop-Makes :
    (s : Store) (comp : Composition) (made : Store × Composition) {ks : List ℕ}
    → All (IsLive s) comp
    → Makes s made ks
    → Makes s (break_loop made comp) (ks ++ raw_keys s comp)
unfolding break_loop raw_keys
break_loop-Makes s [] made {ks} h m = subst (Makes s made) (sym (append-nil ks)) m
break_loop-Makes s (t ∷ ts) made {ks} h m =
    subst (Makes s _)
      (ap (λ r. (ks ++ visible (key r)) ++ raw_keys s ts) (m.extends.rules t h.0)
        ∙ append_assoc ks (visible (key (rule_of s t))) (raw_keys s ts))
      (break_loop-Makes s ts _ h.1
        (break_step-Makes s made (key (rule_of made.0 t)) (made.0.cells t).is_upper_case m))

-- `break_composition` keeps the typed keys, in order.
pub break_composition-Makes :
    (s : Store) (comp : Composition)
    → IsWellFormed s
    → All (IsLive s) comp
    → Makes s (break_composition s comp) (raw_keys s comp)
unfolding break_composition
break_composition-Makes s comp w h = break_loop-Makes s comp (s, []) h (Makes-nothing w)
