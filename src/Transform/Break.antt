-- ===== src/Transform/Break.antt =====
-- What `break_composition` of transform_utils.rs shows.
use pinakey.Base.{
  ℕ, ◌==◌, if◌then◌else◌, Bool, none, List, [], ◌∷◌, ◌++◌, ◌≡◌, refl, sym, ◌∙◌, ap, All, All-append,
  append-nil, append_assoc, arith, Bool-cases, inl, inr,
}
use mathlib.Core.Path.{subst}
use pinakey.Rules.{key}
use pinakey.Rules.Mode
use pinakey.Rules.Store.{
  Store, IsLive, Extends, Extends-refl, Extends-trans, rule_of, new_ref, new_ref-Extends,
}
use pinakey.Chars.{Unicode}
use pinakey.Flattener.{get_canvas}
use pinakey.Flattener.Typed.{
  letter, typed_letters, typed_letters-append, typed_letters-Extends, show_letters, IsPlainLetter,
  get_canvas-english, get_canvas-IsPlainLetter,
}
use pinakey.Transform.Extract.{Composition}
use pinakey.Transform.Generate.{push_appending, appending_rule, break_loop, break_composition}
use pinakey.Transform.Makes.{All-IsLive-Extends}

-- What `break_loop` has made so far: plain letters, with the letters of what it has read.
record Broken (s : Store) (made : Store × Composition) (ls : List (ℕ × Bool)) : Type 0 where
  extends : Extends s made.0
  live : All (IsLive made.0) made.1
  plain : All (IsPlainLetter made.0) made.1
  letters : typed_letters made.0 made.1 ≡ ls

plain-Extends :
    {s s' : Store} (comp : Composition)
    → Extends s s'
    → All (IsLive s) comp
    → All (IsPlainLetter s) comp
    → All (IsPlainLetter s') comp
plain-Extends [] e l h = tt
plain-Extends (t ∷ ts) e l h = (
  record {
    appending = rw (e.rules t l.0) h.0.appending;
    own_letter = rw (e.rules t l.0) h.0.own_letter;
  },
  plain-Extends ts e l.1 h.1,
)

push_letter-Broken :
    (s : Store) (made : Store × Composition) (k : ℕ) (up : Bool) {ls : List (ℕ × Bool)}
    → Broken s made ls
    → Broken s (push_appending made k up) (ls ++ letter k up)
unfolding new_ref typed_letters
push_letter-Broken s made k up {ls} b = record {
  extends = Extends-trans b.extends grown;
  live =
      All-append (IsLive new) made.1 _ (All-IsLive-Extends made.1 grown b.live) (omega arith, tt);
  plain =
      All-append (IsPlainLetter new) made.1 _ (plain-Extends made.1 grown b.live b.plain)
        (record { appending = ground arith; own_letter = ground arith }, tt);
  letters =
      typed_letters-append new made.1 _
      ∙ (ap (◌++ typed_letters new (made.0.next ∷ []))
            (typed_letters-Extends made.1 grown b.live ∙ b.letters)
          ∙ ap (ls ++◌) last);
}
  where
    new : Store
    new = (new_ref made.0 (appending_rule k) none up).0

    grown : Extends made.0 new
    grown = new_ref-Extends made.0 (appending_rule k) none up

    last : typed_letters new (made.0.next ∷ []) ≡ letter k up
    last = ground arith

break_step-Broken :
    (s : Store) (made : Store × Composition) (k : ℕ) (up : Bool) {ls : List (ℕ × Bool)}
    → Broken s made ls
    → Broken s (if k == 0 then made else push_appending made k up) (ls ++ letter k up)
break_step-Broken s made k up {ls} b = elim (Bool-cases (k == 0)) [
  | inl q ↦ rw q (subst (Broken s made) (sym (append-nil ls)) b)
  | inr q ↦ let pushed = push_letter-Broken s made k up b in rw q (rw q at pushed)
]

break_loop-Broken :
    (s : Store) (comp : Composition) (made : Store × Composition) {ls : List (ℕ × Bool)}
    → All (IsLive s) comp
    → Broken s made ls
    → Broken s (break_loop made comp) (ls ++ typed_letters s comp)
unfolding break_loop typed_letters
break_loop-Broken s [] made {ls} h b = subst (Broken s made) (sym (append-nil ls)) b
break_loop-Broken s (t ∷ ts) made {ls} h b =
    subst (Broken s _)
      (append_assoc ls (letter (key (rule_of s t)) (s.cells t).is_upper_case) (typed_letters s ts))
      (break_loop-Broken s ts _ h.1 (
        rw (← b.extends.rules t h.0, ← b.extends.cases t h.0)
          (break_step-Broken s made (key (rule_of made.0 t)) (made.0.cells t).is_upper_case b)))

-- Breaking a composition whose transformations are in the store gives what was typed: in
-- Vietnamese mode the broken composition shows what the composition itself shows in English,
-- letter for letter and with the same case.
pub get_canvas-break_composition :
    (u : Unicode) (s : Store) (comp : Composition)
    → All (IsLive s) comp
    → get_canvas u (break_composition s comp).0 (break_composition s comp).1 Mode.vietnamese
      ≡ get_canvas u s comp Mode.english
unfolding break_composition typed_letters get_canvas
get_canvas-break_composition u s comp live =
    get_canvas-IsPlainLetter u _ _ 1 refl broken.plain
    ∙ (ap (show_letters u 1) broken.letters ∙ sym (get_canvas-english u s comp 2 refl))
  where
    broken : Broken s (break_composition s comp) (typed_letters s comp)
    broken =
        break_loop-Broken s comp (s, []) live
          (record { extends = Extends-refl s; live = tt; plain = tt; letters = refl })
