-- ===== src/Transform/Found.antt =====
-- What `find_target` of transform_utils.rs answers in a well-formed store: a root of the composition,
-- with one of the rules it was given, which puts a mark or a tone.
use pinakey.Base.{
  ℕ, zero, suc, ◌<◌, has_flag, Bool, true, false, not, ◌||◌, Option, none, some, List, [], ◌∷◌,
  reverse, is_empty, Text, ◌≡◌, All, All-reverse, arith, Bool-cases, Option-cases, if-elim, inl,
  inr,
}
use mathlib.Core.Path.{subst}
use pinakey.Rules.{EffectType, Rule, key, effect_type, is_mark, is_tone, is_appending, TransRef}
use pinakey.Rules.Flag
use pinakey.Rules.Store.{Store, target_of, IsRoot, IsWellFormed, IsLive}
use pinakey.Chars.{Unicode}
use pinakey.Transform.Extract.{
  Composition, appends, filter_appending_composition, follow_targets, find_root_target,
  find_last_appending_trans,
}
use pinakey.Transform.Live.{extract_cvc_trans-All, find_last_appending_trans-All}
use pinakey.Transform.Target.{
  target_or_self, last_main_vowel, or_else, tone_position, find_tone_target, mark_fits, first_fit,
  find_mark_loop, find_mark_target, tone_target, drop_idle_target, find_target_loop, find_target,
}

-- A target that was found, if any, is a root.
pub data RootOrNone (s : Store) : Option TransRef → Type 0 where
  nothing : RootOrNone s none
  root : {t : TransRef} → IsRoot s t → RootOrNone s (some t)

-- What `find_target` answers: a root and a rule of key `k` that puts a mark or a tone, or no target.
pub data Found (s : Store) (k : ℕ) : Option TransRef → Rule → Type 0 where
  nothing : {r : Rule} → Found s k none r
  found :
      {t : TransRef} {r : Rule}
      → IsRoot s t
      → (is_mark (effect_type r) || is_tone (effect_type r)) ≡ true
      → key r ≡ k
      → Found s k (some t) r

pub Found-effective : (t : EffectType) → (is_mark t || is_tone t) ≡ true → is_appending t ≡ false
Found-effective t h = ground arith

module _ (s : Store) (w : IsWellFormed s) where
  appending-IsRoot : (t : TransRef) → IsLive s t → appends s t ≡ true → IsRoot s t
  appending-IsRoot t l a = record { live = l; free = w.appendings t l a }

  target_or_self-IsRoot : (t : TransRef) → IsLive s t → IsRoot s (target_or_self s t)
  target_or_self-IsRoot t l = elim (Option-cases (target_of s t)) [
    | inl e ↦ rw (e, target_or_self) (record { live = l; free = e })
    | inr (a, e) ↦ rw (e, target_or_self) (w.roots t a l e)
  ]

  -- With enough fuel for two steps the walk ends at a root.
  follow_targets-IsRoot :
      (fuel : ℕ) (t : TransRef) → IsLive s t → IsRoot s (follow_targets (suc (suc fuel)) s t)
  unfolding follow_targets
  follow_targets-IsRoot fuel t l = elim (Option-cases (target_of s t)) [
    | inl e ↦ rw (e, follow_targets) (record { live = l; free = e })
    | inr (a, e) ↦ let r = w.roots t a l e in rw (e, r.free, follow_targets) r
  ]

  -- In a well-formed store the walk of `find_root_target` along the targets ends: from every
  -- address in use it reaches one in use without a target.
  pub find_root_target-IsRoot : (t : TransRef) → IsLive s t → IsRoot s (find_root_target s t)
  unfolding find_root_target
  find_root_target-IsRoot t l = ends s.next l
    where
      ends : (n : ℕ) → t < n → IsRoot s (follow_targets (suc n) s t)
      ends zero h = absurd (omega arith)
      ends (suc n) h = follow_targets-IsRoot n t l

  last_main_vowel-RootOrNone :
      (comp : Composition) (o : Option TransRef)
      → All (IsLive s) comp
      → RootOrNone s o
      → RootOrNone s (last_main_vowel s comp o)
  last_main_vowel-RootOrNone [] o h r = r
  last_main_vowel-RootOrNone (t ∷ ts) o h r = last_main_vowel-RootOrNone ts _ h.1 (
      if-elim (RootOrNone s) _ (some (target_or_self s t)) o
        (λ _. RootOrNone.root (target_or_self-IsRoot t h.0)) (λ _. r))

  or_else-RootOrNone :
      (o : Option TransRef) (a : TransRef)
      → RootOrNone s o
      → IsRoot s a
      → RootOrNone s (or_else o a)
  or_else-RootOrNone none a r h = RootOrNone.root h
  or_else-RootOrNone (some b) a r h = r

  pub vowels-IsRoot :
      (vo : Composition) → All (IsLive s) vo → All (IsRoot s) (filter_appending_composition s vo)
  unfolding filter_appending_composition
  vowels-IsRoot [] h = tt
  vowels-IsRoot (t ∷ ts) h =
      if-elim (All (IsRoot s)) (appends s t) _ _
        (λ a. (appending-IsRoot t h.0 a, vowels-IsRoot ts h.1)) (λ _. vowels-IsRoot ts h.1)

  module _ (u : Unicode) where
    tone_position-RootOrNone :
        (vo lc : Composition) (std : Bool) (vowels : Composition)
        → All (IsLive s) vo
        → All (IsRoot s) vowels
        → RootOrNone s (tone_position u s vo lc std vowels)
    unfolding tone_position
    tone_position-RootOrNone vo lc std [] h v = RootOrNone.nothing
    tone_position-RootOrNone vo lc std (a ∷ []) h v = RootOrNone.root v.0
    tone_position-RootOrNone vo lc std (a ∷ b ∷ []) h v =
        if-elim (RootOrNone s) std _ _
          (λ _.
            or_else-RootOrNone _ _ (last_main_vowel-RootOrNone vo none h RootOrNone.nothing)
              (if-elim (IsRoot s) (is_empty lc) a b (λ _. v.0) (λ _. v.1.0)))
          (λ _.
            if-elim (RootOrNone s) (not (is_empty lc)) _ _ (λ _. RootOrNone.root v.1.0)
              (λ _.
                if-elim (RootOrNone s) _ (some b) (some a) (λ _. RootOrNone.root v.1.0)
                  (λ _. RootOrNone.root v.0)))
    tone_position-RootOrNone vo lc std (a ∷ b ∷ c ∷ []) h v =
        if-elim (RootOrNone s) _ (some c) (some b) (λ _. RootOrNone.root v.1.1.0)
          (λ _. RootOrNone.root v.1.0)
    tone_position-RootOrNone vo lc std (a ∷ b ∷ c ∷ d ∷ more) h v = RootOrNone.nothing

    -- The vowel that is to bear the tone, if there is one, is a root of the composition.
    pub find_tone_target-RootOrNone :
        (comp : Composition) (std : Bool)
        → All (IsLive s) comp
        → RootOrNone s (find_tone_target u s comp std)
    unfolding find_tone_target
    find_tone_target-RootOrNone comp std h =
        let p = extract_cvc_trans-All (IsLive s) s comp h in
        if-elim (RootOrNone s) (is_empty comp) none _ (λ _. RootOrNone.nothing)
          (λ _. tone_position-RootOrNone _ _ std _ p.vo (vowels-IsRoot _ p.vo))

    pub tone_target-RootOrNone :
        (comp : Composition) (r : Rule) (flags : ℕ)
        → All (IsLive s) comp
        → RootOrNone s (tone_target u s comp r flags)
    unfolding tone_target
    tone_target-RootOrNone comp r flags h =
        if-elim (RootOrNone s) (has_flag flags Flag.free_tone_marking) _ _
          (λ _.
            if-elim (RootOrNone s) _ (find_tone_target u s comp _) none
              (λ _. find_tone_target-RootOrNone comp _ h) (λ _. RootOrNone.nothing))
          (λ _. elim (Option-cases (find_last_appending_trans s comp)) [
            | inl e ↦ rw e RootOrNone.nothing
            | inr (a, e) ↦
                let found = find_last_appending_trans-All (IsLive s) s comp h e in
                rw e (
                  if-elim (RootOrNone s) _ (some a) none
                    (λ _. RootOrNone.root (appending-IsRoot a found.0 found.1))
                    (λ _. RootOrNone.nothing))
          ])

    drop_idle_target-Found :
        (comp : Composition) (r : Rule) (k : ℕ) (o : Option TransRef)
        → is_tone (effect_type r) ≡ true
        → key r ≡ k
        → RootOrNone s o
        → Found s k (drop_idle_target s comp r o) r
    unfolding drop_idle_target
    drop_idle_target-Found comp r k none e q h = Found.nothing
    drop_idle_target-Found comp r k (some t) e q (RootOrNone.root h) =
        if-elim (λ o. Found s k o r) _ none (some t) (λ _. Found.nothing)
          (λ _. Found.found h (ground arith) q)

    -- A rule that passed the test of `find_mark_target` is a mark.
    mark_fits-effective :
        (comp : Composition) (shown : Text) (t : TransRef) (r : Rule)
        → mark_fits u s comp shown t r ≡ true
        → (is_mark (effect_type r) || is_tone (effect_type r)) ≡ true
    unfolding mark_fits
    mark_fits-effective comp shown t r h = ground arith

    first_fit-fits :
        (k : ℕ) (p : Rule → Bool) (rules : List Rule) {r : Rule}
        → All (λ r. key r ≡ k) rules
        → first_fit p rules ≡ some r
        → (p r ≡ true) × (key r ≡ k)
    first_fit-fits k p [] h e = cc
    first_fit-fits k p (x ∷ xs) {r} h e = elim (Bool-cases (p x)) [
      | inl q ↦
          let f : x ≡ r = ground arith in
          (subst (λ y. p y ≡ true) f q, subst (λ y. key y ≡ k) f h.0)
      | inr q ↦ first_fit-fits k p xs h.1 (ground arith)
    ]

    module _ (k : ℕ) (comp : Composition) (live : All (IsLive s) comp) where
      find_mark_loop-Found :
          (shown : Text) (rules : List Rule) (ts : Composition)
          → All (λ r. key r ≡ k) rules
          → All (IsLive s) ts
          → Found s k
              (find_mark_loop u s comp shown rules ts).0
              (find_mark_loop u s comp shown rules ts).1
      unfolding find_mark_loop
      find_mark_loop-Found shown rules [] h l = Found.nothing
      find_mark_loop-Found shown rules (t ∷ ts) h l =
          elim (Option-cases (first_fit (mark_fits u s comp shown t) rules)) [
            | inl e ↦ rw (e, find_mark_loop) (find_mark_loop-Found shown rules ts h l.1)
            | inr (r, e) ↦
                let fit = first_fit-fits k (mark_fits u s comp shown t) rules h e in
                rw (e, find_mark_loop)
                  (Found.found (find_root_target-IsRoot t l.0)
                    (mark_fits-effective comp shown t r fit.0) fit.1)
          ]

      find_target_loop-Found :
          (flags : ℕ) (shown : Text) (rules rs : List Rule)
          → All (λ r. key r ≡ k) rules
          → All (λ r. key r ≡ k) rs
          → Found s k
              (find_target_loop u s comp flags shown rules rs).0
              (find_target_loop u s comp flags shown rules rs).1
      unfolding find_target_loop find_mark_target
      find_target_loop-Found flags shown rules [] h g =
          find_mark_loop-Found _ rules (reverse comp) h (All-reverse (IsLive s) comp live)
      find_target_loop-Found flags shown rules (r ∷ rs) h g =
          elim (Bool-cases (is_tone (effect_type r))) [
            | inr q ↦ rw q (find_target_loop-Found flags shown rules rs h g.1)
            | inl q ↦ rw q (
                if-elim (λ (c : Option TransRef × Rule). Found s k c.0 c.1) _ _ _
                  (λ _. find_target_loop-Found flags shown rules rs h g.1)
                  (λ _.
                    drop_idle_target-Found comp r k _ q g.0
                      (tone_target-RootOrNone comp r flags live)))
          ]

      -- In a well-formed store with the composition in it, and with rules of one key,
      -- `find_target` answers no target, or an address in use that has no target itself, with a
      -- rule of that key whose effect is a mark or a tone.
      pub find_target-Found :
          (rules : List Rule) (flags : ℕ)
          → All (λ r. key r ≡ k) rules
          → Found s k (find_target u s comp rules flags).0 (find_target u s comp rules flags).1
      unfolding find_target
      find_target-Found rules flags h = find_target_loop-Found flags _ rules rules h h
