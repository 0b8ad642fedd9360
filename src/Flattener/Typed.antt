-- ===== src/Flattener/Typed.antt =====
-- The letters that were typed, with their case: what flattener.rs shows in English, and what it shows in
-- Vietnamese of a composition on which no rule has acted.
use pinakey.Base.{
  ℕ, ◌==◌, if◌then◌else◌, has_flag, Bool, true, false, not, List, [], ◌∷◌, ◌++◌, map, select, Text,
  ◌≡◌, refl, ap, sym, ◌∙◌, All, arith, append_assoc, Bool-cases, inl, inr,
}
use pinakey.Rules.{key, effect_type, effect_on, is_appending, TransRef}
use pinakey.Rules.Mode
use pinakey.Rules.Store.{Store, rule_of, IsLive, Extends}
use pinakey.Chars.{Unicode}
use pinakey.Flattener.{shown, render, adjust, get_canvas, effects_on, apply_effects}

-- A letter with its case, if its key is not virtual.
abbrev pub letter : ℕ → Bool → List (ℕ × Bool)
letter k up = if k == 0 then [] else (k, up) ∷ []

unfoldable pub typed_letters : Store → List TransRef → List (ℕ × Bool)
typed_letters s [] = []
typed_letters s (t ∷ ts) =
    letter (key (rule_of s t)) (s.cells t).is_upper_case ++ typed_letters s ts

pub typed_letters-append :
    (s : Store) (a b : List TransRef)
    → typed_letters s (a ++ b) ≡ typed_letters s a ++ typed_letters s b
unfolding typed_letters
typed_letters-append s [] b = refl
typed_letters-append s (t ∷ ts) b =
    ap (letter (key (rule_of s t)) (s.cells t).is_upper_case ++◌) (typed_letters-append s ts b)
    ∙ sym (
        append_assoc (letter (key (rule_of s t)) (s.cells t).is_upper_case) (typed_letters s ts)
          (typed_letters s b))

pub typed_letters-Extends :
    {s s' : Store} (comp : List TransRef)
    → Extends s s'
    → All (IsLive s) comp
    → typed_letters s' comp ≡ typed_letters s comp
unfolding typed_letters
typed_letters-Extends [] e h = refl
typed_letters-Extends (t ∷ ts) e h =
    rw (e.rules t h.0, e.cases t h.0, typed_letters-Extends ts e h.1)

-- The text of some letters in a mode.
abbrev pub show_letters : Unicode → ℕ → List (ℕ × Bool) → Text
show_letters u m = map (λ p. adjust u m p.1 p.0)

-- An appending whose letter is its key.
pub record IsPlainLetter (s : Store) (t : TransRef) : Type 0 where
  pub appending : is_appending (effect_type (rule_of s t)) ≡ true
  pub own_letter : effect_on (rule_of s t) ≡ key (rule_of s t)

show_shown :
    (u : Unicode) (s : Store) (english : Bool) (m : ℕ) (f : TransRef → ℕ) (comp : List TransRef)
    → All (λ t. f t ≡ adjust u m (s.cells t).is_upper_case (key (rule_of s t))) comp
    → All (λ t. shown s english t ≡ not (key (rule_of s t) == 0)) comp
    → map f (select (shown s english) comp) ≡ show_letters u m (typed_letters s comp)
unfolding typed_letters
show_shown u s english m f [] h g = refl
show_shown u s english m f (t ∷ ts) h g = elim (Bool-cases (key (rule_of s t) == 0)) [
  | inl q ↦ rw (g.0, q, show_shown u s english m f ts h.1 g.1)
  | inr q ↦ rw (g.0, q, h.0, show_shown u s english m f ts h.1 g.1)
]

module _ (u : Unicode) (s : Store) where
  english-render :
      (comp ts : List TransRef) (m : ℕ)
      → has_flag m Mode.english ≡ true
      → All (λ t. render u s comp m t ≡ adjust u m (s.cells t).is_upper_case (key (rule_of s t))) ts
  unfolding render
  english-render comp [] m e = tt
  english-render comp (t ∷ ts) m e = (rw e, english-render comp ts m e)

  english_shown : (ts : List TransRef) → All (λ t. shown s true t ≡ not (key (rule_of s t) == 0)) ts
  unfolding shown
  english_shown [] = tt
  english_shown (t ∷ ts) = (ground arith, english_shown ts)

  -- In a mode with `ENGLISH`, a composition shows the letters typed, which are the keys other than
  -- nul with their case, each under the mode's case, tone and mark bits.
  pub get_canvas-english :
      (comp : List TransRef) (m : ℕ)
      → has_flag m Mode.english ≡ true
      → get_canvas u s comp m ≡ show_letters u m (typed_letters s comp)
  unfolding get_canvas
  get_canvas-english comp m e = rw e (
      show_shown u s true m (render u s comp m) comp (english-render comp comp m e)
        (english_shown comp))

  plain_effects :
      (comp : List TransRef) (a : TransRef) → All (IsPlainLetter s) comp → effects_on s comp a ≡ []
  unfolding effects_on
  plain_effects [] a h = refl
  plain_effects (t ∷ ts) a h = rw (h.0.appending, plain_effects ts a h.1)

  plain_render :
      (comp ts : List TransRef) (m : ℕ)
      → has_flag m Mode.english ≡ false
      → All (IsPlainLetter s) comp
      → All (IsPlainLetter s) ts
      → All (λ t. render u s comp m t ≡ adjust u m (s.cells t).is_upper_case (key (rule_of s t))) ts
  unfolding render apply_effects
  plain_render comp [] m e h g = tt
  plain_render comp (t ∷ ts) m e h g =
      (rw (e, plain_effects comp t h, g.0.own_letter), plain_render comp ts m e h g.1)

  plain_shown :
      (ts : List TransRef)
      → All (IsPlainLetter s) ts
      → All (λ t. shown s false t ≡ not (key (rule_of s t) == 0)) ts
  unfolding shown
  plain_shown [] h = tt
  plain_shown (t ∷ ts) h = let a = h.0.appending in (ground arith, plain_shown ts h.1)

  -- So does a composition of plain letters in a mode without `ENGLISH`.
  pub get_canvas-IsPlainLetter :
      (comp : List TransRef) (m : ℕ)
      → has_flag m Mode.english ≡ false
      → All (IsPlainLetter s) comp
      → get_canvas u s comp m ≡ show_letters u m (typed_letters s comp)
  unfolding get_canvas
  get_canvas-IsPlainLetter comp m e h = rw e (
      show_shown u s false m (render u s comp m) comp (plain_render comp comp m e h h)
        (plain_shown comp h))
