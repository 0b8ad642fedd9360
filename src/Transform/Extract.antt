-- ===== src/Transform/Extract.antt =====
-- crates/pinakey-core/src/transform_utils.rs: the `extract_*` functions, `find_root_target` and the
-- other walks over a composition. A composition is a list of addresses.
use pinakey.Base.{
  ℕ, zero, suc, ◌+◌, ◌-◌, ◌==◌, if◌then◌else◌, Bool, true, false, not, ◌&&◌, ◌||◌, Option, none,
  some, List, [], ◌∷◌, ◌++◌, reverse, length, take, drop, is_empty, select, Text,
}
use pinakey.Rules.{effect_type, result, is_appending, TransRef}
use pinakey.Rules.Mode
use pinakey.Rules.Store.{Store, rule_of, target_of}
use pinakey.Chars.{Unicode, is_vowel, is_space, is_alpha, in_key_list}
use pinakey.Flattener.{targets, get_canvas}

abbrev pub Composition : Type 0
Composition = List TransRef

abbrev pub appends : Store → TransRef → Bool
appends s t = is_appending (effect_type (rule_of s t))

abbrev pub has_target : Store → TransRef → Bool
has_target s t = elim (target_of s t) [ none ↦ false | some _ ↦ true ]

abbrev pub first_appending : Store → Composition → Option TransRef
first_appending s [] = none
first_appending s (t ∷ ts) = let rest = first_appending s ts in if appends s t then some t else rest

unfoldable pub find_last_appending_trans : Store → Composition → Option TransRef
find_last_appending_trans s comp = first_appending s (reverse comp)

unfoldable pub filter_appending_composition : Store → Composition → Composition
filter_appending_composition s comp = select (appends s) comp

-- The recursion follows targets. The fuel is one more than the number of cells.
unfoldable pub follow_targets : ℕ → Store → TransRef → TransRef
follow_targets zero s t = t
follow_targets (suc fuel) s t = elim (target_of s t) [ none ↦ t | some n ↦ follow_targets fuel s n ]

unfoldable pub find_root_target : Store → TransRef → TransRef
unfolding follow_targets
find_root_target s t = follow_targets (suc s.next) s t

-- `comp` is reversed: the loop pops its last element and inserts it at the front of `last`.
unfoldable pub extract_atomic_loop :
    Store → Bool → Composition → Composition → Composition × Composition
extract_atomic_loop s vowel [] last = ([], last)
extract_atomic_loop s vowel (t ∷ rest) last =
    let more = extract_atomic_loop s vowel rest (t ∷ last) in
    let stop =
      (if vowel then not (is_vowel (result (rule_of s t))) else is_vowel (result (rule_of s t))) in
    if not (has_target s t) && stop then (reverse (t ∷ rest), last) else more

unfoldable pub extract_atomic_trans :
    Store → Composition → Composition → Bool → Composition × Composition
unfolding extract_atomic_loop
extract_atomic_trans s comp last vowel = extract_atomic_loop s vowel (reverse comp) last

-- The parts of a syllable: first consonant, vowels, last consonant.
pub record Parts : Type 0 where
  pub fc : Composition
  pub vo : Composition
  pub lc : Composition

abbrev pub parts : Composition → Composition → Composition → Parts
parts f v l = record { fc = f; vo = v; lc = l }

-- `!(vowel[1] == 'e' && !last_consonant.is_empty())`, with `vowel.len() > 1`.
abbrev pub gi_rest : Store → Composition → Composition → Bool
gi_rest s [] lc = false
gi_rest s (v1 ∷ _) lc = not ((result (rule_of s v1) == b'e') && not (is_empty lc))

-- `gi` and `qu` count as first consonants.
unfoldable pub move_semivowel : Store → Composition → Composition → Composition → Parts
move_semivowel s (f ∷ []) (v ∷ vs) lc =
    let gi = (result (rule_of s f) == b'g') && (result (rule_of s v) == b'i') && gi_rest s vs lc in
    let qu = (result (rule_of s f) == b'q') && (result (rule_of s v) == b'u') in
    if gi || qu then parts (f ∷ v ∷ []) vs lc else parts (f ∷ []) (v ∷ vs) lc
move_semivowel s fc vo lc = parts fc vo lc

unfoldable pub extract_cvc_appending_trans : Store → Composition → Parts
unfolding extract_atomic_trans move_semivowel
extract_cvc_appending_trans s comp =
    let (head, lc) = extract_atomic_trans s comp [] false in
    let (fc, vo) = extract_atomic_trans s head [] true in
    if not (is_empty lc) && (is_empty vo && is_empty fc)
    then move_semivowel s lc [] []
    else move_semivowel s fc vo lc

-- `trans_map.get(&ptr_id(t))`: what acts on `t`, in the order of the composition.
unfoldable pub acting_on : Store → Composition → TransRef → Composition
acting_on s comp t = select (targets s t) comp

abbrev pub all_acting : Store → Composition → Composition → Composition
all_acting s comp [] = []
all_acting s comp (t ∷ ts) = acting_on s comp t ++ all_acting s comp ts

unfoldable pub extend_with_effects : Store → Composition → Composition → Composition
unfolding acting_on
extend_with_effects s comp base = base ++ all_acting s comp base

unfoldable pub extract_cvc_trans : Store → Composition → Parts
unfolding extract_cvc_appending_trans extend_with_effects
extract_cvc_trans s comp =
    let p = extract_cvc_appending_trans s (select (λ t. not (has_target s t)) comp) in
    parts (extend_with_effects s comp p.fc) (extend_with_effects s comp p.vo)
      (extend_with_effects s comp p.lc)

abbrev pub get_right_most_vowels : Store → Composition → Composition
get_right_most_vowels s comp = (extract_cvc_trans s comp).vo

-- The loops `for i in (0..n).rev()` that cut a composition behind the last break: `breaks` looks at
-- the first character of the rendering from `i` on. The recursion is on `i + 1`.
abbrev pub breaks_at : (ℕ → Bool) → Text → Bool
breaks_at breaks [] = false
breaks_at breaks (c ∷ _) = breaks c

unfoldable pub cut_from :
    (Composition → Text) → (ℕ → Bool) → Composition → ℕ → Composition × Composition
cut_from canvas breaks comp zero = ([], comp)
cut_from canvas breaks comp (suc i) =
    let earlier = cut_from canvas breaks comp i in
    if breaks_at breaks (canvas (drop i comp))
    then (if i == length comp - 1 then (comp, []) else (take (i + 1) comp, drop (i + 1) comp))
    else earlier

module _ (u : Unicode) where
  unfoldable pub extract_last_word_with_punctuation_marks :
      Store → Composition → List ℕ → Composition × Composition
  unfolding cut_from is_space get_canvas
  extract_last_word_with_punctuation_marks s comp effect_keys =
      cut_from (λ c. get_canvas u s c Mode.english) is_space comp (length comp)

  -- The mode is `VIETNAMESE | LOWER_CASE | TONE_LESS | MARK_LESS`.
  unfoldable pub extract_last_word : Store → Composition → List ℕ → Composition × Composition
  unfolding cut_from is_alpha in_key_list get_canvas
  extract_last_word s comp keys =
      cut_from (λ c. get_canvas u s c 29) (λ c. not (is_alpha c) && not (in_key_list keys c)) comp
        (length comp)
