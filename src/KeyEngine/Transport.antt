-- ===== src/KeyEngine/Transport.antt =====
-- crates/pinakey-engine/src/transport.rs: the rules that choose a transport for a program. Later lines and
-- later layers win over earlier ones.
use pinakey.Base.{
  lines, ◌+◌, ◌==◌, leb, if◌then◌else◌, true, false, ◌&&◌, ◌||◌, Option, none, some, List, [], ◌∷◌,
  ◌++◌, map, reverse, is_empty, Text, text_eq, codes, ◌≡◌, refl, ◌∙◌, append_assoc, Bool-cases, inl,
  inr,
}
use mathlib.Core.List.{reverse-append, reverse-cons}
use pinakey.Chars.{Unicode}
use pinakey.InputMethod.{contains}

pub data TransportPref : Type 0 where
  auto : TransportPref
  preedit : TransportPref
  replace : TransportPref

pub record TransportRules : Type 0 where
  pub rules : List (Text × TransportPref)

unfoldable pub empty : TransportRules
empty = record { rules = [] }

abbrev pub ascii_lowercase : Text → Text
ascii_lowercase t = map (λ c. if leb b'A' c && leb c b'Z' then c + 32 else c) t

-- `split(['#', ';']).next()`: what stands before a comment.
abbrev pub before_comment : Text → Text
before_comment [] = []
before_comment (c ∷ t) =
    let rest = before_comment t in if (c == b'#') || (c == b';') then [] else c ∷ rest

module _ (u : Unicode) where
  -- `split_whitespace`: the first word, and the words behind it; words are not empty.
  abbrev pub cut_words : Text → Text × List Text
  cut_words [] = ([], [])
  cut_words (c ∷ t) =
      let (word, others) = cut_words t in
      if u.is_whitespace c
      then ([], if is_empty word then others else word ∷ others)
      else (c ∷ word, others)

  abbrev pub split_whitespace : Text → List Text
  split_whitespace t =
      let (word, others) = cut_words t in if is_empty word then others else word ∷ others

  -- The verb of a rule.
  abbrev pub pref_of : Text → Option TransportPref
  pref_of verb =
      if text_eq verb (codes "preedit")
      then some TransportPref.preedit
      else if text_eq verb (codes "replace")
      then some TransportPref.replace
      else if text_eq verb (codes "auto")
      then some TransportPref.auto
      else none

  -- One line: a verb and a pattern. Lines without both, or with another verb, are passed over.
  unfoldable pub parse_line : Text → Option (Text × TransportPref)
  parse_line line = elim (split_whitespace (before_comment line)) [
    | [] ↦ none
    | verb ∷ more ↦ elim more [
      | [] ↦ none
      | pattern ∷ _ ↦ elim (pref_of (ascii_lowercase verb)) [
        | none ↦ none
        | some pref ↦ some (ascii_lowercase pattern, pref)
      ]
    ]
  ]

  unfoldable pub parse_layer : List Text → List (Text × TransportPref)
  unfolding parse_line
  parse_layer [] = []
  parse_layer (line ∷ others) =
      let rest = parse_layer others in
      elim (parse_line line) [ none ↦ rest | some rule ↦ rule ∷ rest ]

  unfoldable pub append_layer : TransportRules → Text → TransportRules
  unfolding parse_layer
  append_layer r text = record { rules = r.rules ++ parse_layer (lines text) }

abbrev pub first_match : Text → List (Text × TransportPref) → Option TransportPref
unfolding contains
first_match w [] = none
first_match w ((pattern, pref) ∷ rules) =
    let rest = first_match w rules in if contains pattern w then some pref else rest

abbrev pub or_auto : Option TransportPref → TransportPref
or_auto none = TransportPref.auto
or_auto (some pref) = pref

unfoldable pub lookup : TransportRules → Text → TransportPref
unfolding first_match
lookup r wm_class =
    if is_empty wm_class
    then TransportPref.auto
    else or_auto (first_match (ascii_lowercase wm_class) (reverse r.rules))

-- The choice of a layer, where it makes one.
abbrev pub or_earlier : Option TransportPref → TransportPref → TransportPref
or_earlier none earlier = earlier
or_earlier (some pref) earlier = pref

first_match-append :
    (w : Text) (xs ys : List (Text × TransportPref))
    → or_auto (first_match w (xs ++ ys))
      ≡ or_earlier (first_match w xs) (or_auto (first_match w ys))
unfolding first_match
first_match-append w [] ys = refl
first_match-append w ((pattern, pref) ∷ xs) ys = elim (Bool-cases (contains pattern w)) [
  | inl q ↦ rw (q, first_match) refl
  | inr q ↦ rw (q, first_match) (first_match-append w xs ys)
]

-- A layer that is added wins over all earlier ones: for a program with a name, the last rule of the layer
-- that matches decides, and the earlier layers decide where none does.
pub lookup-append_layer :
    (u : Unicode) (r : TransportRules) (text wm_class : Text)
    → is_empty wm_class ≡ false
    → lookup (append_layer u r text) wm_class
      ≡ or_earlier
          (first_match (ascii_lowercase wm_class) (reverse (parse_layer u (lines text))))
          (lookup r wm_class)
unfolding lookup append_layer
lookup-append_layer u r text wm_class h =
    rw (h, reverse-append r.rules (parse_layer u (lines text)))
      (first_match-append (ascii_lowercase wm_class) (reverse (parse_layer u (lines text)))
        (reverse r.rules))

-- For a program with a name, a rule that matches it decides if no later rule does.
lookup-last :
    (before after : List (Text × TransportPref)) (pattern : Text) (pref : TransportPref)
    (wm_class : Text)
    → is_empty wm_class ≡ false
    → contains pattern (ascii_lowercase wm_class) ≡ true
    → first_match (ascii_lowercase wm_class) (reverse after) ≡ none
    → lookup (record { rules = before ++ (pattern, pref) ∷ after }) wm_class ≡ pref
unfolding lookup first_match
lookup-last before after pattern pref wm_class h m later =
    rw
      (
        h,
        reverse-append before ((pattern, pref) ∷ after),
        reverse-cons (pattern, pref) after,
        append_assoc (reverse after) ((pattern, pref) ∷ []) (reverse before),
      )
      (first_match-append (ascii_lowercase wm_class) (reverse after)
          ((pattern, pref) ∷ reverse before)
        ∙ decided)
  where
    decided :
        or_earlier
          (first_match (ascii_lowercase wm_class) (reverse after))
          (or_auto (first_match (ascii_lowercase wm_class) ((pattern, pref) ∷ reverse before)))
        ≡ pref
    decided = rw (later, m, first_match) refl
