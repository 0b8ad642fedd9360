-- ===== src/Chars.antt =====
-- crates/pinakey-core/src/utils.rs: vowels, marks and tones of single characters. The case mapping
-- and the character classes of Rust's `char` (tables of the Unicode database) are the parameter
-- `Unicode`; to_lower and to_upper are the source's single-character wrappers of them.
pub mod Tables
pub mod Tones
use pinakey.Base.{
  ℕ, zero, suc, ◌+◌, ◌-◌, ◌%◌, ◌==◌, leb, ltb, if◌then◌else◌, Bool, true, false, not, ◌&&◌, ◌||◌,
  Option, none, some, List, [], ◌∷◌, codes, elem, get_or, get_elem?, length, select, Text, code,
}
use pinakey.Rules.{Mark, Tone, tone_from_u8, tone_u8, is_tone_none}

-- What the code takes from `char`: `to_lowercase`, `to_uppercase`, `is_uppercase`,
-- `is_alphanumeric`, `is_whitespace`, `is_lowercase`, and from `str`: `to_lowercase`, `to_uppercase`.
pub record Unicode : Type 0 where
  pub to_lowercase : ℕ → Text
  pub to_uppercase : ℕ → Text
  pub text_to_lowercase : Text → Text
  pub text_to_uppercase : Text → Text
  pub is_uppercase : ℕ → Bool
  pub is_alphanumeric : ℕ → Bool
  pub is_whitespace : ℕ → Bool
  pub is_lowercase : ℕ → Bool

abbrev pub vowels : List ℕ
vowels = codes "aàáảãạăằắẳẵặâầấẩẫậeèéẻẽẹêềếểễệiìíỉĩịoòóỏõọôồốổỗộơờớởỡợuùúủũụưừứửữựyỳýỷỹỵ"

abbrev pub punctuation_marks : List ℕ
punctuation_marks = codes ",;:.\"'!? <>=+-*/\\_~`@#$%^&(){}[]|"

-- `MARKS_MAPS.get(&chr)`; `'_'` stands for "no character with this mark".
unfoldable pub marks_map : ℕ → Option (List ℕ)
marks_map c =
    if elem c (codes "aâă")
    then some (codes "aâă__")
    else if elem c (codes "eê")
    then some (codes "eê___")
    else if elem c (codes "oôơ")
    then some (codes "oô_ơ_")
    else if elem c (codes "uư")
    then some (codes "u__ư_")
    else if elem c (codes "dđ")
    then some (codes "d___đ")
    else none

unfoldable pub is_space : ℕ → Bool
is_space c = c == b' '

unfoldable pub is_punctuation_mark : ℕ → Bool
is_punctuation_mark c = elem c punctuation_marks

-- `is_ascii_digit`.
abbrev pub is_ascii_digit : ℕ → Bool
is_ascii_digit c = leb b'0' c && leb c b'9'

unfoldable pub is_word_break_symbol : ℕ → Bool
unfolding is_punctuation_mark
is_word_break_symbol c = is_punctuation_mark c || is_ascii_digit c

unfoldable pub is_vowel : ℕ → Bool
unfolding elem
is_vowel c = elem c vowels

-- `iter().position(|v| v == c)`.
unfoldable pub position : ℕ → List ℕ → Option ℕ
position c [] = none
position c (x ∷ xs) =
    let rest : Option ℕ = elim (position c xs) [ none ↦ none | some i ↦ some (suc i) ] in
    if x == c then some 0 else rest

-- The source's -1 is `none`.
unfoldable pub find_vowel_position : ℕ → Option ℕ
unfolding position
find_vowel_position c = position c vowels

unfoldable pub mark_family : ℕ → List ℕ
unfolding marks_map elem
mark_family c = elim (marks_map c) [ none ↦ [] | some arr ↦ select (λ x. not (x == b'_')) arr ]

-- -1 is `none`.
unfoldable pub find_mark_position : ℕ → Option ℕ
unfolding marks_map elem position
find_mark_position c = elim (marks_map c) [ none ↦ none | some arr ↦ position c arr ]

abbrev mark_at : ℕ → Mark
mark_at p =
    if p == 1
    then Mark.hat
    else if p == 2
    then Mark.breve
    else if p == 3
    then Mark.horn
    else if p == 4
    then Mark.dash
    else if p == 5
    then Mark.raw
    else Mark.none

unfoldable pub find_mark_from_char : ℕ → Option Mark
unfolding find_mark_position
find_mark_from_char c = elim (find_mark_position c) [ none ↦ none | some p ↦ some (mark_at p) ]

unfoldable pub add_mark_to_toneless_char : ℕ → ℕ → ℕ
unfolding marks_map elem
add_mark_to_toneless_char c mark = elim (marks_map c) [
  | none ↦ c
  | some arr ↦ let x = get_or arr mark b'_' in if x == b'_' then c else x
]

unfoldable pub find_tone_from_char : ℕ → Tone
unfolding find_vowel_position tone_from_u8
find_tone_from_char c = elim (find_vowel_position c) [
  | none ↦ Tone.none
  | some p ↦ tone_from_u8 (p % 6)
]

-- `VOWELS[pos + (tone - pos % 6)]`. Rust panics past the end of the table, which a tone below 6 does
-- not reach (InputMethod.Tones, for the rules that are read from definitions); the model answers `c`
-- there.
unfoldable pub add_tone_to_char : ℕ → ℕ → ℕ
unfolding find_vowel_position
add_tone_to_char c tone = elim (find_vowel_position c) [
  | none ↦ c
  | some p ↦ get_or vowels (p - p % 6 + tone) c
]

unfoldable pub add_mark_to_char : ℕ → ℕ → ℕ
unfolding find_tone_from_char add_tone_to_char add_mark_to_toneless_char
add_mark_to_char c mark =
    let tone = find_tone_from_char c in
    let plain = add_tone_to_char c 0 in
    let marked = add_mark_to_toneless_char plain mark in add_tone_to_char marked (tone_u8 tone)

unfoldable pub is_alpha : ℕ → Bool
is_alpha c = (leb b'a' c && leb c b'z') || (leb b'A' c && leb c b'Z')

unfoldable pub in_key_list : List ℕ → ℕ → Bool
unfolding elem
in_key_list keys c = elem c keys

unfoldable pub is_vietnamese_rune : ℕ → Bool
unfolding find_tone_from_char add_mark_to_toneless_char
is_vietnamese_rune c =
    if not (is_tone_none (find_tone_from_char c))
    then true
    else not (c == add_mark_to_toneless_char c 0)

unfoldable pub can_process_key : ℕ → List ℕ → Bool
unfolding is_alpha in_key_list is_word_break_symbol is_vietnamese_rune
can_process_key c keys =
    if is_alpha c || in_key_list keys c
    then true
    else if is_word_break_symbol c
    then false
    else is_vietnamese_rune c

-- A case mapping to several characters, or to none, is not taken.
abbrev single : Text → ℕ → ℕ
single [] c = c
single (x ∷ []) c = x
single (x ∷ _ ∷ _) c = c

abbrev any_of : (ℕ → Bool) → Text → Bool
any_of p [] = false
any_of p (c ∷ cs) = p c || any_of p cs

module _ (u : Unicode) where
  unfoldable pub to_lower : ℕ → ℕ
  to_lower c = single (u.to_lowercase c) c

  unfoldable pub to_upper : ℕ → ℕ
  to_upper c = single (u.to_uppercase c) c

  unfoldable pub is_upper : ℕ → Bool
  is_upper c = u.is_uppercase c

  unfoldable pub has_any_vietnamese_rune : Text → Bool
  unfolding to_lower is_vietnamese_rune
  has_any_vietnamese_rune word = any_of (λ c. is_vietnamese_rune (to_lower c)) word

  unfoldable pub has_any_vietnamese_vowel : Text → Bool
  unfolding to_lower is_vowel
  has_any_vietnamese_vowel word = any_of (λ c. is_vowel (to_lower c)) word
