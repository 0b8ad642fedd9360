-- ===== src/Tests/World.antt =====
-- Concrete parameters: the case mapping of the letters that occur in Vietnamese, and small matchers
-- for the regular expressions on the lines and syllables of the tests.
use pinakey.Base.{
  ℕ, ◌+◌, ◌-◌, ◌==◌, leb, if◌then◌else◌, Bool, true, false, not, ◌&&◌, ◌||◌, Option, none, some, [],
  ◌∷◌, map, ◌≡◌, arith, codes, code, elem, is_empty, Text,
}
use pinakey.Chars.{Unicode, vowels, to_lower}
use pinakey.InputMethod.{Dsl, contains}
use pinakey.Transform.Generate.{Regexes}

abbrev upper_letters : Text
upper_letters = codes "ÂĂÊÔƠƯĐÀÁẢÃẠÍÓÚÝ"

abbrev lower_letters : Text
lower_letters = codes "âăêôơưđàáảãạíóúý"

abbrev look_up : ℕ → Text → Text → Option ℕ
look_up c [] ys = none
look_up c (x ∷ xs) [] = none
look_up c (x ∷ xs) (y ∷ ys) = let rest = look_up c xs ys in if x == c then some y else rest

abbrev or_self : Option ℕ → ℕ → ℕ
or_self none c = c
or_self (some x) c = x

pub lower_one : ℕ → ℕ
lower_one c =
    if leb b'A' c && leb c b'Z' then c + 32 else or_self (look_up c upper_letters lower_letters) c

pub upper_one : ℕ → ℕ
upper_one c =
    if leb b'a' c && leb c b'z' then c - 32 else or_self (look_up c lower_letters upper_letters) c

pub is_letter : ℕ → Bool
unfolding elem lower_one
is_letter c =
    (leb b'a' (lower_one c) && leb (lower_one c) b'z') || elem (lower_one c) (code "đ" ∷ vowels)

unfoldable pub sample_unicode : Unicode
unfolding lower_one upper_one is_letter
sample_unicode = record {
  to_lowercase = λ c. lower_one c ∷ [];
  to_uppercase = λ c. upper_one c ∷ [];
  text_to_lowercase = map lower_one;
  text_to_uppercase = map upper_one;
  is_uppercase = λ c. not (lower_one c == c);
  is_alphanumeric = λ c. is_letter c || (leb b'0' c && leb c b'9');
  is_whitespace = λ c. c == b' ' || (leb 9 c && leb c 13);
  is_lowercase = λ c. is_letter c && (lower_one c == c);
}

-- The letters at the front, and the rest.
letters : Text → Text × Text
unfolding is_letter
letters [] = ([], [])
letters (c ∷ t) = let (a, b) = letters t in if is_letter c then (c ∷ a, b) else ([], c ∷ t)

skip_bars : Text → Text
skip_bars [] = []
skip_bars (c ∷ t) = let rest = skip_bars t in if c == b'_' then rest else c ∷ t

split_dsl : Text → Option (Text × Text × Text)
unfolding letters
split_dsl line =
    let (ons, t) = letters line in
    elim t [
      | [] ↦ none
      | _ ∷ t ↦
          if is_empty ons || is_empty (letters t).0
          then none
          else some (ons, (letters t).0, (letters t).1)
    ]

appended : Text → Option Text
unfolding letters skip_bars
appended [] = none
appended (c ∷ t) =
    let rest = appended t in
    let word = (letters (skip_bars t)).0 in
    if c == b'_' && not (is_empty word) then some word else rest

unfoldable pub sample_dsl : Dsl
unfolding split_dsl appended
sample_dsl = record {
  dsl_is_match = λ t. elim (split_dsl t) [ none ↦ false | some _ ↦ true ];
  dsl_captures = split_dsl;
  appending_captures = appended;
}

tail_after : Text → Text → Bool
unfolding contains is_letter
tail_after pattern [] = false
tail_after pattern (c ∷ []) = false
tail_after pattern (c ∷ e ∷ []) = false
tail_after pattern (c ∷ e ∷ f ∷ t) =
    (contains pattern (c ∷ e ∷ []) && is_letter f) || tail_after pattern (e ∷ f ∷ t)

unfoldable pub sample_regexes : Regexes
unfolding contains tail_after
sample_regexes = record {
  uh_o = λ t. contains (codes "ưo") t || contains (codes "ươ") t;
  uo_h_tail = λ t. tail_after (codes "uơ") t || tail_after (codes "ưo") t;
}

-- The case mapping of ASCII alone.
abbrev pub ascii_lower : ℕ → ℕ
ascii_lower c = if leb b'A' c && leb c b'Z' then c + 32 else c

unfoldable pub ascii_unicode : Unicode
unfolding is_letter
ascii_unicode = record {
  to_lowercase = λ c. ascii_lower c ∷ [];
  to_uppercase = λ c. (if leb b'a' c && leb c b'z' then c - 32 else c) ∷ [];
  text_to_lowercase = map ascii_lower;
  text_to_uppercase = map (λ c. if leb b'a' c && leb c b'z' then c - 32 else c);
  is_uppercase = λ c. leb b'A' c && leb c b'Z';
  is_alphanumeric = λ c. is_letter c || (leb b'0' c && leb c b'9');
  is_whitespace = λ c. c == b' ' || (leb 9 c && leb c 13);
  is_lowercase = λ c. leb b'a' c && leb c b'z';
}

pub ascii_lower-idempotent :
    (c : ℕ) → to_lower ascii_unicode (to_lower ascii_unicode c) ≡ to_lower ascii_unicode c
unfolding ascii_unicode to_lower
ascii_lower-idempotent c = ground arith
