-- ===== src/Chars/Tones.antt =====
-- The tones and marks of utils.rs: laws of `add_tone_to_char` and `add_mark_to_char` at every
-- character.
use pinakey.Base.{
  ℕ, zero, suc, ◌<◌, ◌≤◌, ◌==◌, ltb, if◌then◌else◌, ==_iff, Bool, true, false, ◌&&◌, ◌≡◌, inl, inr,
  refl, arith, Bool-cases, ap, ◌∙◌,
}
use pinakey.Rules.{Tone, tone_u8, tone_from_u8}
use pinakey.Chars.{
  find_tone_from_char, add_tone_to_char, add_mark_to_char, add_mark_to_toneless_char, is_vowel,
  marks_map,
}
use pinakey.Chars.Tables.{each_upto, each_upto-holds, all_of, letters, letter_cases, IsPlain}

add_tone-IsPlain : (c t : ℕ) → IsPlain c → add_tone_to_char c t ≡ c
unfolding add_tone_to_char
add_tone-IsPlain c t h = rw (h.no_position, add_tone_to_char)

find_tone-IsPlain : (c : ℕ) → IsPlain c → find_tone_from_char c ≡ Tone.none
unfolding find_tone_from_char
find_tone-IsPlain c h = rw (h.no_position, find_tone_from_char)

add_mark_toneless-IsPlain : (c m : ℕ) → IsPlain c → add_mark_to_toneless_char c m ≡ c
unfolding add_mark_to_toneless_char
add_mark_toneless-IsPlain c m h = rw (h.no_marks, add_mark_to_toneless_char)

add_mark-IsPlain : (c m : ℕ) → IsPlain c → add_mark_to_char c m ≡ c
unfolding add_mark_to_char
add_mark-IsPlain c m h =
    rw (add_tone-IsPlain c 0 h, add_mark_toneless-IsPlain c m h) (add_tone-IsPlain c _ h)

-- The table checks. `same_tone` compares tones by their numbers.
abbrev same_tone : Tone → Tone → Bool
same_tone a b = tone_u8 a == tone_u8 b

same_tone_sound : (a b : Tone) → same_tone a b ≡ true → a ≡ b
same_tone_sound a b h = ground arith

abbrev retone : ℕ → ℕ → ℕ → Bool
retone c a b = add_tone_to_char (add_tone_to_char c a) b == add_tone_to_char c b

abbrev retone_all : ℕ → Bool
retone_all c = each_upto (λ a. each_upto (retone c a) 6) 6

retone_table : all_of retone_all letters ≡ true
unfolding all_of each_upto add_tone_to_char
retone_table = refl

-- Of two tones below 6 given to a character in turn, the later one stays.
pub add_tone-add_tone :
    (c a b : ℕ) → a < 6 → b < 6 → add_tone_to_char (add_tone_to_char c a) b ≡ add_tone_to_char c b
add_tone-add_tone c a b ha hb = elim (letter_cases retone_all c retone_table) [
  | inl t ↦ (==_iff _ _).0 (
      each_upto-holds (retone c a) 6 b hb
        (each_upto-holds (λ a. each_upto (retone c a) 6) 6 a ha t))
  | inr h ↦ rw (add_tone-IsPlain c a h)
]

abbrev reads_tone : ℕ → ℕ → Bool
reads_tone c t = same_tone (find_tone_from_char (add_tone_to_char c t)) (tone_from_u8 t)

abbrev reads_tones : ℕ → Bool
reads_tones c = if is_vowel c then each_upto (reads_tone c) 6 else true

reads_table : all_of reads_tones letters ≡ true
unfolding all_of each_upto add_tone_to_char find_tone_from_char is_vowel
reads_table = refl

plain_no_vowel : (c : ℕ) → IsPlain c → is_vowel c ≡ true → true ≡ false
plain_no_vowel c h v = let f = h.no_vowel in cc

-- The tone of a vowel that was given a tone below 6 is that tone.
pub find_tone-add_tone :
    (c t : ℕ)
    → is_vowel c ≡ true
    → t < 6
    → find_tone_from_char (add_tone_to_char c t) ≡ tone_from_u8 t
find_tone-add_tone c t v h = elim (letter_cases reads_tones c reads_table) [
  | inl e ↦ same_tone_sound _ _ (each_upto-holds (reads_tone c) 6 t h (rw v at e))
  | inr p ↦ let f = plain_no_vowel c p v in cc
]

abbrev keeps_tone : ℕ → Bool
keeps_tone c = add_tone_to_char c (tone_u8 (find_tone_from_char c)) == c

keeps_table : all_of keeps_tone letters ≡ true
unfolding all_of add_tone_to_char find_tone_from_char
keeps_table = refl

-- Giving a character the tone that it has changes nothing.
pub add_tone-find_tone : (c : ℕ) → add_tone_to_char c (tone_u8 (find_tone_from_char c)) ≡ c
add_tone-find_tone c = elim (letter_cases keeps_tone c keeps_table) [
  | inl e ↦ (==_iff _ _).0 e
  | inr p ↦ add_tone-IsPlain c _ p
]

-- A mark past the table's columns changes no toneless character.
add_mark_toneless_past : (c m : ℕ) → 5 ≤ m → add_mark_to_toneless_char c m ≡ c
unfolding add_mark_to_toneless_char marks_map
add_mark_toneless_past c zero h = absurd (omega arith)
add_mark_toneless_past c (suc zero) h = absurd (omega arith)
add_mark_toneless_past c (suc (suc zero)) h = absurd (omega arith)
add_mark_toneless_past c (suc (suc (suc zero))) h = absurd (omega arith)
add_mark_toneless_past c (suc (suc (suc (suc zero)))) h = absurd (omega arith)
add_mark_toneless_past c (suc (suc (suc (suc (suc m))))) h = ground arith

-- A mark of 5 or more, past the table's columns, changes no character.
add_mark_past : (c m : ℕ) → 5 ≤ m → add_mark_to_char c m ≡ c
unfolding add_mark_to_char
add_mark_past c m h = rw (add_mark_toneless_past (add_tone_to_char c 0) m h) (
    add_tone-add_tone c 0 (tone_u8 (find_tone_from_char c)) (omega arith) (tone-lt c)
    ∙ add_tone-find_tone c)
  where
    tone-lt : (c : ℕ) → tone_u8 (find_tone_from_char c) < 6
    tone-lt c = ground arith

abbrev marks_keep : ℕ → ℕ → Bool
marks_keep c m =
    same_tone (find_tone_from_char (add_mark_to_char c m)) (find_tone_from_char c)
    && ((if is_vowel (add_mark_to_char c m) then is_vowel c else true)
        && ((if is_vowel c then is_vowel (add_mark_to_char c m) else true)
            && (add_mark_to_char (add_mark_to_char c m) 0 == add_mark_to_char c 0)))

abbrev marks_keep_all : ℕ → Bool
marks_keep_all c = each_upto (marks_keep c) 5

marks_table : all_of marks_keep_all letters ≡ true
unfolding all_of each_upto add_tone_to_char find_tone_from_char add_mark_to_char is_vowel
marks_table = refl

-- What a mark keeps of a character: its tone, whether it is a vowel, and the letter below the marks.
pub record KeepsLetter (c m : ℕ) : Type 0 where
  pub tone : find_tone_from_char (add_mark_to_char c m) ≡ find_tone_from_char c
  pub vowel : is_vowel (add_mark_to_char c m) ≡ is_vowel c
  pub letter : add_mark_to_char (add_mark_to_char c m) 0 ≡ add_mark_to_char c 0

unchanged : (c m : ℕ) → add_mark_to_char c m ≡ c → KeepsLetter c m
unchanged c m e = record {
  tone = ap find_tone_from_char e;
  vowel = ap is_vowel e;
  letter = ap (λ x. add_mark_to_char x 0) e;
}

-- A mark keeps the tone of a character, keeps vowels vowels and consonants consonants, and taking all
-- marks away afterwards gives what taking them away before gives.
pub add_mark-KeepsLetter : (c m : ℕ) → KeepsLetter c m
add_mark-KeepsLetter c m = elim (Bool-cases (ltb m 5)) [
  | inr q ↦ unchanged c m (add_mark_past c m (ground arith))
  | inl q ↦ elim (letter_cases marks_keep_all c marks_table) [
    | inr p ↦ unchanged c m (add_mark-IsPlain c m p)
    | inl e ↦
        let f = each_upto-holds (marks_keep c) 5 m (ground arith) e in
        record {
          tone = same_tone_sound _ _ (ground arith);
          vowel = ground arith;
          letter = ground arith;
        }
  ]
]
