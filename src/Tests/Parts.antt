-- ===== src/Tests/Parts.antt =====
-- The theorems on characters, spelling, emoji and transport rules, at concrete inputs.
use pinakey.Base.{
  not, ◌&&◌, is_empty, lines, some, true, false, [], ◌∷◌, ◌≡◌, ◌≢◌, ◌↔◌, refl, code, codes, arith,
  elem, reverse, text_eq, All,
}
use pinakey.Rules.{tone_u8, tone_from_u8}
use pinakey.Chars.{add_tone_to_char, find_tone_from_char, is_vowel}
use pinakey.Chars.Tones.{
  add_tone-add_tone, find_tone-add_tone, add_tone-find_tone, add_mark-KeepsLetter, KeepsLetter,
}
use pinakey.Dict
use pinakey.Dict.{Dictionary, some_line, contains-load_str}
use pinakey.Spelling
use pinakey.Spelling.{is_valid_cvc, vowel_seqs, row_matches}
use pinakey.Spelling.Lookup.{elem-lookup_complete, row_at, some_word, cut_words}
use pinakey.Spelling.Partial.{is_valid_cvc-partial}
use pinakey.Emoji.Recent.{
  RecentEmoji, record_use, IsRecent, record_use-IsRecent, record_use-record_use,
}
use pinakey.Emoji.Fuzzy.{ℤ, score_prepared, Subsequence, score_prepared-Subsequence}
use pinakey.Emoji.Macro
use pinakey.Emoji.Macro.{
  load_lines, parse_line, split_colon, get-load_lines, expand_placeholders, expand_from, escape,
  expand_placeholders-escape,
}
use pinakey.KeyEngine.Transport
use pinakey.KeyEngine.Transport.{
  TransportPref, TransportRules, append_layer, parse_layer, first_match, ascii_lowercase,
  or_earlier, lookup-append_layer,
}
use pinakey.Tests.World.{sample_unicode}

-- á, and then ã.
add_tone-add_tone_example : add_tone_to_char (add_tone_to_char b'a' 2) 4 ≡ add_tone_to_char b'a' 4
add_tone-add_tone_example = add_tone-add_tone b'a' 2 4 (omega arith) (omega arith)

find_tone-add_tone_example : find_tone_from_char (add_tone_to_char b'a' 2) ≡ tone_from_u8 2
unfolding is_vowel
find_tone-add_tone_example = find_tone-add_tone b'a' 2 refl (omega arith)

add_mark-KeepsLetter_example : KeepsLetter (code "ấ") 2
add_mark-KeepsLetter_example = add_mark-KeepsLetter (code "ấ") 2

elem-lookup_complete_example :
    elem 0 (Spelling.lookup vowel_seqs (codes "uê") true true)
    ≡ row_at vowel_seqs 0 (λ row. some_word (text_eq (codes "uê")) (cut_words row))
elem-lookup_complete_example = elem-lookup_complete (codes "uê") vowel_seqs 0

is_valid_cvc-partial_example : is_valid_cvc (codes "t") (codes "oa") (codes "n") false ≡ true
unfolding is_valid_cvc
is_valid_cvc-partial_example = is_valid_cvc-partial (codes "t") (codes "oa") (codes "n") refl

two_emoji : RecentEmoji
two_emoji = record { cap = 2; items = codes "😀" ∷ codes "😂" ∷ [] }

two_emoji-IsRecent : IsRecent two_emoji
unfolding two_emoji text_eq
two_emoji-IsRecent = record {
  capped = omega arith;
  no_empty = (refl, (refl, tt));
  no_duplicates = ((refl, tt), (tt, tt));
}

record_use-IsRecent_example : IsRecent (record_use two_emoji (codes "😂"))
record_use-IsRecent_example = record_use-IsRecent two_emoji (codes "😂") two_emoji-IsRecent

score_prepared-Subsequence_example :
    ((s : ℤ) × (score_prepared (codes "heye") (codes "heart_eyes") 10 ≡ some s))
    ↔ ((codes "heye" ≢ []) × Subsequence (codes "heye") (codes "heart_eyes"))
score_prepared-Subsequence_example =
    score_prepared-Subsequence (codes "heye") (codes "heart_eyes") 10

one_rule : TransportRules
one_rule = record { rules = (codes "term", TransportPref.preedit) ∷ [] }

lookup-append_layer_example :
    Transport.lookup
      (append_layer sample_unicode one_rule (codes "replace kitty # fast"))
      (codes "Kitty")
    ≡ or_earlier
        (first_match
          (ascii_lowercase (codes "Kitty"))
          (reverse (parse_layer sample_unicode (lines (codes "replace kitty # fast")))))
        (Transport.lookup one_rule (codes "Kitty"))
lookup-append_layer_example =
    lookup-append_layer sample_unicode one_rule (codes "replace kitty # fast") (codes "Kitty") refl

words : Dictionary
words = Dict.load_str sample_unicode (codes "# loan words\n Email \nok")

contains-load_str_example :
    Dict.contains sample_unicode words (codes "eMail")
    ≡ not (is_empty (codes "eMail"))
      && some_line sample_unicode
          (lines (codes "# loan words\n Email \nok"))
          (sample_unicode.text_to_lowercase (codes "eMail"))
unfolding words
contains-load_str_example =
    contains-load_str sample_unicode (codes "# loan words\n Email \nok") (codes "eMail")

email_loaded : Dict.contains sample_unicode words (codes "eMail") ≡ true
unfolding words Dict.contains Dict.load_str Dict.load_lines Dict.insert Dict.trim Dict.trim_start
    text_eq sample_unicode
email_loaded = refl

-- A comment and an entry of another key.
last_lines-IsSilent :
    All
      (Macro.IsSilent sample_unicode true (codes "vn"))
      (codes "; vn: x" ∷ codes "hn: Hà Nội" ∷ [])
unfolding parse_line Dict.trim Dict.trim_start split_colon sample_unicode
last_lines-IsSilent = ((λ w h. cc), ((λ w h. ground arith), tt))

get-load_lines_example :
    Macro.get
      (load_lines sample_unicode true []
        (codes "VN: Việt" ∷ codes "vn : Việt Nam" ∷ codes "; vn: x" ∷ codes "hn: Hà Nội" ∷ []))
      (codes "vn")
    ≡ some (codes "Việt Nam")
unfolding parse_line Dict.trim Dict.trim_start split_colon sample_unicode
get-load_lines_example =
    get-load_lines sample_unicode true (codes "vn") [] (codes "VN: Việt" ∷ [])
      (codes "; vn: x" ∷ codes "hn: Hà Nội" ∷ []) (codes "vn : Việt Nam") (codes "Việt Nam") refl
      last_lines-IsSilent

expand_placeholders-escape_example :
    expand_placeholders
      (codes "02/07/2026")
      (codes "14:30")
      (escape (codes "02/07/2026") (codes "14:30") (codes "a $DATE $"))
    ≡ codes "a $DATE $"
expand_placeholders-escape_example =
    expand_placeholders-escape (codes "02/07/2026") (codes "14:30") (codes "a $DATE $")

today :
    expand_placeholders (codes "02/07/2026") (codes "14:30") (codes "$DATE $TIME $5 $$TIME")
    ≡ codes "02/07/2026 14:30 $5 $TIME"
unfolding expand_placeholders expand_from elem
today = refl

add_tone-find_tone_example :
    add_tone_to_char (code "ế") (tone_u8 (find_tone_from_char (code "ế"))) ≡ code "ế"
add_tone-find_tone_example = add_tone-find_tone (code "ế")

record_use-record_use_example :
    record_use (record_use two_emoji (codes "😍")) (codes "😍") ≡ record_use two_emoji (codes "😍")
record_use-record_use_example = record_use-record_use two_emoji (codes "😍")
