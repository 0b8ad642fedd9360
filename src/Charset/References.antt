-- ===== src/Charset/References.antt =====
-- The tables of crates/pinakey-core/src/charset_def.rs that write a character as its number: against a rendering of
-- numbers that knows no table.
use pinakey.Base.{
  ℕ, zero, suc, ◌+◌, ◌-◌, ◌/◌, ◌%◌, ◌==◌, ltb, if◌then◌else◌, Bool, true, false, ◌&&◌, none, some,
  List, [], ◌∷◌, ◌++◌, ◌≡◌, refl, sym, ◌∙◌, ap, Text, text_eq, text_eq_sound, codes, elem, ◌≢◌,
  ==_iff, Bool-cases, Option-cases, inl, inr,
}
use pinakey.Charset.{get, encode_char, encode_with, encode, find_charset}
use pinakey.Charset.Entry.{CharsetEntries}
use pinakey.Charset.Utf8.{encode_utf8}
use pinakey.Charset.Tables.NcrDecimal.{ncr_decimal}
use pinakey.Charset.Tables.CStringHex.{c_string_hex}
use pinakey.Charset.Tables.CStringDecimal.{c_string_decimal}

-- The digits of a number below `base ^ fuel`, in front of `digits`.
digits_from : ℕ → ℕ → ℕ → Text → Text
digits_from zero base n digits = digits
digits_from (suc fuel) base n digits =
    let digit = n % base in
    let more =
      digits_from fuel base (n / base)
        ((if ltb digit 10 then b'0' + digit else b'A' + (digit - 10)) ∷ digits) in
    if n == 0 then digits else more

-- A number below 10 ^ 8 in decimal digits, and one below 16 ^ 8 in hexadecimal digits.
pub decimal : ℕ → Text
unfolding digits_from
decimal n = digits_from 8 10 n []

pub hexadecimal : ℕ → Text
unfolding digits_from
hexadecimal n = digits_from 8 16 n []

-- `&#273;`, `\u273` and `\x111`.
pub as_reference : ℕ → Text
unfolding decimal
as_reference c = codes "&#" ++ (decimal c ++ codes ";")

pub as_decimal_escape : ℕ → Text
unfolding decimal
as_decimal_escape c = codes "\\u" ++ decimal c

pub as_hex_escape : ℕ → Text
unfolding hexadecimal
as_hex_escape c = codes "\\x" ++ hexadecimal c

-- Every entry is the rendering of its character.
renders : (ℕ → Text) → CharsetEntries → Bool
renders f [] = true
renders f ((k, bytes) ∷ entries) = text_eq bytes (f k) && renders f entries

and_both : (a b : Bool) → (a && b) ≡ true → (a ≡ true) × (b ≡ true)
and_both true b h = (refl, h)
and_both false b h = cc

get-renders :
    (f : ℕ → Text) (entries : CharsetEntries) (c : ℕ) (bytes : Text)
    → renders f entries ≡ true
    → get entries c ≡ some bytes
    → bytes ≡ f c
unfolding get renders
get-renders f [] c bytes h q = cc
get-renders f ((k, b) ∷ entries) c bytes h q = elim (Bool-cases (k == c)) [
  | inl p ↦
      let both = and_both (text_eq b (f k)) (renders f entries) h in
      let found : some b ≡ some bytes = rw (p, get) at q in
      let same : b ≡ f k = text_eq_sound b (f k) both.0 in
      let key : k ≡ c = (==_iff k c).0 p in
      let here : b ≡ bytes = cc in sym here ∙ (same ∙ ap f key)
  | inr p ↦
      get-renders f entries c bytes (and_both (text_eq b (f k)) (renders f entries) h).1
        (rw (p, get) at q)
]

-- The Vietnamese letters that ASCII does not have.
abbrev pub marked_letters : Text
marked_letters =
    codes "àáảãạăằắẳẵặâầấẩẫậèéẻẽẹêềếểễệìíỉĩịòóỏõọôồốổỗộơờớởỡợùúủũụưừứửữựỳýỷỹỵđ"
    ++ codes "ÀÁẢÃẠĂẰẮẲẴẶÂẦẤẨẪẬÈÉẺẼẸÊỀẾỂỄỆÌÍỈĨỊÒÓỎÕỌÔỒỐỔỖỘƠỜỚỞỠỢÙÚỦŨỤƯỪỨỬỮỰỲÝỶỸỴĐ"

has_all : CharsetEntries → Text → Bool
unfolding get
has_all entries [] = true
has_all entries (c ∷ t) = elim (get entries c) [ none ↦ false | some _ ↦ has_all entries t ]

has_only : CharsetEntries → Text → Bool
unfolding elem
has_only [] t = true
has_only ((k, bytes) ∷ entries) t = elem k t && has_only entries t

get-has_all :
    (entries : CharsetEntries) (c : ℕ) (t : Text)
    → has_all entries t ≡ true
    → elem c t ≡ true
    → get entries c ≢ none
unfolding has_all elem
get-has_all entries c [] h e q = cc
get-has_all entries c (x ∷ t) h e q = elim (Option-cases (get entries x)) [
  | inl p ↦ let k : false ≡ true = rw (p, has_all) at h in cc
  | inr (b, p) ↦ elim (Bool-cases (x == c)) [
    | inl same ↦
        let key : x ≡ c = (==_iff x c).0 same in
        let k : some b ≡ none = sym p ∙ (ap (get entries) key ∙ q) in cc
    | inr other ↦ get-has_all entries c t (rw (p, has_all) at h) (rw other at e) q
  ]
]

get-has_only :
    (entries : CharsetEntries) (c : ℕ) (t bytes : Text)
    → has_only entries t ≡ true
    → get entries c ≡ some bytes
    → elem c t ≡ true
unfolding has_only get
get-has_only [] c t bytes h q = cc
get-has_only ((k, b) ∷ entries) c t bytes h q = elim (Bool-cases (k == c)) [
  | inl same ↦
      let key : k ≡ c = (==_iff k c).0 same in
      ap (λ x. elem x t) (sym key) ∙ (and_both (elem k t) (has_only entries t) h).0
  | inr other ↦
      get-has_only entries c t bytes (and_both (elem k t) (has_only entries t) h).1
        (rw (other, get) at q)
]

-- A marked letter is rendered, and any other character is written in UTF-8.
pub reference_text : (ℕ → Text) → Text → List ℕ
unfolding elem encode_utf8
reference_text f [] = []
reference_text f (c ∷ t) =
    (if elem c marked_letters then f c else encode_utf8 c) ++ reference_text f t

-- What a table that renders has to satisfy.
record IsReference (f : ℕ → Text) (entries : CharsetEntries) : Type 0 where
  rendered : renders f entries ≡ true
  all : has_all entries marked_letters ≡ true
  only : has_only entries marked_letters ≡ true

encode_char-reference :
    (f : ℕ → Text) (entries : CharsetEntries)
    → IsReference f entries
    → (c : ℕ) → encode_char entries c ≡ (if elem c marked_letters then f c else encode_utf8 c)
unfolding encode_char
encode_char-reference f entries h c = elim (Option-cases (get entries c)) [
  | inr (bytes, q) ↦
      rw (q, encode_char)
        (rw (get-has_only entries c marked_letters bytes h.only q)
          (get-renders f entries c bytes h.rendered q))
  | inl q ↦ elim (Bool-cases (elem c marked_letters)) [
    | inl e ↦ elim (get-has_all entries c marked_letters h.all e q) [ ]
    | inr e ↦ rw (q, encode_char) (rw e refl)
  ]
]

encode_with-reference :
    (f : ℕ → Text) (entries : CharsetEntries)
    → IsReference f entries
    → (t : Text) → encode_with entries t ≡ reference_text f t
unfolding encode_with reference_text
encode_with-reference f entries h [] = refl
encode_with-reference f entries h (c ∷ t) =
    ap (◌++ encode_with entries t) (encode_char-reference f entries h c)
    ∙ ap ((if elem c marked_letters then f c else encode_utf8 c) ++◌)
        (encode_with-reference f entries h t)

ncr_decimal-IsReference : IsReference as_reference ncr_decimal
unfolding renders as_reference text_eq has_all has_only get elem
ncr_decimal-IsReference = record { rendered = refl; all = refl; only = refl }

c_string_decimal-IsReference : IsReference as_decimal_escape c_string_decimal
unfolding renders as_decimal_escape text_eq has_all has_only get elem
c_string_decimal-IsReference = record { rendered = refl; all = refl; only = refl }

c_string_hex-IsReference : IsReference as_hex_escape c_string_hex
unfolding renders as_hex_escape text_eq has_all has_only get elem
c_string_hex-IsReference = record { rendered = refl; all = refl; only = refl }

-- The encodings "NCR Decimal", "Unicode C string Decimal" and "Unicode C string Hex" write each of the 134 Vietnamese
-- letters that ASCII does not have as its code point, as `&#273;`, `\u273` and `\x111` do for the first one, and
-- every other character in UTF-8, whatever the text is.
pub encode-reference_text :
    (t : Text)
    → (encode (codes "NCR Decimal") t ≡ reference_text as_reference t)
      × (encode (codes "Unicode C string Decimal") t ≡ reference_text as_decimal_escape t)
      × (encode (codes "Unicode C string Hex") t ≡ reference_text as_hex_escape t)
unfolding encode find_charset text_eq
encode-reference_text t = (
  encode_with-reference as_reference ncr_decimal ncr_decimal-IsReference t,
  encode_with-reference as_decimal_escape c_string_decimal c_string_decimal-IsReference t,
  encode_with-reference as_hex_escape c_string_hex c_string_hex-IsReference t,
)
