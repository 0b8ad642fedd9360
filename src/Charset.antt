-- ===== src/Charset.antt =====
-- crates/pinakey-core/src/charset.rs: the encoding of a text by a named table. The bytes of a character that
-- no table has are its UTF-8 bytes.
pub mod Entry
pub mod Utf8
pub mod Tables
pub mod References
pub mod Lossy
use pinakey.Base.{
  ℕ, ◌==◌, if◌then◌else◌, Bool, Option, none, some, List, [], ◌∷◌, ◌++◌, map, Text, text_eq, codes,
}
use pinakey.Charset.Entry.{CharsetEntries}
use pinakey.Charset.Utf8.{utf8, encode_utf8}
use pinakey.Charset.Tables.{charset_definitions}

abbrev pub unicode_name : Text
unicode_name = codes "Unicode"

-- `Charset::get`; no table has a character twice.
unfoldable pub get : CharsetEntries → ℕ → Option (List ℕ)
get [] c = none
get ((k, bytes) ∷ entries) c = let rest = get entries c in if k == c then some bytes else rest

-- `CHARSETS.get(charset_name)`.
unfoldable pub find_charset : List (Text × CharsetEntries) → Text → Option CharsetEntries
find_charset [] name = none
find_charset ((n, entries) ∷ charsets) name =
    let rest = find_charset charsets name in if text_eq n name then some entries else rest

unfoldable pub encode_char : CharsetEntries → ℕ → List ℕ
unfolding get encode_utf8
encode_char entries c = elim (get entries c) [ none ↦ encode_utf8 c | some bytes ↦ bytes ]

unfoldable pub encode_with : CharsetEntries → Text → List ℕ
unfolding encode_char
encode_with entries [] = []
encode_with entries (c ∷ t) = encode_char entries c ++ encode_with entries t

unfoldable pub encode : Text → Text → List ℕ
unfolding find_charset encode_with utf8
encode name input =
    if text_eq name unicode_name then utf8 input else elim (find_charset charset_definitions name) [
      | some entries ↦ encode_with entries input
      | none ↦ utf8 input
    ]

unfoldable pub get_charset_names : List Text
get_charset_names = unicode_name ∷ map (λ p. p.0) charset_definitions
