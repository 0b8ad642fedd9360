-- ===== src/Emoji/Index.antt =====
-- crates/pinakey-emoji/src/emoji.rs and fuzzy.rs: how the tree and the index are built of the EmojiOne file. The crate
-- serde reads its JSON; what it gives is a list of names with their entries, in any order.
use pinakey.Base.{
  ℕ, ◌+◌, ◌-◌, ◌*◌, ◌==◌, ltb, leb, if◌then◌else◌, ◌&&◌, ◌||◌, true, false, Option, none, some,
  List, [], ◌∷◌, ◌++◌, reverse, length, is_empty, Text, ◌>>=◌,
}
use pinakey.Chars.{Unicode}
use pinakey.Emoji.Trie
use pinakey.Emoji.Trie.{TrieNode, insert}
use pinakey.Emoji.Search.{IndexEntry}

-- `EmojiOne` and `EmojiOneEntry`; the tree makes no use of the short names.
pub record EmojiOneEntry : Type 0 where
  pub shortname : Text
  pub shortname_alternates : List Text
  pub keywords : List Text
  pub ascii : List Text

abbrev pub hex_digit : ℕ → Option ℕ
hex_digit c =
    if leb b'0' c && leb c b'9'
    then some (c - b'0')
    else if leb b'a' c && leb c b'f'
    then some (c - 87)
    else if leb b'A' c && leb c b'F'
    then some (c - 55)
    else none

-- The digits behind a value; a value past a `u32` is an error.
unfoldable pub hex_from : ℕ → Text → Option ℕ
hex_from value [] = some value
hex_from value (c ∷ t) = hex_digit c >>= (λ d. elim (ltb (value * 16 + d) 0x100000000) [
  | true ↦ hex_from (value * 16 + d) t
  | false ↦ none
])

-- `u32::from_str_radix(s, 16)`: a plus sign may stand in front of the digits.
unfoldable pub from_hex : Text → Option ℕ
unfolding hex_from
from_hex [] = none
from_hex (c ∷ []) = if c == b'+' then none else hex_from 0 (c ∷ [])
from_hex (c ∷ d ∷ t) = if c == b'+' then hex_from 0 (d ∷ t) else hex_from 0 (c ∷ d ∷ t)

abbrev pub is_char : ℕ → Option ℕ
is_char c = if ltb c 0xd800 || (leb 0xe000 c && ltb c 0x110000) then some c else none

-- `split('-')`.
unfoldable pub split_dash : Text → Text × List Text
split_dash [] = ([], [])
split_dash (c ∷ t) =
    let rest = split_dash t in if c == b'-' then ([], rest.0 ∷ rest.1) else (c ∷ rest.0, rest.1)

abbrev pub push_char : Option ℕ → Text → Text
push_char none t = t
push_char (some c) t = c ∷ t

unfoldable pub characters_of : List Text → Text
unfolding from_hex
characters_of [] = []
characters_of (s ∷ parts) = push_char (from_hex s >>= is_char) (characters_of parts)

-- The emoji of a name such as `1f468-200d-1f3a8`; a part that is no character is left out.
unfoldable pub emoji_of : Text → Text
unfolding split_dash characters_of
emoji_of name = let parts = split_dash name in characters_of (parts.0 ∷ parts.1)

unfoldable pub insert_all : TrieNode → List Text → Text → TrieNode
unfolding insert
insert_all t [] value = t
insert_all t (w ∷ words) value = insert_all (insert t w value) words value

unfoldable pub load_from : TrieNode → List (Text × EmojiOneEntry) → TrieNode
unfolding insert_all emoji_of
load_from t [] = t
load_from t ((name, e) ∷ map) =
    load_from (insert_all (insert_all t e.ascii (emoji_of name)) e.keywords (emoji_of name)) map

-- `from_str` is the reader of JSON; its error is the function's.
unfoldable pub load_emojione_from_str :
    (Text → Option (List (Text × EmojiOneEntry))) → Text → Option TrieNode
unfolding load_from
load_emojione_from_str from_str json = from_str json >>= (λ map. some (load_from Trie.new map))

-- `trim_start_matches(':')`, and `trim_matches(':')`.
abbrev pub drop_colons : Text → Text
drop_colons [] = []
drop_colons (c ∷ t) = let rest = drop_colons t in if c == b':' then rest else c ∷ t

abbrev pub trim_colons : Text → Text
trim_colons t = reverse (drop_colons (reverse (drop_colons t)))

module _ (u : Unicode) where
  -- The closure `push`; the lengths are far from the bounds of `i32`.
  abbrev pub index_key : Text → Text → List IndexEntry
  index_key emoji key =
      if is_empty key
      then []
      else record {
        key = u.text_to_lowercase key;
        emoji = emoji;
        key_len = length (u.text_to_lowercase key);
      }
        ∷ []

  unfoldable pub index_keys : Text → List Text → List IndexEntry
  index_keys emoji [] = []
  index_keys emoji (k ∷ keys) = index_key emoji k ++ index_keys emoji keys

  unfoldable pub index_names : Text → List Text → List IndexEntry
  index_names emoji [] = []
  index_names emoji (s ∷ names) = index_key emoji (trim_colons s) ++ index_names emoji names

  unfoldable pub index_entries : List (Text × EmojiOneEntry) → List IndexEntry
  unfolding emoji_of index_names index_keys
  index_entries [] = []
  index_entries ((name, e) ∷ map) =
      (if is_empty (emoji_of name)
        then []
        else index_names (emoji_of name) (e.shortname ∷ e.shortname_alternates)
          ++ index_keys (emoji_of name) (e.keywords ++ e.ascii))
      ++ index_entries map

  unfoldable pub from_emojione_str :
      (Text → Option (List (Text × EmojiOneEntry))) → Text → Option (List IndexEntry)
  unfolding index_entries
  from_emojione_str from_str json = from_str json >>= (λ map. some (index_entries map))
