-- ===== src/Emoji/Search.antt =====
-- crates/pinakey-emoji/src/emoji.rs and fuzzy.rs: the query of emoji by a prefix, and the ranked search.
use pinakey.Base.{
  ℕ, ◌==◌, ltb, if◌then◌else◌, Bool, true, false, ◌||◌, Option, none, some, List, [], ◌∷◌, ◌++◌,
  map, length, is_empty, Text, text_eq, arith, ◌≤◌, ◌<◌, ◌≡◌, refl, All-append, length-append,
  if-elim, Bool-cases, inl, inr,
}
use pinakey.Chars.{Unicode}
use pinakey.Base.{text_leb, sort}
use pinakey.Emoji.Fuzzy.{ℤ, score_prepared, flat_map}
use pinakey.Emoji.Recent.{NoDuplicates}
use pinakey.Emoji.Trie.{TrieNode, find_prefix}

pub record EmojiEngine : Type 0 where
  pub trie : TrieNode
  pub keys : Text

abbrev pub is_found : Option (List (Text × Text)) → Bool
is_found none = false
is_found (some _) = true

unfoldable pub match_string : EmojiEngine → Text → Bool
unfolding find_prefix
match_string e s = is_found (find_prefix e.trie s)

-- `split(':')`.
unfoldable pub split_colon : Text → Text × List Text
split_colon [] = ([], [])
split_colon (c ∷ t) =
    let rest = split_colon t in if c == b':' then ([], rest.0 ∷ rest.1) else (c ∷ rest.0, rest.1)

-- `lookup[name]`; each word is in the list once.
unfoldable pub look_up : List (Text × Text) → Text → Text
look_up [] name = []
look_up ((w, v) ∷ words) name = let rest = look_up words name in if text_eq w name then v else rest

abbrev pub code_points_of : Text → List Text
code_points_of value = let parts = split_colon value in sort (parts.0 ∷ parts.1)

unfoldable pub code_points : List Text → List (Text × Text) → List Text
unfolding look_up split_colon sort
code_points [] lookup = []
code_points (name ∷ names) lookup = code_points_of (look_up lookup name) ++ code_points names lookup

unfoldable pub filter : EmojiEngine → Text → List Text
unfolding find_prefix code_points sort
filter e s = elim (find_prefix e.trie s) [
  | none ↦ []
  | some lookup ↦ code_points (sort (map (λ p. p.0) lookup)) lookup
]

unfoldable pub process_key : EmojiEngine → ℕ → EmojiEngine
process_key e key = record e { keys = e.keys ++ (key ∷ []) }

unfoldable pub reset : EmojiEngine → EmojiEngine
reset e = record e { keys = [] }

unfoldable pub query : EmojiEngine → List Text
unfolding filter
query e = filter e e.keys

-- `pop`.
abbrev pub drop_last : Text → Text
drop_last [] = []
drop_last (c ∷ []) = []
drop_last (c ∷ d ∷ t) = c ∷ drop_last (d ∷ t)

unfoldable pub remove_last_key : EmojiEngine → EmojiEngine
remove_last_key e = record e { keys = drop_last e.keys }

-- An entry of the index: the key in lower case, the emoji, and the length of the key.
pub record IndexEntry : Type 0 where
  pub key : Text
  pub emoji : Text
  pub key_len : ℕ

abbrev pub ScoredEntry : Type 0
ScoredEntry = ℤ × IndexEntry

unfoldable pub int_ltb : ℤ → ℤ → Bool
int_ltb (ℤ.pos a) (ℤ.pos b) = ltb a b
int_ltb (ℤ.pos a) (ℤ.negsuc b) = false
int_ltb (ℤ.negsuc a) (ℤ.pos b) = true
int_ltb (ℤ.negsuc a) (ℤ.negsuc b) = ltb b a

-- The comparison of `sort_by`: the higher score, then the key, then the emoji.
unfoldable pub comes_first : ScoredEntry → ScoredEntry → Bool
unfolding int_ltb text_leb
comes_first (s, a) (r, b) =
    if int_ltb r s
    then true
    else if int_ltb s r
    then false
    else if text_eq a.key b.key
    then text_leb a.emoji b.emoji
    else text_leb a.key b.key

abbrev pub put : ScoredEntry → List ScoredEntry → List ScoredEntry
put x [] = x ∷ []
put x (y ∷ ys) = let rest = put x ys in if comes_first x y then x ∷ (y ∷ ys) else y ∷ rest

unfoldable pub rank : List ScoredEntry → List ScoredEntry
unfolding comes_first
rank [] = []
rank (x ∷ xs) = put x (rank xs)

abbrev pub keep_score : Option ℤ → IndexEntry → List ScoredEntry → List ScoredEntry
keep_score none entry scored = scored
keep_score (some s) entry scored = (s, entry) ∷ scored

unfoldable pub score_all : Text → List IndexEntry → List ScoredEntry
unfolding score_prepared
score_all q [] = []
score_all q (entry ∷ entries) =
    keep_score (score_prepared q entry.key entry.key_len) entry (score_all q entries)

unfoldable pub is_seen : Text → List Text → Bool
is_seen t [] = false
is_seen t (s ∷ seen) = text_eq t s || is_seen t seen

-- The loop over the ranked entries; the last argument is `out`, which holds what `seen` holds. The limit is
-- tested behind a push.
unfoldable pub first_distinct : ℕ → List ScoredEntry → List Text → List Text
unfolding is_seen
first_distinct limit [] out = out
first_distinct limit ((s, entry) ∷ scored) out =
    let pushed = out ++ (entry.emoji ∷ []) in
    elim (is_seen entry.emoji out) [
      | true ↦ first_distinct limit scored out
      | false ↦ elim (ltb (length pushed) limit) [
        | true ↦ first_distinct limit scored pushed
        | false ↦ pushed
      ]
    ]

unfoldable pub fuzzy_query : Unicode → List IndexEntry → Text → ℕ → List Text
unfolding score_all rank first_distinct
fuzzy_query u entries query limit =
    if is_empty query
    then []
    else first_distinct limit (rank (score_all (flat_map u.to_lowercase query) entries)) []

or_false : (a b : Bool) → (a || b) ≡ false → (a ≡ false) × (b ≡ false)
or_false true b h = cc
or_false false b h = (refl, h)

out_extended :
    (t : Text) (out : List Text)
    → is_seen t out ≡ false
    → NoDuplicates out
    → NoDuplicates (out ++ (t ∷ []))
unfolding is_seen
out_extended t [] h n = (tt, tt)
out_extended t (s ∷ out) h n = (
  All-append (λ y. text_eq y s ≡ false) out (t ∷ []) n.0
      ((or_false (text_eq t s) (is_seen t out) h).0, tt),
  out_extended t out (or_false (text_eq t s) (is_seen t out) h).1 n.1,
)

-- What the loop keeps.
abbrev IsResult : ℕ → List Text → Type 0
IsResult limit out = (length out ≤ limit) × NoDuplicates out

first_distinct-IsResult :
    (limit : ℕ) (scored : List ScoredEntry) (out : List Text)
    → length out < limit
    → NoDuplicates out
    → IsResult limit (first_distinct limit scored out)
unfolding first_distinct
first_distinct-IsResult limit [] out h n = (omega arith, n)
first_distinct-IsResult limit ((s, entry) ∷ scored) out h n =
    elim (Bool-cases (is_seen entry.emoji out)) [
      | inl q ↦ rw (q, first_distinct) (first_distinct-IsResult limit scored out h n)
      | inr new ↦ elim (Bool-cases (ltb (length (out ++ (entry.emoji ∷ []))) limit)) [
        | inl short ↦
            rw (new, short, first_distinct)
              (first_distinct-IsResult limit scored (out ++ (entry.emoji ∷ [])) (ground arith)
                (out_extended entry.emoji out new n))
        | inr full ↦
            rw (new, full, first_distinct) (pushed_fits, out_extended entry.emoji out new n)
      ]
    ]
  where
    pushed_fits : length (out ++ (entry.emoji ∷ [])) ≤ limit
    pushed_fits = omega (arith, length-append out (entry.emoji ∷ []))

-- A search gives at most as many emoji as its limit, which is at least one, and no emoji twice, whatever the index and
-- the query are.
pub fuzzy_query-IsResult :
    (u : Unicode) (entries : List IndexEntry) (q : Text) (limit : ℕ)
    → 0 < limit
    → (length (fuzzy_query u entries q limit) ≤ limit)
      × NoDuplicates (fuzzy_query u entries q limit)
unfolding fuzzy_query
fuzzy_query-IsResult u entries q limit h =
    if-elim (IsResult limit) (is_empty q) [] _ (λ _. (omega arith, tt))
      (λ _.
        first_distinct-IsResult limit (rank (score_all (flat_map u.to_lowercase q) entries)) [] h
          tt)
