-- ===== src/Dict.antt =====
-- crates/pinakey-core/src/dict.rs: the set of words that the spelling rules are overruled by. The set is a
-- list without repetitions.
use pinakey.Base.{
  ℕ, ◌==◌, if◌then◌else◌, Bool, false, not, ◌&&◌, ◌||◌, List, [], ◌∷◌, reverse, length, lines,
  is_empty, Text, text_eq, text_eq_sound, ◌≡◌, sym, ap, arith, Bool-cases, inl, inr,
}
use pinakey.Chars.{Unicode}

pub record Dictionary : Type 0 where
  pub words : List Text

unfoldable pub new : Dictionary
new = record { words = [] }

abbrev pub has_word : Text → List Text → Bool
has_word w [] = false
has_word w (x ∷ xs) = text_eq x w || has_word w xs

-- `HashSet::insert`.
unfoldable pub insert : List Text → Text → List Text
insert words w = if has_word w words then words else w ∷ words

module _ (u : Unicode) where
  unfoldable pub trim_start : Text → Text
  trim_start [] = []
  trim_start (c ∷ t) = let rest = trim_start t in if u.is_whitespace c then rest else c ∷ t

  unfoldable pub trim : Text → Text
  unfolding trim_start
  trim t = reverse (trim_start (reverse (trim_start t)))

  abbrev pub is_comment : Text → Bool
  is_comment [] = false
  is_comment (c ∷ _) = c == b'#'

  -- A line with a word: neither empty nor a comment.
  abbrev pub bears_word : Text → Bool
  unfolding trim
  bears_word line = not (is_empty (trim line) || is_comment (trim line))

  unfoldable pub load_lines : List Text → List Text → List Text
  unfolding insert trim
  load_lines words [] = words
  load_lines words (line ∷ others) =
      load_lines (if bears_word line then insert words (u.text_to_lowercase (trim line)) else words)
        others

  unfoldable pub load_str : Text → Dictionary
  unfolding load_lines
  load_str text = record { words = load_lines [] (lines text) }

  unfoldable pub contains : Dictionary → Text → Bool
  contains d word = not (is_empty word) && has_word (u.text_to_lowercase word) d.words

  unfoldable pub add : Dictionary → Text → Dictionary
  unfolding insert
  add d word = record d { words = insert d.words (u.text_to_lowercase word) }

unfoldable pub insert_all : List Text → List Text → List Text
unfolding insert
insert_all words [] = words
insert_all words (w ∷ more) = insert_all (insert words w) more

unfoldable pub merge : Dictionary → Dictionary → Dictionary
unfolding insert_all
merge d other = record d { words = insert_all d.words other.words }

pub len : Dictionary → ℕ
len d = length d.words

has_word-insert :
    (words : List Text) (w x : Text) → has_word x (insert words w) ≡ has_word x words || text_eq w x
unfolding insert
has_word-insert words w x = elim (Bool-cases (text_eq w x)) [
  | inl e ↦
      let same : has_word x words ≡ has_word w words =
        ap (λ v. has_word v words) (sym (text_eq_sound w x e)) in
      ground arith
  | inr e ↦ ground arith
]

has_word-insert_all :
    (words more : List Text) (x : Text)
    → has_word x (insert_all words more) ≡ has_word x words || has_word x more
unfolding insert_all
has_word-insert_all words [] x = ground arith
has_word-insert_all words (w ∷ more) x =
    let first = has_word-insert words w x in
    let rest = has_word-insert_all (insert words w) more x in ground arith

module _ (u : Unicode) where
  -- Some line bears the word, in lower case.
  abbrev pub some_line : List Text → Text → Bool
  some_line [] w = false
  some_line (line ∷ others) w =
      (bears_word u line && text_eq (u.text_to_lowercase (trim u line)) w) || some_line others w

  has_word-load_lines :
      (words ls : List Text) (x : Text)
      → has_word x (load_lines u words ls) ≡ has_word x words || some_line ls x
  unfolding load_lines
  has_word-load_lines words [] x = ground arith
  has_word-load_lines words (line ∷ others) x = elim (Bool-cases (bears_word u line)) [
    | inl q ↦
        let first = has_word-insert words (u.text_to_lowercase (trim u line)) x in
        let rest =
          has_word-load_lines (insert words (u.text_to_lowercase (trim u line))) others x in
        rw (q, load_lines) (ground arith)
    | inr q ↦ let rest = has_word-load_lines words others x in rw (q, load_lines) (ground arith)
  ]

  -- A dictionary that is read from a text contains exactly the words, in any case, that stand alone on a
  -- line of it, around which spaces and case do not matter; comments and the empty word are none.
  pub contains-load_str :
      (text word : Text)
      → contains u (load_str u text) word
        ≡ not (is_empty word) && some_line (lines text) (u.text_to_lowercase word)
  unfolding contains load_str
  contains-load_str text word =
      ap (not (is_empty word) &&◌) (has_word-load_lines [] (lines text) (u.text_to_lowercase word))

  -- After a word is added, a dictionary contains the words that it contained, and those that are the
  -- added word in lower case; the empty word is never contained.
  contains-add :
      (d : Dictionary) (word x : Text)
      → contains u (add u d word) x
        ≡ contains u d x
          || (not (is_empty x) && text_eq (u.text_to_lowercase word) (u.text_to_lowercase x))
  unfolding contains add
  contains-add d word x =
      let h = has_word-insert d.words (u.text_to_lowercase word) (u.text_to_lowercase x) in
      ground arith

  -- A merged dictionary contains what either contains.
  contains-merge :
      (d other : Dictionary) (x : Text)
      → contains u (merge d other) x ≡ contains u d x || contains u other x
  unfolding contains merge
  contains-merge d other x =
      let h = has_word-insert_all d.words other.words (u.text_to_lowercase x) in ground arith
