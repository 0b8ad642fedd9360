-- ===== src/Emoji/Trie.antt =====
-- crates/pinakey-emoji/src/trie.rs: the prefix tree of emoji names. The `HashMap` of children is a list of pairs; no
-- order of it is relied on.
use pinakey.Base.{
  ℕ, ◌==◌, if◌then◌else◌, Bool, true, false, Option, none, some, List, [], ◌∷◌, ◌++◌, is_empty,
  Text, text_eq, ◌≡◌, refl, sym, ◌∙◌, ap, ==_iff, ==_refl, Bool-cases, inl, inr, arith,
  text_eq_sound,
}

mutual
  -- The fields `is_word`, `value` and `children`.
  pub data TrieNode : Type 0 where
    node : Bool → Text → Children → TrieNode

  pub data Children : Type 0 where
    nothing : Children
    child : ℕ → TrieNode → Children → Children

abbrev pub new : TrieNode
new = TrieNode.node false [] Children.nothing

-- `children.get(&c)`.
unfoldable pub get_child : Children → ℕ → Option TrieNode
get_child Children.nothing c = none
get_child (Children.child k t rest) c =
    let later = get_child rest c in if k == c then some t else later

-- The child is put in place of the one with its key, or behind the others.
unfoldable pub put_child : Children → ℕ → TrieNode → Children
put_child Children.nothing c t = Children.child c t Children.nothing
put_child (Children.child k s rest) c t =
    let later = put_child rest c t in
    if k == c then Children.child k t rest else Children.child k s later

abbrev pub or_new : Option TrieNode → TrieNode
or_new none = new
or_new (some t) = t

abbrev pub joined : Text → Text → Text
joined old value = if is_empty old then value else old ++ (b':' ∷ value)

unfoldable pub insert : TrieNode → Text → Text → TrieNode
unfolding get_child put_child
insert (TrieNode.node is_word old children) [] value =
    TrieNode.node true (joined old value) children
insert (TrieNode.node is_word old children) (c ∷ word) value =
    TrieNode.node is_word old
      (put_child children c (insert (or_new (get_child children c)) word value))

unfoldable mutual
  -- The words below a node, with their values; the key so far stands in front.
  pub dfs : TrieNode → Text → List (Text × Text)
  dfs (TrieNode.node is_word value children) s =
      if is_word then (s, value) ∷ dfs_children children s else dfs_children children s

  pub dfs_children : Children → Text → List (Text × Text)
  dfs_children Children.nothing s = []
  dfs_children (Children.child c t rest) s = dfs t (s ++ (c ∷ [])) ++ dfs_children rest s

-- The walk of `find_prefix`.
unfoldable pub walk : TrieNode → Text → Option TrieNode
unfolding get_child
walk t [] = some t
walk (TrieNode.node is_word value children) (c ∷ prefix) = elim (get_child children c) [
  | none ↦ none
  | some t ↦ walk t prefix
]

unfoldable pub find_prefix : TrieNode → Text → Option (List (Text × Text))
unfolding walk dfs
find_prefix t prefix = elim (walk t prefix) [ none ↦ none | some n ↦ some (dfs n prefix) ]

-- The map that a tree stands for: the value of a word.
abbrev pub word_here : TrieNode → Option Text
word_here (TrieNode.node is_word value children) = if is_word then some value else none

pub value_of : TrieNode → Text → Option Text
unfolding walk
value_of t word = elim (walk t word) [ none ↦ none | some n ↦ word_here n ]

-- The text kept at a word, whether or not it is one.
abbrev text_here : TrieNode → Text
text_here (TrieNode.node is_word value children) = value

pub text_at : TrieNode → Text → Text
unfolding walk
text_at t word = elim (walk t word) [ none ↦ [] | some n ↦ text_here n ]

get_child-put_child :
    (children : Children) (c c' : ℕ) (t : TrieNode)
    → get_child (put_child children c t) c' ≡ (if c == c' then some t else get_child children c')
unfolding get_child put_child
get_child-put_child Children.nothing c c' t = refl
get_child-put_child (Children.child k s rest) c c' t = elim (Bool-cases (k == c)) [
  | inl q ↦
      let key : k ≡ c = (==_iff k c).0 q in
      elim (Bool-cases (k == c')) [
        | inl r ↦
            let same : (c == c') ≡ true = ap (λ x. x == c') (sym key) ∙ r in
            rw (q, put_child) (rw (r, get_child) (rw same refl))
        | inr r ↦
            let other : (c == c') ≡ false = ap (λ x. x == c') (sym key) ∙ r in
            rw (q, put_child) (rw (r, get_child) (rw other refl))
      ]
  | inr q ↦ elim (Bool-cases (k == c')) [
    | inl r ↦
        let key : k ≡ c' = (==_iff k c').0 r in
        let other : (c == c') ≡ false = ground arith in
        rw (q, put_child) (rw (r, get_child) (rw other refl))
    | inr r ↦ rw (q, put_child) (rw (r, get_child) (get_child-put_child rest c c' t))
  ]
]

walk-new : (word : Text) → value_of new word ≡ none
unfolding value_of walk get_child
walk-new [] = refl
walk-new (c ∷ word) = refl

text_at-new : (word : Text) → text_at new word ≡ []
unfolding text_at walk get_child
text_at-new [] = refl
text_at-new (c ∷ word) = refl

inserted_here :
    (is_word : Bool) (old : Text) (children : Children) (value : Text)
    → value_of (TrieNode.node true (joined old value) children) []
      ≡ some (joined (text_at (TrieNode.node is_word old children) []) value)
unfolding value_of text_at walk
inserted_here is_word old children value = refl

unchanged_here :
    (is_word : Bool) (old : Text) (children children' : Children)
    → value_of (TrieNode.node is_word old children) []
      ≡ value_of (TrieNode.node is_word old children') []
unfolding value_of walk
unchanged_here is_word old children children' = refl

-- One step of the two views.
value_of-child :
    (is_word : Bool) (value : Text) (children : Children) (c : ℕ) (word : Text)
    (o : Option TrieNode)
    → get_child children c ≡ o
    → value_of (TrieNode.node is_word value children) (c ∷ word) ≡ value_of (or_new o) word
unfolding value_of walk
value_of-child is_word value children c word none q = rw (q, value_of, walk) (sym (walk-new word))
value_of-child is_word value children c word (some t) q = rw (q, value_of, walk) refl

text_at-child :
    (is_word : Bool) (value : Text) (children : Children) (c : ℕ) (word : Text)
    (o : Option TrieNode)
    → get_child children c ≡ o
    → text_at (TrieNode.node is_word value children) (c ∷ word) ≡ text_at (or_new o) word
unfolding text_at walk
text_at-child is_word value children c word none q = rw (q, text_at, walk) (sym (text_at-new word))
text_at-child is_word value children c word (some t) q = rw (q, text_at, walk) refl

-- A word that is inserted has its value, behind the values from before and a colon if there are any.
value_of-insert_same :
    (t : TrieNode) (word value : Text)
    → value_of (insert t word value) word ≡ some (joined (text_at t word) value)
unfolding insert
value_of-insert_same (TrieNode.node is_word old children) [] value =
    inserted_here is_word old children value
value_of-insert_same (TrieNode.node is_word old children) (c ∷ word) value =
    value_of-child is_word old (put_child children c below) c word (some below)
      (get_child-put_child children c c below ∙ rw (==_refl c) refl)
    ∙ (value_of-insert_same (or_new (get_child children c)) word value
        ∙ ap (λ x. some (joined x value)) (sym (text_at-child is_word old children c word _ refl)))
  where
    below : TrieNode
    below = insert (or_new (get_child children c)) word value

-- The other words keep theirs.
value_of-insert_other :
    (t : TrieNode) (word other value : Text)
    → text_eq word other ≡ false
    → value_of (insert t word value) other ≡ value_of t other
unfolding insert text_eq
value_of-insert_other (TrieNode.node is_word old children) [] [] value h = cc
value_of-insert_other (TrieNode.node is_word old children) [] (d ∷ other) value h =
    value_of-child true (joined old value) children d other _ refl
    ∙ sym (value_of-child is_word old children d other _ refl)
value_of-insert_other (TrieNode.node is_word old children) (c ∷ word) [] value h =
    unchanged_here is_word old _ children
value_of-insert_other (TrieNode.node is_word old children) (c ∷ word) (d ∷ other) value h =
    elim (Bool-cases (c == d)) [
      | inl q ↦
          let key : c ≡ d = (==_iff c d).0 q in
          value_of-child is_word old (put_child children c below) d other (some below)
            (get_child-put_child children c d below ∙ rw q refl)
          ∙ (value_of-insert_other (or_new (get_child children c)) word other value
                (rw (q, text_eq) at h)
              ∙ (ap (λ x. value_of (or_new (get_child children x)) other) key
                  ∙ sym (value_of-child is_word old children d other _ refl)))
      | inr q ↦
          value_of-child is_word old (put_child children c below) d other (get_child children d)
            (get_child-put_child children c d below ∙ rw q refl)
          ∙ sym (value_of-child is_word old children d other _ refl)
    ]
  where
    below : TrieNode
    below = insert (or_new (get_child children c)) word value

-- After an insertion into any tree the word has its value, behind the text that was kept at it and
-- a colon if there is one, and every other word keeps its value or stays without one.
pub value_of-insert :
    (t : TrieNode) (word value other : Text)
    → value_of (insert t word value) other
      ≡ (if text_eq word other then some (joined (text_at t word) value) else value_of t other)
value_of-insert t word value other = elim (Bool-cases (text_eq word other)) [
  | inl q ↦ rw q (
      ap (value_of (insert t word value)) (sym (text_eq_sound word other q))
      ∙ value_of-insert_same t word value)
  | inr q ↦ rw q (value_of-insert_other t word other value q)
]
