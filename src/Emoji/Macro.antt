-- ===== src/Emoji/Macro.antt =====
-- crates/pinakey-emoji/src/mactab.rs: the macro table, and the placeholders of a macro's text. The file is
-- given as its content. The crate `chrono` writes the date and the time, which are arguments.
use pinakey.Base.{
  ℕ, zero, suc, ==_iff, sym, ◌∙◌, ◌==◌, if◌then◌else◌, Bool, true, false, not, ◌||◌, Option, none,
  some, List, [], ◌∷◌, ◌++◌, lines, is_empty, elem, Text, text_eq, text_eq_refl, text_eq_sound,
  codes, ◌≡◌, refl, ap, All, Bool-cases, Option-cases, inl, inr,
}
use pinakey.Chars.{Unicode}
use pinakey.Dict.{trim}
use pinakey.InputMethod.{is_prefix_of}

pub record MacroTable : Type 0 where
  pub enable : Bool
  pub auto_capitalize_macro : Bool
  pub m_table : List (Text × Text)

unfoldable pub new : Bool → MacroTable
new auto_capitalize = record {
  enable = false;
  auto_capitalize_macro = auto_capitalize;
  m_table = [];
}

-- `HashMap::get` on an association list: the first entry of the key.
unfoldable pub get : List (Text × Text) → Text → Option Text
get [] k = none
get ((key, value) ∷ table) k = let rest = get table k in if text_eq key k then some value else rest

-- `splitn(2, ':')` in two parts, if there is a colon.
unfoldable pub split_colon : Text → Option (Text × Text)
split_colon [] = none
split_colon (c ∷ t) =
    let rest = split_colon t in
    if c == b':' then some ([], t) else elim rest [ none ↦ none | some (a, b) ↦ some (c ∷ a, b) ]

abbrev pub is_comment : Text → Bool
is_comment [] = true
is_comment (c ∷ _) = (c == b';') || (c == b'#')

module _ (u : Unicode) where
  -- The key in lower case, where the table is told so.
  abbrev pub fold_case : Bool → Text → Text
  fold_case auto_capitalize k = if auto_capitalize then u.text_to_lowercase k else k

  unfoldable pub parse_line : Bool → Text → Option (Text × Text)
  unfolding trim split_colon
  parse_line auto_capitalize line =
      if is_comment (trim u line) then none else elim (split_colon (trim u line)) [
        | none ↦ none
        | some (k, v) ↦ some (fold_case auto_capitalize (trim u k), trim u v)
      ]

  -- A later line is put in front, where it hides an earlier one of the same key.
  unfoldable pub load_lines : Bool → List (Text × Text) → List Text → List (Text × Text)
  unfolding parse_line
  load_lines auto_capitalize table [] = table
  load_lines auto_capitalize table (line ∷ others) =
      load_lines auto_capitalize
        (elim (parse_line auto_capitalize line) [ none ↦ table | some entry ↦ entry ∷ table ])
        others

  unfoldable pub load : MacroTable → Text → MacroTable
  unfolding load_lines
  load m content = record m { m_table = load_lines m.auto_capitalize_macro [] (lines content) }

  unfoldable pub get_text : MacroTable → Text → Text
  unfolding get
  get_text m k = elim (get m.m_table (fold_case m.auto_capitalize_macro k)) [
    | none ↦ []
    | some v ↦ v
  ]

  unfoldable pub has_key : MacroTable → Text → Bool
  unfolding get
  has_key m k = elim (get m.m_table (fold_case m.auto_capitalize_macro k)) [
    | none ↦ false
    | some v ↦ not (is_empty v)
  ]

abbrev pub some_key : (Text → Bool) → List (Text × Text) → Bool
some_key test [] = false
some_key test ((key, _) ∷ table) = test key || some_key test table

module _ (u : Unicode) where
  unfoldable pub has_prefix : MacroTable → Text → Bool
  unfolding has_key
  has_prefix m k =
      has_key u m k || some_key (is_prefix_of (fold_case u m.auto_capitalize_macro k)) m.m_table

pub is_enabled : MacroTable → Bool
is_enabled m = m.enable

unfoldable pub set_enabled : MacroTable → Bool → MacroTable
set_enabled m enable = record m { enable = enable; m_table = if enable then m.m_table else [] }

unfoldable pub set_auto_capitalize : MacroTable → Bool → MacroTable
set_auto_capitalize m v = record m { auto_capitalize_macro = v }

-- The lines of a text one by one, and those behind them onto the table that they leave.
load_lines-append :
    (u : Unicode) (auto : Bool) (ls ms : List Text) (table : List (Text × Text))
    → load_lines u auto table (ls ++ ms) ≡ load_lines u auto (load_lines u auto table ls) ms
unfolding load_lines
load_lines-append u auto [] ms table = refl
load_lines-append u auto (l ∷ ls) ms table = load_lines-append u auto ls ms _

-- The line gives the key no text: it is no entry, or one of another key.
abbrev pub IsSilent : Unicode → Bool → Text → Text → Type 0
IsSilent u auto k line = (w : Text) → ¬ (parse_line u auto line ≡ some (k, w))

module _ (u : Unicode) (auto : Bool) (k : Text) where
  get-IsSilent :
      (line : Text) (table : List (Text × Text))
      → IsSilent u auto k line
      → get (elim (parse_line u auto line) [ none ↦ table | some entry ↦ entry ∷ table ]) k
        ≡ get table k
  unfolding get
  get-IsSilent line table h = elim (Option-cases (parse_line u auto line)) [
    | inl q ↦ rw q refl
    | inr ((key, w), q) ↦ elim (Bool-cases (text_eq key k)) [
      | inl e ↦ absurd (h w (q ∙ ap (λ x. some (x, w)) (text_eq_sound key k e)))
      | inr e ↦ rw (q, e, get) refl
    ]
  ]

  get-later :
      (ms : List Text) (table : List (Text × Text))
      → All (IsSilent u auto k) ms
      → get (load_lines u auto table ms) k ≡ get table k
  unfolding load_lines
  get-later [] table h = refl
  get-later (m ∷ ms) table h = get-later ms _ h.1 ∙ get-IsSilent m table h.0

  -- Of the lines of a macro file that have one key, the last one gives the macro its text: whatever
  -- the lines before it say, and as long as no line behind it is an entry of that key.
  pub get-load_lines :
      (table : List (Text × Text)) (ls ms : List Text) (line v : Text)
      → parse_line u auto line ≡ some (k, v)
      → All (IsSilent u auto k) ms
      → get (load_lines u auto table (ls ++ line ∷ ms)) k ≡ some v
  unfolding get load_lines
  get-load_lines table ls ms line v h silent =
      rw (load_lines-append u auto ls (line ∷ ms) table)
        (get-later ms _ silent ∙ rw (h, text_eq_refl k) refl)

module _ (date time : Text) where
  -- The loop: the number is how many characters have still to be passed over.
  unfoldable pub expand_from : ℕ → Text → Text
  expand_from n [] = []
  expand_from (suc n) (c ∷ t) = expand_from n t
  expand_from zero (c ∷ t) = elim (c == b'$') [
    | false ↦ c ∷ expand_from 0 t
    | true ↦ elim (is_prefix_of (codes "$") t) [
      | true ↦ b'$' ∷ expand_from 1 t
      | false ↦ elim (is_prefix_of (codes "DATE") t) [
        | true ↦ date ++ expand_from 4 t
        | false ↦ elim (is_prefix_of (codes "TIME") t) [
          | true ↦ time ++ expand_from 4 t
          | false ↦ b'$' ∷ expand_from 0 t
        ]
      ]
    ]
  ]

  unfoldable pub expand_placeholders : Text → Text
  unfolding expand_from
  expand_placeholders text = if not (elem b'$' text) then text else expand_from 0 text

  -- Each dollar sign written twice.
  abbrev pub escape : Text → Text
  escape [] = []
  escape (c ∷ t) = let rest = escape t in if c == b'$' then b'$' ∷ b'$' ∷ rest else c ∷ rest

  expand_from-escape : (t : Text) → expand_from 0 (escape t) ≡ t
  unfolding expand_from
  expand_from-escape [] = refl
  expand_from-escape (c ∷ t) = elim (Bool-cases (c == b'$')) [
    | inl q ↦
        rw (q, escape, expand_from)
          (ap (b'$' ∷◌) (expand_from-escape t) ∙ ap (◌∷ t) (sym ((==_iff c b'$').0 q)))
    | inr q ↦ rw (q, escape, expand_from) (rw (q, expand_from) (ap (c ∷◌) (expand_from-escape t)))
  ]

  expand_from-plain : (t : Text) → elem b'$' t ≡ false → expand_from 0 t ≡ t
  unfolding expand_from elem
  expand_from-plain [] h = refl
  expand_from-plain (c ∷ t) h = elim (Bool-cases (c == b'$')) [
    | inl q ↦ let f : true ≡ false = rw (q, elem) at h in cc
    | inr q ↦ rw (q, expand_from) (ap (c ∷◌) (expand_from-plain t (rw (q, elem) at h)))
  ]

  expand_placeholders-expand_from : (t : Text) → expand_placeholders t ≡ expand_from 0 t
  unfolding expand_placeholders
  expand_placeholders-expand_from t = elim (Bool-cases (elem b'$' t)) [
    | inl q ↦ rw q refl
    | inr q ↦ rw q (sym (expand_from-plain t q))
  ]

  -- A text whose dollar signs are all written twice expands to the text itself, whatever follows
  -- the dollar signs, and for every date and time.
  pub expand_placeholders-escape : (t : Text) → expand_placeholders (escape t) ≡ t
  expand_placeholders-escape t = expand_placeholders-expand_from (escape t) ∙ expand_from-escape t
