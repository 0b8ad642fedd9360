-- ===== src/InputMethod.antt =====
-- crates/pinakey-core/src/rules_parser.rs: input methods from their definitions, lines such as
-- `("w", "UOA_ƯƠĂ")`. The two regular expressions of the rule language are run by the crate `regex`:
-- the parameter `Dsl` gives their captures.
pub mod Builtin
pub mod Tones
use pinakey.Base.{
  ℕ, zero, suc, ◌+◌, ◌==◌, ltb, if◌then◌else◌, Bool, true, false, ◌&&◌, ◌||◌, Option, none, some,
  List, [], ◌∷◌, ◌++◌, map, codes, is_empty, Text, text_eq,
}
use pinakey.Rules.{
  EffectType, Rule, Rules, Mark, Tone, key, effect_type, is_appending, is_tone, mark_u8, tone_u8,
  to_rules,
}
use pinakey.Chars.{Unicode, add_tone_to_char, find_mark_from_char, is_vowel, mark_family}

-- `REG_DSL` on a line, as it is and with its captures 1 to 3, and capture 2 of `REG_DSL_APPENDING`.
pub record Dsl : Type 0 where
  pub dsl_is_match : Text → Bool
  pub dsl_captures : Text → Option (Text × Text × Text)
  pub appending_captures : Text → Option Text

pub record InputMethod : Type 0 where
  pub name : Text
  pub rules : List Rule
  pub super_keys : List ℕ
  pub tone_keys : List ℕ
  pub appending_keys : List ℕ
  pub keys : List ℕ

abbrev pub default_input_method : InputMethod
default_input_method = record {
  name = [];
  rules = [];
  super_keys = [];
  tone_keys = [];
  appending_keys = [];
  keys = [];
}

unfoldable pub tone_from_name : Text → Option Tone
unfolding text_eq
tone_from_name line =
    if text_eq line (codes "XoaDauThanh")
    then some Tone.none
    else if text_eq line (codes "DauSac")
    then some Tone.acute
    else if text_eq line (codes "DauHuyen")
    then some Tone.grave
    else if text_eq line (codes "DauNga")
    then some Tone.tilde
    else if text_eq line (codes "DauNang")
    then some Tone.dot
    else if text_eq line (codes "DauHoi")
    then some Tone.hook
    else none

abbrev mark_rule : ℕ → ℕ → ℕ → ℕ → Rule
mark_rule k effect on res = Rule.rule k effect EffectType.mark_transformation on res Rules.nil

-- `for tone in 0..6`.
abbrev tones : List ℕ
tones = 0 ∷ 1 ∷ 2 ∷ 3 ∷ 4 ∷ 5 ∷ []

-- The loop over the family of marks of the letter that the key acts on.
unfoldable pub family_rules : ℕ → ℕ → ℕ → Mark → List ℕ → List Rule
unfolding is_vowel add_tone_to_char
family_rules k on res effect [] = []
family_rules k on res effect (c ∷ cs) =
    (if c == res
      then mark_rule k 0 res on ∷ []
      else if is_vowel c
      then map (λ t. mark_rule k (mark_u8 effect) (add_tone_to_char c t) (add_tone_to_char res t))
          tones
      else mark_rule k (mark_u8 effect) c res ∷ [])
    ++ family_rules k on res effect cs

unfoldable pub parse_toneless_rule : ℕ → ℕ → ℕ → Mark → List Rule
unfolding family_rules mark_family
parse_toneless_rule k on res effect = family_rules k on res effect (mark_family on)

abbrev appending : ℕ → ℕ → Rules → Rule
appending k c appended = Rule.rule k 0 EffectType.appending c c appended

-- The loop over the letters of a line, beside its results; letters without a result are passed over.
unfoldable pub letter_rules : ℕ → Text → Text → List Rule
unfolding find_mark_from_char parse_toneless_rule
letter_rules k [] results = []
letter_rules k (on ∷ ons) [] = []
letter_rules k (on ∷ ons) (res ∷ results) =
    (elim (find_mark_from_char res) [ none ↦ [] | some m ↦ parse_toneless_rule k on res m ])
    ++ letter_rules k ons results

abbrev to_list : Option Rule → List Rule
to_list none = []
to_list (some r) = r ∷ []

-- `contains`.
abbrev pub is_prefix_of : Text → Text → Bool
is_prefix_of [] t = true
is_prefix_of (a ∷ s) [] = false
is_prefix_of (a ∷ s) (b ∷ t) = (a == b) && is_prefix_of s t

unfoldable pub contains : Text → Text → Bool
contains pattern [] = is_empty pattern
contains pattern (c ∷ t) = is_prefix_of pattern (c ∷ t) || contains pattern t

module _ (u : Unicode) (d : Dsl) where
  -- The capture has a letter at least, as the pattern says `\p{L}+`; Rust panics without one.
  unfoldable pub get_appending_rule : ℕ → Text → Option Rule
  get_appending_rule k value = elim (d.appending_captures value) [
    | none ↦ none
    | some [] ↦ none
    | some (c ∷ cs) ↦ some (appending k c (to_rules (map (λ x. appending k x Rules.nil) cs)))
  ]

  unfoldable pub parse_toneless_rules : ℕ → Text → List Rule
  unfolding letter_rules get_appending_rule
  parse_toneless_rules k line =
      if d.dsl_is_match line
      then (elim (d.dsl_captures (u.text_to_lowercase line)) [
        | none ↦ []
        | some (ons, results, part3) ↦
            letter_rules k ons results ++ to_list (get_appending_rule k part3)
      ])
      else to_list (get_appending_rule k line)

  unfoldable pub parse_rules : ℕ → Text → List Rule
  unfolding tone_from_name parse_toneless_rules
  parse_rules k line = elim (tone_from_name line) [
    | some t ↦ Rule.rule k (tone_u8 t) EffectType.tone_transformation 0 0 Rules.nil ∷ []
    | none ↦ parse_toneless_rules k line
  ]

  -- The first loop of `build_input_method_from_iter`.
  unfoldable pub read_entries : InputMethod → List (Text × Text) → InputMethod
  unfolding parse_rules contains
  read_entries im [] = im
  read_entries im (([], line) ∷ entries) = read_entries im entries
  read_entries im ((k ∷ more, line) ∷ entries) =
      read_entries
        (record im {
          rules = im.rules ++ parse_rules k line;
          super_keys =
              if contains (codes "uo") (u.text_to_lowercase line)
              then im.super_keys ++ k ∷ []
              else im.super_keys;
          keys = im.keys ++ k ∷ [];
        })
        entries

  -- The keys of the rules of one type.
  abbrev keys_of : (EffectType → Bool) → List Rule → List ℕ
  keys_of p [] = []
  keys_of p (r ∷ rs) = let rest = keys_of p rs in if p (effect_type r) then key r ∷ rest else rest

  unfoldable pub build_input_method : Text → List (Text × Text) → InputMethod
  unfolding read_entries
  build_input_method name entries =
      let im = read_entries (record default_input_method { name = name }) entries in
      record im {
        appending_keys = keys_of is_appending im.rules;
        tone_keys = keys_of is_tone im.rules;
      }

  -- `parse_input_method`: the first definition with the name.
  unfoldable pub parse_input_method : List (Text × List (Text × Text)) → Text → InputMethod
  unfolding build_input_method text_eq
  parse_input_method [] im_name = default_input_method
  parse_input_method ((name, def) ∷ defs) im_name =
      let rest = parse_input_method defs im_name in
      if text_eq name im_name then build_input_method name def else rest
