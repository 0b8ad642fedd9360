-- ===== src/Rules.antt =====
-- crates/pinakey-core/src/rules.rs: effects, marks, tones, `Rule` and `Transformation`. A character
-- is its code point, and `'\0'` is 0. The shared, mutable transformations stand in Store.
pub mod Mode
pub mod Flag
pub mod Store
use pinakey.Base.{ℕ, ◌==◌, if◌then◌else◌, Bool, true, false, Option, List, [], ◌∷◌}

pub data EffectType : Type 0 where
  appending mark_transformation tone_transformation replacing : EffectType

abbrev pub is_appending : EffectType → Bool
is_appending EffectType.appending = true
is_appending _ = false

abbrev pub is_mark : EffectType → Bool
is_mark EffectType.mark_transformation = true
is_mark _ = false

abbrev pub is_tone : EffectType → Bool
is_tone EffectType.tone_transformation = true
is_tone _ = false

-- The derived `==` on effect types.
abbrev pub same_type : EffectType → EffectType → Bool
same_type EffectType.appending t = is_appending t
same_type EffectType.mark_transformation t = is_mark t
same_type EffectType.tone_transformation t = is_tone t
same_type EffectType.replacing EffectType.replacing = true
same_type EffectType.replacing _ = false

pub data Mark : Type 0 where
  none hat breve horn dash raw : Mark

pub data Tone : Type 0 where
  none grave acute hook tilde dot : Tone

-- `mark as u8`.
abbrev pub mark_u8 : Mark → ℕ
mark_u8 Mark.none = 0
mark_u8 Mark.hat = 1
mark_u8 Mark.breve = 2
mark_u8 Mark.horn = 3
mark_u8 Mark.dash = 4
mark_u8 Mark.raw = 5

-- `tone as u8`.
abbrev pub tone_u8 : Tone → ℕ
tone_u8 Tone.none = 0
tone_u8 Tone.grave = 1
tone_u8 Tone.acute = 2
tone_u8 Tone.hook = 3
tone_u8 Tone.tilde = 4
tone_u8 Tone.dot = 5

-- `Tone::from_u8`.
unfoldable pub tone_from_u8 : ℕ → Tone
tone_from_u8 v =
    if v == 1
    then Tone.grave
    else if v == 2
    then Tone.acute
    else if v == 3
    then Tone.hook
    else if v == 4
    then Tone.tilde
    else if v == 5
    then Tone.dot
    else Tone.none

-- `Tone` equality with `Tone::None`.
abbrev pub is_tone_none : Tone → Bool
is_tone_none Tone.none = true
is_tone_none _ = false

-- `struct Rule` holds a `Vec<Rule>`, so the two types stand in one block. The fields in order are
-- `key`, `effect`, `effect_type`, `effect_on`, `result`, `appended_rules`.
mutual
  pub data Rule : Type 0 where
    rule : ℕ → ℕ → EffectType → ℕ → ℕ → Rules → Rule

  pub data Rules : Type 0 where
    nil : Rules
    cons : Rule → Rules → Rules

abbrev pub key : Rule → ℕ
key (Rule.rule k e t o r a) = k

abbrev pub effect : Rule → ℕ
effect (Rule.rule k e t o r a) = e

abbrev pub effect_type : Rule → EffectType
effect_type (Rule.rule k e t o r a) = t

abbrev pub effect_on : Rule → ℕ
effect_on (Rule.rule k e t o r a) = o

abbrev pub result : Rule → ℕ
result (Rule.rule k e t o r a) = r

abbrev pub appended_rules : Rule → Rules
appended_rules (Rule.rule k e t o r a) = a

-- `impl Default for Rule`.
abbrev pub default_rule : Rule
default_rule = Rule.rule 0 0 EffectType.appending 0 0 Rules.nil

-- `rule.key = k` on a clone.
abbrev pub with_key : ℕ → Rule → Rule
with_key k r = Rule.rule k (effect r) (effect_type r) (effect_on r) (result r) (appended_rules r)

-- `set_tone` and `set_mark` both write the field `effect`.
pub set_tone : Tone → Rule → Rule
set_tone t r =
    Rule.rule (key r) (tone_u8 t) (effect_type r) (effect_on r) (result r) (appended_rules r)

pub set_mark : Mark → Rule → Rule
set_mark m r =
    Rule.rule (key r) (mark_u8 m) (effect_type r) (effect_on r) (result r) (appended_rules r)

pub get_tone : Rule → Tone
get_tone r = tone_from_u8 (effect r)

pub get_mark : Rule → Mark
get_mark r =
    let e = effect r in
    if e == 1
    then Mark.hat
    else if e == 2
    then Mark.breve
    else if e == 3
    then Mark.horn
    else if e == 4
    then Mark.dash
    else if e == 5
    then Mark.raw
    else Mark.none

-- A list of rules as the block's list.
abbrev pub to_rules : List Rule → Rules
to_rules [] = Rules.nil
to_rules (r ∷ rs) = Rules.cons r (to_rules rs)

-- A reference is an address in the store.
abbrev pub TransRef : Type 0
TransRef = ℕ

pub record Transformation : Type 0 where
  pub rule : Rule
  pub target : Option TransRef
  pub is_upper_case : Bool
