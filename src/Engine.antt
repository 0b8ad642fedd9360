-- ===== src/Engine.antt =====
-- crates/pinakey-core/src/engine.rs: `PinaKeyEngine`, the state of a typing session, and its methods.
-- The engine owns the store of its transformations. `none` is the panic on `vowels[0]`
-- (Transform.Generate). The children hold what is proved of the methods.
pub mod Keys
pub mod Invariant
pub mod Restore
pub mod Without
pub mod Remove
pub mod Session
pub mod English
pub mod Panic
use pinakey.Base.{
  ℕ, ◌==◌, if◌then◌else◌, has_flag, Bool, true, false, not, ◌&&◌, ◌||◌, Option, none, some, List,
  [], ◌∷◌, ◌++◌, is_empty, select, Text,
}
use pinakey.Rules.{Rule, key, with_key, TransRef}
use pinakey.Rules.Flag
use pinakey.Rules.Mode
use pinakey.Rules.Store.{Store, empty_store, rule_of}
use pinakey.Chars
use pinakey.Chars.{Unicode, to_lower, is_upper}
use pinakey.Flattener.{flatten, targets}
use pinakey.InputMethod.{InputMethod}
use pinakey.Transform.Extract.{
  Composition, extract_last_word, extract_last_word_with_punctuation_marks,
  find_last_appending_trans,
}
use pinakey.Transform.Validity
use pinakey.Transform.Validity.{extract_last_syllable}
use pinakey.Transform.Target.{find_target}
use pinakey.Transform.Generate
use pinakey.Transform.Generate.{
  Regexes, push, push_appending, generate_fallback_transformations, break_composition,
}

pub record PinaKeyEngine : Type 0 where
  pub store : Store
  pub composition : Composition
  pub input_method : InputMethod
  pub flags : ℕ

unfoldable pub new_engine : InputMethod → ℕ → PinaKeyEngine
new_engine im flags = record {
  store = empty_store;
  composition = [];
  input_method = im;
  flags = flags;
}

unfoldable pub set_flag : PinaKeyEngine → ℕ → PinaKeyEngine
set_flag e flag = record e { flags = flag }

pub get_flag : PinaKeyEngine → ℕ
get_flag e = e.flags

unfoldable pub reset : PinaKeyEngine → PinaKeyEngine
reset e = record e { composition = [] }

unfoldable pub can_process_key : PinaKeyEngine → ℕ → Bool
unfolding Chars.can_process_key
can_process_key e k = Chars.can_process_key k e.input_method.keys

-- Not `t`, and not acting on it: the test of the two loops of `remove_last_char`.
abbrev pub survives : Store → TransRef → TransRef → Bool
survives s a t = not (targets s a t) && not (t == a)

-- `missing_rule.key = '\0'` on a rule with a target.
abbrev pub as_virtual : Option TransRef × Rule → Option (TransRef × Rule)
as_virtual (none, r) = none
as_virtual (some t, r) = some (t, with_key 0 r)

-- The virtual transformation, if there is one, behind the others.
abbrev pub push_found : Store × Composition → Option (TransRef × Rule) → Store × Composition
push_found made none = made
push_found made (some (t, r)) = push made r (some t) false

-- The English branch of `process_key`.
unfoldable pub append_raw : PinaKeyEngine → ℕ → Bool → Bool → PinaKeyEngine
append_raw e k up reversed =
    let made = push_appending (e.store, []) k up in
    record e {
      store = made.0;
      composition = if reversed then made.1 ++ e.composition else e.composition ++ made.1;
    }

abbrev pub with_composition : PinaKeyEngine → Store × Composition → PinaKeyEngine
with_composition e made = record e { store = made.0; composition = made.1 }

module _ (u : Unicode) where
  unfoldable pub get_applicable_rules : InputMethod → ℕ → List Rule
  unfolding to_lower
  get_applicable_rules im k = select (λ r. key r == to_lower u k) im.rules

  unfoldable pub is_valid : PinaKeyEngine → Bool → Bool
  unfolding extract_last_word Validity.is_valid
  is_valid e full =
      Validity.is_valid u e.store (extract_last_word u e.store e.composition e.input_method.keys).1
        full

  unfoldable pub get_processed_string : PinaKeyEngine → ℕ → Text
  unfolding flatten extract_last_word extract_last_word_with_punctuation_marks
  get_processed_string e m =
      if has_flag m Mode.full_text
      then flatten u e.store e.composition m
      else if has_flag m Mode.punctuation
      then flatten u e.store
          (extract_last_word_with_punctuation_marks u e.store e.composition e.input_method.keys).1
          Mode.vietnamese
      else flatten u e.store (extract_last_word u e.store e.composition e.input_method.keys).1 m

  unfoldable pub engine_refresh_last_tone_target : ℕ → Store → Composition → Store × Composition
  unfolding Validity.is_valid Generate.refresh_last_tone_target
  engine_refresh_last_tone_target flags s syllable =
      if has_flag flags Flag.free_tone_marking && Validity.is_valid u s syllable false
      then Generate.refresh_last_tone_target u s syllable (has_flag flags Flag.std_tone_style)
      else (s, [])

  unfoldable pub remove_last_char : PinaKeyEngine → Bool → PinaKeyEngine
  unfolding can_process_key engine_refresh_last_tone_target find_last_appending_trans
      extract_last_word
  remove_last_char e refresh =
      let s = e.store in
      elim (find_last_appending_trans s e.composition) [
        | none ↦ e
        | some a ↦
            if not (can_process_key e (key (rule_of s a)))
            then record e { composition = select (survives s a) e.composition }
            else let word = extract_last_word u s e.composition e.input_method.keys in
              let rest = select (survives s a) word.1 in
              let made =
                if refresh then engine_refresh_last_tone_target e.flags s rest else (s, []) in
              record e { store = made.0; composition = word.0 ++ (rest ++ made.1) }
      ]

  -- The transformations of the rules, and behind them those that move the tone.
  abbrev pub then_refresh : ℕ → Composition → Store × Composition → Store × Composition
  then_refresh flags comp made =
      let moved = engine_refresh_last_tone_target flags made.0 (comp ++ made.1) in
      (moved.0, made.1 ++ moved.1)

  module _ (re : Regexes) where
    -- `apply_uow_shortcut` on the super keys of the input method; the mode is
    -- `TONE_LESS | LOWER_CASE`.
    unfoldable pub uow_shortcut :
        InputMethod → ℕ → Store → Composition → List ℕ → Option (TransRef × Rule)
    unfolding flatten get_applicable_rules find_target
    uow_shortcut im flags s syllable [] = none
    uow_shortcut im flags s syllable (k ∷ _) =
        if re.uo_h_tail (flatten u s syllable 20)
        then as_virtual (find_target u s syllable (get_applicable_rules im k) flags)
        else none

    unfoldable pub apply_uow_shortcut :
        InputMethod → ℕ → Store → Composition → Option (TransRef × Rule)
    unfolding uow_shortcut
    apply_uow_shortcut im flags s syllable = uow_shortcut im flags s syllable im.super_keys

    -- What stands in for an empty list of transformations.
    unfoldable pub fall_back :
        InputMethod → ℕ → Store → Composition → ℕ → Bool → Store × Composition
    unfolding generate_fallback_transformations get_applicable_rules apply_uow_shortcut
    fall_back im flags s comp k up =
        let made = generate_fallback_transformations u s (get_applicable_rules im k) k up in
        push_found made (apply_uow_shortcut im flags made.0 (comp ++ made.1))

    abbrev pub or_fall_back :
        InputMethod → ℕ → Store → Composition → ℕ → Bool → Store × Composition → Store × Composition
    or_fall_back im flags s comp k up made =
        if is_empty made.1 then fall_back im flags s comp k up else made

    unfoldable pub engine_generate_transformations :
        InputMethod → ℕ → Store → Composition → ℕ → Bool → Option (Store × Composition)
    unfolding Generate.generate_transformations get_applicable_rules fall_back
        engine_refresh_last_tone_target
    engine_generate_transformations im flags s comp k up =
        elim (Generate.generate_transformations u re s comp (get_applicable_rules im k) flags k
          up) [
            | none ↦ none
            | some made ↦ some (then_refresh flags comp (or_fall_back im flags s comp k up made))
          ]

    unfoldable pub new_composition :
        InputMethod → ℕ → Store → Composition → ℕ → Bool → Option (Store × Composition)
    unfolding extract_last_syllable engine_generate_transformations
    new_composition im flags s comp k up =
        let cut = extract_last_syllable u s comp in
        elim (engine_generate_transformations im flags s cut.1 k up) [
          | none ↦ none
          | some made ↦ some (made.0, cut.0 ++ (cut.1 ++ made.1))
        ]

    unfoldable pub process_key : PinaKeyEngine → ℕ → ℕ → Option PinaKeyEngine
    unfolding to_lower is_upper can_process_key append_raw new_composition
    process_key e k m =
        let lower = to_lower u k in
        if has_flag m Mode.english || not (can_process_key e lower)
        then some (append_raw e lower (is_upper u k) (has_flag m Mode.in_reverse_order))
        else elim (new_composition e.input_method e.flags e.store e.composition lower
            (is_upper u k)) [ none ↦ none | some made ↦ some (with_composition e made) ]

    unfoldable pub process_string : PinaKeyEngine → Text → ℕ → Option PinaKeyEngine
    unfolding process_key
    process_string e [] m = some e
    process_string e (k ∷ ks) m = elim (process_key e k m) [
      | none ↦ none
      | some e' ↦ process_string e' ks m
    ]

    -- The replay of the keys of the last word; virtual keys are passed over.
    unfoldable pub replay :
        InputMethod → ℕ → Store × Composition → Composition → Option (Store × Composition)
    unfolding new_composition
    replay im flags made [] = some made
    replay im flags made (t ∷ ts) =
        let k = key (rule_of made.0 t) in
        elim (k == 0) [
          | true ↦ replay im flags made ts
          | false ↦ elim (new_composition im flags made.0 made.1 k (made.0.cells t).is_upper_case) [
            | none ↦ none
            | some made' ↦ replay im flags made' ts
          ]
        ]

    unfoldable pub restore_last_word : PinaKeyEngine → Bool → Option PinaKeyEngine
    unfolding extract_last_word break_composition replay
    restore_last_word e to_vietnamese =
        let word = extract_last_word u e.store e.composition e.input_method.keys in
        if is_empty word.1
        then some e
        else if not to_vietnamese
        then (let made = break_composition e.store word.1 in
            some (with_composition e (made.0, word.0 ++ made.1)))
        else elim (replay e.input_method e.flags (e.store, []) word.1) [
          | none ↦ none
          | some made ↦ some (with_composition e (made.0, word.0 ++ made.1))
        ]
