-- ===== src/Tests/Witnesses.antt =====
-- The theorems at concrete inputs.
use pinakey.Base.{
  ℕ, Option, none, some, ◌≡◌, refl, [], ◌++◌, codes, Text, true, false, Bool, All, arith,
}
use pinakey.Rules.Mode
use pinakey.Rules.Store.{Store, empty_store, IsRoot, IsLive}
use pinakey.Chars.{to_lower, is_upper, to_upper}
use pinakey.Flattener.{get_canvas}
use pinakey.Transform.Extract.{Composition, find_root_target, extract_last_word}
use pinakey.Transform.Validity.{extract_last_syllable}
use pinakey.Transform.Target.{find_target}
use pinakey.Transform.Generate.{
  break_composition, generate_transformations, refresh_last_tone_target,
  generate_fallback_transformations,
}
use pinakey.Transform.Found.{Found, find_target-Found, find_root_target-IsRoot}
use pinakey.Transform.Makes.{Makes}
use pinakey.Transform.Undo.{generate_fallback-Makes}
use pinakey.Transform.Refresh.{refresh_last_tone_target-Makes}
use pinakey.Transform.Outcome.{Outcome, generate_transformations-Outcome}
use pinakey.Transform.Syllable.{CutsSyllable, extract_last_syllable-CutsSyllable}
use pinakey.Engine.Keys.{get_applicable_rules-key}
use pinakey.Flattener.Raw.{visible}
use pinakey.Engine.{
  PinaKeyEngine, new_engine, process_string, process_key, restore_last_word, remove_last_char,
  get_applicable_rules,
}
use pinakey.Engine.Invariant.{
  IsSound, typed_keys, added_keys, process_key-IsSound, typed_keys-process_key,
}
use pinakey.Transform.Break.{get_canvas-break_composition}
use pinakey.Engine.Restore.{restore_last_word-IsSound, typed_keys-restore_last_word}
use pinakey.Engine.Remove.{Removal, remove_last_char-IsSound, remove_last_char-Removal}
use pinakey.Engine.English.{IsRestorable, english_text, english_text-process_string}
use pinakey.Engine.Session.{new_engine-IsSound, process_string-IsSound}
use pinakey.Tests.World.{ascii_unicode, ascii_lower-idempotent, sample_regexes}
use pinakey.Tests.Sessions.{telex, or_new}

abbrev returned : {A : Type 0} → Option A → Bool
returned none = false
returned (some _) = true

made_by : Option (Store × Composition) → Store × Composition
made_by none = (empty_store, [])
made_by (some made) = made

made_by-some : (o : Option (Store × Composition)) → returned o ≡ true → o ≡ some (made_by o)
unfolding made_by
made_by-some none h = cc
made_by-some (some made) h = refl

returned-some : (o : Option PinaKeyEngine) → returned o ≡ true → o ≡ some (or_new o)
unfolding or_new
returned-some none h = cc
returned-some (some e) h = refl

-- The engine after some keys.
unfoldable run : Text → Option PinaKeyEngine
unfolding telex process_string new_engine ascii_unicode sample_regexes
run keys = process_string ascii_unicode sample_regexes (new_engine telex 3) keys Mode.vietnamese

unfoldable session : Text → PinaKeyEngine
unfolding run or_new
session keys = or_new (run keys)

vieej_runs : returned (run (codes "vieej")) ≡ true
unfolding run
vieej_runs = refl

vieej : PinaKeyEngine
unfolding session
vieej = session (codes "vieej")

vieej-IsSound : IsSound ascii_unicode vieej
unfolding run session vieej
vieej-IsSound =
    process_string-IsSound ascii_unicode sample_regexes (new_engine telex 3) vieej (codes "vieej") 1
      ascii_lower-idempotent refl (new_engine-IsSound ascii_unicode telex 3)
      (returned-some (run (codes "vieej")) vieej_runs)

-- One more key, a consonant behind the syllable.
pressed : Option PinaKeyEngine
unfolding vieej process_key ascii_unicode sample_regexes
pressed = process_key ascii_unicode sample_regexes vieej b't' Mode.vietnamese

pressed_returns : returned pressed ≡ true
unfolding pressed
pressed_returns = refl

process_key-IsSound_example : IsSound ascii_unicode (or_new pressed)
unfolding pressed
process_key-IsSound_example =
    process_key-IsSound ascii_unicode sample_regexes vieej (or_new pressed) b't' Mode.vietnamese
      ascii_lower-idempotent refl vieej-IsSound (returned-some pressed pressed_returns)

typed_keys-process_key_example :
    typed_keys (or_new pressed)
    ≡ typed_keys vieej ++ added_keys ascii_unicode sample_regexes vieej b't' Mode.vietnamese
unfolding pressed
typed_keys-process_key_example =
    typed_keys-process_key ascii_unicode sample_regexes vieej (or_new pressed) b't' Mode.vietnamese
      ascii_lower-idempotent refl vieej-IsSound (returned-some pressed pressed_returns)

restored : Bool → Option PinaKeyEngine
unfolding vieej restore_last_word ascii_unicode sample_regexes
restored v = restore_last_word ascii_unicode sample_regexes vieej v

raw_returns : returned (restored false) ≡ true
unfolding restored
raw_returns = refl

vietnamese_returns : returned (restored true) ≡ true
unfolding restored
vietnamese_returns = refl

restore_last_word-IsSound_example : IsSound ascii_unicode (or_new (restored true))
unfolding restored
restore_last_word-IsSound_example =
    restore_last_word-IsSound ascii_unicode sample_regexes vieej (or_new (restored true))
      vieej-IsSound true (returned-some (restored true) vietnamese_returns)

typed_keys-restore_last_word_example : typed_keys (or_new (restored false)) ≡ typed_keys vieej
unfolding restored
typed_keys-restore_last_word_example =
    typed_keys-restore_last_word ascii_unicode sample_regexes vieej (or_new (restored false))
      vieej-IsSound (returned-some (restored false) raw_returns)

get_canvas-break_composition_example :
    get_canvas ascii_unicode
      (break_composition vieej.store vieej.composition).0
      (break_composition vieej.store vieej.composition).1
      Mode.vietnamese
    ≡ get_canvas ascii_unicode vieej.store vieej.composition Mode.english
get_canvas-break_composition_example =
    get_canvas-break_composition ascii_unicode vieej.store vieej.composition vieej-IsSound.live

remove_last_char-IsSound_example : IsSound ascii_unicode (remove_last_char ascii_unicode vieej true)
remove_last_char-IsSound_example = remove_last_char-IsSound ascii_unicode vieej vieej-IsSound true

remove_last_char-Removal_example :
    Removal ascii_unicode true vieej (remove_last_char ascii_unicode vieej true)
remove_last_char-Removal_example = remove_last_char-Removal ascii_unicode vieej vieej-IsSound true

-- A capital, a small letter and a digit.
shown_keys : Text
shown_keys = codes "Ab1"

shown_keys-IsRestorable : All (IsRestorable ascii_unicode) shown_keys
unfolding shown_keys ascii_unicode to_lower is_upper to_upper
shown_keys-IsRestorable = (
  record { visible = refl; restored = refl },
  (record { visible = refl; restored = refl }, (record { visible = refl; restored = refl }, tt)),
)

english_text-process_string_example :
    (e' : PinaKeyEngine) × ((process_string ascii_unicode sample_regexes vieej shown_keys
          Mode.english
        ≡ some e')
      × (english_text ascii_unicode e' ≡ english_text ascii_unicode vieej ++ shown_keys))
english_text-process_string_example =
    english_text-process_string ascii_unicode sample_regexes Mode.english refl refl vieej shown_keys
      vieej-IsSound.live shown_keys-IsRestorable

generated : ℕ → Option (Store × Composition)
unfolding vieej generate_transformations get_applicable_rules telex ascii_unicode sample_regexes
generated k =
    generate_transformations ascii_unicode sample_regexes vieej.store vieej.composition
      (get_applicable_rules ascii_unicode telex k) 3 k false

generated_returns : returned (generated b's') ≡ true
unfolding generated
generated_returns = refl

three-IsLive : IsLive vieej.store 3
unfolding vieej
three-IsLive = omega arith

generate_transformations-Outcome_example :
    Outcome vieej.store vieej.composition b's' (made_by (generated b's'))
unfolding generated
generate_transformations-Outcome_example =
    generate_transformations-Outcome ascii_unicode vieej.store vieej-IsSound.well_formed
      vieej.composition vieej-IsSound.live (get_applicable_rules ascii_unicode telex b's') 3 b's'
      false (get_applicable_rules-key ascii_unicode telex 3 b's') sample_regexes
      (made_by (generated b's')) (made_by-some (generated b's') generated_returns)

refresh_last_tone_target-Makes_example :
    Makes vieej.store (refresh_last_tone_target ascii_unicode vieej.store vieej.composition true) []
refresh_last_tone_target-Makes_example =
    refresh_last_tone_target-Makes ascii_unicode vieej.store vieej-IsSound.well_formed
      vieej.composition true vieej-IsSound.live

find_target-Found_example :
    Found vieej.store b's'
      (find_target ascii_unicode vieej.store vieej.composition
        (get_applicable_rules ascii_unicode telex b's')
        3).0
      (find_target ascii_unicode vieej.store vieej.composition
        (get_applicable_rules ascii_unicode telex b's')
        3).1
unfolding to_lower ascii_unicode
find_target-Found_example =
    find_target-Found vieej.store vieej-IsSound.well_formed ascii_unicode b's' vieej.composition
      vieej-IsSound.live (get_applicable_rules ascii_unicode telex b's') 3
      (get_applicable_rules-key ascii_unicode telex 3 b's')

find_root_target-IsRoot_example : IsRoot vieej.store (find_root_target vieej.store 3)
find_root_target-IsRoot_example =
    find_root_target-IsRoot vieej.store vieej-IsSound.well_formed 3 three-IsLive

generate_fallback-Makes_example :
    Makes vieej.store
      (generate_fallback_transformations ascii_unicode vieej.store
        (get_applicable_rules ascii_unicode telex b'w')
        b'w'
        true)
      (visible b'w')
generate_fallback-Makes_example =
    generate_fallback-Makes ascii_unicode vieej.store
      (get_applicable_rules ascii_unicode telex b'w') b'w' true vieej-IsSound.well_formed

extract_last_syllable-CutsSyllable_example :
    CutsSyllable ascii_unicode vieej.store
      (extract_last_word ascii_unicode vieej.store vieej.composition [])
      (extract_last_syllable ascii_unicode vieej.store vieej.composition)
extract_last_syllable-CutsSyllable_example =
    extract_last_syllable-CutsSyllable ascii_unicode vieej.store vieej.composition
