-- ===== src/Tests/Sessions.antt =====
-- Typing sessions: what the engine shows for the keys of some words.
use pinakey.Base.{ℕ, Option, none, some, ◌≡◌, refl, codes, Text, false}
use pinakey.Rules.Mode
use pinakey.InputMethod.{InputMethod, parse_input_method}
use pinakey.InputMethod.Builtin.{input_method_definitions}
use pinakey.Engine.{
  PinaKeyEngine, new_engine, process_string, get_processed_string, restore_last_word,
}
use pinakey.Tests.World.{sample_unicode, sample_dsl, sample_regexes}

unfoldable pub telex : InputMethod
unfolding parse_input_method sample_unicode sample_dsl
telex = parse_input_method sample_unicode sample_dsl input_method_definitions (codes "Telex")

unfoldable pub or_new : Option PinaKeyEngine → PinaKeyEngine
unfolding telex
or_new none = new_engine telex 0
or_new (some e) = e

-- The engine after some keys, in Vietnamese mode and with the standard flags.
unfoldable pub after : Text → PinaKeyEngine
unfolding telex or_new process_string new_engine sample_unicode sample_regexes
after keys =
    or_new (process_string sample_unicode sample_regexes (new_engine telex 3) keys Mode.vietnamese)

typed : Text → ℕ → Text
unfolding after get_processed_string sample_unicode
typed keys m = get_processed_string sample_unicode (after keys) m

restored : Text → Text
unfolding after or_new get_processed_string restore_last_word sample_unicode sample_regexes
restored keys =
    get_processed_string sample_unicode
      (or_new (restore_last_word sample_unicode sample_regexes (after keys) false)) Mode.vietnamese

vieetj : typed (codes "vieetj") Mode.vietnamese ≡ codes "việt"
unfolding typed
vieetj = refl

tuongwf : typed (codes "tuongwf") Mode.vietnamese ≡ codes "tường"
unfolding typed
tuongwf = refl

-- The tone moves from the first vowel to the second.
hoaf : typed (codes "hofan") Mode.vietnamese ≡ codes "hoàn"
unfolding typed
hoaf = refl

dd_upper : typed (codes "DDoof") Mode.vietnamese ≡ codes "Đồ"
unfolding typed
dd_upper = refl

raw : typed (codes "VieetJ") Mode.english ≡ codes "VieetJ"
unfolding typed
raw = refl

-- The tone key typed twice takes the tone back.
ass : typed (codes "ass") Mode.vietnamese ≡ codes "as"
unfolding typed
ass = refl

vieetj_restored : restored (codes "vieetj") ≡ codes "vieetj"
unfolding restored
vieetj_restored = refl
