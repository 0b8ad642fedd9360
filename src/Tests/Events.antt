-- ===== src/Tests/Events.antt =====
-- Key events that are run, and the theorems on events, the C interface and the settings at concrete inputs.
use pinakey.Base.{
  inl, length, text_eq, ℕ, Option, none, some, ◌≡◌, refl, [], ◌∷◌, ◌++◌, List, codes, Text, true,
  false, Bool, ◌≤◌, ◌⊎◌, ◌↔◌, arith, Returns, elem, if◌then◌else◌,
}
use pinakey.Config.{Config, FileContent, default_macro_date_format, default_macro_time_format}
use pinakey.Config.Flags.{ib_capitalize_sentence}
use pinakey.Engine.{get_processed_string, reset}
use pinakey.KeyEngine.Core.{Action, SentenceState, ConfigSource, EngineCore, Files}
use pinakey.KeyEngine.View.{Clock}
use pinakey.KeyEngine.Keysym
use pinakey.KeyEngine.Commit.{with_source, commit_text}
use pinakey.KeyEngine.Handler.{Event, process_key_event}
use pinakey.KeyEngine.Invariant.{IsCoherent}
use pinakey.KeyEngine.Invariant.Reachable.{Reachable, Reachable-IsCoherent}
use pinakey.KeyEngine.Passes.{process_key_event-passed}
use pinakey.KeyEngine.Commit.{ends_sentence}
use pinakey.CInterface.{PkEngine, build, diff_replace, apply, apply_replace, fold_actions}
use pinakey.CInterface.Calls.{with_core}
use pinakey.CInterface.Edit.{edit, edit-diff_replace, diff_replace-least}
use pinakey.CInterface.Modes.{BothTyped, Agree, BothTyped-Agree}
use pinakey.Charset.{encode}
use pinakey.Charset.References.{
  reference_text, as_reference, as_decimal_escape, as_hex_escape, encode-reference_text,
}
use pinakey.KeyEngine.View.{encode_text}
use pinakey.KeyEngine.Encoded.{encode_text-scalar}
use pinakey.Emoji.Index.{emoji_of}
use pinakey.Emoji.Trie
use pinakey.Emoji.Trie.{TrieNode, insert, value_of, text_at, joined, find_prefix, value_of-insert}
use pinakey.Emoji.Recent.{NoDuplicates}
use pinakey.Emoji.Search.{IndexEntry, fuzzy_query, fuzzy_query-IsResult}
use pinakey.Settings.{load, save, set_w_shortcut}
use pinakey.Settings.Saved.{Edit, Session, dirty-false}
use pinakey.KeyEngine.Sentence.{EndsSentence, commit_text-ready}
use pinakey.Tests.World.{
  sample_unicode, ascii_unicode, ascii_lower-idempotent, sample_regexes, sample_dsl,
}

-- A small method: tones on `s`, and a hat on `a` and `e`.
abbrev small_config : Config
small_config = record {
  input_method = codes "Telex";
  input_method_definitions =
      (
        codes "Telex",
        (codes "s", codes "DauSac") ∷ (codes "a", codes "a_â") ∷ (codes "e", codes "e_ê") ∷ [],
      )
      ∷ [];
  output_charset = codes "Unicode";
  flags = 3;
  ib_flags = ib_capitalize_sentence;
  shortcuts = [];
  default_input_mode = 1;
  input_mode_mapping = [];
  english_exclude = [];
  w_shortcut = 0;
  macro_date_format = default_macro_date_format;
  macro_time_format = default_macro_time_format;
}

abbrev no_files : Files
no_files = record {
  macro_file = λ _. none;
  user_dict = none;
  bundled_dict = [];
  embedded_rules = codes "kitty = preedit";
  system_rules = none;
  user_rules = none;
}

abbrev clock : Clock
clock = record { formatted = λ f g. f }

unfoldable started : EngineCore
unfolding with_source ascii_unicode sample_dsl
started = with_source ascii_unicode sample_dsl no_files small_config ConfigSource.injected

or_event : Option Event → Event
unfolding started
or_event none = record { engine = started; handled = false; actions = [] }
or_event (some ev) = ev

abbrev is_event : Option Event → Bool
is_event none = false
is_event (some _) = true

event-some : (o : Option Event) → is_event o ≡ true → o ≡ some (or_event o)
unfolding or_event
event-some none h = cc
event-some (some ev) h = refl

-- The key `v` in a new engine.
first_key : Option Event
unfolding started process_key_event ascii_unicode sample_regexes
first_key = process_key_event ascii_unicode clock sample_regexes started b'v' 0

first_key-returns : is_event first_key ≡ true
unfolding first_key
first_key-returns = refl

texts_of : List Action → Text
texts_of [] = []
texts_of (Action.commit t ∷ actions) = t ++ texts_of actions
texts_of (_ ∷ actions) = texts_of actions

unfoldable in_vietnamese : EngineCore
unfolding with_source sample_unicode sample_dsl
in_vietnamese = with_source sample_unicode sample_dsl no_files small_config ConfigSource.injected

-- What a run of keys writes out, key by key; a key that is passed on is written by the program.
written : EngineCore → List ℕ → Option Text
unfolding process_key_event sample_unicode sample_regexes texts_of
written e [] = some []
written e (k ∷ ks) = elim (process_key_event sample_unicode clock sample_regexes e k 0) [
  | none ↦ none
  | some ev ↦ elim (written ev.engine ks) [
    | none ↦ none
    | some t ↦ some (texts_of ev.actions ++ (if ev.handled then t else k ∷ t))
  ]
]

-- The mark and the tone are set, the blank ends the word, and the next sentence starts with a capital.
two_sentences : written in_vietnamese (codes "vees. aa ") ≡ some (codes "vế. Â ")
unfolding in_vietnamese written get_processed_string reset
two_sentences = refl

first_key-IsCoherent : IsCoherent ascii_unicode (or_event first_key).engine
unfolding started first_key
first_key-IsCoherent =
    Reachable-IsCoherent ascii_unicode sample_dsl sample_regexes ascii_lower-idempotent
      (or_event first_key).engine
      (Reachable.pressed clock b'v' 0 (or_event first_key)
        (Reachable.started no_files small_config ConfigSource.injected)
        (event-some first_key first_key-returns))

Reachable-IsCoherent_example : IsCoherent ascii_unicode (or_event first_key).engine
unfolding started first_key
Reachable-IsCoherent_example =
    Reachable-IsCoherent ascii_unicode sample_dsl sample_regexes ascii_lower-idempotent
      (or_event first_key).engine
      (Reachable.pressed clock b'v' 0 (or_event first_key)
        (Reachable.started no_files small_config ConfigSource.injected)
        (event-some first_key first_key-returns))

-- Tab behind the key `v`: the letter is written out, and the key goes to the program.
tab_key : Option Event
unfolding process_key_event ascii_unicode sample_regexes or_event first_key get_processed_string
    reset
tab_key =
    process_key_event ascii_unicode clock sample_regexes (or_event first_key).engine Keysym.key_tab
      0

tab_key-returns : is_event tab_key ≡ true
unfolding tab_key
tab_key-returns = refl

tab_key-passed : (or_event tab_key).handled ≡ false
unfolding tab_key or_event
tab_key-passed = refl

tab_key-written : texts_of (or_event tab_key).actions ≡ codes "v"
unfolding tab_key or_event texts_of
tab_key-written = refl

process_key_event-passed_example :
    (((or_event tab_key).actions ≡ [])
      × ((or_event tab_key).engine.preeditor ≡ (or_event first_key).engine.preeditor))
    ⊎ ((or_event tab_key).engine.preeditor.composition ≡ [])
unfolding tab_key
process_key_event-passed_example =
    process_key_event-passed ascii_unicode clock sample_regexes ascii_lower-idempotent
      (or_event first_key).engine Keysym.key_tab 0 (or_event tab_key) first_key-IsCoherent
      (event-some tab_key tab_key-returns) tab_key-passed

marks-shown : (c : ℕ) → ends_sentence c ≡ true → ascii_unicode.is_whitespace c ≡ false
unfolding ascii_unicode
marks-shown c h = ground arith

commit_text-ready_example :
    ((commit_text ascii_unicode (started, []) (codes "a. ")).0.sentence
      ≡ SentenceState.ready_to_capitalize)
    ↔ EndsSentence ascii_unicode (codes "a. ")
unfolding started
commit_text-ready_example =
    commit_text-ready ascii_unicode marks-shown started [] b'a' (codes ". ") refl

edit-diff_replace_example :
    edit
      (codes "a vie")
      (diff_replace (codes "vie") (codes "viê")).0
      (diff_replace (codes "vie") (codes "viê")).1
    ≡ codes "a viê"
edit-diff_replace_example =
    edit-diff_replace (codes "a ") (codes "vie") (codes "viê") (ground arith)

diff_replace-least_example : (diff_replace (codes "vie") (codes "viê")).0 ≤ 2
diff_replace-least_example = diff_replace-least (codes "vie") (codes "viê") 2 (codes "iê") refl

abbrev shown_engine : PkEngine
shown_engine = build started

pressed_once :
    BothTyped ascii_unicode sample_regexes
      (apply (with_core shown_engine (or_event first_key).engine) (or_event first_key).actions)
      (apply_replace
        (with_core shown_engine (or_event first_key).engine)
        (or_event first_key).actions)
      (codes "a "
        ++ (apply
            (with_core shown_engine (or_event first_key).engine)
            (or_event first_key).actions).commit)
      (edit
        (codes "a ")
        (apply_replace
          (with_core shown_engine (or_event first_key).engine)
          (or_event first_key).actions).replace_delete
        (apply_replace
          (with_core shown_engine (or_event first_key).engine)
          (or_event first_key).actions).replace_insert)
unfolding build first_key or_event fold_actions elem get_processed_string
pressed_once =
    BothTyped.typed clock b'v' 0 (or_event first_key)
      (BothTyped.begun shown_engine shown_engine (codes "a ") refl refl refl)
      (event-some first_key first_key-returns) (ground arith) refl

BothTyped-Agree_example :
    Agree
      (apply (with_core shown_engine (or_event first_key).engine) (or_event first_key).actions)
      (apply_replace
        (with_core shown_engine (or_event first_key).engine)
        (or_event first_key).actions)
      (codes "a "
        ++ (apply
            (with_core shown_engine (or_event first_key).engine)
            (or_event first_key).actions).commit)
      (edit
        (codes "a ")
        (apply_replace
          (with_core shown_engine (or_event first_key).engine)
          (or_event first_key).actions).replace_delete
        (apply_replace
          (with_core shown_engine (or_event first_key).engine)
          (or_event first_key).actions).replace_insert)
BothTyped-Agree_example = BothTyped-Agree ascii_unicode sample_regexes pressed_once

-- A change that is written to the file.
saved :
    Session
      (save (set_w_shortcut (load (codes "PinaKey") (FileContent.parsed small_config)) 2) true).0
      (set_w_shortcut (load (codes "PinaKey") (FileContent.parsed small_config)) 2).config
unfolding load set_w_shortcut
saved = Session.written (
    Session.changed (Edit.w_shortcut 2)
      (Session.opened (codes "PinaKey") (FileContent.parsed small_config)))

dirty-false_example :
    (save
      (set_w_shortcut (load (codes "PinaKey") (FileContent.parsed small_config)) 2)
      true).0.config
    ≡ (set_w_shortcut (load (codes "PinaKey") (FileContent.parsed small_config)) 2).config
unfolding save
dirty-false_example =
    dirty-false
      (save (set_w_shortcut (load (codes "PinaKey") (FileContent.parsed small_config)) 2) true).0
      (set_w_shortcut (load (codes "PinaKey") (FileContent.parsed small_config)) 2).config saved
      refl

encode-reference_text_example :
    (encode (codes "NCR Decimal") (codes "đi") ≡ reference_text as_reference (codes "đi"))
    × (encode (codes "Unicode C string Decimal") (codes "đi")
        ≡ reference_text as_decimal_escape (codes "đi"))
    × (encode (codes "Unicode C string Hex") (codes "đi")
        ≡ reference_text as_hex_escape (codes "đi"))
encode-reference_text_example = encode-reference_text (codes "đi")

letter_in_decimal : encode (codes "NCR Decimal") (codes "đi") ≡ codes "&#273;i"
unfolding encode text_eq
letter_in_decimal = refl

encode_text-scalar_example : encode_text started (codes "đi") ≡ codes "đi"
unfolding started text_eq
encode_text-scalar_example =
    encode_text-scalar started (codes "đi") (inl refl)
      (inl (ground arith), (inl (ground arith), tt))

abbrev sample_trie : TrieNode
sample_trie = insert Trie.new (codes "he") (codes "A")

value_of-insert_example : value_of (insert sample_trie (codes "he") (codes "B")) (codes "he") ≡ (
    if text_eq (codes "he") (codes "he")
    then some (joined (text_at sample_trie (codes "he")) (codes "B"))
    else value_of sample_trie (codes "he"))
value_of-insert_example = value_of-insert sample_trie (codes "he") (codes "B") (codes "he")

he_twice :
    find_prefix (insert sample_trie (codes "he") (codes "B")) (codes "h")
    ≡ some ((codes "he", codes "A:B") ∷ [])
unfolding find_prefix insert
he_twice = refl

abbrev sample_index : List IndexEntry
sample_index =
    record { key = codes "heart"; emoji = codes "A"; key_len = 5 }
    ∷ record { key = codes "he"; emoji = codes "B"; key_len = 2 }
    ∷ record { key = codes "hear"; emoji = codes "A"; key_len = 4 }
    ∷ []

fuzzy_query-IsResult_example :
    (length (fuzzy_query ascii_unicode sample_index (codes "he") 2) ≤ 2)
    × NoDuplicates (fuzzy_query ascii_unicode sample_index (codes "he") 2)
fuzzy_query-IsResult_example =
    fuzzy_query-IsResult ascii_unicode sample_index (codes "he") 2 (ground arith)

shorter_key_first :
    fuzzy_query ascii_unicode sample_index (codes "he") 2 ≡ codes "B" ∷ (codes "A" ∷ [])
unfolding fuzzy_query ascii_unicode text_eq
shorter_key_first = refl

-- With a limit of zero the search gives one emoji.
limit_zero : fuzzy_query ascii_unicode sample_index (codes "he") 0 ≡ codes "B" ∷ []
unfolding fuzzy_query ascii_unicode text_eq
limit_zero = refl

-- The name of an emoji of three characters, with a part that is none.
three_characters : emoji_of (codes "1f468-200d-1F3A8-zz") ≡ 0x1f468 ∷ (0x200d ∷ (0x1f3a8 ∷ []))
unfolding emoji_of
three_characters = refl
