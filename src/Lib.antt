-- ===== src/Lib.antt =====
-- PinaKey, a Vietnamese input method: a model of its typing engine (crates/pinakey-core), of the key
-- event engine around it (crates/pinakey-engine), of the C interface that its addon calls
-- (crates/pinakey-ffi), of the configuration and the settings window, and of the emoji search,
-- with proofs.
--
-- A session is a sequence of key presses. Each press adds transformations to a composition: an
-- appending transformation is a letter, the others put a mark or a tone on an earlier one, which is
-- their target. The text on the screen is what the flattener makes of the composition. The engine
-- cuts the composition into words and syllables, finds the target of a mark or a tone by the
-- spelling rules, undoes an effect whose key is typed again, moves the tone when the syllable
-- grows, and takes a word back to the letters that were typed.
--
-- The key event engine is given each key symbol with its modifiers. It leaves commands to the
-- program, follows the ends of sentences, asks the session for the new text, and answers with
-- actions: a text to write out, a preedit to show or to hide. The C interface keeps the engine and
-- what is shown; where the user wants no underlined preedit it turns the actions into edits of the
-- document, from what it showed last to what it has to show now.
--
-- Files, and the code that they model (under crates/pinakey-core/src unless a path says otherwise):
--   Rules, Rules/Mode, Rules/Flag   rules.rs: rules, marks, tones, modes and flags.
--   Rules/Store                     rules.rs, `TransRef` and `new_ref`: the shared mutable cells
--                                   `Rc<RefCell<Transformation>>` are a store of cells with numbers
--                                   for references; `Rc::ptr_eq` is equality of numbers. A store
--                                   is well formed when targets are letters without a target.
--   Chars, Chars/Tables, Chars/Tones  utils.rs: vowels, marks, tones and key classes.
--   Spelling                        spelling.rs: the tables of syllable parts and their lookup.
--   Dict                            dict.rs: the set of words that overrules the spelling rules.
--   Flattener and children          flattener.rs: `get_canvas` and `flatten`.
--   InputMethod, InputMethod/Builtin, InputMethod/Tones  rules_parser.rs and input_method_def.rs: rule lines, their
--                                   parser and the built-in input methods.
--   Transform/Extract, Validity, Target, Generate  transform_utils.rs: cutting a composition, valid
--                                   syllables, where an effect goes, and what a key makes. The other
--                                   children of Transform hold the lemmas on these.
--   Engine                          engine.rs: `PinaKeyEngine` and every method of it. The engine
--                                   owns the store. Its children hold the proofs per method.
--   Emoji/Recent, Emoji/Fuzzy       recent.rs and fuzzy.rs of crates/pinakey-emoji/src: the list of
--                                   recent emoji, and the score of a query against a key.
--   Emoji/Trie, Search, Index       trie.rs, emoji.rs and fuzzy.rs beside them: the prefix tree, the
--                                   two ways of finding emoji, and what they are built of.
--   Emoji/Macro                     mactab.rs beside them: the macro table and its placeholders.
--   Charset and children            charset.rs and charset_def.rs: the encoding of a text, and the
--                                   sixteen tables, one file each. Charset/Utf8 writes out UTF-8,
--                                   which is the standard library's. References
--                                   and Lossy hold the proofs.
--   Config, Config/Flags            lib.rs and flags.rs of crates/pinakey-config/src.
--   KeyEngine/Keysym, Transport     keysym.rs and transport.rs of crates/pinakey-engine/src.
--   KeyEngine/Core, View, Commit, Handler  engine.rs beside them: `EngineCore` and how it is built,
--                                   what it reads of itself, what it writes out, and the handler
--                                   of a key event. Invariant, Returns, Passes, Sentence and
--                                   Encoded hold the proofs.
--   CInterface, CInterface/Calls    crates/pinakey-ffi/src/lib.rs: `PkEngine`, and the exported
--                                   functions on it. Edit, Shown and Modes hold the proofs.
--   Settings, Settings/Saved        crates/pinakey-settings/src/controller.rs, and its proofs.
--   Base and children               shared helpers. Tests and children: sample parameters, sessions
--                                   that are run, and the theorems at concrete inputs.
--
-- The fuzzy score is an integer without the bounds of `i32`; a key of more than sixty million
-- characters would be needed to pass them. Text is a list of code points. The Unicode tables of the
-- standard library are the record `Chars.Unicode`, and the regular expressions of the crate `regex`
-- are the records `InputMethod.Dsl` and `Transform.Generate.Regexes`: the theorems hold for every
-- value of these, and where a theorem needs that lower case is stable under lowering it says so.
-- Modes and flags are numbers with their bits.
-- `Option` is the result of the key handler: `none` is its panic on an empty slice, `vowels[0]` in
-- `generate_transformations`. Another panic that a caller can cause is not in the model: a
-- tone rule with an effect above 5, which the public fields of `Rule` allow, makes `add_tone_to_char`
-- index past its table, where the model answers the character itself. InputMethod/Tones is about
-- the rules that the parser makes. Loops are recursion
-- on the list they run over, except `find_root_target`, which follows targets: its fuel is one more
-- than the number of cells, so that a walk which visits no cell twice comes to its end.
--
-- In the key event engine `&mut self` with the list of actions is a pair that each method takes and
-- gives back. The files it reads are the record `KeyEngine.Core.Files`, what reading the
-- configuration meets is `Config.FileContent`, and the time is `KeyEngine.View.Clock`; they may be
-- others at each step. A pointer of the C interface is null or leads to a state, and a C string is
-- its text. The lengths that are put into a `u32` are taken modulo 2 ^ 32.
--
-- Not modelled: the freeing of an engine, JSON and the reading and writing of files with their paths (crates/pinakey-config), the window of
-- the settings program (gui.rs) and its call of busctl, and the fcitx5 addon in C++.
pub mod Base
pub mod Rules
pub mod Chars
pub mod Spelling
pub mod Dict
pub mod Charset
pub mod Flattener
pub mod InputMethod
pub mod Transform
pub mod Engine
pub mod Config
pub mod Emoji
pub mod KeyEngine
pub mod CInterface
pub mod Settings
pub mod Tests
