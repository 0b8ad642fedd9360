-- ===== src/Engine/Remove.antt =====
-- `remove_last_char` of engine.rs.
use pinakey.Base.{
  ℕ, if◌then◌else◌, Bool, true, false, some, [], ◌∷◌, ◌++◌, select, ◌≡◌, refl, sym, ◌∙◌, ap, All,
  All-append, All-append_left, All-append_right, All-select, append-nil, append_assoc, Bool-cases,
  Option-cases, if-elim, ◌⊎◌, inl, inr,
}
use mathlib.Core.Path.{subst}
use pinakey.Rules.{key, TransRef}
use pinakey.Rules.Store.{Store, IsLive, rule_of}
use pinakey.Chars.{Unicode, to_lower}
use pinakey.Flattener.Raw.{raw_keys, visible, raw_keys-append}
use pinakey.Transform.Extract.{Composition, appends, find_last_appending_trans, extract_last_word}
use pinakey.Transform.Live.{extract_last_word-All}
use pinakey.Transform.Makes.{Makes, Makes-nothing}
use pinakey.Transform.Split.{extract_last_word-Splits}
use pinakey.Engine.{
  PinaKeyEngine, can_process_key, survives, engine_refresh_last_tone_target, remove_last_char,
}
use pinakey.Engine.Invariant.{IsSound, typed_keys, Grows, Grows-append}
use pinakey.Engine.Keys.{engine_refresh-Makes}
use pinakey.Engine.Without.{
  Without, IsLastLetter, find_last_appending_trans-IsLastLetter, find_last_appending_trans-none,
  survives-Without,
}

-- Keys in lower case, of some transformations, are those of a selection.
low_select :
    (Q : ℕ → Type 0) (s : Store) (p : TransRef → Bool) (ts : Composition)
    → All Q (raw_keys s ts)
    → All Q (raw_keys s (select p ts))
unfolding raw_keys
low_select Q s p [] h = tt
low_select Q s p (t ∷ ts) h =
    let later =
      low_select Q s p ts (All-append_right Q (visible (key (rule_of s t))) (raw_keys s ts) h) in
    if-elim (λ c. All Q (raw_keys s c)) (p t) (t ∷ select p ts) (select p ts)
      (λ _.
        All-append Q (visible (key (rule_of s t))) (raw_keys s (select p ts))
          (All-append_left Q (visible (key (rule_of s t))) (raw_keys s ts) h) later)
      (λ _. later)

-- The words before the last one, or nothing if the letter `a` is not one of the input method.
abbrev pub words_before : Unicode → PinaKeyEngine → TransRef → Composition
words_before u e a =
    if can_process_key e (key (rule_of e.store a))
    then (extract_last_word u e.store e.composition e.input_method.keys).0
    else []

-- What the removal of the last letter makes of `e`.
pub data Removal (u : Unicode) (refresh : Bool) (e e' : PinaKeyEngine) : Type 0 where
  -- There is no letter.
  nothing : All (λ t. appends e.store t ≡ false) e.composition → e' ≡ e → Removal u refresh e e'
  -- `a` and what acts on it are gone, and `extra` has moved the tone.
  letter :
      (a : TransRef) (last rest extra : Composition)
      → IsLastLetter e.store e.composition a
      → words_before u e a ++ last ≡ e.composition
      → Without e.store a last rest
      → e'.composition ≡ words_before u e a ++ (rest ++ extra)
      → raw_keys e'.store extra ≡ []
      → typed_keys e' ≡ raw_keys e.store (words_before u e a ++ rest)
      → (refresh ≡ true) ⊎ ((extra ≡ []) × (e'.store ≡ e.store))
      → Removal u refresh e e'

-- What both theorems say of the engine after the call.
record Removed (u : Unicode) (refresh : Bool) (e e' : PinaKeyEngine) : Type 0 where
  sound : IsSound u e'
  removal : Removal u refresh e e'

module _ (u : Unicode) (e : PinaKeyEngine) (h : IsSound u e) (refresh : Bool) where
  abbrev Low : ℕ → Type 0
  Low k = to_lower u k ≡ k

  word : Composition × Composition
  word = extract_last_word u e.store e.composition e.input_method.keys

  outside_word :
      (a : TransRef)
      → IsSound u (record e { composition = select (survives e.store a) e.composition })
  outside_word a = record {
    well_formed = h.well_formed;
    live = All-select (IsLive e.store) (survives e.store a) e.composition h.live;
    lowered = low_select Low e.store (survives e.store a) e.composition h.lowered;
  }

  module _ (a : TransRef) where
    rest : Composition
    rest = select (survives e.store a) word.1

    refreshed : Store × Composition
    refreshed =
        if refresh then engine_refresh_last_tone_target u e.flags e.store rest else (e.store, [])

    live : All (IsLive e.store) (word.0 ++ rest)
    unfolding word rest
    live =
        let both =
          extract_last_word-All (IsLive e.store) u e.store e.composition h.live
            e.input_method.keys in
        All-append (IsLive e.store) word.0 rest both.left
          (All-select (IsLive e.store) (survives e.store a) word.1 both.right)

    lowered : All Low (raw_keys e.store (word.0 ++ rest))
    unfolding word rest
    lowered =
        let split = subst (All Low) (raw_keys-append e.store word.0 word.1) (
          subst (λ c. All Low (raw_keys e.store c))
            (sym (extract_last_word-Splits u e.store e.composition e.input_method.keys).whole)
            h.lowered) in
        subst (All Low) (sym (raw_keys-append e.store word.0 rest)) (
          All-append Low (raw_keys e.store word.0) (raw_keys e.store rest)
            (All-append_left Low (raw_keys e.store word.0) (raw_keys e.store word.1) split)
            (low_select Low e.store (survives e.store a) word.1
              (All-append_right Low (raw_keys e.store word.0) (raw_keys e.store word.1) split)))

    refreshed-Makes : Makes e.store refreshed []
    unfolding refreshed
    refreshed-Makes =
        if-elim (λ made. Makes e.store made []) refresh _ (e.store, [])
          (λ _.
            engine_refresh-Makes u e.input_method e.flags e.store h.well_formed rest
              (All-append_right (IsLive e.store) word.0 rest live))
          (λ _. Makes-nothing h.well_formed)

    in_word : PinaKeyEngine
    in_word = record e { store = refreshed.0; composition = word.0 ++ (rest ++ refreshed.1) }

    grown : Grows e.store (word.0 ++ rest) (refreshed.0, (word.0 ++ rest) ++ refreshed.1) []
    grown = Grows-append (word.0 ++ rest) refreshed live refreshed-Makes

    in_word_keys : typed_keys in_word ≡ raw_keys e.store (word.0 ++ rest)
    unfolding in_word
    in_word_keys =
        ap (raw_keys refreshed.0) (sym (append_assoc word.0 rest refreshed.1))
        ∙ (grown.keys ∙ append-nil (raw_keys e.store (word.0 ++ rest)))

    in_word-IsSound : IsSound u in_word
    unfolding in_word
    in_word-IsSound = record {
      well_formed = grown.well_formed;
      live = subst (All (IsLive refreshed.0)) (append_assoc word.0 rest refreshed.1) grown.live;
      lowered = subst (All Low) (sym in_word_keys) lowered;
    }

    last_letter :
        find_last_appending_trans e.store e.composition ≡ some a
        → IsLastLetter e.store e.composition a
    last_letter q = find_last_appending_trans-IsLastLetter e.store e.composition q

    outside_word-Removal :
        find_last_appending_trans e.store e.composition ≡ some a
        → can_process_key e (key (rule_of e.store a)) ≡ false
        → Removal u refresh e (record e { composition = select (survives e.store a) e.composition })
    unfolding raw_keys
    outside_word-Removal q p =
        Removal.letter a e.composition (select (survives e.store a) e.composition) []
          (last_letter q) (rw p refl) (survives-Without e.store a e.composition)
          (rw p (sym (append-nil (select (survives e.store a) e.composition)))) refl (rw p refl)
          (inr (refl, refl))

    moved_only : (refresh ≡ true) ⊎ ((refreshed.1 ≡ []) × (refreshed.0 ≡ e.store))
    unfolding refreshed
    moved_only = elim (Bool-cases refresh) [ inl q ↦ inl q | inr q ↦ inr (rw q refl, rw q refl) ]

    in_word-Removal :
        find_last_appending_trans e.store e.composition ≡ some a
        → can_process_key e (key (rule_of e.store a)) ≡ true
        → Removal u refresh e in_word
    unfolding word rest in_word
    in_word-Removal q p =
        Removal.letter a word.1 rest refreshed.1 (last_letter q)
          (rw p (extract_last_word-Splits u e.store e.composition e.input_method.keys).whole)
          (survives-Without e.store a word.1) (rw p refl) refreshed-Makes.keys (rw p in_word_keys)
          moved_only

  removed : Removed u refresh e (remove_last_char u e refresh)
  unfolding remove_last_char word raw_keys in_word refreshed rest
  removed = elim (Option-cases (find_last_appending_trans e.store e.composition)) [
    | inl q ↦
        rw (q, remove_last_char)
          (record {
            sound = h;
            removal = Removal.nothing (find_last_appending_trans-none e.store e.composition q) refl;
          })
    | inr (a, q) ↦ elim (Bool-cases (can_process_key e (key (rule_of e.store a)))) [
      | inr p ↦
          rw (q, p, remove_last_char)
            (record { sound = outside_word a; removal = outside_word-Removal a q p })
      | inl p ↦
          rw (q, p, remove_last_char)
            (record { sound = in_word-IsSound a; removal = in_word-Removal a q p })
    ]
  ]

  -- Removing the last letter keeps the invariant of a sound session, whether or not the tone is
  -- placed anew.
  pub remove_last_char-IsSound : IsSound u (remove_last_char u e refresh)
  remove_last_char-IsSound = removed.sound

  -- Removing a letter from a sound session changes nothing if there is no letter. Else the last
  -- one of the whole composition goes, and all that acts on it, from the last word, or from the
  -- whole composition if the input method does not know its key; all else stays, in order, the
  -- words before untouched. Nothing is added, and the store stays, if the tone is not placed anew;
  -- what is added behind where it is carries no key, so that the keys of the session are those of
  -- what stays.
  pub remove_last_char-Removal : Removal u refresh e (remove_last_char u e refresh)
  remove_last_char-Removal = removed.removal
