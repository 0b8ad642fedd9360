-- ===== src/Engine/English.antt =====
-- `process_string` of engine.rs in a mode with `ENGLISH`.
use pinakey.Base.{
  ℕ, ◌==◌, has_flag, if◌then◌else◌, Bool, true, false, none, some, [], ◌∷◌, ◌++◌, Text, ◌≡◌, refl,
  sym, ap, ◌∙◌, All, All-append, append_assoc, append-nil, arith, map-append,
}
use pinakey.Rules.Mode
use pinakey.Rules.Store.{Store, new_ref, IsLive, Extends, new_ref-Extends}
use pinakey.Chars.{Unicode, to_lower, to_upper, is_upper}
use pinakey.Flattener.{adjust, get_canvas}
use pinakey.Flattener.Typed.{
  typed_letters, letter, show_letters, typed_letters-append, typed_letters-Extends,
  get_canvas-english,
}
use pinakey.Transform.Generate.{Regexes, appending_rule}
use pinakey.Transform.Makes.{All-IsLive-Extends}
use pinakey.Engine.{PinaKeyEngine, append_raw, process_key, process_string}

-- Rust's `char` methods take a lower case letter back to the letter that was typed.
pub record IsRestorable (u : Unicode) (k : ℕ) : Type 0 where
  pub visible : (to_lower u k == 0) ≡ false
  pub restored : (if is_upper u k then to_upper u (to_lower u k) else to_lower u k) ≡ k

-- What a session shows in English.
abbrev pub english_text : Unicode → PinaKeyEngine → Text
english_text u e = get_canvas u e.store e.composition Mode.english

-- The letter of a raw press, behind those of the session.
letters-append_raw :
    (e : PinaKeyEngine) (k : ℕ) (up : Bool)
    → All (IsLive e.store) e.composition
    → typed_letters (append_raw e k up false).store (append_raw e k up false).composition
      ≡ typed_letters e.store e.composition ++ letter k up
unfolding append_raw typed_letters new_ref
letters-append_raw e k up live =
    typed_letters-append new e.composition (e.store.next ∷ [])
    ∙ (ap (◌++ typed_letters new (e.store.next ∷ []))
          (typed_letters-Extends e.composition grown live)
        ∙ ap (typed_letters e.store e.composition ++◌) last)
  where
    new : Store
    new = (new_ref e.store (appending_rule k) none up).0

    grown : Extends e.store new
    grown = new_ref-Extends e.store (appending_rule k) none up

    last : typed_letters new (e.store.next ∷ []) ≡ letter k up
    last = ground arith

append_raw-IsLive :
    (e : PinaKeyEngine) (k : ℕ) (up : Bool)
    → All (IsLive e.store) e.composition
    → All (IsLive (append_raw e k up false).store) (append_raw e k up false).composition
unfolding append_raw new_ref
append_raw-IsLive e k up live =
    All-append (IsLive (new_ref e.store (appending_rule k) none up).0) e.composition
      (e.store.next ∷ [])
      (All-IsLive-Extends e.composition (new_ref-Extends e.store (appending_rule k) none up) live)
      (omega arith, tt)

module _ (u : Unicode) where
  shown_letter :
      (k : ℕ)
      → IsRestorable u k
      → show_letters u Mode.english (letter (to_lower u k) (is_upper u k)) ≡ k ∷ []
  unfolding adjust
  shown_letter k h = rw h.visible (ap (◌∷ []) h.restored)

  english_text-append_raw :
      (e : PinaKeyEngine) (k : ℕ)
      → All (IsLive e.store) e.composition
      → IsRestorable u k
      → english_text u (append_raw e (to_lower u k) (is_upper u k) false)
        ≡ english_text u e ++ k ∷ []
  english_text-append_raw e k live h =
      get_canvas-english u _ _ Mode.english refl
      ∙ (ap (show_letters u Mode.english) (letters-append_raw e (to_lower u k) (is_upper u k) live)
          ∙ (map-append _ (typed_letters e.store e.composition) _
              ∙ (ap (show_letters u Mode.english (typed_letters e.store e.composition) ++◌)
                    (shown_letter k h)
                  ∙ ap (◌++ k ∷ [])
                      (sym (get_canvas-english u e.store e.composition Mode.english refl)))))

  module _ (re : Regexes) (m : ℕ) (english : has_flag m Mode.english ≡ true)
      (forward : has_flag m Mode.in_reverse_order ≡ false) where
    press_english :
        (e : PinaKeyEngine) (k : ℕ)
        → process_key u re e k m ≡ some (append_raw e (to_lower u k) (is_upper u k) false)
    unfolding process_key
    press_english e k = rw (english, forward) refl

    -- Keys that are typed in a mode with `ENGLISH`, not in reverse order, are shown as they were
    -- typed: `process_string` returns, and in English the session shows its text from before and
    -- behind it all of the keys, in order and with their case. The composition is in the store,
    -- and each key is restored by the case of its lower case letter.
    pub english_text-process_string :
        (e : PinaKeyEngine) (ks : Text)
        → All (IsLive e.store) e.composition
        → All (IsRestorable u) ks
        → (e' : PinaKeyEngine) × ((process_string u re e ks m ≡ some e')
            × (english_text u e' ≡ english_text u e ++ ks))
    unfolding process_string
    english_text-process_string e [] live h = (e, (refl, sym (append-nil (english_text u e))))
    english_text-process_string e (k ∷ ks) live h =
        let next = append_raw e (to_lower u k) (is_upper u k) false in
        let (e', (runs, text)) =
          english_text-process_string next ks
            (append_raw-IsLive e (to_lower u k) (is_upper u k) live) h.1 in
        (
          e',
          (
            rw (press_english e k, process_string) runs,
            text
                ∙ (ap (◌++ ks) (english_text-append_raw e k live h.0)
                    ∙ append_assoc (english_text u e) (k ∷ []) ks),
          ),
        )
