-- ===== src/CInterface/Edit.antt =====
-- `diff_replace` of crates/pinakey-ffi/src/lib.rs: the edit that it gives leads to the new text, and deletes as little as
-- an edit at the end can.
use pinakey.Base.{
  ℕ, zero, suc, ◌+◌, ◌-◌, ◌%◌, ◌==◌, ◌≤◌, ◌<◌, Bool, true, false, ◌||◌, elem, [], ◌∷◌, ◌++◌, ◌≡◌,
  refl, sym, ◌∙◌, ap, length, take, drop, take-append-drop, ==_refl, length-append, append_assoc,
  Text, arith, ==_iff, Bool-cases, inl, inr,
}
use pinakey.CInterface.{strip_common, diff_replace}

-- What the addon does to the text before the cursor: the last characters are deleted, and a text is put in.
abbrev pub edit : Text → ℕ → Text → Text
edit doc delete insert = take (length doc - delete) doc ++ insert

take-length_append : (xs ys : Text) → take (length xs) (xs ++ ys) ≡ xs
take-length_append [] ys = refl
take-length_append (x ∷ xs) ys = ap (x ∷◌) (take-length_append xs ys)

-- Deleting a text at the end.
pub edit-append : (xs ys insert : Text) → edit (xs ++ ys) (length ys) insert ≡ xs ++ insert
edit-append xs ys insert =
    ap (◌++ insert) (ap (λ n. take n (xs ++ ys)) exact ∙ take-length_append xs ys)
  where
    exact : length (xs ++ ys) - length ys ≡ length xs
    exact = rw (length-append xs ys) (omega arith)

-- The common prefix, with what is behind it in both texts.
record Stripped (old new : Text) (rest : Text × Text) : Type 0 where
  common : Text
  old_whole : old ≡ common ++ rest.0
  new_whole : new ≡ common ++ rest.1

strip_common-Stripped : (old new : Text) → Stripped old new (strip_common old new)
unfolding strip_common
strip_common-Stripped [] new = record { common = []; old_whole = refl; new_whole = refl }
strip_common-Stripped (a ∷ old) [] = record { common = []; old_whole = refl; new_whole = refl }
strip_common-Stripped (a ∷ old) (b ∷ new) = elim (Bool-cases (a == b)) [
  | inl q ↦
      let k : Stripped old new (strip_common old new) = strip_common-Stripped old new in
      let same : a ≡ b = (==_iff a b).0 q in
      rw (q, strip_common)
        (record {
          common = a ∷ k.common;
          old_whole = ap (a ∷◌) k.old_whole;
          new_whole =
              ap (b ∷◌) k.new_whole
              ∙ ap (λ c. c ∷ (k.common ++ (strip_common old new).1)) (sym same);
        })
  | inr q ↦ rw (q, strip_common) (record { common = []; old_whole = refl; new_whole = refl })
]

rest_shorter :
    (old : Text) {new : Text} (rest : Text × Text)
    → Stripped old new rest
    → length rest.0 ≤ length old
rest_shorter old rest k =
    let sum : length old ≡ length k.common + length rest.0 =
      ap length k.old_whole ∙ length-append k.common rest.0 in
    omega arith

-- The edit of `diff_replace` turns a document that ends in the old text into the one that ends in the new text, for
-- old texts whose length a `u32` can hold.
pub edit-diff_replace :
    (doc old new : Text)
    → length old < 0x100000000
    → edit (doc ++ old) (diff_replace old new).0 (diff_replace old new).1 ≡ doc ++ new
unfolding diff_replace
edit-diff_replace doc old new short =
    ap (λ n. edit (doc ++ old) n rest.1) small
    ∙ (ap (λ t. edit t (length rest.0) rest.1) whole
        ∙ (edit-append (doc ++ k.common) rest.0 rest.1
            ∙ (append_assoc doc k.common rest.1 ∙ ap (doc ++◌) (sym k.new_whole))))
  where
    rest : Text × Text
    rest = strip_common old new

    k : Stripped old new rest
    k = strip_common-Stripped old new

    small : length rest.0 % 0x100000000 ≡ length rest.0
    small = let shorter : length rest.0 ≤ length old = rest_shorter old rest k in omega arith

    whole : doc ++ old ≡ (doc ++ k.common) ++ rest.0
    whole = ap (doc ++◌) k.old_whole ∙ sym (append_assoc doc k.common rest.0)

strip_common-least : (q r insert : Text) → length (strip_common (q ++ r) (q ++ insert)).0 ≤ length r
unfolding strip_common
strip_common-least [] r insert =
    rest_shorter r (strip_common r insert) (strip_common-Stripped r insert)
strip_common-least (a ∷ q) r insert = rw (==_refl a, strip_common) (strip_common-least q r insert)

length-drop : (n : ℕ) (xs : Text) → length (drop n xs) ≡ length xs - n
length-drop zero xs = omega arith
length-drop (suc n) [] = omega arith
length-drop (suc n) (x ∷ xs) = omega (arith, length-drop n xs)

-- No edit at the end that leads from the old text to the new one deletes less than `diff_replace` does.
pub diff_replace-least :
    (old new : Text) (delete : ℕ) (insert : Text)
    → edit old delete insert ≡ new
    → (diff_replace old new).0 ≤ delete
unfolding diff_replace
diff_replace-least old new delete insert e =
    let least : length (strip_common (take kept old ++ drop kept old) (take kept old ++ insert)).0
        ≤ length (drop kept old) =
      strip_common-least (take kept old) (drop kept old) insert in
    let least' : length (strip_common old new).0 ≤ length (drop kept old) =
      rw (take-append-drop kept old, e) at least in
    let dropped = length-drop kept old in omega arith
  where
    kept : ℕ
    kept = length old - delete

or_left : (a b : Bool) → (a || b) ≡ false → a ≡ false
or_left true b h = cc
or_left false b h = refl

or_right : (a b : Bool) → (a || b) ≡ false → b ≡ false
or_right true b h = cc
or_right false b h = h

-- No nul in the two parts of a text that has none.
pub elem-append_left : (s t : Text) → elem 0 (s ++ t) ≡ false → elem 0 s ≡ false
unfolding elem
elem-append_left [] t h = refl
elem-append_left (c ∷ s) t h =
    rw (or_left (c == 0) _ h) (elem-append_left s t (or_right (c == 0) (elem 0 (s ++ t)) h))

pub elem-append_right : (s t : Text) → elem 0 (s ++ t) ≡ false → elem 0 t ≡ false
unfolding elem
elem-append_right [] t h = h
elem-append_right (c ∷ s) t h = elem-append_right s t (or_right (c == 0) (elem 0 (s ++ t)) h)

pub elem-diff_replace :
    (old new : Text) → elem 0 new ≡ false → elem 0 (diff_replace old new).1 ≡ false
unfolding diff_replace
elem-diff_replace old new h =
    let k : Stripped old new (strip_common old new) = strip_common-Stripped old new in
    elem-append_right k.common (strip_common old new).1 (rw k.new_whole at h)
