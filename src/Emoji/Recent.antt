-- ===== src/Emoji/Recent.antt =====
-- crates/pinakey-emoji/src/recent.rs: the emoji used last, the newest first.
use pinakey.Base.{
  ℕ, zero, suc, ◌≤◌, if◌then◌else◌, Bool, false, not, List, [], ◌∷◌, length, take, select, is_empty,
  Text, text_eq, text_eq_refl, All, All-take, All-select, ◌≡◌, refl, arith, ap, Bool-cases, if-elim,
  inl, inr, Option, none, some, lines, ◌++◌,
}
use pinakey.Chars.{Unicode}
use pinakey.Dict.{trim}

pub record RecentEmoji : Type 0 where
  pub cap : ℕ
  pub items : List Text

unfoldable pub new : ℕ → RecentEmoji
new cap = record { cap = cap; items = [] }

module _ (u : Unicode) where
  -- The items of a file: its lines without blanks around them, but for empty ones.
  unfoldable pub load_items : List Text → List Text
  unfolding trim
  load_items [] = []
  load_items (l ∷ ls) =
      let rest = load_items ls in if is_empty (trim u l) then rest else trim u l ∷ rest

  -- `none`: the file is missing or cannot be read.
  unfoldable pub load_from_file : Option Text → ℕ → RecentEmoji
  unfolding load_items new
  load_from_file none cap = new cap
  load_from_file (some data_text) cap = record {
    cap = cap;
    items = take cap (load_items (lines data_text));
  }

-- What `save_to_file` writes: `join("\n")`, and a line end behind it.
unfoldable pub file_text : List Text → Text
file_text [] = []
file_text (t ∷ ts) = t ++ (b'\n' ∷ file_text ts)

-- `retain(|e| e != emoji)`.
abbrev pub without : Text → List Text → List Text
without emoji items = select (λ e. not (text_eq e emoji)) items

unfoldable pub record_use : RecentEmoji → Text → RecentEmoji
record_use r emoji =
    if is_empty emoji then r else record r { items = take r.cap (emoji ∷ without emoji r.items) }

abbrev pub NoDuplicates : List Text → Type 0
NoDuplicates [] = Unit
NoDuplicates (x ∷ xs) = All (λ y. text_eq y x ≡ false) xs × NoDuplicates xs

-- At most `cap` emoji, none empty, none twice.
pub record IsRecent (r : RecentEmoji) : Type 0 where
  pub capped : length r.items ≤ r.cap
  pub no_empty : All (λ e. is_empty e ≡ false) r.items
  pub no_duplicates : NoDuplicates r.items

length-take : (n : ℕ) (xs : List Text) → length (take n xs) ≤ n
length-take zero xs = omega arith
length-take (suc n) [] = omega arith
length-take (suc n) (x ∷ xs) = omega (arith, length-take n xs)

take-NoDuplicates : (n : ℕ) (xs : List Text) → NoDuplicates xs → NoDuplicates (take n xs)
take-NoDuplicates zero xs h = tt
take-NoDuplicates (suc n) [] h = tt
take-NoDuplicates (suc n) (x ∷ xs) h =
    (All-take (λ y. text_eq y x ≡ false) n xs h.0, take-NoDuplicates n xs h.1)

select-NoDuplicates :
    (p : Text → Bool) (xs : List Text) → NoDuplicates xs → NoDuplicates (select p xs)
select-NoDuplicates p [] h = tt
select-NoDuplicates p (x ∷ xs) h =
    if-elim NoDuplicates (p x) (x ∷ select p xs) (select p xs)
      (λ _. (All-select (λ y. text_eq y x ≡ false) p xs h.0, select-NoDuplicates p xs h.1))
      (λ _. select-NoDuplicates p xs h.1)

without-All :
    (emoji : Text) (xs : List Text) → All (λ y. text_eq y emoji ≡ false) (without emoji xs)
without-All emoji [] = tt
without-All emoji (x ∷ xs) =
    if-elim (All (λ y. text_eq y emoji ≡ false)) (not (text_eq x emoji)) (x ∷ without emoji xs)
      (without emoji xs) (λ h. (ground arith, without-All emoji xs)) (λ _. without-All emoji xs)

-- Recording a use keeps a list capped, and free of empty and of repeated emoji, if it was so
-- before.
pub record_use-IsRecent :
    (r : RecentEmoji) (emoji : Text) → IsRecent r → IsRecent (record_use r emoji)
unfolding record_use
record_use-IsRecent r emoji h =
    if-elim IsRecent (is_empty emoji) r _ (λ _. h)
      (λ e. record {
        capped = length-take r.cap (emoji ∷ without emoji r.items);
        no_empty =
            All-take (λ e. is_empty e ≡ false) r.cap (emoji ∷ without emoji r.items)
              (
                e,
                All-select (λ e. is_empty e ≡ false) (λ e. not (text_eq e emoji)) r.items
                    h.no_empty,
              );
        no_duplicates = take-NoDuplicates r.cap (emoji ∷ without emoji r.items) (
          without-All emoji r.items,
          select-NoDuplicates (λ e. not (text_eq e emoji)) r.items h.no_duplicates,
        );
      })

-- Nothing to drop.
without-absent :
    (emoji : Text) (xs : List Text) → All (λ y. text_eq y emoji ≡ false) xs → without emoji xs ≡ xs
without-absent emoji [] h = refl
without-absent emoji (x ∷ xs) h = let later = without-absent emoji xs h.1 in rw (h.0, later)

take-take : (n : ℕ) (xs : List Text) → take n (take n xs) ≡ take n xs
take-take zero xs = refl
take-take (suc n) [] = refl
take-take (suc n) (x ∷ xs) = ap (x ∷◌) (take-take n xs)

again :
    (cap : ℕ) (emoji : Text) (rest : List Text)
    → All (λ y. text_eq y emoji ≡ false) rest
    → take cap (emoji ∷ without emoji (take cap (emoji ∷ rest))) ≡ take cap (emoji ∷ rest)
again zero emoji rest h = refl
again (suc n) emoji rest h =
    rw
      (
        text_eq_refl emoji,
        without-absent emoji (take n rest) (All-take (λ y. text_eq y emoji ≡ false) n rest h),
        take-take n rest,
      )
      refl

-- Recording the same emoji twice in a row is recording it once.
pub record_use-record_use :
    (r : RecentEmoji) (emoji : Text) → record_use (record_use r emoji) emoji ≡ record_use r emoji
unfolding record_use
record_use-record_use r emoji = elim (Bool-cases (is_empty emoji)) [
  | inl q ↦ rw q refl
  | inr q ↦ rw q (
      ap (λ xs. record r { items = xs })
        (again r.cap emoji (without emoji r.items) (without-All emoji r.items)))
]
