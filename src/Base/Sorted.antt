-- ===== src/Base/Sorted.antt =====
-- Texts in order: `sort` of `Vec<String>`.
use mathlib.Core.Bool.{Bool, true, false, ◌&&◌, ◌||◌}
use mathlib.Core.List.{List, [], ◌∷◌}
use pinakey.Base.Tests.{◌==◌, ltb, if◌then◌else◌, Text}

-- The order of Rust's `String`, where code points are compared.
unfoldable pub text_leb : Text → Text → Bool
text_leb [] t = true
text_leb (a ∷ s) [] = false
text_leb (a ∷ s) (b ∷ t) = let rest = text_leb s t in ltb a b || ((a == b) && rest)

abbrev pub insert_sorted : Text → List Text → List Text
insert_sorted t [] = t ∷ []
insert_sorted t (s ∷ ts) =
    let rest = insert_sorted t ts in if text_leb t s then t ∷ (s ∷ ts) else s ∷ rest

unfoldable pub sort : List Text → List Text
unfolding text_leb
sort [] = []
sort (t ∷ ts) = insert_sorted t (sort ts)
