-- ===== src/Base/Lines.antt =====
-- The lines of a text.
use pinakey.Base.Lists.{is_empty}
use pinakey.Base.Tests.{◌==◌, if◌then◌else◌, Text}
use mathlib.Core.Bool.{◌&&◌}
use mathlib.Core.List.{List, [], ◌∷◌}

-- `str::lines`: a line ends at a line feed, which a carriage return may precede; behind the last line
-- feed there is a line only if there is text.
abbrev pub strip_cr : Text → Text
strip_cr [] = []
strip_cr (c ∷ t) = let rest = strip_cr t in if (c == 13) && is_empty t then [] else c ∷ rest

abbrev pub cut_lines : Text → Text × List Text
cut_lines [] = ([], [])
cut_lines (c ∷ t) =
    let (line, others) = cut_lines t in if c == 10 then ([], line ∷ others) else (c ∷ line, others)

abbrev pub drop_last_if_empty : List Text → List Text
drop_last_if_empty [] = []
drop_last_if_empty (l ∷ []) = if is_empty l then [] else l ∷ []
drop_last_if_empty (l ∷ m ∷ ls) = strip_cr l ∷ drop_last_if_empty (m ∷ ls)

abbrev pub lines : Text → List Text
lines t = drop_last_if_empty ((cut_lines t).0 ∷ (cut_lines t).1)
