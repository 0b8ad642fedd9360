-- ===== src/Charset/Entry.antt =====
-- The type of a charset's table.
use pinakey.Base.{ℕ, List}

-- The source character, and the bytes it is encoded by.
abbrev pub CharsetEntries : Type 0
CharsetEntries = List (ℕ × List ℕ)
