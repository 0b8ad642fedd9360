-- ===== src/Charset/Utf8.antt =====
-- What charset.rs and the key event engine take from `String`: the UTF-8 bytes of a text, and
-- `String::from_utf8_lossy`.
use pinakey.Base.{
  ℕ, zero, suc, ◌+◌, ◌-◌, ◌*◌, ◌/◌, ◌%◌, ◌==◌, ltb, leb, if◌then◌else◌, ◌&&◌, List, [], ◌∷◌, ◌++◌,
  Text,
}

unfoldable pub encode_utf8 : ℕ → List ℕ
encode_utf8 c =
    if ltb c 0x80
    then c ∷ []
    else if ltb c 0x800
    then (0xc0 + c / 0x40) ∷ (0x80 + c % 0x40) ∷ []
    else if ltb c 0x10000
    then (0xe0 + c / 0x1000) ∷ (0x80 + c / 0x40 % 0x40) ∷ (0x80 + c % 0x40) ∷ []
    else (0xf0 + c / 0x40000)
      ∷ (0x80 + c / 0x1000 % 0x40)
      ∷ (0x80 + c / 0x40 % 0x40)
      ∷ (0x80 + c % 0x40)
      ∷ []

unfoldable pub utf8 : Text → List ℕ
unfolding encode_utf8
utf8 [] = []
utf8 (c ∷ t) = encode_utf8 c ++ utf8 t

-- Between two bytes: at a character's start, or inside one, with the number of bytes behind the next one, the
-- bits so far and the range of the next byte.
pub data Decoder : Type 0 where
  start : Decoder
  inside : (later bits low high : ℕ) → Decoder

-- A byte at a character's start; bytes that start none are replaced.
unfoldable pub lead : ℕ → Text × Decoder
lead b =
    if ltb b 0x80
    then (b ∷ [], Decoder.start)
    else if leb 0xc2 b && leb b 0xdf
    then ([], Decoder.inside 0 (b - 0xc0) 0x80 0xbf)
    else if b == 0xe0
    then ([], Decoder.inside 1 0 0xa0 0xbf)
    else if b == 0xed
    then ([], Decoder.inside 1 13 0x80 0x9f)
    else if leb 0xe1 b && leb b 0xef
    then ([], Decoder.inside 1 (b - 0xe0) 0x80 0xbf)
    else if b == 0xf0
    then ([], Decoder.inside 2 0 0x90 0xbf)
    else if leb 0xf1 b && leb b 0xf3
    then ([], Decoder.inside 2 (b - 0xf0) 0x80 0xbf)
    else if b == 0xf4
    then ([], Decoder.inside 2 4 0x80 0x8f)
    else (0xfffd ∷ [], Decoder.start)

-- A character that breaks off is replaced, and the byte starts another one.
unfoldable pub decode_step : Decoder → ℕ → Text × Decoder
unfolding lead
decode_step Decoder.start b = lead b
decode_step (Decoder.inside zero bits low high) b =
    if leb low b && leb b high
    then ((bits * 0x40 + (b - 0x80)) ∷ [], Decoder.start)
    else (0xfffd ∷ (lead b).0, (lead b).1)
decode_step (Decoder.inside (suc n) bits low high) b =
    if leb low b && leb b high
    then ([], Decoder.inside n (bits * 0x40 + (b - 0x80)) 0x80 0xbf)
    else (0xfffd ∷ (lead b).0, (lead b).1)

unfoldable pub decode_from : Decoder → List ℕ → Text
unfolding decode_step
decode_from Decoder.start [] = []
decode_from (Decoder.inside later bits low high) [] = 0xfffd ∷ []
decode_from d (b ∷ bytes) = (decode_step d b).0 ++ decode_from (decode_step d b).1 bytes

unfoldable pub from_utf8_lossy : List ℕ → Text
unfolding decode_from
from_utf8_lossy bytes = decode_from Decoder.start bytes
