-- ===== src/Charset/Lossy.antt =====
-- `String::from_utf8_lossy` after `encode` under the charset "Unicode": the path that a text takes in `encode_text` of
-- crates/pinakey-engine/src/engine.rs.
use pinakey.Base.{
  ℕ, zero, suc, ◌+◌, ◌-◌, ◌*◌, ◌/◌, ◌%◌, ◌==◌, ◌<◌, ◌≤◌, ltb, leb, true, false, ◌&&◌, List, [], ◌∷◌,
  ◌++◌, ◌≡◌, refl, ◌∙◌, ap, Text, All, ◌⊎◌, inl, inr, arith, Bool-cases, ==_iff,
}
use pinakey.Charset.Utf8.{
  encode_utf8, utf8, Decoder, lead, decode_step, decode_from, from_utf8_lossy,
}

-- The characters of Rust.
abbrev pub IsScalar : ℕ → Type 0
IsScalar c = (c < 0xd800) ⊎ ((0xe000 ≤ c) × (c < 0x110000))

in_range : (low b high : ℕ) → low ≤ b → b ≤ high → (leb low b && leb b high) ≡ true
in_range low b high h k =
    let l : leb low b ≡ true = ground arith in let r : leb b high ≡ true = ground arith in rw l r

-- A byte in the range goes on with the character, or ends it.
goes_on :
    (n bits low high b : ℕ)
    → (leb low b && leb b high) ≡ true
    → decode_step (Decoder.inside (suc n) bits low high) b
      ≡ ([], Decoder.inside n (bits * 0x40 + (b - 0x80)) 0x80 0xbf)
unfolding decode_step
goes_on n bits low high b h = rw (h, decode_step) refl

ends :
    (bits low high b : ℕ)
    → (leb low b && leb b high) ≡ true
    → decode_step (Decoder.inside zero bits low high) b
      ≡ ((bits * 0x40 + (b - 0x80)) ∷ [], Decoder.start)
unfolding decode_step
ends bits low high b h = rw (h, decode_step) refl

-- A whole character, from its bytes.
tail_one :
    (bits low high b c : ℕ) (rest : List ℕ)
    → (leb low b && leb b high) ≡ true
    → bits * 0x40 + (b - 0x80) ≡ c
    → decode_from (Decoder.inside zero bits low high) (b ∷ rest)
      ≡ c ∷ decode_from Decoder.start rest
unfolding decode_from
tail_one bits low high b c rest h v =
    rw (ends bits low high b h) (ap (λ x. x ∷ decode_from Decoder.start rest) v)

tail_more :
    (n bits low high b c : ℕ) (bytes rest : List ℕ)
    → (leb low b && leb b high) ≡ true
    → decode_from (Decoder.inside n (bits * 0x40 + (b - 0x80)) 0x80 0xbf) bytes ≡ c ∷ rest
    → decode_from (Decoder.inside (suc n) bits low high) (b ∷ bytes) ≡ c ∷ rest
unfolding decode_from
tail_more n bits low high b c bytes rest h k = rw (goes_on n bits low high b h) k

from_lead :
    (b c : ℕ) (bytes rest : List ℕ) (d : Decoder)
    → lead b ≡ ([], d)
    → decode_from d bytes ≡ c ∷ rest
    → decode_from Decoder.start (b ∷ bytes) ≡ c ∷ rest
unfolding decode_from decode_step
from_lead b c bytes rest d h k = rw (h, decode_step) k

one_byte :
    (c : ℕ) (rest : List ℕ)
    → c < 0x80
    → decode_from Decoder.start (encode_utf8 c ++ rest) ≡ c ∷ decode_from Decoder.start rest
unfolding encode_utf8 decode_from decode_step lead
one_byte c rest h =
    let a : ltb c 0x80 ≡ true = ground arith in rw (a, encode_utf8) (rw (a, lead) refl)

two_bytes :
    (c : ℕ) (rest : List ℕ)
    → 0x80 ≤ c
    → c < 0x800
    → decode_from Decoder.start (encode_utf8 c ++ rest) ≡ c ∷ decode_from Decoder.start rest
unfolding encode_utf8 lead
two_bytes c rest low high =
    let a1 : ltb c 0x80 ≡ false = ground arith in
    let a2 : ltb c 0x800 ≡ true = ground arith in
    let b1 : ltb (0xc0 + c / 0x40) 0x80 ≡ false = ground arith in
    let b2 : leb 0xc2 (0xc0 + c / 0x40) ≡ true = ground arith in
    let b3 : leb (0xc0 + c / 0x40) 0xdf ≡ true = ground arith in
    rw (a1, a2, encode_utf8)
      (from_lead (0xc0 + c / 0x40) c _ _ (Decoder.inside 0 ((0xc0 + c / 0x40) - 0xc0) 0x80 0xbf)
        (rw (b1, b2, b3, lead) refl)
        (tail_one ((0xc0 + c / 0x40) - 0xc0) 0x80 0xbf (0x80 + c % 0x40) c rest
          (in_range 0x80 (0x80 + c % 0x40) 0xbf (omega arith) (omega arith)) (omega arith)))

-- What the first byte of several gives: the bits, and a range that the second byte is in.
record Leads (b second later bits : ℕ) : Type 0 where
  low : ℕ
  high : ℕ
  step : lead b ≡ ([], Decoder.inside later bits low high)
  fits : (leb low second && leb second high) ≡ true

-- Three bytes, but for the two first bytes with a range of their own.
Leads-plain :
    (n second : ℕ)
    → 0 < n
    → n < 0x10
    → (n == 13) ≡ false
    → 0x80 ≤ second
    → second ≤ 0xbf
    → Leads (0xe0 + n) second 1 n
unfolding lead
Leads-plain n second low high other h k =
    let a1 : ltb (0xe0 + n) 0x80 ≡ false = ground arith in
    let a2 : leb 0xc2 (0xe0 + n) ≡ true = ground arith in
    let a3 : leb (0xe0 + n) 0xdf ≡ false = ground arith in
    let a4 : ((0xe0 + n) == 0xe0) ≡ false = ground arith in
    let a5 : ((0xe0 + n) == 0xed) ≡ false = ground arith in
    let a6 : leb 0xe1 (0xe0 + n) ≡ true = ground arith in
    let a7 : leb (0xe0 + n) 0xef ≡ true = ground arith in
    let bits : (0xe0 + n) - 0xe0 ≡ n = omega arith in
    record {
      low = 0x80;
      high = 0xbf;
      step =
          rw (a1, a2, a3, a4, a5, a6, a7, lead) (ap (λ x. ([], Decoder.inside 1 x 0x80 0xbf)) bits);
      fits = in_range 0x80 second 0xbf h k;
    }

Leads-three :
    (c : ℕ)
    → 0x800 ≤ c
    → c < 0x10000
    → IsScalar c
    → Leads (0xe0 + c / 0x1000) (0x80 + c / 0x40 % 0x40) 1 (c / 0x1000)
unfolding lead
Leads-three c low high scalar = elim (Bool-cases (c / 0x1000 == 0)) [
  | inl q ↦
      let n : c / 0x1000 ≡ 0 = (==_iff (c / 0x1000) 0).0 q in
      record {
        low = 0xa0;
        high = 0xbf;
        step = rw n refl;
        fits = in_range 0xa0 (0x80 + c / 0x40 % 0x40) 0xbf (omega arith) (omega arith);
      }
  | inr q ↦ elim (Bool-cases (c / 0x1000 == 13)) [
    | inl r ↦
        let n : c / 0x1000 ≡ 13 = (==_iff (c / 0x1000) 13).0 r in
        record {
          low = 0x80;
          high = 0x9f;
          step = rw n refl;
          fits = in_range 0x80 (0x80 + c / 0x40 % 0x40) 0x9f (omega arith) (omega arith);
        }
    | inr r ↦
        Leads-plain (c / 0x1000) (0x80 + c / 0x40 % 0x40) (ground arith) (omega arith) r
          (omega arith) (omega arith)
  ]
]

three_bytes :
    (c : ℕ) (rest : List ℕ)
    → 0x800 ≤ c
    → c < 0x10000
    → IsScalar c
    → decode_from Decoder.start (encode_utf8 c ++ rest) ≡ c ∷ decode_from Decoder.start rest
unfolding encode_utf8
three_bytes c rest low high scalar =
    let a1 : ltb c 0x80 ≡ false = ground arith in
    let a2 : ltb c 0x800 ≡ false = ground arith in
    let a3 : ltb c 0x10000 ≡ true = ground arith in
    let k : Leads (0xe0 + c / 0x1000) (0x80 + c / 0x40 % 0x40) 1 (c / 0x1000) =
      Leads-three c low high scalar in
    rw (a1, a2, a3, encode_utf8)
      (from_lead (0xe0 + c / 0x1000) c _ _ (Decoder.inside 1 (c / 0x1000) k.low k.high) k.step (
        tail_more 0 (c / 0x1000) k.low k.high (0x80 + c / 0x40 % 0x40) c _ _ k.fits (
          tail_one _ 0x80 0xbf (0x80 + c % 0x40) c rest
            (in_range 0x80 (0x80 + c % 0x40) 0xbf (omega arith) (omega arith)) (omega arith))))

Leads-middle :
    (n second : ℕ) → 0 < n → n < 4 → 0x80 ≤ second → second ≤ 0xbf → Leads (0xf0 + n) second 2 n
unfolding lead
Leads-middle n second low high h k =
    let a1 : ltb (0xf0 + n) 0x80 ≡ false = ground arith in
    let a2 : leb 0xc2 (0xf0 + n) ≡ true = ground arith in
    let a3 : leb (0xf0 + n) 0xdf ≡ false = ground arith in
    let a4 : ((0xf0 + n) == 0xe0) ≡ false = ground arith in
    let a5 : ((0xf0 + n) == 0xed) ≡ false = ground arith in
    let a6 : leb 0xe1 (0xf0 + n) ≡ true = ground arith in
    let a7 : leb (0xf0 + n) 0xef ≡ false = ground arith in
    let a8 : ((0xf0 + n) == 0xf0) ≡ false = ground arith in
    let a9 : leb 0xf1 (0xf0 + n) ≡ true = ground arith in
    let b1 : leb (0xf0 + n) 0xf3 ≡ true = ground arith in
    let bits : (0xf0 + n) - 0xf0 ≡ n = omega arith in
    record {
      low = 0x80;
      high = 0xbf;
      step =
          rw (a1, a2, a3, a4, a5, a6, a7, a8, a9, b1, lead)
            (ap (λ x. ([], Decoder.inside 2 x 0x80 0xbf)) bits);
      fits = in_range 0x80 second 0xbf h k;
    }

Leads-four :
    (c : ℕ)
    → 0x10000 ≤ c
    → c < 0x110000
    → Leads (0xf0 + c / 0x40000) (0x80 + c / 0x1000 % 0x40) 2 (c / 0x40000)
unfolding lead
Leads-four c low high = elim (Bool-cases (c / 0x40000 == 0)) [
  | inl q ↦
      let n : c / 0x40000 ≡ 0 = (==_iff (c / 0x40000) 0).0 q in
      record {
        low = 0x90;
        high = 0xbf;
        step = rw n refl;
        fits = in_range 0x90 (0x80 + c / 0x1000 % 0x40) 0xbf (omega arith) (omega arith);
      }
  | inr q ↦ elim (Bool-cases (c / 0x40000 == 4)) [
    | inl r ↦
        let n : c / 0x40000 ≡ 4 = (==_iff (c / 0x40000) 4).0 r in
        record {
          low = 0x80;
          high = 0x8f;
          step = rw n refl;
          fits = in_range 0x80 (0x80 + c / 0x1000 % 0x40) 0x8f (omega arith) (omega arith);
        }
    | inr r ↦
        Leads-middle (c / 0x40000) (0x80 + c / 0x1000 % 0x40) (ground arith) (ground arith)
          (omega arith) (omega arith)
  ]
]

four_bytes :
    (c : ℕ) (rest : List ℕ)
    → 0x10000 ≤ c
    → c < 0x110000
    → decode_from Decoder.start (encode_utf8 c ++ rest) ≡ c ∷ decode_from Decoder.start rest
unfolding encode_utf8
four_bytes c rest low high =
    let a1 : ltb c 0x80 ≡ false = ground arith in
    let a2 : ltb c 0x800 ≡ false = ground arith in
    let a3 : ltb c 0x10000 ≡ false = ground arith in
    let k : Leads (0xf0 + c / 0x40000) (0x80 + c / 0x1000 % 0x40) 2 (c / 0x40000) =
      Leads-four c low high in
    rw (a1, a2, a3, encode_utf8)
      (from_lead (0xf0 + c / 0x40000) c _ _ (Decoder.inside 2 (c / 0x40000) k.low k.high) k.step (
        tail_more 1 (c / 0x40000) k.low k.high (0x80 + c / 0x1000 % 0x40) c _ _ k.fits (
          tail_more 0 _ 0x80 0xbf (0x80 + c / 0x40 % 0x40) c _ _
            (in_range 0x80 (0x80 + c / 0x40 % 0x40) 0xbf (omega arith) (omega arith))
            (tail_one _ 0x80 0xbf (0x80 + c % 0x40) c rest
              (in_range 0x80 (0x80 + c % 0x40) 0xbf (omega arith) (omega arith)) (omega arith)))))

IsScalar-bound : (c : ℕ) → IsScalar c → c < 0x110000
IsScalar-bound c h = omega arith

one_character :
    (c : ℕ) (rest : List ℕ)
    → IsScalar c
    → decode_from Decoder.start (encode_utf8 c ++ rest) ≡ c ∷ decode_from Decoder.start rest
one_character c rest h = elim (Bool-cases (ltb c 0x80)) [
  | inl a ↦ one_byte c rest (ground arith)
  | inr a ↦ elim (Bool-cases (ltb c 0x800)) [
    | inl b ↦ two_bytes c rest (ground arith) (ground arith)
    | inr b ↦ elim (Bool-cases (ltb c 0x10000)) [
      | inl k ↦ three_bytes c rest (ground arith) (ground arith) h
      | inr k ↦ four_bytes c rest (ground arith) (IsScalar-bound c h)
    ]
  ]
]

decode_from-utf8 : (t : Text) → All IsScalar t → decode_from Decoder.start (utf8 t) ≡ t
unfolding utf8 decode_from
decode_from-utf8 [] h = refl
decode_from-utf8 (c ∷ t) h = one_character c (utf8 t) h.0 ∙ ap (c ∷◌) (decode_from-utf8 t h.1)

-- Reading the UTF-8 bytes of a text with replacement gives the text back, for every text of Rust's characters.
pub from_utf8_lossy-utf8 : (t : Text) → All IsScalar t → from_utf8_lossy (utf8 t) ≡ t
unfolding from_utf8_lossy
from_utf8_lossy-utf8 t h = decode_from-utf8 t h
