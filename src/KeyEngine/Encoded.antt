-- ===== src/KeyEngine/Encoded.antt =====
-- `encode_text` of crates/pinakey-engine/src/engine.rs where no table of a legacy charset is chosen.
use pinakey.Base.{◌≡◌, refl, ◌⊎◌, inl, inr, ◌∙◌, ap, none, Text, All, text_eq, true, Bool-cases}
use pinakey.Charset.{unicode_name, find_charset, encode}
use pinakey.Charset.Tables.{charset_definitions}
use pinakey.Charset.Utf8.{utf8, from_utf8_lossy}
use pinakey.Charset.Lossy.{IsScalar, from_utf8_lossy-utf8}
use pinakey.KeyEngine.Core.{EngineCore}
use pinakey.KeyEngine.View.{encode_text}

encode-utf8 :
    (name t : Text)
    → (text_eq name unicode_name ≡ true) ⊎ (find_charset charset_definitions name ≡ none)
    → encode name t ≡ utf8 t
unfolding encode
encode-utf8 name t (inl h) = rw (h, encode) refl
encode-utf8 name t (inr h) = elim (Bool-cases (text_eq name unicode_name)) [
  | inl q ↦ rw (q, encode) refl
  | inr q ↦ rw (q, h, encode) refl
]

-- Under the charset "Unicode", and under a name that no table has, what the engine shows and writes out is the text
-- itself: encoding it into bytes and reading these with replacement gives the text back, for every text of
-- Rust's characters.
pub encode_text-scalar :
    (e : EngineCore) (t : Text)
    → (text_eq e.config.output_charset unicode_name ≡ true)
      ⊎ (find_charset charset_definitions e.config.output_charset ≡ none)
    → All IsScalar t
    → encode_text e t ≡ t
unfolding encode_text
encode_text-scalar e t h scalar =
    ap from_utf8_lossy (encode-utf8 e.config.output_charset t h) ∙ from_utf8_lossy-utf8 t scalar
