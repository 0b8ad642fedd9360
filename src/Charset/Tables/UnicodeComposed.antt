-- ===== src/Charset/Tables/UnicodeComposed.antt =====
-- crates/pinakey-core/src/charset_def.rs: the table of "Unicode tổ hợp".
use pinakey.Base.{[], ◌∷◌}
use pinakey.Charset.Entry.{CharsetEntries}

abbrev pub unicode_composed : CharsetEntries
unicode_composed =
    (0x111, 0xc4 ∷ 0x91 ∷ [])
    ∷ (0xe2, 0xc3 ∷ 0xa2 ∷ [])
    ∷ (0x103, 0xc4 ∷ 0x83 ∷ [])
    ∷ (0xea, 0xc3 ∷ 0xaa ∷ [])
    ∷ (0xf4, 0xc3 ∷ 0xb4 ∷ [])
    ∷ (0x1a1, 0xc6 ∷ 0xa1 ∷ [])
    ∷ (0x1b0, 0xc6 ∷ 0xb0 ∷ [])
    ∷ (0xe1, 0x61 ∷ 0xcc ∷ 0x81 ∷ [])
    ∷ (0xe0, 0x61 ∷ 0xcc ∷ 0x80 ∷ [])
    ∷ (0x1ea3, 0x61 ∷ 0xcc ∷ 0x89 ∷ [])
    ∷ (0xe3, 0x61 ∷ 0xcc ∷ 0x83 ∷ [])
    ∷ (0x1ea1, 0x61 ∷ 0xcc ∷ 0xa3 ∷ [])
    ∷ (0x1ea5, 0xc3 ∷ 0xa2 ∷ 0xcc ∷ 0x81 ∷ [])
    ∷ (0x1ea7, 0xc3 ∷ 0xa2 ∷ 0xcc ∷ 0x80 ∷ [])
    ∷ (0x1ea9, 0xc3 ∷ 0xa2 ∷ 0xcc ∷ 0x89 ∷ [])
    ∷ (0x1eab, 0xc3 ∷ 0xa2 ∷ 0xcc ∷ 0x83 ∷ [])
    ∷ (0x1ead, 0xc3 ∷ 0xa2 ∷ 0xcc ∷ 0xa3 ∷ [])
    ∷ (0x1eaf, 0xc4 ∷ 0x83 ∷ 0xcc ∷ 0x81 ∷ [])
    ∷ (0x1eb1, 0xc4 ∷ 0x83 ∷ 0xcc ∷ 0x80 ∷ [])
    ∷ (0x1eb3, 0xc4 ∷ 0x83 ∷ 0xcc ∷ 0x89 ∷ [])
    ∷ (0x1eb5, 0xc4 ∷ 0x83 ∷ 0xcc ∷ 0x83 ∷ [])
    ∷ (0x1eb7, 0xc4 ∷ 0x83 ∷ 0xcc ∷ 0xa3 ∷ [])
    ∷ (0xe9, 0x65 ∷ 0xcc ∷ 0x81 ∷ [])
    ∷ (0xe8, 0x65 ∷ 0xcc ∷ 0x80 ∷ [])
    ∷ (0x1ebb, 0x65 ∷ 0xcc ∷ 0x89 ∷ [])
    ∷ (0x1ebd, 0x65 ∷ 0xcc ∷ 0x83 ∷ [])
    ∷ (0x1eb9, 0x65 ∷ 0xcc ∷ 0xa3 ∷ [])
    ∷ (0x1ebf, 0xc3 ∷ 0xaa ∷ 0xcc ∷ 0x81 ∷ [])
    ∷ (0x1ec1, 0xc3 ∷ 0xaa ∷ 0xcc ∷ 0x80 ∷ [])
    ∷ (0x1ec3, 0xc3 ∷ 0xaa ∷ 0xcc ∷ 0x89 ∷ [])
    ∷ (0x1ec5, 0xc3 ∷ 0xaa ∷ 0xcc ∷ 0x83 ∷ [])
    ∷ (0x1ec7, 0xc3 ∷ 0xaa ∷ 0xcc ∷ 0xa3 ∷ [])
    ∷ (0xed, 0x69 ∷ 0xcc ∷ 0x81 ∷ [])
    ∷ (0xec, 0x69 ∷ 0xcc ∷ 0x80 ∷ [])
    ∷ (0x1ec9, 0x69 ∷ 0xcc ∷ 0x89 ∷ [])
    ∷ (0x129, 0x69 ∷ 0xcc ∷ 0x83 ∷ [])
    ∷ (0x1ecb, 0x69 ∷ 0xcc ∷ 0xa3 ∷ [])
    ∷ (0xf3, 0x6f ∷ 0xcc ∷ 0x81 ∷ [])
    ∷ (0xf2, 0x6f ∷ 0xcc ∷ 0x80 ∷ [])
    ∷ (0x1ecf, 0x6f ∷ 0xcc ∷ 0x89 ∷ [])
    ∷ (0xf5, 0x6f ∷ 0xcc ∷ 0x83 ∷ [])
    ∷ (0x1ecd, 0x6f ∷ 0xcc ∷ 0xa3 ∷ [])
    ∷ (0x1ed1, 0xc3 ∷ 0xb4 ∷ 0xcc ∷ 0x81 ∷ [])
    ∷ (0x1ed3, 0xc3 ∷ 0xb4 ∷ 0xcc ∷ 0x80 ∷ [])
    ∷ (0x1ed5, 0xc3 ∷ 0xb4 ∷ 0xcc ∷ 0x89 ∷ [])
    ∷ (0x1ed7, 0xc3 ∷ 0xb4 ∷ 0xcc ∷ 0x83 ∷ [])
    ∷ (0x1ed9, 0xc3 ∷ 0xb4 ∷ 0xcc ∷ 0xa3 ∷ [])
    ∷ (0x1edb, 0xc6 ∷ 0xa1 ∷ 0xcc ∷ 0x81 ∷ [])
    ∷ (0x1edd, 0xc6 ∷ 0xa1 ∷ 0xcc ∷ 0x80 ∷ [])
    ∷ (0x1edf, 0xc6 ∷ 0xa1 ∷ 0xcc ∷ 0x89 ∷ [])
    ∷ (0x1ee1, 0xc6 ∷ 0xa1 ∷ 0xcc ∷ 0x83 ∷ [])
    ∷ (0x1ee3, 0xc6 ∷ 0xa1 ∷ 0xcc ∷ 0xa3 ∷ [])
    ∷ (0xfa, 0x75 ∷ 0xcc ∷ 0x81 ∷ [])
    ∷ (0xf9, 0x75 ∷ 0xcc ∷ 0x80 ∷ [])
    ∷ (0x1ee7, 0x75 ∷ 0xcc ∷ 0x89 ∷ [])
    ∷ (0x169, 0x75 ∷ 0xcc ∷ 0x83 ∷ [])
    ∷ (0x1ee5, 0x75 ∷ 0xcc ∷ 0xa3 ∷ [])
    ∷ (0x1ee9, 0xc6 ∷ 0xb0 ∷ 0xcc ∷ 0x81 ∷ [])
    ∷ (0x1eeb, 0xc6 ∷ 0xb0 ∷ 0xcc ∷ 0x80 ∷ [])
    ∷ (0x1eed, 0xc6 ∷ 0xb0 ∷ 0xcc ∷ 0x89 ∷ [])
    ∷ (0x1eef, 0xc6 ∷ 0xb0 ∷ 0xcc ∷ 0x83 ∷ [])
    ∷ (0x1ef1, 0xc6 ∷ 0xb0 ∷ 0xcc ∷ 0xa3 ∷ [])
    ∷ (0xfd, 0x79 ∷ 0xcc ∷ 0x81 ∷ [])
    ∷ (0x1ef3, 0x79 ∷ 0xcc ∷ 0x80 ∷ [])
    ∷ (0x1ef7, 0x79 ∷ 0xcc ∷ 0x89 ∷ [])
    ∷ (0x1ef9, 0x79 ∷ 0xcc ∷ 0x83 ∷ [])
    ∷ (0x1ef5, 0x79 ∷ 0xcc ∷ 0xa3 ∷ [])
    ∷ (0x110, 0xc4 ∷ 0x90 ∷ [])
    ∷ (0xc2, 0xc3 ∷ 0x82 ∷ [])
    ∷ (0x102, 0xc4 ∷ 0x82 ∷ [])
    ∷ (0xca, 0xc3 ∷ 0x8a ∷ [])
    ∷ (0xd4, 0xc3 ∷ 0x94 ∷ [])
    ∷ (0x1a0, 0xc6 ∷ 0xa0 ∷ [])
    ∷ (0x1af, 0xc6 ∷ 0xaf ∷ [])
    ∷ (0xc1, 0x41 ∷ 0xcc ∷ 0x81 ∷ [])
    ∷ (0xc0, 0x41 ∷ 0xcc ∷ 0x80 ∷ [])
    ∷ (0x1ea2, 0x41 ∷ 0xcc ∷ 0x89 ∷ [])
    ∷ (0xc3, 0x41 ∷ 0xcc ∷ 0x83 ∷ [])
    ∷ (0x1ea0, 0x41 ∷ 0xcc ∷ 0xa3 ∷ [])
    ∷ (0x1ea4, 0xc3 ∷ 0x82 ∷ 0xcc ∷ 0x81 ∷ [])
    ∷ (0x1ea6, 0xc3 ∷ 0x82 ∷ 0xcc ∷ 0x80 ∷ [])
    ∷ (0x1ea8, 0xc3 ∷ 0x82 ∷ 0xcc ∷ 0x89 ∷ [])
    ∷ (0x1eaa, 0xc3 ∷ 0x82 ∷ 0xcc ∷ 0x83 ∷ [])
    ∷ (0x1eac, 0xc3 ∷ 0x82 ∷ 0xcc ∷ 0xa3 ∷ [])
    ∷ (0x1eae, 0xc4 ∷ 0x82 ∷ 0xcc ∷ 0x81 ∷ [])
    ∷ (0x1eb0, 0xc4 ∷ 0x82 ∷ 0xcc ∷ 0x80 ∷ [])
    ∷ (0x1eb2, 0xc4 ∷ 0x82 ∷ 0xcc ∷ 0x89 ∷ [])
    ∷ (0x1eb4, 0xc4 ∷ 0x82 ∷ 0xcc ∷ 0x83 ∷ [])
    ∷ (0x1eb6, 0xc4 ∷ 0x82 ∷ 0xcc ∷ 0xa3 ∷ [])
    ∷ (0xc9, 0x45 ∷ 0xcc ∷ 0x81 ∷ [])
    ∷ (0xc8, 0x45 ∷ 0xcc ∷ 0x80 ∷ [])
    ∷ (0x1eba, 0x45 ∷ 0xcc ∷ 0x89 ∷ [])
    ∷ (0x1ebc, 0x45 ∷ 0xcc ∷ 0x83 ∷ [])
    ∷ (0x1eb8, 0x45 ∷ 0xcc ∷ 0xa3 ∷ [])
    ∷ (0x1ebe, 0xc3 ∷ 0x8a ∷ 0xcc ∷ 0x81 ∷ [])
    ∷ (0x1ec0, 0xc3 ∷ 0x8a ∷ 0xcc ∷ 0x80 ∷ [])
    ∷ (0x1ec2, 0xc3 ∷ 0x8a ∷ 0xcc ∷ 0x89 ∷ [])
    ∷ (0x1ec4, 0xc3 ∷ 0x8a ∷ 0xcc ∷ 0x83 ∷ [])
    ∷ (0x1ec6, 0xc3 ∷ 0x8a ∷ 0xcc ∷ 0xa3 ∷ [])
    ∷ (0xcd, 0x49 ∷ 0xcc ∷ 0x81 ∷ [])
    ∷ (0xcc, 0x49 ∷ 0xcc ∷ 0x80 ∷ [])
    ∷ (0x1ec8, 0x49 ∷ 0xcc ∷ 0x89 ∷ [])
    ∷ (0x128, 0x49 ∷ 0xcc ∷ 0x83 ∷ [])
    ∷ (0x1eca, 0x49 ∷ 0xcc ∷ 0xa3 ∷ [])
    ∷ (0xd3, 0x4f ∷ 0xcc ∷ 0x81 ∷ [])
    ∷ (0xd2, 0x4f ∷ 0xcc ∷ 0x80 ∷ [])
    ∷ (0x1ece, 0x4f ∷ 0xcc ∷ 0x89 ∷ [])
    ∷ (0xd5, 0x4f ∷ 0xcc ∷ 0x83 ∷ [])
    ∷ (0x1ecc, 0x4f ∷ 0xcc ∷ 0xa3 ∷ [])
    ∷ (0x1ed0, 0xc3 ∷ 0x94 ∷ 0xcc ∷ 0x81 ∷ [])
    ∷ (0x1ed2, 0xc3 ∷ 0x94 ∷ 0xcc ∷ 0x80 ∷ [])
    ∷ (0x1ed4, 0xc3 ∷ 0x94 ∷ 0xcc ∷ 0x89 ∷ [])
    ∷ (0x1ed6, 0xc3 ∷ 0x94 ∷ 0xcc ∷ 0x83 ∷ [])
    ∷ (0x1ed8, 0xc3 ∷ 0x94 ∷ 0xcc ∷ 0xa3 ∷ [])
    ∷ (0x1eda, 0xc6 ∷ 0xa0 ∷ 0xcc ∷ 0x81 ∷ [])
    ∷ (0x1edc, 0xc6 ∷ 0xa0 ∷ 0xcc ∷ 0x80 ∷ [])
    ∷ (0x1ede, 0xc6 ∷ 0xa0 ∷ 0xcc ∷ 0x89 ∷ [])
    ∷ (0x1ee0, 0xc6 ∷ 0xa0 ∷ 0xcc ∷ 0x83 ∷ [])
    ∷ (0x1ee2, 0xc6 ∷ 0xa0 ∷ 0xcc ∷ 0xa3 ∷ [])
    ∷ (0xda, 0x55 ∷ 0xcc ∷ 0x81 ∷ [])
    ∷ (0xd9, 0x55 ∷ 0xcc ∷ 0x80 ∷ [])
    ∷ (0x1ee6, 0x55 ∷ 0xcc ∷ 0x89 ∷ [])
    ∷ (0x168, 0x55 ∷ 0xcc ∷ 0x83 ∷ [])
    ∷ (0x1ee4, 0x55 ∷ 0xcc ∷ 0xa3 ∷ [])
    ∷ (0x1ee8, 0xc6 ∷ 0xaf ∷ 0xcc ∷ 0x81 ∷ [])
    ∷ (0x1eea, 0xc6 ∷ 0xaf ∷ 0xcc ∷ 0x80 ∷ [])
    ∷ (0x1eec, 0xc6 ∷ 0xaf ∷ 0xcc ∷ 0x89 ∷ [])
    ∷ (0x1eee, 0xc6 ∷ 0xaf ∷ 0xcc ∷ 0x83 ∷ [])
    ∷ (0x1ef0, 0xc6 ∷ 0xaf ∷ 0xcc ∷ 0xa3 ∷ [])
    ∷ (0xdd, 0x59 ∷ 0xcc ∷ 0x81 ∷ [])
    ∷ (0x1ef2, 0x59 ∷ 0xcc ∷ 0x80 ∷ [])
    ∷ (0x1ef6, 0x59 ∷ 0xcc ∷ 0x89 ∷ [])
    ∷ (0x1ef8, 0x59 ∷ 0xcc ∷ 0x83 ∷ [])
    ∷ (0x1ef4, 0x59 ∷ 0xcc ∷ 0xa3 ∷ [])
    ∷ []
