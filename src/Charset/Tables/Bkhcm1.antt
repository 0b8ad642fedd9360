-- ===== src/Charset/Tables/Bkhcm1.antt =====
-- crates/pinakey-core/src/charset_def.rs: the table of "BKHCM 1".
use pinakey.Base.{[], ◌∷◌}
use pinakey.Charset.Entry.{CharsetEntries}

abbrev pub bkhcm1 : CharsetEntries
bkhcm1 =
    (0x111, 0xc2 ∷ 0xbd ∷ [])
    ∷ (0xe2, 0xc3 ∷ 0x9d ∷ [])
    ∷ (0x103, 0xc3 ∷ 0x97 ∷ [])
    ∷ (0xea, 0xc3 ∷ 0xa3 ∷ [])
    ∷ (0xf4, 0xc3 ∷ 0xa9 ∷ [])
    ∷ (0x1a1, 0xc3 ∷ 0xaf ∷ [])
    ∷ (0x1b0, 0xc3 ∷ 0xb5 ∷ [])
    ∷ (0xe1, 0xc2 ∷ 0xbe ∷ [])
    ∷ (0xe0, 0xc2 ∷ 0xbf ∷ [])
    ∷ (0x1ea3, 0xc3 ∷ 0x80 ∷ [])
    ∷ (0xe3, 0xc3 ∷ 0x81 ∷ [])
    ∷ (0x1ea1, 0xc3 ∷ 0x82 ∷ [])
    ∷ (0x1ea5, 0xc3 ∷ 0x9e ∷ [])
    ∷ (0x1ea7, 0xc3 ∷ 0x9f ∷ [])
    ∷ (0x1ea9, 0xc3 ∷ 0xa0 ∷ [])
    ∷ (0x1eab, 0xc3 ∷ 0xa1 ∷ [])
    ∷ (0x1ead, 0xc3 ∷ 0xa2 ∷ [])
    ∷ (0x1eaf, 0xc3 ∷ 0x98 ∷ [])
    ∷ (0x1eb1, 0xc3 ∷ 0x99 ∷ [])
    ∷ (0x1eb3, 0xc3 ∷ 0x9a ∷ [])
    ∷ (0x1eb5, 0xc3 ∷ 0x9b ∷ [])
    ∷ (0x1eb7, 0xc3 ∷ 0x9c ∷ [])
    ∷ (0xe9, 0xc3 ∷ 0x83 ∷ [])
    ∷ (0xe8, 0xc3 ∷ 0x84 ∷ [])
    ∷ (0x1ebb, 0xc3 ∷ 0x85 ∷ [])
    ∷ (0x1ebd, 0xc3 ∷ 0x86 ∷ [])
    ∷ (0x1eb9, 0xc3 ∷ 0x87 ∷ [])
    ∷ (0x1ebf, 0xc3 ∷ 0xa4 ∷ [])
    ∷ (0x1ec1, 0xc3 ∷ 0xa5 ∷ [])
    ∷ (0x1ec3, 0xc3 ∷ 0xa6 ∷ [])
    ∷ (0x1ec5, 0xc3 ∷ 0xa7 ∷ [])
    ∷ (0x1ec7, 0xc3 ∷ 0xa8 ∷ [])
    ∷ (0xed, 0xc3 ∷ 0x88 ∷ [])
    ∷ (0xec, 0xc3 ∷ 0x89 ∷ [])
    ∷ (0x1ec9, 0xc3 ∷ 0x8a ∷ [])
    ∷ (0x129, 0xc3 ∷ 0x8b ∷ [])
    ∷ (0x1ecb, 0xc3 ∷ 0x8c ∷ [])
    ∷ (0xf3, 0xc3 ∷ 0x8d ∷ [])
    ∷ (0xf2, 0xc3 ∷ 0x8e ∷ [])
    ∷ (0x1ecf, 0xc3 ∷ 0x8f ∷ [])
    ∷ (0xf5, 0xc3 ∷ 0x90 ∷ [])
    ∷ (0x1ecd, 0xc3 ∷ 0x91 ∷ [])
    ∷ (0x1ed1, 0xc3 ∷ 0xaa ∷ [])
    ∷ (0x1ed3, 0xc3 ∷ 0xab ∷ [])
    ∷ (0x1ed5, 0xc3 ∷ 0xac ∷ [])
    ∷ (0x1ed7, 0xc3 ∷ 0xad ∷ [])
    ∷ (0x1ed9, 0xc3 ∷ 0xae ∷ [])
    ∷ (0x1edb, 0xc3 ∷ 0xb0 ∷ [])
    ∷ (0x1edd, 0xc3 ∷ 0xb1 ∷ [])
    ∷ (0x1edf, 0xc3 ∷ 0xb2 ∷ [])
    ∷ (0x1ee1, 0xc3 ∷ 0xb3 ∷ [])
    ∷ (0x1ee3, 0xc3 ∷ 0xb4 ∷ [])
    ∷ (0xfa, 0xc3 ∷ 0x92 ∷ [])
    ∷ (0xf9, 0xc3 ∷ 0x93 ∷ [])
    ∷ (0x1ee7, 0xc3 ∷ 0x94 ∷ [])
    ∷ (0x169, 0xc3 ∷ 0x95 ∷ [])
    ∷ (0x1ee5, 0xc3 ∷ 0x96 ∷ [])
    ∷ (0x1ee9, 0xc3 ∷ 0xb6 ∷ [])
    ∷ (0x1eeb, 0xc3 ∷ 0xb7 ∷ [])
    ∷ (0x1eed, 0xc3 ∷ 0xb8 ∷ [])
    ∷ (0x1eef, 0xc3 ∷ 0xb9 ∷ [])
    ∷ (0x1ef1, 0xc3 ∷ 0xba ∷ [])
    ∷ (0xfd, 0xc3 ∷ 0xbb ∷ [])
    ∷ (0x1ef3, 0xc3 ∷ 0xbc ∷ [])
    ∷ (0x1ef7, 0xc3 ∷ 0xbd ∷ [])
    ∷ (0x1ef9, 0xc3 ∷ 0xbe ∷ [])
    ∷ (0x1ef5, 0xc3 ∷ 0xbf ∷ [])
    ∷ (0x110, 0x7d ∷ [])
    ∷ (0xc2, 0xc5 ∷ 0xb8 ∷ [])
    ∷ (0x102, 0xe2 ∷ 0x84 ∷ 0xa2 ∷ [])
    ∷ (0xca, 0xc2 ∷ 0xa5 ∷ [])
    ∷ (0xd4, 0xc2 ∷ 0xab ∷ [])
    ∷ (0x1a0, 0xc2 ∷ 0xb1 ∷ [])
    ∷ (0x1af, 0xc2 ∷ 0xb7 ∷ [])
    ∷ (0xc1, 0xe2 ∷ 0x82 ∷ 0xac ∷ [])
    ∷ (0xc0, 0xc2 ∷ 0x81 ∷ [])
    ∷ (0x1ea2, 0xe2 ∷ 0x80 ∷ 0x9a ∷ [])
    ∷ (0xc3, 0xc6 ∷ 0x92 ∷ [])
    ∷ (0x1ea0, 0xe2 ∷ 0x80 ∷ 0x9e ∷ [])
    ∷ (0x1ea4, 0x7e ∷ [])
    ∷ (0x1ea6, 0xc2 ∷ 0xa1 ∷ [])
    ∷ (0x1ea8, 0xc2 ∷ 0xa2 ∷ [])
    ∷ (0x1eaa, 0xc2 ∷ 0xa3 ∷ [])
    ∷ (0x1eac, 0xc2 ∷ 0xa4 ∷ [])
    ∷ (0x1eae, 0xc5 ∷ 0xa1 ∷ [])
    ∷ (0x1eb0, 0xe2 ∷ 0x80 ∷ 0xba ∷ [])
    ∷ (0x1eb2, 0xc5 ∷ 0x93 ∷ [])
    ∷ (0x1eb4, 0xc2 ∷ 0x9d ∷ [])
    ∷ (0x1eb6, 0xcb ∷ 0x9c ∷ [])
    ∷ (0xc9, 0xe2 ∷ 0x80 ∷ 0xa6 ∷ [])
    ∷ (0xc8, 0xe2 ∷ 0x80 ∷ 0xa0 ∷ [])
    ∷ (0x1eba, 0xe2 ∷ 0x80 ∷ 0xa1 ∷ [])
    ∷ (0x1ebc, 0xcb ∷ 0x86 ∷ [])
    ∷ (0x1eb8, 0xe2 ∷ 0x80 ∷ 0xb0 ∷ [])
    ∷ (0x1ebe, 0xc2 ∷ 0xa6 ∷ [])
    ∷ (0x1ec0, 0xc2 ∷ 0xa7 ∷ [])
    ∷ (0x1ec2, 0xc2 ∷ 0xa8 ∷ [])
    ∷ (0x1ec4, 0xc2 ∷ 0xa9 ∷ [])
    ∷ (0x1ec6, 0xc2 ∷ 0xaa ∷ [])
    ∷ (0xcd, 0xc5 ∷ 0xa0 ∷ [])
    ∷ (0xcc, 0xe2 ∷ 0x80 ∷ 0xb9 ∷ [])
    ∷ (0x1ec8, 0xc5 ∷ 0x92 ∷ [])
    ∷ (0x128, 0xc2 ∷ 0x8d ∷ [])
    ∷ (0x1eca, 0xc5 ∷ 0xbd ∷ [])
    ∷ (0xd3, 0xc2 ∷ 0x8f ∷ [])
    ∷ (0xd2, 0xc2 ∷ 0x90 ∷ [])
    ∷ (0x1ece, 0xe2 ∷ 0x80 ∷ 0x98 ∷ [])
    ∷ (0xd5, 0xe2 ∷ 0x80 ∷ 0x99 ∷ [])
    ∷ (0x1ecc, 0xe2 ∷ 0x80 ∷ 0x9c ∷ [])
    ∷ (0x1ed0, 0xc2 ∷ 0xac ∷ [])
    ∷ (0x1ed2, 0xc2 ∷ 0xad ∷ [])
    ∷ (0x1ed4, 0xc2 ∷ 0xae ∷ [])
    ∷ (0x1ed6, 0xc2 ∷ 0xaf ∷ [])
    ∷ (0x1ed8, 0xc2 ∷ 0xb0 ∷ [])
    ∷ (0x1eda, 0xc2 ∷ 0xb2 ∷ [])
    ∷ (0x1edc, 0xc2 ∷ 0xb3 ∷ [])
    ∷ (0x1ede, 0xc2 ∷ 0xb4 ∷ [])
    ∷ (0x1ee0, 0xc2 ∷ 0xb5 ∷ [])
    ∷ (0x1ee2, 0xc2 ∷ 0xb6 ∷ [])
    ∷ (0xda, 0xe2 ∷ 0x80 ∷ 0x9d ∷ [])
    ∷ (0xd9, 0xe2 ∷ 0x80 ∷ 0xa2 ∷ [])
    ∷ (0x1ee6, 0xe2 ∷ 0x80 ∷ 0x93 ∷ [])
    ∷ (0x168, 0xe2 ∷ 0x80 ∷ 0x94 ∷ [])
    ∷ (0x1ee4, 0xcb ∷ 0x9c ∷ [])
    ∷ (0x1ee8, 0xc2 ∷ 0xb8 ∷ [])
    ∷ (0x1eea, 0xc2 ∷ 0xb9 ∷ [])
    ∷ (0x1eec, 0xc2 ∷ 0xba ∷ [])
    ∷ (0x1eee, 0xc2 ∷ 0xbb ∷ [])
    ∷ (0x1ef0, 0xc2 ∷ 0xbc ∷ [])
    ∷ (0xdd, 0x7b ∷ [])
    ∷ (0x1ef2, 0x5e ∷ [])
    ∷ (0x1ef6, 0x60 ∷ [])
    ∷ (0x1ef8, 0x7c ∷ [])
    ∷ (0x1ef4, 0xc5 ∷ 0xbd ∷ [])
    ∷ []
