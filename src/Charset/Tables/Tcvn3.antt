-- ===== src/Charset/Tables/Tcvn3.antt =====
-- crates/pinakey-core/src/charset_def.rs: the table of "TCVN3 (ABC)".
use pinakey.Base.{[], ◌∷◌}
use pinakey.Charset.Entry.{CharsetEntries}

abbrev pub tcvn3 : CharsetEntries
tcvn3 =
    (0x111, 0xc2 ∷ 0xae ∷ [])
    ∷ (0xe2, 0xc2 ∷ 0xa9 ∷ [])
    ∷ (0x103, 0xc2 ∷ 0xa8 ∷ [])
    ∷ (0xea, 0xc2 ∷ 0xaa ∷ [])
    ∷ (0xf4, 0xc2 ∷ 0xab ∷ [])
    ∷ (0x1a1, 0xc2 ∷ 0xac ∷ [])
    ∷ (0x1b0, 0xc2 ∷ 0xad ∷ [])
    ∷ (0xe1, 0xc2 ∷ 0xb8 ∷ [])
    ∷ (0xe0, 0xc2 ∷ 0xb5 ∷ [])
    ∷ (0x1ea3, 0xc2 ∷ 0xb6 ∷ [])
    ∷ (0xe3, 0xc2 ∷ 0xb7 ∷ [])
    ∷ (0x1ea1, 0xc2 ∷ 0xb9 ∷ [])
    ∷ (0x1ea5, 0xc3 ∷ 0x8a ∷ [])
    ∷ (0x1ea7, 0xc3 ∷ 0x87 ∷ [])
    ∷ (0x1ea9, 0xc3 ∷ 0x88 ∷ [])
    ∷ (0x1eab, 0xc3 ∷ 0x89 ∷ [])
    ∷ (0x1ead, 0xc3 ∷ 0x8b ∷ [])
    ∷ (0x1eaf, 0xc2 ∷ 0xbe ∷ [])
    ∷ (0x1eb1, 0xc2 ∷ 0xbb ∷ [])
    ∷ (0x1eb3, 0xc2 ∷ 0xbc ∷ [])
    ∷ (0x1eb5, 0xc2 ∷ 0xbd ∷ [])
    ∷ (0x1eb7, 0xc3 ∷ 0x86 ∷ [])
    ∷ (0xe9, 0xc3 ∷ 0x90 ∷ [])
    ∷ (0xe8, 0xc3 ∷ 0x8c ∷ [])
    ∷ (0x1ebb, 0xc3 ∷ 0x8e ∷ [])
    ∷ (0x1ebd, 0xc3 ∷ 0x8f ∷ [])
    ∷ (0x1eb9, 0xc3 ∷ 0x91 ∷ [])
    ∷ (0x1ebf, 0xc3 ∷ 0x95 ∷ [])
    ∷ (0x1ec1, 0xc3 ∷ 0x92 ∷ [])
    ∷ (0x1ec3, 0xc3 ∷ 0x93 ∷ [])
    ∷ (0x1ec5, 0xc3 ∷ 0x94 ∷ [])
    ∷ (0x1ec7, 0xc3 ∷ 0x96 ∷ [])
    ∷ (0xed, 0xc3 ∷ 0x9d ∷ [])
    ∷ (0xec, 0xc3 ∷ 0x97 ∷ [])
    ∷ (0x1ec9, 0xc3 ∷ 0x98 ∷ [])
    ∷ (0x129, 0xc3 ∷ 0x9c ∷ [])
    ∷ (0x1ecb, 0xc3 ∷ 0x9e ∷ [])
    ∷ (0xf3, 0xc3 ∷ 0xa3 ∷ [])
    ∷ (0xf2, 0xc3 ∷ 0x9f ∷ [])
    ∷ (0x1ecf, 0xc3 ∷ 0xa1 ∷ [])
    ∷ (0xf5, 0xc3 ∷ 0xa2 ∷ [])
    ∷ (0x1ecd, 0xc3 ∷ 0xa4 ∷ [])
    ∷ (0x1ed1, 0xc3 ∷ 0xa8 ∷ [])
    ∷ (0x1ed3, 0xc3 ∷ 0xa5 ∷ [])
    ∷ (0x1ed5, 0xc3 ∷ 0xa6 ∷ [])
    ∷ (0x1ed7, 0xc3 ∷ 0xa7 ∷ [])
    ∷ (0x1ed9, 0xc3 ∷ 0xa9 ∷ [])
    ∷ (0x1edb, 0xc3 ∷ 0xad ∷ [])
    ∷ (0x1edd, 0xc3 ∷ 0xaa ∷ [])
    ∷ (0x1edf, 0xc3 ∷ 0xab ∷ [])
    ∷ (0x1ee1, 0xc3 ∷ 0xac ∷ [])
    ∷ (0x1ee3, 0xc3 ∷ 0xae ∷ [])
    ∷ (0xfa, 0xc3 ∷ 0xb3 ∷ [])
    ∷ (0xf9, 0xc3 ∷ 0xaf ∷ [])
    ∷ (0x1ee7, 0xc3 ∷ 0xb1 ∷ [])
    ∷ (0x169, 0xc3 ∷ 0xb2 ∷ [])
    ∷ (0x1ee5, 0xc3 ∷ 0xb4 ∷ [])
    ∷ (0x1ee9, 0xc3 ∷ 0xb8 ∷ [])
    ∷ (0x1eeb, 0xc3 ∷ 0xb5 ∷ [])
    ∷ (0x1eed, 0xc3 ∷ 0xb6 ∷ [])
    ∷ (0x1eef, 0xc3 ∷ 0xb7 ∷ [])
    ∷ (0x1ef1, 0xc3 ∷ 0xb9 ∷ [])
    ∷ (0xfd, 0xc3 ∷ 0xbd ∷ [])
    ∷ (0x1ef3, 0xc3 ∷ 0xba ∷ [])
    ∷ (0x1ef7, 0xc3 ∷ 0xbb ∷ [])
    ∷ (0x1ef9, 0xc3 ∷ 0xbc ∷ [])
    ∷ (0x1ef5, 0xc3 ∷ 0xbe ∷ [])
    ∷ (0x110, 0xc2 ∷ 0xa7 ∷ [])
    ∷ (0xc2, 0xc2 ∷ 0xa2 ∷ [])
    ∷ (0x102, 0xc2 ∷ 0xa1 ∷ [])
    ∷ (0xca, 0xc2 ∷ 0xa3 ∷ [])
    ∷ (0xd4, 0xc2 ∷ 0xa4 ∷ [])
    ∷ (0x1a0, 0xc2 ∷ 0xa5 ∷ [])
    ∷ (0x1af, 0xc2 ∷ 0xa6 ∷ [])
    ∷ (0xc1, 0xc2 ∷ 0xb8 ∷ [])
    ∷ (0xc0, 0xc2 ∷ 0xb5 ∷ [])
    ∷ (0x1ea2, 0xc2 ∷ 0xb6 ∷ [])
    ∷ (0xc3, 0xc2 ∷ 0xb7 ∷ [])
    ∷ (0x1ea0, 0xc2 ∷ 0xb9 ∷ [])
    ∷ (0x1ea4, 0xc3 ∷ 0x8a ∷ [])
    ∷ (0x1ea6, 0xc3 ∷ 0x87 ∷ [])
    ∷ (0x1ea8, 0xc3 ∷ 0x88 ∷ [])
    ∷ (0x1eaa, 0xc3 ∷ 0x89 ∷ [])
    ∷ (0x1eac, 0xc3 ∷ 0x8b ∷ [])
    ∷ (0x1eae, 0xc2 ∷ 0xbe ∷ [])
    ∷ (0x1eb0, 0xc2 ∷ 0xbb ∷ [])
    ∷ (0x1eb2, 0xc2 ∷ 0xbc ∷ [])
    ∷ (0x1eb4, 0xc2 ∷ 0xbd ∷ [])
    ∷ (0x1eb6, 0xc3 ∷ 0x86 ∷ [])
    ∷ (0xc9, 0xc3 ∷ 0x90 ∷ [])
    ∷ (0xc8, 0xc3 ∷ 0x8c ∷ [])
    ∷ (0x1eba, 0xc3 ∷ 0x8e ∷ [])
    ∷ (0x1ebc, 0xc3 ∷ 0x8f ∷ [])
    ∷ (0x1eb8, 0xc3 ∷ 0x91 ∷ [])
    ∷ (0x1ebe, 0xc3 ∷ 0x95 ∷ [])
    ∷ (0x1ec0, 0xc3 ∷ 0x92 ∷ [])
    ∷ (0x1ec2, 0xc3 ∷ 0x93 ∷ [])
    ∷ (0x1ec4, 0xc3 ∷ 0x94 ∷ [])
    ∷ (0x1ec6, 0xc3 ∷ 0x96 ∷ [])
    ∷ (0xcd, 0xc3 ∷ 0x9d ∷ [])
    ∷ (0xcc, 0xc3 ∷ 0x97 ∷ [])
    ∷ (0x1ec8, 0xc3 ∷ 0x98 ∷ [])
    ∷ (0x128, 0xc3 ∷ 0x9c ∷ [])
    ∷ (0x1eca, 0xc3 ∷ 0x9e ∷ [])
    ∷ (0xd3, 0xc3 ∷ 0xa3 ∷ [])
    ∷ (0xd2, 0xc3 ∷ 0x9f ∷ [])
    ∷ (0x1ece, 0xc3 ∷ 0xa1 ∷ [])
    ∷ (0xd5, 0xc3 ∷ 0xa2 ∷ [])
    ∷ (0x1ecc, 0xc3 ∷ 0xa4 ∷ [])
    ∷ (0x1ed0, 0xc3 ∷ 0xa8 ∷ [])
    ∷ (0x1ed2, 0xc3 ∷ 0xa5 ∷ [])
    ∷ (0x1ed4, 0xc3 ∷ 0xa6 ∷ [])
    ∷ (0x1ed6, 0xc3 ∷ 0xa7 ∷ [])
    ∷ (0x1ed8, 0xc3 ∷ 0xa9 ∷ [])
    ∷ (0x1eda, 0xc3 ∷ 0xad ∷ [])
    ∷ (0x1edc, 0xc3 ∷ 0xaa ∷ [])
    ∷ (0x1ede, 0xc3 ∷ 0xab ∷ [])
    ∷ (0x1ee0, 0xc3 ∷ 0xac ∷ [])
    ∷ (0x1ee2, 0xc3 ∷ 0xae ∷ [])
    ∷ (0xda, 0xc3 ∷ 0xb3 ∷ [])
    ∷ (0xd9, 0xc3 ∷ 0xaf ∷ [])
    ∷ (0x1ee6, 0xc3 ∷ 0xb1 ∷ [])
    ∷ (0x168, 0xc3 ∷ 0xb2 ∷ [])
    ∷ (0x1ee4, 0xc3 ∷ 0xb4 ∷ [])
    ∷ (0x1ee8, 0xc3 ∷ 0xb8 ∷ [])
    ∷ (0x1eea, 0xc3 ∷ 0xb5 ∷ [])
    ∷ (0x1eec, 0xc3 ∷ 0xb6 ∷ [])
    ∷ (0x1eee, 0xc3 ∷ 0xb7 ∷ [])
    ∷ (0x1ef0, 0xc3 ∷ 0xb9 ∷ [])
    ∷ (0xdd, 0xc3 ∷ 0xbd ∷ [])
    ∷ (0x1ef2, 0xc3 ∷ 0xba ∷ [])
    ∷ (0x1ef6, 0xc3 ∷ 0xbb ∷ [])
    ∷ (0x1ef8, 0xc3 ∷ 0xbc ∷ [])
    ∷ (0x1ef4, 0xc3 ∷ 0xbe ∷ [])
    ∷ []
