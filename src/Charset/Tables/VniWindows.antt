-- ===== src/Charset/Tables/VniWindows.antt =====
-- crates/pinakey-core/src/charset_def.rs: the table of "VNI Windows".
use pinakey.Base.{[], ◌∷◌}
use pinakey.Charset.Entry.{CharsetEntries}

abbrev pub vni_windows : CharsetEntries
vni_windows =
    (0x111, 0xc3 ∷ 0xb1 ∷ [])
    ∷ (0xe2, 0x61 ∷ 0xc3 ∷ 0xa2 ∷ [])
    ∷ (0x103, 0x61 ∷ 0xc3 ∷ 0xaa ∷ [])
    ∷ (0xea, 0x65 ∷ 0xc3 ∷ 0xa2 ∷ [])
    ∷ (0xf4, 0x6f ∷ 0xc3 ∷ 0xa2 ∷ [])
    ∷ (0x1a1, 0xc3 ∷ 0xb4 ∷ [])
    ∷ (0x1b0, 0xc3 ∷ 0xb6 ∷ [])
    ∷ (0xe1, 0x61 ∷ 0xc3 ∷ 0xb9 ∷ [])
    ∷ (0xe0, 0x61 ∷ 0xc3 ∷ 0xb8 ∷ [])
    ∷ (0x1ea3, 0x61 ∷ 0xc3 ∷ 0xbb ∷ [])
    ∷ (0xe3, 0x61 ∷ 0xc3 ∷ 0xb5 ∷ [])
    ∷ (0x1ea1, 0x61 ∷ 0xc3 ∷ 0xaf ∷ [])
    ∷ (0x1ea5, 0x61 ∷ 0xc3 ∷ 0xa1 ∷ [])
    ∷ (0x1ea7, 0x61 ∷ 0xc3 ∷ 0xa0 ∷ [])
    ∷ (0x1ea9, 0x61 ∷ 0xc3 ∷ 0xa5 ∷ [])
    ∷ (0x1eab, 0x61 ∷ 0xc3 ∷ 0xa3 ∷ [])
    ∷ (0x1ead, 0x61 ∷ 0xc3 ∷ 0xa4 ∷ [])
    ∷ (0x1eaf, 0x61 ∷ 0xc3 ∷ 0xa9 ∷ [])
    ∷ (0x1eb1, 0x61 ∷ 0xc3 ∷ 0xa8 ∷ [])
    ∷ (0x1eb3, 0x61 ∷ 0xc3 ∷ 0xba ∷ [])
    ∷ (0x1eb5, 0x61 ∷ 0xc3 ∷ 0xbc ∷ [])
    ∷ (0x1eb7, 0x61 ∷ 0xc3 ∷ 0xab ∷ [])
    ∷ (0xe9, 0x65 ∷ 0xc3 ∷ 0xb9 ∷ [])
    ∷ (0xe8, 0x65 ∷ 0xc3 ∷ 0xb8 ∷ [])
    ∷ (0x1ebb, 0x65 ∷ 0xc3 ∷ 0xbb ∷ [])
    ∷ (0x1ebd, 0x65 ∷ 0xc3 ∷ 0xb5 ∷ [])
    ∷ (0x1eb9, 0x65 ∷ 0xc3 ∷ 0xaf ∷ [])
    ∷ (0x1ebf, 0x65 ∷ 0xc3 ∷ 0xa1 ∷ [])
    ∷ (0x1ec1, 0x65 ∷ 0xc3 ∷ 0xa0 ∷ [])
    ∷ (0x1ec3, 0x65 ∷ 0xc3 ∷ 0xa5 ∷ [])
    ∷ (0x1ec5, 0x65 ∷ 0xc3 ∷ 0xa3 ∷ [])
    ∷ (0x1ec7, 0x65 ∷ 0xc3 ∷ 0xa4 ∷ [])
    ∷ (0xed, 0xc3 ∷ 0xad ∷ [])
    ∷ (0xec, 0xc3 ∷ 0xac ∷ [])
    ∷ (0x1ec9, 0xc3 ∷ 0xa6 ∷ [])
    ∷ (0x129, 0xc3 ∷ 0xb3 ∷ [])
    ∷ (0x1ecb, 0xc3 ∷ 0xb2 ∷ [])
    ∷ (0xf3, 0x6f ∷ 0xc3 ∷ 0xb9 ∷ [])
    ∷ (0xf2, 0x6f ∷ 0xc3 ∷ 0xb8 ∷ [])
    ∷ (0x1ecf, 0x6f ∷ 0xc3 ∷ 0xbb ∷ [])
    ∷ (0xf5, 0x6f ∷ 0xc3 ∷ 0xb5 ∷ [])
    ∷ (0x1ecd, 0x6f ∷ 0xc3 ∷ 0xaf ∷ [])
    ∷ (0x1ed1, 0x6f ∷ 0xc3 ∷ 0xa1 ∷ [])
    ∷ (0x1ed3, 0x6f ∷ 0xc3 ∷ 0xa0 ∷ [])
    ∷ (0x1ed5, 0x6f ∷ 0xc3 ∷ 0xa5 ∷ [])
    ∷ (0x1ed7, 0x6f ∷ 0xc3 ∷ 0xa3 ∷ [])
    ∷ (0x1ed9, 0x6f ∷ 0xc3 ∷ 0xa4 ∷ [])
    ∷ (0x1edb, 0xc3 ∷ 0xb4 ∷ 0xc3 ∷ 0xb9 ∷ [])
    ∷ (0x1edd, 0xc3 ∷ 0xb4 ∷ 0xc3 ∷ 0xb8 ∷ [])
    ∷ (0x1edf, 0xc3 ∷ 0xb4 ∷ 0xc3 ∷ 0xbb ∷ [])
    ∷ (0x1ee1, 0xc3 ∷ 0xb4 ∷ 0xc3 ∷ 0xb5 ∷ [])
    ∷ (0x1ee3, 0xc3 ∷ 0xb4 ∷ 0xc3 ∷ 0xaf ∷ [])
    ∷ (0xfa, 0x75 ∷ 0xc3 ∷ 0xb9 ∷ [])
    ∷ (0xf9, 0x75 ∷ 0xc3 ∷ 0xb8 ∷ [])
    ∷ (0x1ee7, 0x75 ∷ 0xc3 ∷ 0xbb ∷ [])
    ∷ (0x169, 0x75 ∷ 0xc3 ∷ 0xb5 ∷ [])
    ∷ (0x1ee5, 0x75 ∷ 0xc3 ∷ 0xaf ∷ [])
    ∷ (0x1ee9, 0xc3 ∷ 0xb6 ∷ 0xc3 ∷ 0xb9 ∷ [])
    ∷ (0x1eeb, 0xc3 ∷ 0xb6 ∷ 0xc3 ∷ 0xb8 ∷ [])
    ∷ (0x1eed, 0xc3 ∷ 0xb6 ∷ 0xc3 ∷ 0xbb ∷ [])
    ∷ (0x1eef, 0xc3 ∷ 0xb6 ∷ 0xc3 ∷ 0xb5 ∷ [])
    ∷ (0x1ef1, 0xc3 ∷ 0xb6 ∷ 0xc3 ∷ 0xaf ∷ [])
    ∷ (0xfd, 0x79 ∷ 0xc3 ∷ 0xb9 ∷ [])
    ∷ (0x1ef3, 0x79 ∷ 0xc3 ∷ 0xb8 ∷ [])
    ∷ (0x1ef7, 0x79 ∷ 0xc3 ∷ 0xbb ∷ [])
    ∷ (0x1ef9, 0x79 ∷ 0xc3 ∷ 0xb5 ∷ [])
    ∷ (0x1ef5, 0xc3 ∷ 0xae ∷ [])
    ∷ (0x110, 0xc3 ∷ 0x91 ∷ [])
    ∷ (0xc2, 0x41 ∷ 0xc3 ∷ 0x82 ∷ [])
    ∷ (0x102, 0x41 ∷ 0xc3 ∷ 0x8a ∷ [])
    ∷ (0xca, 0x45 ∷ 0xc3 ∷ 0x82 ∷ [])
    ∷ (0xd4, 0x4f ∷ 0xc3 ∷ 0x82 ∷ [])
    ∷ (0x1a0, 0xc3 ∷ 0x94 ∷ [])
    ∷ (0x1af, 0xc3 ∷ 0x96 ∷ [])
    ∷ (0xc1, 0x41 ∷ 0xc3 ∷ 0x99 ∷ [])
    ∷ (0xc0, 0x41 ∷ 0xc3 ∷ 0x98 ∷ [])
    ∷ (0x1ea2, 0x41 ∷ 0xc3 ∷ 0x9b ∷ [])
    ∷ (0xc3, 0x41 ∷ 0xc3 ∷ 0x95 ∷ [])
    ∷ (0x1ea0, 0x41 ∷ 0xc3 ∷ 0x8f ∷ [])
    ∷ (0x1ea4, 0x41 ∷ 0xc3 ∷ 0x81 ∷ [])
    ∷ (0x1ea6, 0x41 ∷ 0xc3 ∷ 0x80 ∷ [])
    ∷ (0x1ea8, 0x41 ∷ 0xc3 ∷ 0x85 ∷ [])
    ∷ (0x1eaa, 0x41 ∷ 0xc3 ∷ 0x83 ∷ [])
    ∷ (0x1eac, 0x41 ∷ 0xc3 ∷ 0x84 ∷ [])
    ∷ (0x1eae, 0x41 ∷ 0xc3 ∷ 0x89 ∷ [])
    ∷ (0x1eb0, 0x41 ∷ 0xc3 ∷ 0x88 ∷ [])
    ∷ (0x1eb2, 0x41 ∷ 0xc3 ∷ 0x9a ∷ [])
    ∷ (0x1eb4, 0x41 ∷ 0xc3 ∷ 0x9c ∷ [])
    ∷ (0x1eb6, 0x41 ∷ 0xc3 ∷ 0x8b ∷ [])
    ∷ (0xc9, 0x45 ∷ 0xc3 ∷ 0x99 ∷ [])
    ∷ (0xc8, 0x45 ∷ 0xc3 ∷ 0x98 ∷ [])
    ∷ (0x1eba, 0x45 ∷ 0xc3 ∷ 0x9b ∷ [])
    ∷ (0x1ebc, 0x45 ∷ 0xc3 ∷ 0x95 ∷ [])
    ∷ (0x1eb8, 0x45 ∷ 0xc3 ∷ 0x8f ∷ [])
    ∷ (0x1ebe, 0x45 ∷ 0xc3 ∷ 0x81 ∷ [])
    ∷ (0x1ec0, 0x45 ∷ 0xc3 ∷ 0x80 ∷ [])
    ∷ (0x1ec2, 0x45 ∷ 0xc3 ∷ 0x85 ∷ [])
    ∷ (0x1ec4, 0x45 ∷ 0xc3 ∷ 0x83 ∷ [])
    ∷ (0x1ec6, 0x45 ∷ 0xc3 ∷ 0x84 ∷ [])
    ∷ (0xcd, 0xc3 ∷ 0x8d ∷ [])
    ∷ (0xcc, 0xc3 ∷ 0x8c ∷ [])
    ∷ (0x1ec8, 0xc3 ∷ 0x86 ∷ [])
    ∷ (0x128, 0xc3 ∷ 0x93 ∷ [])
    ∷ (0x1eca, 0xc3 ∷ 0x92 ∷ [])
    ∷ (0xd3, 0x4f ∷ 0xc3 ∷ 0x99 ∷ [])
    ∷ (0xd2, 0x4f ∷ 0xc3 ∷ 0x98 ∷ [])
    ∷ (0x1ece, 0x4f ∷ 0xc3 ∷ 0x9b ∷ [])
    ∷ (0xd5, 0x4f ∷ 0xc3 ∷ 0x95 ∷ [])
    ∷ (0x1ecc, 0x4f ∷ 0xc3 ∷ 0x8f ∷ [])
    ∷ (0x1ed0, 0x4f ∷ 0xc3 ∷ 0x81 ∷ [])
    ∷ (0x1ed2, 0x4f ∷ 0xc3 ∷ 0x80 ∷ [])
    ∷ (0x1ed4, 0x4f ∷ 0xc3 ∷ 0x85 ∷ [])
    ∷ (0x1ed6, 0x4f ∷ 0xc3 ∷ 0x83 ∷ [])
    ∷ (0x1ed8, 0x4f ∷ 0xc3 ∷ 0x84 ∷ [])
    ∷ (0x1eda, 0xc3 ∷ 0x94 ∷ 0xc3 ∷ 0x99 ∷ [])
    ∷ (0x1edc, 0xc3 ∷ 0x94 ∷ 0xc3 ∷ 0x98 ∷ [])
    ∷ (0x1ede, 0xc3 ∷ 0x94 ∷ 0xc3 ∷ 0x9b ∷ [])
    ∷ (0x1ee0, 0xc3 ∷ 0x94 ∷ 0xc3 ∷ 0x95 ∷ [])
    ∷ (0x1ee2, 0xc3 ∷ 0x94 ∷ 0xc3 ∷ 0x8f ∷ [])
    ∷ (0xda, 0x55 ∷ 0xc3 ∷ 0x99 ∷ [])
    ∷ (0xd9, 0x55 ∷ 0xc3 ∷ 0x98 ∷ [])
    ∷ (0x1ee6, 0x55 ∷ 0xc3 ∷ 0x9b ∷ [])
    ∷ (0x168, 0x55 ∷ 0xc3 ∷ 0x95 ∷ [])
    ∷ (0x1ee4, 0x55 ∷ 0xc3 ∷ 0x8f ∷ [])
    ∷ (0x1ee8, 0xc3 ∷ 0x96 ∷ 0xc3 ∷ 0x99 ∷ [])
    ∷ (0x1eea, 0xc3 ∷ 0x96 ∷ 0xc3 ∷ 0x98 ∷ [])
    ∷ (0x1eec, 0xc3 ∷ 0x96 ∷ 0xc3 ∷ 0x9b ∷ [])
    ∷ (0x1eee, 0xc3 ∷ 0x96 ∷ 0xc3 ∷ 0x95 ∷ [])
    ∷ (0x1ef0, 0xc3 ∷ 0x96 ∷ 0xc3 ∷ 0x8f ∷ [])
    ∷ (0xdd, 0x59 ∷ 0xc3 ∷ 0x99 ∷ [])
    ∷ (0x1ef2, 0x59 ∷ 0xc3 ∷ 0x98 ∷ [])
    ∷ (0x1ef6, 0x59 ∷ 0xc3 ∷ 0x9b ∷ [])
    ∷ (0x1ef8, 0x59 ∷ 0xc3 ∷ 0x95 ∷ [])
    ∷ (0x1ef4, 0xc3 ∷ 0x8e ∷ [])
    ∷ []
