-- ===== src/Charset/Tables/NcrDecimal.antt =====
-- crates/pinakey-core/src/charset_def.rs: the table of "NCR Decimal".
use pinakey.Base.{[], ◌∷◌, codes}
use pinakey.Charset.Entry.{CharsetEntries}

abbrev pub ncr_decimal : CharsetEntries
ncr_decimal =
    (0x111, codes "&#273;")
    ∷ (0xe2, codes "&#226;")
    ∷ (0x103, codes "&#259;")
    ∷ (0xea, codes "&#234;")
    ∷ (0xf4, codes "&#244;")
    ∷ (0x1a1, codes "&#417;")
    ∷ (0x1b0, codes "&#432;")
    ∷ (0xe1, codes "&#225;")
    ∷ (0xe0, codes "&#224;")
    ∷ (0x1ea3, codes "&#7843;")
    ∷ (0xe3, codes "&#227;")
    ∷ (0x1ea1, codes "&#7841;")
    ∷ (0x1ea5, codes "&#7845;")
    ∷ (0x1ea7, codes "&#7847;")
    ∷ (0x1ea9, codes "&#7849;")
    ∷ (0x1eab, codes "&#7851;")
    ∷ (0x1ead, codes "&#7853;")
    ∷ (0x1eaf, codes "&#7855;")
    ∷ (0x1eb1, codes "&#7857;")
    ∷ (0x1eb3, codes "&#7859;")
    ∷ (0x1eb5, codes "&#7861;")
    ∷ (0x1eb7, codes "&#7863;")
    ∷ (0xe9, codes "&#233;")
    ∷ (0xe8, codes "&#232;")
    ∷ (0x1ebb, codes "&#7867;")
    ∷ (0x1ebd, codes "&#7869;")
    ∷ (0x1eb9, codes "&#7865;")
    ∷ (0x1ebf, codes "&#7871;")
    ∷ (0x1ec1, codes "&#7873;")
    ∷ (0x1ec3, codes "&#7875;")
    ∷ (0x1ec5, codes "&#7877;")
    ∷ (0x1ec7, codes "&#7879;")
    ∷ (0xed, codes "&#237;")
    ∷ (0xec, codes "&#236;")
    ∷ (0x1ec9, codes "&#7881;")
    ∷ (0x129, codes "&#297;")
    ∷ (0x1ecb, codes "&#7883;")
    ∷ (0xf3, codes "&#243;")
    ∷ (0xf2, codes "&#242;")
    ∷ (0x1ecf, codes "&#7887;")
    ∷ (0xf5, codes "&#245;")
    ∷ (0x1ecd, codes "&#7885;")
    ∷ (0x1ed1, codes "&#7889;")
    ∷ (0x1ed3, codes "&#7891;")
    ∷ (0x1ed5, codes "&#7893;")
    ∷ (0x1ed7, codes "&#7895;")
    ∷ (0x1ed9, codes "&#7897;")
    ∷ (0x1edb, codes "&#7899;")
    ∷ (0x1edd, codes "&#7901;")
    ∷ (0x1edf, codes "&#7903;")
    ∷ (0x1ee1, codes "&#7905;")
    ∷ (0x1ee3, codes "&#7907;")
    ∷ (0xfa, codes "&#250;")
    ∷ (0xf9, codes "&#249;")
    ∷ (0x1ee7, codes "&#7911;")
    ∷ (0x169, codes "&#361;")
    ∷ (0x1ee5, codes "&#7909;")
    ∷ (0x1ee9, codes "&#7913;")
    ∷ (0x1eeb, codes "&#7915;")
    ∷ (0x1eed, codes "&#7917;")
    ∷ (0x1eef, codes "&#7919;")
    ∷ (0x1ef1, codes "&#7921;")
    ∷ (0xfd, codes "&#253;")
    ∷ (0x1ef3, codes "&#7923;")
    ∷ (0x1ef7, codes "&#7927;")
    ∷ (0x1ef9, codes "&#7929;")
    ∷ (0x1ef5, codes "&#7925;")
    ∷ (0x110, codes "&#272;")
    ∷ (0xc2, codes "&#194;")
    ∷ (0x102, codes "&#258;")
    ∷ (0xca, codes "&#202;")
    ∷ (0xd4, codes "&#212;")
    ∷ (0x1a0, codes "&#416;")
    ∷ (0x1af, codes "&#431;")
    ∷ (0xc1, codes "&#193;")
    ∷ (0xc0, codes "&#192;")
    ∷ (0x1ea2, codes "&#7842;")
    ∷ (0xc3, codes "&#195;")
    ∷ (0x1ea0, codes "&#7840;")
    ∷ (0x1ea4, codes "&#7844;")
    ∷ (0x1ea6, codes "&#7846;")
    ∷ (0x1ea8, codes "&#7848;")
    ∷ (0x1eaa, codes "&#7850;")
    ∷ (0x1eac, codes "&#7852;")
    ∷ (0x1eae, codes "&#7854;")
    ∷ (0x1eb0, codes "&#7856;")
    ∷ (0x1eb2, codes "&#7858;")
    ∷ (0x1eb4, codes "&#7860;")
    ∷ (0x1eb6, codes "&#7862;")
    ∷ (0xc9, codes "&#201;")
    ∷ (0xc8, codes "&#200;")
    ∷ (0x1eba, codes "&#7866;")
    ∷ (0x1ebc, codes "&#7868;")
    ∷ (0x1eb8, codes "&#7864;")
    ∷ (0x1ebe, codes "&#7870;")
    ∷ (0x1ec0, codes "&#7872;")
    ∷ (0x1ec2, codes "&#7874;")
    ∷ (0x1ec4, codes "&#7876;")
    ∷ (0x1ec6, codes "&#7878;")
    ∷ (0xcd, codes "&#205;")
    ∷ (0xcc, codes "&#204;")
    ∷ (0x1ec8, codes "&#7880;")
    ∷ (0x128, codes "&#296;")
    ∷ (0x1eca, codes "&#7882;")
    ∷ (0xd3, codes "&#211;")
    ∷ (0xd2, codes "&#210;")
    ∷ (0x1ece, codes "&#7886;")
    ∷ (0xd5, codes "&#213;")
    ∷ (0x1ecc, codes "&#7884;")
    ∷ (0x1ed0, codes "&#7888;")
    ∷ (0x1ed2, codes "&#7890;")
    ∷ (0x1ed4, codes "&#7892;")
    ∷ (0x1ed6, codes "&#7894;")
    ∷ (0x1ed8, codes "&#7896;")
    ∷ (0x1eda, codes "&#7898;")
    ∷ (0x1edc, codes "&#7900;")
    ∷ (0x1ede, codes "&#7902;")
    ∷ (0x1ee0, codes "&#7904;")
    ∷ (0x1ee2, codes "&#7906;")
    ∷ (0xda, codes "&#218;")
    ∷ (0xd9, codes "&#217;")
    ∷ (0x1ee6, codes "&#7910;")
    ∷ (0x168, codes "&#360;")
    ∷ (0x1ee4, codes "&#7908;")
    ∷ (0x1ee8, codes "&#7912;")
    ∷ (0x1eea, codes "&#7914;")
    ∷ (0x1eec, codes "&#7916;")
    ∷ (0x1eee, codes "&#7918;")
    ∷ (0x1ef0, codes "&#7920;")
    ∷ (0xdd, codes "&#221;")
    ∷ (0x1ef2, codes "&#7922;")
    ∷ (0x1ef6, codes "&#7926;")
    ∷ (0x1ef8, codes "&#7928;")
    ∷ (0x1ef4, codes "&#7924;")
    ∷ []
