-- ===== src/Charset/Tables/CStringDecimal.antt =====
-- crates/pinakey-core/src/charset_def.rs: the table of "Unicode C string Decimal".
use pinakey.Base.{[], ◌∷◌, codes}
use pinakey.Charset.Entry.{CharsetEntries}

abbrev pub c_string_decimal : CharsetEntries
c_string_decimal =
    (0x111, codes "\\u273")
    ∷ (0xe2, codes "\\u226")
    ∷ (0x103, codes "\\u259")
    ∷ (0xea, codes "\\u234")
    ∷ (0xf4, codes "\\u244")
    ∷ (0x1a1, codes "\\u417")
    ∷ (0x1b0, codes "\\u432")
    ∷ (0xe1, codes "\\u225")
    ∷ (0xe0, codes "\\u224")
    ∷ (0x1ea3, codes "\\u7843")
    ∷ (0xe3, codes "\\u227")
    ∷ (0x1ea1, codes "\\u7841")
    ∷ (0x1ea5, codes "\\u7845")
    ∷ (0x1ea7, codes "\\u7847")
    ∷ (0x1ea9, codes "\\u7849")
    ∷ (0x1eab, codes "\\u7851")
    ∷ (0x1ead, codes "\\u7853")
    ∷ (0x1eaf, codes "\\u7855")
    ∷ (0x1eb1, codes "\\u7857")
    ∷ (0x1eb3, codes "\\u7859")
    ∷ (0x1eb5, codes "\\u7861")
    ∷ (0x1eb7, codes "\\u7863")
    ∷ (0xe9, codes "\\u233")
    ∷ (0xe8, codes "\\u232")
    ∷ (0x1ebb, codes "\\u7867")
    ∷ (0x1ebd, codes "\\u7869")
    ∷ (0x1eb9, codes "\\u7865")
    ∷ (0x1ebf, codes "\\u7871")
    ∷ (0x1ec1, codes "\\u7873")
    ∷ (0x1ec3, codes "\\u7875")
    ∷ (0x1ec5, codes "\\u7877")
    ∷ (0x1ec7, codes "\\u7879")
    ∷ (0xed, codes "\\u237")
    ∷ (0xec, codes "\\u236")
    ∷ (0x1ec9, codes "\\u7881")
    ∷ (0x129, codes "\\u297")
    ∷ (0x1ecb, codes "\\u7883")
    ∷ (0xf3, codes "\\u243")
    ∷ (0xf2, codes "\\u242")
    ∷ (0x1ecf, codes "\\u7887")
    ∷ (0xf5, codes "\\u245")
    ∷ (0x1ecd, codes "\\u7885")
    ∷ (0x1ed1, codes "\\u7889")
    ∷ (0x1ed3, codes "\\u7891")
    ∷ (0x1ed5, codes "\\u7893")
    ∷ (0x1ed7, codes "\\u7895")
    ∷ (0x1ed9, codes "\\u7897")
    ∷ (0x1edb, codes "\\u7899")
    ∷ (0x1edd, codes "\\u7901")
    ∷ (0x1edf, codes "\\u7903")
    ∷ (0x1ee1, codes "\\u7905")
    ∷ (0x1ee3, codes "\\u7907")
    ∷ (0xfa, codes "\\u250")
    ∷ (0xf9, codes "\\u249")
    ∷ (0x1ee7, codes "\\u7911")
    ∷ (0x169, codes "\\u361")
    ∷ (0x1ee5, codes "\\u7909")
    ∷ (0x1ee9, codes "\\u7913")
    ∷ (0x1eeb, codes "\\u7915")
    ∷ (0x1eed, codes "\\u7917")
    ∷ (0x1eef, codes "\\u7919")
    ∷ (0x1ef1, codes "\\u7921")
    ∷ (0xfd, codes "\\u253")
    ∷ (0x1ef3, codes "\\u7923")
    ∷ (0x1ef7, codes "\\u7927")
    ∷ (0x1ef9, codes "\\u7929")
    ∷ (0x1ef5, codes "\\u7925")
    ∷ (0x110, codes "\\u272")
    ∷ (0xc2, codes "\\u194")
    ∷ (0x102, codes "\\u258")
    ∷ (0xca, codes "\\u202")
    ∷ (0xd4, codes "\\u212")
    ∷ (0x1a0, codes "\\u416")
    ∷ (0x1af, codes "\\u431")
    ∷ (0xc1, codes "\\u193")
    ∷ (0xc0, codes "\\u192")
    ∷ (0x1ea2, codes "\\u7842")
    ∷ (0xc3, codes "\\u195")
    ∷ (0x1ea0, codes "\\u7840")
    ∷ (0x1ea4, codes "\\u7844")
    ∷ (0x1ea6, codes "\\u7846")
    ∷ (0x1ea8, codes "\\u7848")
    ∷ (0x1eaa, codes "\\u7850")
    ∷ (0x1eac, codes "\\u7852")
    ∷ (0x1eae, codes "\\u7854")
    ∷ (0x1eb0, codes "\\u7856")
    ∷ (0x1eb2, codes "\\u7858")
    ∷ (0x1eb4, codes "\\u7860")
    ∷ (0x1eb6, codes "\\u7862")
    ∷ (0xc9, codes "\\u201")
    ∷ (0xc8, codes "\\u200")
    ∷ (0x1eba, codes "\\u7866")
    ∷ (0x1ebc, codes "\\u7868")
    ∷ (0x1eb8, codes "\\u7864")
    ∷ (0x1ebe, codes "\\u7870")
    ∷ (0x1ec0, codes "\\u7872")
    ∷ (0x1ec2, codes "\\u7874")
    ∷ (0x1ec4, codes "\\u7876")
    ∷ (0x1ec6, codes "\\u7878")
    ∷ (0xcd, codes "\\u205")
    ∷ (0xcc, codes "\\u204")
    ∷ (0x1ec8, codes "\\u7880")
    ∷ (0x128, codes "\\u296")
    ∷ (0x1eca, codes "\\u7882")
    ∷ (0xd3, codes "\\u211")
    ∷ (0xd2, codes "\\u210")
    ∷ (0x1ece, codes "\\u7886")
    ∷ (0xd5, codes "\\u213")
    ∷ (0x1ecc, codes "\\u7884")
    ∷ (0x1ed0, codes "\\u7888")
    ∷ (0x1ed2, codes "\\u7890")
    ∷ (0x1ed4, codes "\\u7892")
    ∷ (0x1ed6, codes "\\u7894")
    ∷ (0x1ed8, codes "\\u7896")
    ∷ (0x1eda, codes "\\u7898")
    ∷ (0x1edc, codes "\\u7900")
    ∷ (0x1ede, codes "\\u7902")
    ∷ (0x1ee0, codes "\\u7904")
    ∷ (0x1ee2, codes "\\u7906")
    ∷ (0xda, codes "\\u218")
    ∷ (0xd9, codes "\\u217")
    ∷ (0x1ee6, codes "\\u7910")
    ∷ (0x168, codes "\\u360")
    ∷ (0x1ee4, codes "\\u7908")
    ∷ (0x1ee8, codes "\\u7912")
    ∷ (0x1eea, codes "\\u7914")
    ∷ (0x1eec, codes "\\u7916")
    ∷ (0x1eee, codes "\\u7918")
    ∷ (0x1ef0, codes "\\u7920")
    ∷ (0xdd, codes "\\u221")
    ∷ (0x1ef2, codes "\\u7922")
    ∷ (0x1ef6, codes "\\u7926")
    ∷ (0x1ef8, codes "\\u7928")
    ∷ (0x1ef4, codes "\\u7924")
    ∷ []
