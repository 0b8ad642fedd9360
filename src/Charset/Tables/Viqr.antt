-- ===== src/Charset/Tables/Viqr.antt =====
-- crates/pinakey-core/src/charset_def.rs: the table of "VIQR".
use pinakey.Base.{[], ◌∷◌, codes}
use pinakey.Charset.Entry.{CharsetEntries}

abbrev pub viqr : CharsetEntries
viqr =
    (0x111, codes "dd")
    ∷ (0xe2, codes "a^")
    ∷ (0x103, codes "a(")
    ∷ (0xea, codes "e^")
    ∷ (0xf4, codes "o^")
    ∷ (0x1a1, codes "o+")
    ∷ (0x1b0, codes "u+")
    ∷ (0xe1, codes "a'")
    ∷ (0xe0, codes "a`")
    ∷ (0x1ea3, codes "a?")
    ∷ (0xe3, codes "a~")
    ∷ (0x1ea1, codes "a.")
    ∷ (0x1ea5, codes "a^'")
    ∷ (0x1ea7, codes "a^`")
    ∷ (0x1ea9, codes "a^?")
    ∷ (0x1eab, codes "a^~")
    ∷ (0x1ead, codes "a^.")
    ∷ (0x1eaf, codes "a('")
    ∷ (0x1eb1, codes "a(`")
    ∷ (0x1eb3, codes "a(?")
    ∷ (0x1eb5, codes "a(~")
    ∷ (0x1eb7, codes "a(.")
    ∷ (0xe9, codes "e'")
    ∷ (0xe8, codes "e`")
    ∷ (0x1ebb, codes "e?")
    ∷ (0x1ebd, codes "e~")
    ∷ (0x1eb9, codes "e.")
    ∷ (0x1ebf, codes "e^'")
    ∷ (0x1ec1, codes "e^`")
    ∷ (0x1ec3, codes "e^?")
    ∷ (0x1ec5, codes "e^~")
    ∷ (0x1ec7, codes "e^.")
    ∷ (0xed, codes "i'")
    ∷ (0xec, codes "i`")
    ∷ (0x1ec9, codes "i?")
    ∷ (0x129, codes "i~")
    ∷ (0x1ecb, codes "i.")
    ∷ (0xf3, codes "o'")
    ∷ (0xf2, codes "o`")
    ∷ (0x1ecf, codes "o?")
    ∷ (0xf5, codes "o~")
    ∷ (0x1ecd, codes "o.")
    ∷ (0x1ed1, codes "o^'")
    ∷ (0x1ed3, codes "o^`")
    ∷ (0x1ed5, codes "o^?")
    ∷ (0x1ed7, codes "o^~")
    ∷ (0x1ed9, codes "o^.")
    ∷ (0x1edb, codes "o+'")
    ∷ (0x1edd, codes "o+`")
    ∷ (0x1edf, codes "o+?")
    ∷ (0x1ee1, codes "o+~")
    ∷ (0x1ee3, codes "o+.")
    ∷ (0xfa, codes "u'")
    ∷ (0xf9, codes "u`")
    ∷ (0x1ee7, codes "u?")
    ∷ (0x169, codes "u~")
    ∷ (0x1ee5, codes "u.")
    ∷ (0x1ee9, codes "u+'")
    ∷ (0x1eeb, codes "u+`")
    ∷ (0x1eed, codes "u+?")
    ∷ (0x1eef, codes "u+~")
    ∷ (0x1ef1, codes "u+.")
    ∷ (0xfd, codes "y'")
    ∷ (0x1ef3, codes "y`")
    ∷ (0x1ef7, codes "y?")
    ∷ (0x1ef9, codes "y~")
    ∷ (0x1ef5, codes "y.")
    ∷ (0x110, codes "DD")
    ∷ (0xc2, codes "A^")
    ∷ (0x102, codes "A(")
    ∷ (0xca, codes "E^")
    ∷ (0xd4, codes "O^")
    ∷ (0x1a0, codes "O+")
    ∷ (0x1af, codes "U+")
    ∷ (0xc1, codes "A'")
    ∷ (0xc0, codes "A`")
    ∷ (0x1ea2, codes "A?")
    ∷ (0xc3, codes "A~")
    ∷ (0x1ea0, codes "A.")
    ∷ (0x1ea4, codes "A^'")
    ∷ (0x1ea6, codes "A^`")
    ∷ (0x1ea8, codes "A^?")
    ∷ (0x1eaa, codes "A^~")
    ∷ (0x1eac, codes "A^.")
    ∷ (0x1eae, codes "A('")
    ∷ (0x1eb0, codes "A(`")
    ∷ (0x1eb2, codes "A(?")
    ∷ (0x1eb4, codes "A(~")
    ∷ (0x1eb6, codes "A(.")
    ∷ (0xc9, codes "E'")
    ∷ (0xc8, codes "E`")
    ∷ (0x1eba, codes "E?")
    ∷ (0x1ebc, codes "E~")
    ∷ (0x1eb8, codes "E.")
    ∷ (0x1ebe, codes "E^'")
    ∷ (0x1ec0, codes "E^`")
    ∷ (0x1ec2, codes "E^?")
    ∷ (0x1ec4, codes "E^~")
    ∷ (0x1ec6, codes "E^.")
    ∷ (0xcd, codes "I'")
    ∷ (0xcc, codes "I`")
    ∷ (0x1ec8, codes "I?")
    ∷ (0x128, codes "I~")
    ∷ (0x1eca, codes "I.")
    ∷ (0xd3, codes "O'")
    ∷ (0xd2, codes "O`")
    ∷ (0x1ece, codes "O?")
    ∷ (0xd5, codes "O~")
    ∷ (0x1ecc, codes "O.")
    ∷ (0x1ed0, codes "O^'")
    ∷ (0x1ed2, codes "O^`")
    ∷ (0x1ed4, codes "O^?")
    ∷ (0x1ed6, codes "O^~")
    ∷ (0x1ed8, codes "O^.")
    ∷ (0x1eda, codes "O+'")
    ∷ (0x1edc, codes "O+`")
    ∷ (0x1ede, codes "O+?")
    ∷ (0x1ee0, codes "O+~")
    ∷ (0x1ee2, codes "O+.")
    ∷ (0xda, codes "U'")
    ∷ (0xd9, codes "U`")
    ∷ (0x1ee6, codes "U?")
    ∷ (0x168, codes "U~")
    ∷ (0x1ee4, codes "U.")
    ∷ (0x1ee8, codes "U+'")
    ∷ (0x1eea, codes "U+`")
    ∷ (0x1eec, codes "U+?")
    ∷ (0x1eee, codes "U+~")
    ∷ (0x1ef0, codes "U+.")
    ∷ (0xdd, codes "Y'")
    ∷ (0x1ef2, codes "Y`")
    ∷ (0x1ef6, codes "Y?")
    ∷ (0x1ef8, codes "Y~")
    ∷ (0x1ef4, codes "Y.")
    ∷ []
