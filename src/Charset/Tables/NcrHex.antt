-- ===== src/Charset/Tables/NcrHex.antt =====
-- crates/pinakey-core/src/charset_def.rs: the table of "NCR Hex".
use pinakey.Base.{[], ◌∷◌, codes}
use pinakey.Charset.Entry.{CharsetEntries}

abbrev pub ncr_hex : CharsetEntries
ncr_hex =
    (0x111, codes "&#x111;")
    ∷ (0x103, codes "&#x103;")
    ∷ (0x1a1, codes "&#x1A1;")
    ∷ (0x1b0, codes "&#x1B0;")
    ∷ (0x1ea3, codes "&#x1EA3;")
    ∷ (0x1ea1, codes "&#x1EA1;")
    ∷ (0x1ea5, codes "&#x1EA5;")
    ∷ (0x1ea7, codes "&#x1EA7;")
    ∷ (0x1ea9, codes "&#x1EA9;")
    ∷ (0x1eab, codes "&#x1EAB;")
    ∷ (0x1ead, codes "&#x1EAD;")
    ∷ (0x1eaf, codes "&#x1EAF;")
    ∷ (0x1eb1, codes "&#x1EB1;")
    ∷ (0x1eb3, codes "&#x1EB3;")
    ∷ (0x1eb5, codes "&#x1EB5;")
    ∷ (0x1eb7, codes "&#x1EB7;")
    ∷ (0x1ebb, codes "&#x1EBB;")
    ∷ (0x1ebd, codes "&#x1EBD;")
    ∷ (0x1eb9, codes "&#x1EB9;")
    ∷ (0x1ebf, codes "&#x1EBF;")
    ∷ (0x1ec1, codes "&#x1EC1;")
    ∷ (0x1ec3, codes "&#x1EC3;")
    ∷ (0x1ec5, codes "&#x1EC5;")
    ∷ (0x1ec7, codes "&#x1EC7;")
    ∷ (0x1ec9, codes "&#x1EC9;")
    ∷ (0x129, codes "&#x129;")
    ∷ (0x1ecb, codes "&#x1ECB;")
    ∷ (0x1ecf, codes "&#x1ECF;")
    ∷ (0x1ecd, codes "&#x1ECD;")
    ∷ (0x1ed1, codes "&#x1ED1;")
    ∷ (0x1ed3, codes "&#x1ED3;")
    ∷ (0x1ed5, codes "&#x1ED5;")
    ∷ (0x1ed7, codes "&#x1ED7;")
    ∷ (0x1ed9, codes "&#x1ED9;")
    ∷ (0x1edb, codes "&#x1EDB;")
    ∷ (0x1edd, codes "&#x1EDD;")
    ∷ (0x1edf, codes "&#x1EDF;")
    ∷ (0x1ee1, codes "&#x1EE1;")
    ∷ (0x1ee3, codes "&#x1EE3;")
    ∷ (0x1ee7, codes "&#x1EE7;")
    ∷ (0x169, codes "&#x169;")
    ∷ (0x1ee5, codes "&#x1EE5;")
    ∷ (0x1ee9, codes "&#x1EE9;")
    ∷ (0x1eeb, codes "&#x1EEB;")
    ∷ (0x1eed, codes "&#x1EED;")
    ∷ (0x1eef, codes "&#x1EEF;")
    ∷ (0x1ef1, codes "&#x1EF1;")
    ∷ (0x1ef3, codes "&#x1EF3;")
    ∷ (0x1ef7, codes "&#x1EF7;")
    ∷ (0x1ef9, codes "&#x1EF9;")
    ∷ (0x1ef5, codes "&#x1EF5;")
    ∷ (0x110, codes "&#x110;")
    ∷ (0x102, codes "&#x102;")
    ∷ (0x1a0, codes "&#x1A0;")
    ∷ (0x1af, codes "&#x1AF;")
    ∷ (0x1ea2, codes "&#x1EA2;")
    ∷ (0x1ea0, codes "&#x1EA0;")
    ∷ (0x1ea4, codes "&#x1EA4;")
    ∷ (0x1ea6, codes "&#x1EA6;")
    ∷ (0x1ea8, codes "&#x1EA8;")
    ∷ (0x1eaa, codes "&#x1EAA;")
    ∷ (0x1eac, codes "&#x1EAC;")
    ∷ (0x1eae, codes "&#x1EAE;")
    ∷ (0x1eb0, codes "&#x1EB0;")
    ∷ (0x1eb2, codes "&#x1EB2;")
    ∷ (0x1eb4, codes "&#x1EB4;")
    ∷ (0x1eb6, codes "&#x1EB6;")
    ∷ (0x1eba, codes "&#x1EBA;")
    ∷ (0x1ebc, codes "&#x1EBC;")
    ∷ (0x1eb8, codes "&#x1EB8;")
    ∷ (0x1ebe, codes "&#x1EBE;")
    ∷ (0x1ec0, codes "&#x1EC0;")
    ∷ (0x1ec2, codes "&#x1EC2;")
    ∷ (0x1ec4, codes "&#x1EC4;")
    ∷ (0x1ec6, codes "&#x1EC6;")
    ∷ (0x1ec8, codes "&#x1EC8;")
    ∷ (0x128, codes "&#x128;")
    ∷ (0x1eca, codes "&#x1ECA;")
    ∷ (0x1ece, codes "&#x1ECE;")
    ∷ (0x1ecc, codes "&#x1ECC;")
    ∷ (0x1ed0, codes "&#x1ED0;")
    ∷ (0x1ed2, codes "&#x1ED2;")
    ∷ (0x1ed4, codes "&#x1ED4;")
    ∷ (0x1ed6, codes "&#x1ED6;")
    ∷ (0x1ed8, codes "&#x1ED8;")
    ∷ (0x1eda, codes "&#x1EDA;")
    ∷ (0x1edc, codes "&#x1EDC;")
    ∷ (0x1ede, codes "&#x1EDE;")
    ∷ (0x1ee0, codes "&#x1EE0;")
    ∷ (0x1ee2, codes "&#x1EE2;")
    ∷ (0x1ee6, codes "&#x1EE6;")
    ∷ (0x168, codes "&#x168;")
    ∷ (0x1ee4, codes "&#x1EE4;")
    ∷ (0x1ee8, codes "&#x1EE8;")
    ∷ (0x1eea, codes "&#x1EEA;")
    ∷ (0x1eec, codes "&#x1EEC;")
    ∷ (0x1eee, codes "&#x1EEE;")
    ∷ (0x1ef0, codes "&#x1EF0;")
    ∷ (0x1ef2, codes "&#x1EF2;")
    ∷ (0x1ef6, codes "&#x1EF6;")
    ∷ (0x1ef8, codes "&#x1EF8;")
    ∷ (0x1ef4, codes "&#x1EF4;")
    ∷ []
