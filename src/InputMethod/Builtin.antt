-- ===== src/InputMethod/Builtin.antt =====
-- crates/pinakey-core/src/input_method_def.rs: the built-in input methods, as the source's table of
-- `(key, line)` pairs.
use pinakey.Base.{Bool, List, [], ◌∷◌, codes, Text, text_eq}

abbrev pub simple_telex : Text
simple_telex = codes "Telex (đơn giản)"

unfoldable pub is_simple_telex : Text → Bool
unfolding text_eq
is_simple_telex name = text_eq name simple_telex

abbrev pub telex : List (Text × Text)
telex =
    (codes "z", codes "XoaDauThanh")
    ∷ (codes "s", codes "DauSac")
    ∷ (codes "f", codes "DauHuyen")
    ∷ (codes "r", codes "DauHoi")
    ∷ (codes "x", codes "DauNga")
    ∷ (codes "j", codes "DauNang")
    ∷ (codes "a", codes "A_Â")
    ∷ (codes "e", codes "E_Ê")
    ∷ (codes "o", codes "O_Ô")
    ∷ (codes "w", codes "UOA_ƯƠĂ")
    ∷ (codes "d", codes "D_Đ")
    ∷ []

abbrev pub simple_telex_lines : List (Text × Text)
simple_telex_lines =
    (codes "z", codes "XoaDauThanh")
    ∷ (codes "s", codes "DauSac")
    ∷ (codes "f", codes "DauHuyen")
    ∷ (codes "r", codes "DauHoi")
    ∷ (codes "x", codes "DauNga")
    ∷ (codes "j", codes "DauNang")
    ∷ (codes "a", codes "A_Â")
    ∷ (codes "e", codes "E_Ê")
    ∷ (codes "o", codes "O_Ô")
    ∷ (codes "w", codes "UOA_ƯƠĂ")
    ∷ (codes "d", codes "D_Đ")
    ∷ []

abbrev pub vni : List (Text × Text)
vni =
    (codes "0", codes "XoaDauThanh")
    ∷ (codes "1", codes "DauSac")
    ∷ (codes "2", codes "DauHuyen")
    ∷ (codes "3", codes "DauHoi")
    ∷ (codes "4", codes "DauNga")
    ∷ (codes "5", codes "DauNang")
    ∷ (codes "6", codes "AEO_ÂÊÔ")
    ∷ (codes "7", codes "UO_ƯƠ")
    ∷ (codes "8", codes "A_Ă")
    ∷ (codes "9", codes "D_Đ")
    ∷ []

abbrev pub viqr : List (Text × Text)
viqr =
    (codes "0", codes "XoaDauThanh")
    ∷ (codes "'", codes "DauSac")
    ∷ (codes "`", codes "DauHuyen")
    ∷ (codes "?", codes "DauHoi")
    ∷ (codes "~", codes "DauNga")
    ∷ (codes ".", codes "DauNang")
    ∷ (codes "^", codes "AEO_ÂÊÔ")
    ∷ (codes "+", codes "UO_ƯƠ")
    ∷ (codes "*", codes "UO_ƯƠ")
    ∷ (codes "(", codes "A_Ă")
    ∷ (codes "d", codes "D_Đ")
    ∷ []

abbrev pub microsoft_layout : List (Text × Text)
microsoft_layout =
    (codes "8", codes "DauSac")
    ∷ (codes "5", codes "DauHuyen")
    ∷ (codes "6", codes "DauHoi")
    ∷ (codes "7", codes "DauNga")
    ∷ (codes "9", codes "DauNang")
    ∷ (codes "1", codes "__ă")
    ∷ (codes "!", codes "_Ă")
    ∷ (codes "2", codes "__â")
    ∷ (codes "@", codes "_Â")
    ∷ (codes "3", codes "__ê")
    ∷ (codes "#", codes "_Ê")
    ∷ (codes "4", codes "__ô")
    ∷ (codes "$", codes "_Ô")
    ∷ (codes "0", codes "__đ")
    ∷ (codes ")", codes "_Đ")
    ∷ (codes "[", codes "__ư")
    ∷ (codes "{", codes "_Ư")
    ∷ (codes "]", codes "__ơ")
    ∷ (codes "}", codes "_Ơ")
    ∷ []

abbrev pub telex_2 : List (Text × Text)
telex_2 =
    (codes "z", codes "XoaDauThanh")
    ∷ (codes "s", codes "DauSac")
    ∷ (codes "f", codes "DauHuyen")
    ∷ (codes "r", codes "DauHoi")
    ∷ (codes "x", codes "DauNga")
    ∷ (codes "j", codes "DauNang")
    ∷ (codes "a", codes "A_Â")
    ∷ (codes "e", codes "E_Ê")
    ∷ (codes "o", codes "O_Ô")
    ∷ (codes "w", codes "UOA_ƯƠĂ__Ư")
    ∷ (codes "d", codes "D_Đ")
    ∷ (codes "]", codes "__ư")
    ∷ (codes "[", codes "__ơ")
    ∷ (codes "}", codes "_Ư")
    ∷ (codes "{", codes "_Ơ")
    ∷ []

abbrev pub telex_plus_vni : List (Text × Text)
telex_plus_vni =
    (codes "z", codes "XoaDauThanh")
    ∷ (codes "s", codes "DauSac")
    ∷ (codes "f", codes "DauHuyen")
    ∷ (codes "r", codes "DauHoi")
    ∷ (codes "x", codes "DauNga")
    ∷ (codes "j", codes "DauNang")
    ∷ (codes "a", codes "A_Â")
    ∷ (codes "e", codes "E_Ê")
    ∷ (codes "o", codes "O_Ô")
    ∷ (codes "w", codes "UOA_ƯƠĂ")
    ∷ (codes "d", codes "D_Đ")
    ∷ (codes "0", codes "XoaDauThanh")
    ∷ (codes "1", codes "DauSac")
    ∷ (codes "2", codes "DauHuyen")
    ∷ (codes "3", codes "DauHoi")
    ∷ (codes "4", codes "DauNga")
    ∷ (codes "5", codes "DauNang")
    ∷ (codes "6", codes "AEO_ÂÊÔ")
    ∷ (codes "7", codes "UO_ƯƠ")
    ∷ (codes "8", codes "A_Ă")
    ∷ (codes "9", codes "D_Đ")
    ∷ []

abbrev pub telex_plus_vni_plus_viqr : List (Text × Text)
telex_plus_vni_plus_viqr =
    (codes "z", codes "XoaDauThanh")
    ∷ (codes "s", codes "DauSac")
    ∷ (codes "f", codes "DauHuyen")
    ∷ (codes "r", codes "DauHoi")
    ∷ (codes "x", codes "DauNga")
    ∷ (codes "j", codes "DauNang")
    ∷ (codes "a", codes "A_Â")
    ∷ (codes "e", codes "E_Ê")
    ∷ (codes "o", codes "O_Ô")
    ∷ (codes "w", codes "UOA_ƯƠĂ")
    ∷ (codes "d", codes "D_Đ")
    ∷ (codes "0", codes "XoaDauThanh")
    ∷ (codes "1", codes "DauSac")
    ∷ (codes "2", codes "DauHuyen")
    ∷ (codes "3", codes "DauHoi")
    ∷ (codes "4", codes "DauNga")
    ∷ (codes "5", codes "DauNang")
    ∷ (codes "6", codes "AEO_ÂÊÔ")
    ∷ (codes "7", codes "UO_ƯƠ")
    ∷ (codes "8", codes "A_Ă")
    ∷ (codes "9", codes "D_Đ")
    ∷ (codes "'", codes "DauSac")
    ∷ (codes "`", codes "DauHuyen")
    ∷ (codes "?", codes "DauHoi")
    ∷ (codes "~", codes "DauNga")
    ∷ (codes ".", codes "DauNang")
    ∷ (codes "^", codes "AEO_ÂÊÔ")
    ∷ (codes "+", codes "UO_ƯƠ")
    ∷ (codes "*", codes "UO_ƯƠ")
    ∷ (codes "(", codes "A_Ă")
    ∷ (codes "\\", codes "D_Đ")
    ∷ []

abbrev pub vni_french : List (Text × Text)
vni_french =
    (codes "&", codes "XoaDauThanh")
    ∷ (codes "é", codes "DauSac")
    ∷ (codes "\"", codes "DauHuyen")
    ∷ (codes "'", codes "DauHoi")
    ∷ (codes "(", codes "DauNga")
    ∷ (codes "-", codes "DauNang")
    ∷ (codes "è", codes "AEO_ÂÊÔ")
    ∷ (codes "_", codes "UO_ƯƠ")
    ∷ (codes "ç", codes "A_Ă")
    ∷ (codes "à", codes "D_Đ")
    ∷ []

abbrev pub telex_w : List (Text × Text)
telex_w =
    (codes "z", codes "XoaDauThanh")
    ∷ (codes "s", codes "DauSac")
    ∷ (codes "f", codes "DauHuyen")
    ∷ (codes "r", codes "DauHoi")
    ∷ (codes "x", codes "DauNga")
    ∷ (codes "j", codes "DauNang")
    ∷ (codes "a", codes "A_Â")
    ∷ (codes "e", codes "E_Ê")
    ∷ (codes "o", codes "O_Ô")
    ∷ (codes "w", codes "UOA_ƯƠĂ__Ư")
    ∷ (codes "d", codes "D_Đ")
    ∷ []

abbrev pub input_method_definitions : List (Text × List (Text × Text))
input_method_definitions =
    (codes "Telex", telex)
    ∷ (codes "Telex (đơn giản)", simple_telex_lines)
    ∷ (codes "VNI", vni)
    ∷ (codes "VIQR", viqr)
    ∷ (codes "Microsoft layout", microsoft_layout)
    ∷ (codes "Telex 2", telex_2)
    ∷ (codes "Telex + VNI", telex_plus_vni)
    ∷ (codes "Telex + VNI + VIQR", telex_plus_vni_plus_viqr)
    ∷ (codes "VNI Bàn phím tiếng Pháp", vni_french)
    ∷ (codes "Telex W", telex_w)
    ∷ []
