-- ===== src/Config/Flags.antt =====
-- crates/pinakey-config/src/flags.rs: input modes and feature flags. Modes are numbers; a flag is a bit.
use pinakey.Base.{ℕ, List, [], ◌∷◌, Text, codes}

abbrev pub preedit_im : ℕ
preedit_im = 1

abbrev pub surrounding_text_im : ℕ
surrounding_text_im = 2

abbrev pub backspace_forwarding_im : ℕ
backspace_forwarding_im = 3

abbrev pub shift_left_forwarding_im : ℕ
shift_left_forwarding_im = 4

abbrev pub forward_as_commit_im : ℕ
forward_as_commit_im = 5

abbrev pub xtest_fake_key_event_im : ℕ
xtest_fake_key_event_im = 6

abbrev pub us_im : ℕ
us_im = 7

abbrev pub ib_auto_commit_with_vn_not_match : ℕ
ib_auto_commit_with_vn_not_match = 1

abbrev pub ib_macro_enabled : ℕ
ib_macro_enabled = 2

abbrev pub ib_spell_check_enabled : ℕ
ib_spell_check_enabled = 0x10

abbrev pub ib_auto_non_vn_restore : ℕ
ib_auto_non_vn_restore = 0x20

abbrev pub ib_dd_free_style : ℕ
ib_dd_free_style = 0x40

abbrev pub ib_no_underline : ℕ
ib_no_underline = 0x80

abbrev pub ib_spell_check_with_rules : ℕ
ib_spell_check_with_rules = 0x100

abbrev pub ib_spell_check_with_dicts : ℕ
ib_spell_check_with_dicts = 0x200

abbrev pub ib_auto_commit_with_delay : ℕ
ib_auto_commit_with_delay = 0x400

abbrev pub ib_preedit_elimination : ℕ
ib_preedit_elimination = 0x2000

abbrev pub ib_auto_capitalize_macro : ℕ
ib_auto_capitalize_macro = 0x8000

abbrev pub ib_workaround_for_fb_messenger : ℕ
ib_workaround_for_fb_messenger = 0x80000

abbrev pub ib_workaround_for_wps : ℕ
ib_workaround_for_wps = 0x100000

abbrev pub ib_capitalize_sentence : ℕ
ib_capitalize_sentence = 0x200000

abbrev pub ib_double_space_period : ℕ
ib_double_space_period = 0x400000

abbrev pub im_backspace_list : List ℕ
im_backspace_list =
    surrounding_text_im ∷ backspace_forwarding_im ∷ shift_left_forwarding_im ∷ forward_as_commit_im
    ∷ xtest_fake_key_event_im ∷ []

unfoldable pub im_lookup_table : List (ℕ × Text)
im_lookup_table =
    (preedit_im, codes "Cấu hình mặc định (Pre-edit)")
    ∷ (surrounding_text_im, codes "Sửa lỗi gạch chân (Surrounding Text)")
    ∷ (backspace_forwarding_im, codes "Sửa lỗi gạch chân (ForwardKeyEvent I)")
    ∷ (shift_left_forwarding_im, codes "Sửa lỗi gạch chân (ForwardKeyEvent II)")
    ∷ (forward_as_commit_im, codes "Sửa lỗi gạch chân (Forward as commit)")
    ∷ (xtest_fake_key_event_im, codes "Sửa lỗi gạch chân (XTestFakeKeyEvent)")
    ∷ (us_im, codes "Thêm vào danh sách loại trừ")
    ∷ []

-- The union of seven flags.
abbrev pub ib_std_flags : ℕ
ib_std_flags = 0x1081f0

abbrev pub ib_us_std_flags : ℕ
ib_us_std_flags = 0
