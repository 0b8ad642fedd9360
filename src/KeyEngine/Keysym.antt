-- ===== src/KeyEngine/Keysym.antt =====
-- crates/pinakey-engine/src/keysym.rs: modifier bits and key symbols.
use pinakey.Base.{ℕ, ◌==◌, leb, Bool, ◌&&◌, ◌||◌}

abbrev pub mod_shift : ℕ
mod_shift = 0x1

abbrev pub mod_lock : ℕ
mod_lock = 0x2

abbrev pub mod_control : ℕ
mod_control = 0x4

abbrev pub mod_mod1 : ℕ
mod_mod1 = 0x8

abbrev pub mod_mod3 : ℕ
mod_mod3 = 0x20

abbrev pub mod_mod4 : ℕ
mod_mod4 = 0x40

abbrev pub mod_handled : ℕ
mod_handled = 0x1000000

abbrev pub mod_forward : ℕ
mod_forward = 0x2000000

abbrev pub mod_ignored : ℕ
mod_ignored = mod_forward

abbrev pub mod_super : ℕ
mod_super = 0x4000000

abbrev pub mod_hyper : ℕ
mod_hyper = 0x8000000

abbrev pub mod_meta : ℕ
mod_meta = 0x10000000

abbrev pub mod_release : ℕ
mod_release = 0x40000000

-- A modifier, a lock or a latch by itself.
unfoldable pub is_modifier_keysym : ℕ → Bool
is_modifier_keysym keysym =
    (leb 0xffe1 keysym && leb keysym 0xffee)
    || ((leb 0xfe01 keysym && leb keysym 0xfe13)
        || ((keysym == 0xff14) || ((keysym == 0xff7e) || (keysym == 0xff7f))))

abbrev pub key_tab : ℕ
key_tab = 0xff09

abbrev pub key_backspace : ℕ
key_backspace = 0xff08

abbrev pub key_return : ℕ
key_return = 0xff0d

abbrev pub key_escape : ℕ
key_escape = 0xff1b

abbrev pub key_space : ℕ
key_space = 0x20

abbrev pub key_colon : ℕ
key_colon = 0x3a

abbrev pub key_tilde : ℕ
key_tilde = 0x7e
