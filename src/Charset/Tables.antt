-- ===== src/Charset/Tables.antt =====
-- crates/pinakey-core/src/charset_def.rs: one module for each table, and the list of them.
pub mod Tcvn3
pub mod VniWindows
pub mod UnicodeComposed
pub mod Windows1258
pub mod Viqr
pub mod Viscii
pub mod Vps
pub mod Bkhcm2
pub mod Bkhcm1
pub mod VietwareX
pub mod VietwareFull
pub mod Utf8Twice
pub mod NcrDecimal
pub mod NcrHex
pub mod CStringHex
pub mod CStringDecimal
use pinakey.Base.{List, [], ◌∷◌, Text, codes}
use pinakey.Charset.Entry.{CharsetEntries}
use pinakey.Charset.Tables.Tcvn3.{tcvn3}
use pinakey.Charset.Tables.VniWindows.{vni_windows}
use pinakey.Charset.Tables.UnicodeComposed.{unicode_composed}
use pinakey.Charset.Tables.Windows1258.{windows1258}
use pinakey.Charset.Tables.Viqr.{viqr}
use pinakey.Charset.Tables.Viscii.{viscii}
use pinakey.Charset.Tables.Vps.{vps}
use pinakey.Charset.Tables.Bkhcm2.{bkhcm2}
use pinakey.Charset.Tables.Bkhcm1.{bkhcm1}
use pinakey.Charset.Tables.VietwareX.{vietware_x}
use pinakey.Charset.Tables.VietwareFull.{vietware_full}
use pinakey.Charset.Tables.Utf8Twice.{utf8_twice}
use pinakey.Charset.Tables.NcrDecimal.{ncr_decimal}
use pinakey.Charset.Tables.NcrHex.{ncr_hex}
use pinakey.Charset.Tables.CStringHex.{c_string_hex}
use pinakey.Charset.Tables.CStringDecimal.{c_string_decimal}

abbrev pub charset_definitions : List (Text × CharsetEntries)
charset_definitions =
    (codes "TCVN3 (ABC)", tcvn3)
    ∷ (codes "VNI Windows", vni_windows)
    ∷ (codes "Unicode tổ hợp", unicode_composed)
    ∷ (codes "Windows 1258 codepage", windows1258)
    ∷ (codes "VIQR", viqr)
    ∷ (codes "VISCII", viscii)
    ∷ (codes "VPS", vps)
    ∷ (codes "BKHCM 2", bkhcm2)
    ∷ (codes "BKHCM 1", bkhcm1)
    ∷ (codes "Vietware X", vietware_x)
    ∷ (codes "Vietware Full", vietware_full)
    ∷ (codes "UTF-8", utf8_twice)
    ∷ (codes "NCR Decimal", ncr_decimal)
    ∷ (codes "NCR Hex", ncr_hex)
    ∷ (codes "Unicode C string Hex", c_string_hex)
    ∷ (codes "Unicode C string Decimal", c_string_decimal)
    ∷ []
