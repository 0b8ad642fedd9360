-- ===== src/CInterface.antt =====
-- crates/pinakey-ffi/src/lib.rs: `PkEngine`, the state that the addon holds a pointer to, and how the actions of an
-- event are put into it. A `CString` is its text; the children have the exported functions and the proofs.
pub mod Calls
pub mod Edit
pub mod Modes
pub mod Shown
use pinakey.Base.{
  ℕ, ◌%◌, ◌==◌, if◌then◌else◌, Bool, true, false, not, ◌&&◌, ◌||◌, Option, none, some, List, [],
  ◌∷◌, ◌++◌, length, is_empty, elem, Text,
}
use pinakey.KeyEngine.Core.{Action, EngineCore}

pub record PkEngine : Type 0 where
  pub core : EngineCore
  pub commit : Text
  pub preedit : Text
  pub preedit_cursor : ℕ
  pub preedit_visible : Bool
  pub preedit_underline : Bool
  pub im_name : Text
  pub charset_name : Text
  pub prev_displayed : Text
  pub replace_delete : ℕ
  pub replace_insert : Text
  pub replace_segment_c : Text

-- `CString::new(s).unwrap_or_default()`: a text with a nul in it gives the empty one.
unfoldable pub to_cstring : Text → Text
unfolding elem
to_cstring s = if elem 0 s then [] else s

unfoldable pub build : EngineCore → PkEngine
unfolding to_cstring
build core = record {
  core = core;
  commit = [];
  preedit = [];
  preedit_cursor = 0;
  preedit_visible = false;
  preedit_underline = false;
  im_name = to_cstring core.config.input_method;
  charset_name = to_cstring core.config.output_charset;
  prev_displayed = [];
  replace_delete = 0;
  replace_insert = [];
  replace_segment_c = [];
}

-- The text, the cursor and the underline of `Folded::preedit`.
pub record Preedit : Type 0 where
  pub text : Text
  pub cursor : ℕ
  pub underline : Bool

pub record Folded : Type 0 where
  pub commit : Text
  pub preedit : Option Preedit
  pub hide : Bool

-- One round of the loop.
unfoldable pub fold_action : Folded → Action → Folded
fold_action f (Action.commit s) = record f { commit = f.commit ++ s }
fold_action f (Action.update_preedit text cursor underline) = record f {
  preedit = some (record { text = text; cursor = cursor; underline = underline });
  hide = false;
}
fold_action f (Action.update_auxiliary text visible) = f
fold_action f Action.hide_preedit = record f { preedit = none; hide = true }
fold_action f Action.hide_auxiliary = f
fold_action f Action.hide_lookup_table = f

unfoldable pub fold_from : Folded → List Action → Folded
unfolding fold_action
fold_from f [] = f
fold_from f (a ∷ actions) = fold_from (fold_action f a) actions

unfoldable pub fold_actions : List Action → Folded
unfolding fold_from
fold_actions actions = fold_from (record { commit = []; preedit = none; hide = false }) actions

-- The two texts behind the common prefix.
unfoldable pub strip_common : Text → Text → Text × Text
strip_common [] new = ([], new)
strip_common (a ∷ old) [] = (a ∷ old, [])
strip_common (a ∷ old) (b ∷ new) =
    let rest = strip_common old new in if a == b then rest else (a ∷ old, b ∷ new)

unfoldable pub diff_replace : Text → Text → ℕ × Text
unfolding strip_common
diff_replace old new = let rest = strip_common old new in (length rest.0 % 0x100000000, rest.1)

-- The two branches of `apply` on the preedit.
abbrev pub show_preedit : PkEngine → Option Preedit → Bool → PkEngine
show_preedit e none hide =
    if hide then record e { preedit = []; preedit_cursor = 0; preedit_visible = false } else e
show_preedit e (some p) hide = record e {
  preedit = to_cstring p.text;
  preedit_cursor = p.cursor;
  preedit_underline = p.underline;
  preedit_visible = not (is_empty (to_cstring p.text));
}

abbrev pub show_folded : PkEngine → Folded → PkEngine
show_folded e folded =
    show_preedit (record e { commit = to_cstring folded.commit }) folded.preedit folded.hide

unfoldable pub apply : PkEngine → List Action → PkEngine
unfolding to_cstring fold_actions
apply e actions = show_folded e (fold_actions actions)

unfoldable pub clear_display : PkEngine → PkEngine
clear_display e = record e {
  commit = [];
  preedit = [];
  preedit_cursor = 0;
  preedit_visible = false;
  prev_displayed = [];
  replace_segment_c = [];
  replace_delete = 0;
  replace_insert = [];
}

abbrev pub is_none : Option Preedit → Bool
is_none none = true
is_none (some _) = false

abbrev pub text_or_empty : Option Preedit → Text
text_or_empty none = []
text_or_empty (some p) = p.text

-- No action that shows.
abbrev pub is_silent : Folded → Bool
is_silent f = is_none f.preedit && (not f.hide && is_empty f.commit)

abbrev pub replace_folded : PkEngine → Folded → PkEngine
replace_folded e folded =
    let preedit = text_or_empty folded.preedit in
    let edit = diff_replace e.prev_displayed (folded.commit ++ preedit) in
    if is_silent folded then record e { replace_delete = 0; replace_insert = [] } else record e {
      replace_delete = edit.0;
      replace_insert = to_cstring edit.1;
      replace_segment_c = to_cstring preedit;
      prev_displayed = preedit;
    }

unfoldable pub apply_replace : PkEngine → List Action → PkEngine
unfolding fold_actions diff_replace to_cstring
apply_replace e actions = replace_folded e (fold_actions actions)
