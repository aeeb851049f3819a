-- ===== src/Reference/SetProperty/Examine.antt =====
-- examples/vdc-reference.c: what `setprop_cb` reads of an element, and the tree that
-- `send_button_click` makes.
use libdsvdc.Base.{
  ℕ, not, ◌&&◌, Option, none, some, Bytes, ◌==◌, ltb, bytes_eq, if◌then◌else◌, codes,
}
use libdsvdc.Codes.{Answer, done, error}
use libdsvdc.Memory.{Cmd, pure, ◌>>=◌, ◌>>◌}
use libdsvdc.Property.{Property}
use libdsvdc.Property.Access.{
  ValueType, value_uint64, value_type_eq, get_name, get_value_type, get_uint,
}
use libdsvdc.Property.Build.{add_uint, add_property}
use libdsvdc.Property.Copy.{property_new}
use libdsvdc.Property.Free.{property_free}

-- The tree of `send_button_click`; `none` where memory ran out for one of the three properties.
abbrev pub click_tree :
    ℕ → Option Property → Option Property → Option Property → Cmd (Option Property)
click_tree click (some envelope) (some state) (some prop) = do
  (_, prop') ← add_uint (some prop) (some (codes "clickType")) click
  (_, state', _) ← add_property (some state) (some (codes "0")) prop'
  (_, envelope', _) ← add_property (some envelope) (some (codes "buttonInputStates")) state'
  pure envelope'
click_tree click envelope state prop = do
  property_free envelope
  property_free state
  property_free prop
  pure none

unfoldable pub new_click : ℕ → Cmd (Option Property)
new_click click = do
  envelope ← property_new
  state ← property_new
  prop ← property_new
  click_tree click envelope state prop

-- What the loop of `setprop_cb` finds in an element.
pub data Setting : Type 0 where
  -- no name to read, and the code
  nameless : ℕ → Setting
  -- a click that cannot be made, and the code
  refused : ℕ → Setting
  click_with : ℕ → Setting
  -- another name
  ignored : Setting

-- DSVDC_ERR_NOT_IMPLEMENTED, DSVDC_ERR_INVALID_VALUE_TYPE, DSVDC_ERR_MISSING_DATA and
-- DSVDC_ERR_NOT_FOUND
abbrev pub not_implemented : ℕ
not_implemented = 6

abbrev pub invalid_value_type : ℕ
invalid_value_type = 8

abbrev pub missing_data : ℕ
missing_data = 10

abbrev pub not_found : ℕ
not_found = 11

unfoldable pub check_click : Answer ℕ → Setting
check_click (error code) = refused missing_data
check_click (done click) =
    if ltb 14 click && not (click == 255) then refused invalid_value_type else click_with click

abbrev pub check_type : Option Property → ℕ → Answer ValueType → Cmd Setting
check_type properties i (error code) = pure (refused invalid_value_type)
check_type properties i (done type) =
    if not (value_type_eq type value_uint64)
    then pure (refused invalid_value_type)
    else (do value ← get_uint properties i; pure (check_click value))

abbrev pub check_name : Option Property → ℕ → Answer (Option Bytes) → Cmd Setting
check_name properties i (error code) = pure (nameless missing_data)
check_name properties i (done none) = pure (nameless not_implemented)
check_name properties i (done (some name)) =
    if bytes_eq name (codes "x-libdsvdc-actionclick")
    then (do type ← get_value_type properties i; check_type properties i type)
    else pure ignored

unfoldable pub examine : Option Property → ℕ → Cmd Setting
examine properties i = do name ← get_name properties i; check_name properties i name
