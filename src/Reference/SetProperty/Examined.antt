-- ===== src/Reference/SetProperty/Examined.antt =====
-- What `setprop_cb` finds in an element: an independent account of its ladder of tests.
use libdsvdc.Base.{
  ℕ, ◌≡◌, refl, ap, false, ◌&&◌, ◌||◌, inl, inr, Bool-cases, Option, none, some, Bytes, bytes_eq,
  leb, ◌==◌, if◌then◌else◌, codes, arith,
}
use libdsvdc.Codes.{done}
use libdsvdc.Memory.{Mem, ok, pure, and_then, and_then-ok, IsPlentiful, spend}
use libdsvdc.Property.{PropertyValue, element, Elements, vector, Slots, Property, entry}
use libdsvdc.Property.Access.{value_uint64, value_type_eq, get_value_type, slot_at, type_of_value}
use libdsvdc.Property.Access.Named.{get_name-nameless, get_name-named, get_value_type-none}
use libdsvdc.Property.Access.Typed.{get_value_type-at, get_uint-at}
use libdsvdc.Reference.SetProperty.Examine.{
  Setting, nameless, refused, click_with, ignored, examine, check_click, check_type,
}

-- What a request comes to: no element is handled, the value is none or not a click, the dSUID is
-- not the device's, or a click is made.
pub data Verdict : Type 0 where
  unhandled ill_typed unknown : Verdict
  clicked : ℕ → Verdict

-- A click of 0 to 14, or 255, as an unsigned number.
abbrev pub judge_value : Option PropertyValue → Verdict
judge_value none = ill_typed
judge_value (some val) =
    if value_type_eq (type_of_value val) value_uint64
      && (leb val.v_uint64 14 || (val.v_uint64 == 255))
    then clicked val.v_uint64
    else ill_typed

-- The first element without a name, or with the name of the action, decides.
unfoldable pub judge : Slots → Verdict
judge (entry (element none value n els) slots) = unhandled
judge (entry (element (some name) value n els) slots) =
    let rest = judge slots in
    if bytes_eq name (codes "x-libdsvdc-actionclick") then judge_value value else rest
judge _ = unhandled

-- The same verdict on a value as a setting.
abbrev pub settled : Verdict → Setting
settled unhandled = refused 6
settled ill_typed = refused 8
settled unknown = refused 11
settled (clicked click) = click_with click

check_click-settled :
    (click : ℕ)
    → check_click (done click)
      ≡ settled (if leb click 14 || (click == 255) then clicked click else ill_typed)
unfolding check_click
check_click-settled click = ground arith

module _ (p : Property) (slots : Slots) (i n : ℕ) (els : Elements)
    (inside : leb p.n_properties i ≡ false) (array : p.properties ≡ vector slots) where
  pub examine-nameless :
      (val : Option PropertyValue) (m : Mem)
      → slot_at slots i ≡ pure (some (element none val n els))
      → examine (some p) i m ≡ ok (nameless 6) m
  unfolding examine
  examine-nameless val m slot =
      and_then-ok _ (get_name-nameless p slots i n els m inside array val slot) refl

  check_type-settled :
      (name : Bytes) (val : Option PropertyValue) (m : Mem)
      → slot_at slots i ≡ pure (some (element (some name) val n els))
      → and_then (get_value_type (some p) i m) (check_type (some p) i)
        ≡ ok (settled (judge_value val)) m
  unfolding value_type_eq
  check_type-settled name none m slot =
      and_then-ok _ (get_value_type-none p slots i n els m inside array (some name) slot) refl
  check_type-settled name (some val) m slot =
      and_then-ok _ (get_value_type-at p slots i (some name) val n els m inside array slot)
        (elim (Bool-cases (value_type_eq (type_of_value val) value_uint64)) [
          | inl fits ↦
              rw (fits, get_uint-at p slots i (some name) val n els m inside array slot)
                (rw fits (ap (λ x. ok x m) (check_click-settled val.v_uint64)))
          | inr other ↦ rw other
        ])

  pub examine-named :
      (name : Bytes) (val : Option PropertyValue) (m : Mem)
      → slot_at slots i ≡ pure (some (element (some name) val n els))
      → IsPlentiful m
      → examine (some p) i m
        ≡ ok
            (if bytes_eq name (codes "x-libdsvdc-actionclick")
              then settled (judge_value val)
              else ignored)
            (spend m 1)
  unfolding examine
  examine-named name val m slot plenty =
      and_then-ok _ (get_name-named p slots i n els m inside array name val slot plenty)
        (elim (Bool-cases (bytes_eq name (codes "x-libdsvdc-actionclick"))) [
          | inl action ↦ simp action (check_type-settled name val (spend m 1) slot)
          | inr other ↦ simp other
        ])
