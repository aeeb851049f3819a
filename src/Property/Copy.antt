-- ===== src/Property/Copy.antt =====
-- `dsvdc_property_copy_value`, `dsvdc_property_deep_copy` and `dsvdc_property_convert_query` of
-- src/properties.c.
pub mod Failure
pub mod Plenty
pub mod Single
use libdsvdc.Base.{
  ℕ, zero, suc, Bool, true, false, ◌&&◌, not, Option, none, some, Bytes, ◌==◌, if◌then◌else◌, leb,
  length, take,
}
use libdsvdc.Memory.{Mem, Run, Cmd, pure, ◌>>=◌, ◌>>◌, fault, malloc, free}
use libdsvdc.Property.{
  Binary, PropertyValue, init_value, Element, element, Elements, null, vector, Slots, end, entry,
  vacant, unset, Property, unsets,
}
use libdsvdc.Property.Free.{free_elements, free_some}

-- `malloc(len)` and `memcpy(.., len)`. A source that is shorter is read out of bounds.
abbrev pub memcpy : Binary → Option Bytes
memcpy b = elim b.contents [
  | none ↦ none
  | some bytes ↦ if leb b.len (length bytes) then some (take b.len bytes) else none
]

-- The second half of `dsvdc_property_copy_value`: `val` has all the fields but the bytes.
copy_bytes : PropertyValue → PropertyValue → Cmd (Option PropertyValue)
copy_bytes input val =
    if input.has_v_bytes && not (input.v_bytes.len == 0)
    then (do
      granted ← malloc
      if granted
          then elim (memcpy input.v_bytes) [
            | none ↦ fault
            | some bytes ↦ pure (
                some (record val {
                  v_bytes = record { len = input.v_bytes.len; contents = some bytes };
                }))
          ]
          else (do free_some val.v_string; free; pure none))
    else pure (some val)

-- `val` when the scalar fields are copied, with the text `s`.
abbrev unfilled : PropertyValue → Option Bytes → PropertyValue
unfilled input s = record input { v_string = s; v_bytes = init_value.v_bytes }

-- The middle part, by `input->v_string`.
copy_text : PropertyValue → Option Bytes → Cmd (Option PropertyValue)
unfolding copy_bytes
copy_text input none = copy_bytes input (unfilled input none)
copy_text input (some s) = do
  duplicated ← malloc
  if duplicated then copy_bytes input (unfilled input (some s)) else (do free; pure none)

-- `none` stands for NULL.
pub copy_value : PropertyValue → Cmd (Option PropertyValue)
unfolding copy_text
copy_value input = do
  granted ← malloc
  if granted then copy_text input input.v_string else pure none

-- Where a turn of the copying loop stops: with the element, or with what has been filled in of
-- it.
pub data Turn : Type 0 where
  whole part : Element → Turn

-- The array when the loop has ended, or when one of its allocations failed.
pub data Copied : Type 0 where
  complete broken : Slots → Copied

abbrev pub prepend : Element → Copied → Copied
prepend e (complete s) = complete (entry e s)
prepend e (broken s) = broken (entry e s)

-- `current_copy->value = dsvdc_property_copy_value(current_input->value)`, if there is a value:
-- the new value, and whether it failed.
pub copy_optional : Option PropertyValue → Cmd (Option PropertyValue × Bool)
unfolding copy_value
copy_optional none = pure (none, true)
copy_optional (some v) = do
  copied ← copy_value v
  elim copied [ none ↦ pure (none, false) | some w ↦ pure (some w, true) ]

-- `current_copy->name = strdup(current_input->name)`, if there is a name.
pub copy_name : Option Bytes → Cmd (Option Bytes × Bool)
copy_name none = pure (none, true)
copy_name (some s) = do
  granted ← malloc
  if granted then pure (some s, true) else pure (none, false)

-- The way out that every failure takes.
abbrev finish : ℕ → Copied → Cmd Elements
finish n (complete s) = pure (vector s)
finish n (broken s) = free_elements (vector s) n >> pure null

-- The loop over an input that is NULL: its first read is undefined.
abbrev copy_null : ℕ → Cmd Copied
copy_null zero = pure (complete end)
copy_null (suc n) = fault

-- The array is allocated before the loop.
abbrev with_array : ℕ → Cmd Copied → Cmd Elements
with_array n loop = do granted ← malloc; if granted then (loop >>= finish n) else pure null

unfoldable mutual
  unfolding copy_name copy_optional

  -- NULL stands for a failure.
  pub deep_copy : Elements → ℕ → Cmd Elements
  deep_copy null n_input = with_array n_input (copy_null n_input)
  deep_copy (vector slots) n_input = with_array n_input (copy_slots slots n_input)

  pub copy_slots : Slots → ℕ → Cmd Copied
  copy_slots slots zero = pure (complete end)
  copy_slots end (suc n) = fault
  copy_slots (unset slots) (suc n) = fault
  copy_slots (vacant slots) (suc n) = do
    granted ← malloc
    if granted then fault else pure (broken (vacant (unsets n)))
  copy_slots (entry e slots) (suc n) = do
    granted ← malloc
    if granted
        then (do
          turn ← copy_element e
          elim turn [
            | whole c ↦ (do rest ← copy_slots slots n; pure (prepend c rest))
            | part c ↦ pure (broken (entry c (unsets n)))
          ])
        else pure (broken (vacant (unsets n)))

  pub copy_element : Element → Cmd Turn
  copy_element (element name value n els) = do
    (name', named) ← copy_name name
    if named
        then (do
          (value', valued) ← copy_optional value
          if valued
              then if n == 0 then pure (whole (element name' value' n null)) else (do
                els' ← deep_copy els n
                elim els' [
                  | null ↦ pure (part (element name' value' n null))
                  | vector s ↦ pure (whole (element name' value' n (vector s)))
                ])
              else pure (part (element name' none 0 null)))
        else pure (part (element none none 0 null))

-- `dsvdc_property_new`; `none` when the allocation fails (DSVDC_ERR_OUT_OF_MEMORY).
unfoldable pub property_new : Cmd (Option Property)
property_new = do
  granted ← malloc
  if granted
      then pure (some (record { message_id = none; properties = null; n_properties = 0 }))
      else pure none

-- `dsvdc_property_convert_query`; `none` when `dsvdc_property_new` failed.
unfoldable pub convert_query : Elements → ℕ → Cmd (Option Property)
unfolding property_new deep_copy
convert_query query n_query = do
  made ← property_new
  elim made [
    | none ↦ pure none
    | some p ↦ (do
      copied ← deep_copy query n_query
      pure (some (record p { properties = copied; n_properties = n_query })))
  ]
