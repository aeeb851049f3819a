-- ===== src/Property/Access.antt =====
-- The readers of src/properties.c. A NULL handle is `none`; the address that a function returns
-- in an out parameter is the content it points to.
pub mod Typed
pub mod Named
use libdsvdc.Base.{
  ℕ, zero, suc, Bool, true, false, Option, none, some, Bytes, ◌==◌, bytes_eq, if◌then◌else◌, leb,
  length, take,
}
use libdsvdc.Codes.{
  Code, dsvdc_ok, err_out_of_memory, err_property_index, err_invalid_property,
  err_property_value_type, Answer, done, error,
}
use libdsvdc.Memory.{Mem, Run, Cmd, pure, ◌>>=◌, ◌>>◌, fault, malloc, free}
use libdsvdc.Property.{
  Binary, PropertyValue, Element, element, Elements, null, vector, Slots, end, entry, vacant, unset,
  Property,
}
use libdsvdc.Property.Copy.{deep_copy, memcpy}

-- `dsvdc_property_value_t`
pub data ValueType : Type 0 where
  value_none value_bool value_uint64 value_int64 value_double value_string value_bytes : ValueType

unfoldable pub value_type_eq : ValueType → ValueType → Bool
value_type_eq value_none value_none = true
value_type_eq value_bool value_bool = true
value_type_eq value_uint64 value_uint64 = true
value_type_eq value_int64 value_int64 = true
value_type_eq value_double value_double = true
value_type_eq value_string value_string = true
value_type_eq value_bytes value_bytes = true
value_type_eq _ _ = false

-- `dsvdc_property_get_num_properties`
unfoldable pub get_num_properties : Option Property → ℕ
get_num_properties none = 0
get_num_properties (some p) = p.n_properties

-- `array[index]`; `none` is a NULL slot.
unfoldable pub slot_at : Slots → ℕ → Cmd (Option Element)
slot_at end i = fault
slot_at (entry e slots) zero = pure (some e)
slot_at (vacant slots) zero = pure none
slot_at (unset slots) zero = fault
slot_at (entry e slots) (suc i) = slot_at slots i
slot_at (vacant slots) (suc i) = slot_at slots i
slot_at (unset slots) (suc i) = slot_at slots i

abbrev element_at : Elements → ℕ → Cmd (Option Element)
element_at null i = fault
element_at (vector slots) i = slot_at slots i

-- The guards that the readers by index share: the handle, the index, the slot.
abbrev with_element :
    {A : Type 0} → Option Property → ℕ → (Element → Cmd (Answer A)) → Cmd (Answer A)
with_element none index k = pure (error err_invalid_property)
with_element (some p) index k =
    if leb p.n_properties index then pure (error err_property_index) else (do
      slot ← element_at p.properties index
      elim slot [ none ↦ pure (error err_property_index) | some e ↦ k e ])

abbrev pub name_of : Element → Option Bytes
name_of (element name value n els) = name

abbrev pub value_of : Element → Option PropertyValue
value_of (element name value n els) = value

-- `strdup` of a name or a text, into an out parameter.
abbrev pub duplicate : {A : Type 0} → A → Cmd (Answer A)
duplicate a = do granted ← malloc; if granted then pure (done a) else pure (error err_out_of_memory)

-- `dsvdc_property_get_name`; the name may be NULL.
pub get_name : Option Property → ℕ → Cmd (Answer (Option Bytes))
unfolding slot_at
get_name property index =
    with_element property index
      λ e. elim (name_of e) [ none ↦ pure (done none) | some s ↦ duplicate (some s) ]

-- The ladder of `dsvdc_property_get_value_type`.
unfoldable pub type_of_value : PropertyValue → ValueType
type_of_value val =
    if val.has_v_bool
    then value_bool
    else if val.has_v_uint64
    then value_uint64
    else if val.has_v_int64
    then value_int64
    else if val.has_v_double
    then value_double
    else elim val.v_string [
      | some _ ↦ value_string
      | none ↦ if val.v_bytes.len == 0 then value_none else value_bytes
    ]

-- `dsvdc_property_get_value_type`
unfoldable pub get_value_type : Option Property → ℕ → Cmd (Answer ValueType)
unfolding slot_at type_of_value
get_value_type property index = with_element property index λ e. elim (value_of e) [
  | none ↦ pure (done value_none)
  | some val ↦ pure (done (type_of_value val))
]

-- What the typed getters share: they ask for the type, and then read the slot once more with no
-- guard.
abbrev get_typed :
    {A : Type 0}
    → ValueType
    → (PropertyValue → Cmd (Answer A))
    → Option Property
    → ℕ
    → Cmd (Answer A)
get_typed wanted read none index = do
  type ← get_value_type none index
  elim type [ error c ↦ pure (error c) | done t ↦ fault ]
get_typed wanted read (some p) index = do
  type ← get_value_type (some p) index
  elim type [
    | error c ↦ pure (error c)
    | done t ↦
        if value_type_eq t wanted
        then (do
          slot ← element_at p.properties index
          elim slot [
            | none ↦ fault
            | some e ↦ elim (value_of e) [ none ↦ fault | some val ↦ read val ]
          ])
        else pure (error err_property_value_type)
  ]

-- `dsvdc_property_get_bool` and its four siblings
pub get_bool : Option Property → ℕ → Cmd (Answer Bool)
get_bool = get_typed value_bool λ val. pure (done val.v_bool)

pub get_uint : Option Property → ℕ → Cmd (Answer ℕ)
get_uint = get_typed value_uint64 λ val. pure (done val.v_uint64)

pub get_int : Option Property → ℕ → Cmd (Answer ℕ)
get_int = get_typed value_int64 λ val. pure (done val.v_int64)

pub get_double : Option Property → ℕ → Cmd (Answer ℕ)
get_double = get_typed value_double λ val. pure (done val.v_double)

pub get_string : Option Property → ℕ → Cmd (Answer Bytes)
get_string = get_typed value_string λ val. elim val.v_string [ none ↦ fault | some s ↦ duplicate s ]

-- `dsvdc_property_get_bytes`
pub get_bytes : Option Property → ℕ → Cmd (Answer Bytes)
get_bytes = get_typed value_bytes λ val. do
  granted ← malloc
  if granted
      then elim (memcpy val.v_bytes) [ none ↦ fault | some bytes ↦ pure (done bytes) ]
      else pure (error err_out_of_memory)

-- The content of an element as a property of its own. `dsvdc_property_t` is allocated with
-- `malloc`, so its `message_id` is indeterminate.
abbrev content : ℕ → Elements → Property
content n els = record { message_id = none; properties = els; n_properties = n }

-- The tail that both lookups share, for an element with elements.
abbrev copy_content : ℕ → Elements → Cmd (Answer (Option Property))
copy_content n els = do
  copied ← deep_copy els n
  elim copied [
    | null ↦ (do free; pure (error err_out_of_memory))
    | vector s ↦ pure (done (some (content n (vector s))))
  ]

-- The hit of `dsvdc_property_get_property_by_name`: an element with no elements is copied itself.
abbrev by_name_hit : Element → Cmd (Answer (Option Property))
by_name_hit (element name value n els) = do
  granted ← malloc
  if granted
      then if n == 0
        then (do
          copied ← deep_copy (vector (entry (element name value n els) end)) 1
          pure (done (some (content 1 copied))))
        else copy_content n els
      else pure (error err_out_of_memory)

-- Its loop. `strcmp` with a NULL name is undefined.
unfoldable pub by_name_loop : Bytes → Slots → ℕ → Cmd (Answer (Option Property))
by_name_loop name slots zero = pure (done none)
by_name_loop name end (suc n) = fault
by_name_loop name (unset slots) (suc n) = fault
by_name_loop name (vacant slots) (suc n) = by_name_loop name slots n
by_name_loop name (entry e slots) (suc n) =
    let rest = by_name_loop name slots n in
    elim (name_of e) [ none ↦ fault | some s ↦ if bytes_eq name s then by_name_hit e else rest ]

-- `dsvdc_property_get_property_by_name`; `done none` when there is no such name.
pub get_property_by_name : Option Property → Bytes → Cmd (Answer (Option Property))
unfolding by_name_loop
get_property_by_name none name = pure (error err_invalid_property)
get_property_by_name (some p) name = elim p.properties [
  | null ↦ if p.n_properties == 0 then pure (done none) else fault
  | vector slots ↦ by_name_loop name slots p.n_properties
]

-- `dsvdc_property_get_property_by_index`
pub get_property_by_index : Option Property → ℕ → Cmd (Answer (Option Property))
unfolding slot_at
get_property_by_index property index = with_element property index (elim [
  | element name value n els ↦ (do
    granted ← malloc
    if granted
        then if n == 0 then pure (done (some (content 0 null))) else copy_content n els
        else pure (error err_out_of_memory))
])
