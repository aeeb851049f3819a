-- ===== src/Property/Build.antt =====
-- The writers of src/properties.c. A function returns its code and the caller's property after
-- it; a NULL handle is `none`.
pub mod Added
pub mod Plenty
pub mod Grows
pub mod Read
use libdsvdc.Base.{
  ℕ, zero, suc, ◌+◌, Bool, true, false, Option, none, some, Bytes, ◌==◌, if◌then◌else◌,
}
use libdsvdc.Codes.{Code, dsvdc_ok, err_out_of_memory, err_param, is_ok, Answer, done, error}
use libdsvdc.Memory.{Mem, Run, Cmd, pure, ◌>>=◌, ◌>>◌, fault, malloc, free}
use libdsvdc.Property.{
  Binary, PropertyValue, init_value, Element, element, Elements, null, vector, Slots, end, entry,
  vacant, unset, Property,
}
use libdsvdc.Property.Copy.{memcpy}

-- An array with room for `n + 1` slots, the last of which is written.
unfoldable pub put_last : Slots → ℕ → Element → Slots
put_last slots zero e = entry e end
put_last end (suc n) e = unset (put_last end n e)
put_last (entry d slots) (suc n) e = entry d (put_last slots n e)
put_last (vacant slots) (suc n) e = vacant (put_last slots n e)
put_last (unset slots) (suc n) e = unset (put_last slots n e)

-- `realloc` that is granted moves to a new block and frees the old one.
abbrev realloc : Cmd Bool
realloc = do granted ← malloc; if granted then (do free; pure true) else pure false

abbrev grow : Elements → Cmd Bool
grow null = malloc
grow (vector slots) = realloc

abbrev old_slots : Elements → Slots
old_slots null = end
old_slots (vector slots) = slots

-- `dsvdc_property_add`
pub property_add : Option Property → Element → Cmd (Code × Option Property)
unfolding put_last
property_add none e = pure (err_param, none)
property_add (some p) e = do
  granted ← grow p.properties
  if granted
      then pure (
        dsvdc_ok,
        some (record p {
          properties = vector (put_last (old_slots p.properties) p.n_properties e);
          n_properties = p.n_properties + 1;
        }),
      )
      else pure (err_out_of_memory, some p)

-- `dsvdc_property_prepare_element` once the handle is known not to be NULL.
prepare : Option Bytes → Cmd (Answer Element)
prepare key = do
  granted ← malloc
  if granted
      then elim key [
        | none ↦ pure (done (element none none 0 null))
        | some name ↦ (do
          named ← malloc
          if named
              then (do
                valued ← malloc
                if valued
                    then pure (done (element (some name) (some init_value) 0 null))
                    else (do free; free; pure (error err_out_of_memory)))
              else (do free; pure (error err_out_of_memory)))
      ]
      else pure (error err_out_of_memory)

-- `dsvdc_property_prepare_element`
pub prepare_element : Option Property → Option Bytes → Cmd (Answer Element)
unfolding prepare
prepare_element none key = pure (error err_param)
prepare_element (some p) key = prepare key

-- `element->value->field = value; element->value->has_field = 1;`
abbrev fill : (PropertyValue → PropertyValue) → Element → Cmd Element
fill set (element name none n els) = fault
fill set (element name (some val) n els) = pure (element name (some (set val)) n els)

-- The call of `dsvdc_property_add` and the way out when it fails: `cleanup` frees the element.
abbrev attach : Option Property → Element → Cmd (Unit {0}) → Cmd (Code × Option Property)
unfolding property_add
attach property e cleanup = do
  (code, property') ← property_add property e
  if is_ok code then pure (dsvdc_ok, property') else (do cleanup; pure (code, property'))

-- `free(element->value); free(element->name); free(element);`
abbrev free_leaf : Cmd (Unit {0})
free_leaf = do free; free; free

-- What the adders of a number or a flag share.
abbrev add_scalar :
    (PropertyValue → PropertyValue) → Option Property → Option Bytes → Cmd (Code × Option Property)
unfolding prepare_element property_add
add_scalar set property none = pure (err_param, property)
add_scalar set property (some key) = do
  prepared ← prepare_element property (some key)
  elim prepared [
    | error code ↦ pure (code, property)
    | done e ↦ (do e' ← fill set e; attach property e' free_leaf)
  ]

-- `dsvdc_property_add_int`; the number is the bit pattern of an int64_t.
pub add_int : Option Property → Option Bytes → ℕ → Cmd (Code × Option Property)
unfolding prepare_element property_add
add_int property key value =
    add_scalar (λ val. record val { v_int64 = value; has_v_int64 = true }) property key

-- `dsvdc_property_add_uint`
pub add_uint : Option Property → Option Bytes → ℕ → Cmd (Code × Option Property)
unfolding prepare_element property_add
add_uint property key value =
    add_scalar (λ val. record val { v_uint64 = value; has_v_uint64 = true }) property key

-- `dsvdc_property_add_bool`
pub add_bool : Option Property → Option Bytes → Bool → Cmd (Code × Option Property)
unfolding prepare_element property_add
add_bool property key value =
    add_scalar (λ val. record val { v_bool = value; has_v_bool = true }) property key

-- `dsvdc_property_add_double`; the number is the bit pattern of a double.
pub add_double : Option Property → Option Bytes → ℕ → Cmd (Code × Option Property)
unfolding prepare_element property_add
add_double property key value =
    add_scalar (λ val. record val { v_double = value; has_v_double = true }) property key

-- What the adders of a text and of bytes share: one more block, for `content`, which `set` stores
-- in the value. `none` for the content is a source that is read out of bounds.
abbrev add_block :
    {A : Type 0}
    → Option A
    → (A → PropertyValue → PropertyValue)
    → Option Property
    → Bytes
    → Cmd (Code × Option Property)
unfolding prepare_element property_add
add_block source set property key = do
  prepared ← prepare_element property (some key)
  elim prepared [
    | error code ↦ pure (code, property)
    | done e ↦ (do
      granted ← malloc
      if granted
          then elim source [
            | none ↦ fault
            | some a ↦ (do e' ← fill (set a) e; attach property e' (do free; free_leaf))
          ]
          else (do free_leaf; pure (err_out_of_memory, property)))
  ]

-- `dsvdc_property_add_string`
pub add_string : Option Property → Option Bytes → Option Bytes → Cmd (Code × Option Property)
unfolding prepare_element property_add
add_string property none value = pure (err_param, property)
add_string property (some key) none = pure (err_param, property)
add_string property (some key) (some value) =
    add_block (some value) (λ s val. record val { v_string = some s }) property key

-- `dsvdc_property_add_bytes`, past its guards.
abbrev pub store_bytes : ℕ → Bytes → PropertyValue → PropertyValue
store_bytes len bytes val = record val {
  v_bytes = record { len = len; contents = some bytes };
  has_v_bytes = true;
}

-- `dsvdc_property_add_bytes`
pub add_bytes : Option Property → Option Bytes → Option Bytes → ℕ → Cmd (Code × Option Property)
unfolding prepare_element property_add
add_bytes property none value len = pure (err_param, property)
add_bytes property (some key) none len = pure (err_param, property)
add_bytes property (some key) (some value) len =
    if len == 0
    then pure (err_param, property)
    else add_block (memcpy (record { len = len; contents = some value })) (store_bytes len) property
        key

-- The name of `dsvdc_property_add_property`: the element with it, or NULL.
abbrev give_name : Option Bytes → Element → Cmd (Option Element)
give_name none e = pure (some e)
give_name (some name) (element name' value n els) = do
  granted ← malloc
  if granted then pure (some (element (some name) value n els)) else pure none

-- `element->elements = (*value)->properties; element->n_elements = (*value)->n_properties;`
abbrev move_content : Property → Element → Element
move_content source (element name value n els) =
    element name value source.n_properties source.properties

-- `dsvdc_property_add_property`: the code, the property, and what `*value` is afterwards.
unfoldable pub add_property :
    Option Property
    → Option Bytes
    → Option Property
    → Cmd (Code × Option Property × Option Property)
unfolding prepare_element property_add
add_property property name none = pure (err_param, property, none)
add_property property name (some source) = do
  prepared ← prepare_element property none
  elim prepared [
    | error code ↦ pure (code, property, some source)
    | done e ↦ (do
      named ← give_name name e
      elim named [
        | none ↦ (do free; pure (err_out_of_memory, property, some source))
        | some e' ↦ (do
          free
          (code, property') ← property_add property (move_content source e')
          if is_ok code then pure (dsvdc_ok, property', none) else pure (code, property', none))
      ])
  ]
