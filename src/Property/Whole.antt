-- ===== src/Property/Whole.antt =====
-- Well-formed trees, and the number of heap blocks that they hold.
use libdsvdc.Base.{ℕ, zero, suc, ◌+◌, ◌*◌, ◌≡◌, ◌⊎◌, Bool, true, Option, none, some, Bytes, length}
use libdsvdc.Property.{
  Binary, PropertyValue, Element, element, Elements, null, vector, Slots, end, entry, vacant, unset,
}

-- What a value's bytes are: none, or as many as the length says, which is not 0.
pub data WholeBytes : Bool → Binary → Type 0 where
  no_bytes : (has : Bool) → WholeBytes has (record { len = 0; contents = none })
  some_bytes :
      {n : ℕ} (bytes : Bytes)
      → length bytes ≡ suc n
      → WholeBytes true (record { len = suc n; contents = some bytes })

-- A value as unpacking gives it: its bytes are as long as their length says. It may hold a text and
-- bytes at once, since the fields of a value are optional independently of each other.
pub record FormedValue (v : PropertyValue) : Type 0 where
  pub bytes : WholeBytes v.has_v_bytes v.v_bytes

-- A value that in addition holds a text or bytes and not both.
pub record WholeValue (v : PropertyValue) : Type 0 where
  pub bytes : WholeBytes v.has_v_bytes v.v_bytes
  pub single : (v.v_string ≡ none) ⊎ (v.v_bytes.contents ≡ none)

pub data OptionalOf (V : PropertyValue → Type 0) : Option PropertyValue → Type 0 where
  absent : OptionalOf V none
  present : {v : PropertyValue} → V v → OptionalOf V (some v)

-- The trees whose arrays have as many elements as their count says, no array being there where the
-- count is 0, and whose values all satisfy `V`.
mutual
  pub data ElementOf (V : PropertyValue → Type 0) : Element → Type 0 where
    leaf :
        {name : Option Bytes} {value : Option PropertyValue}
        → OptionalOf V value
        → ElementOf V (element name value zero null)
    node :
        {name : Option Bytes} {value : Option PropertyValue} {n : ℕ} {slots : Slots}
        → OptionalOf V value
        → SlotsOf V slots (suc n)
        → ElementOf V (element name value (suc n) (vector slots))

  pub data SlotsOf (V : PropertyValue → Type 0) : Slots → ℕ → Type 0 where
    nil : SlotsOf V end zero
    cons :
        {e : Element} {slots : Slots} {n : ℕ}
        → ElementOf V e
        → SlotsOf V slots n
        → SlotsOf V (entry e slots) (suc n)

-- The trees that unpacking gives.
abbrev pub FormedOptional : Option PropertyValue → Type 0
FormedOptional = OptionalOf FormedValue

abbrev pub FormedElement : Element → Type 0
FormedElement = ElementOf FormedValue

abbrev pub FormedSlots : Slots → ℕ → Type 0
FormedSlots = SlotsOf FormedValue

-- The trees that the operations of src/properties.c build.
abbrev pub WholeOptional : Option PropertyValue → Type 0
WholeOptional = OptionalOf WholeValue

abbrev pub WholeElement : Element → Type 0
WholeElement = ElementOf WholeValue

abbrev pub WholeSlots : Slots → ℕ → Type 0
WholeSlots = SlotsOf WholeValue

formed_optional : {o : Option PropertyValue} → WholeOptional o → FormedOptional o
formed_optional absent = absent
formed_optional (present w) = present (record { bytes = w.bytes })

mutual
  pub formed : {slots : Slots} {n : ℕ} → WholeSlots slots n → FormedSlots slots n
  formed nil = nil
  formed (cons we ws) = cons (formed_element we) (formed ws)

  formed_element : {e : Element} → WholeElement e → FormedElement e
  formed_element (leaf wv) = leaf (formed_optional wv)
  formed_element (node wv ws) = node (formed_optional wv) (formed ws)

abbrev pub held {ℓ} : {A : Type ℓ} → Option A → ℕ
held none = 0
held (some _) = 1

abbrev pub value_blocks : Option PropertyValue → ℕ
value_blocks none = 0
value_blocks (some v) = held v.v_string + held v.v_bytes.contents + 1

unfoldable mutual
  pub blocks : Elements → ℕ
  blocks null = 0
  blocks (vector slots) = slot_blocks slots + 1

  pub slot_blocks : Slots → ℕ
  slot_blocks end = 0
  slot_blocks (entry e slots) = field_blocks e + 1 + slot_blocks slots
  slot_blocks (vacant slots) = slot_blocks slots
  slot_blocks (unset slots) = slot_blocks slots

  -- without the block of the element itself
  pub field_blocks : Element → ℕ
  field_blocks (element name value n els) = held name + value_blocks value + blocks els

-- The bytes of a value that has a text too: `dsvdc_property_free_value` frees only the text.
abbrev pub value_lost : Option PropertyValue → ℕ
value_lost none = 0
value_lost (some v) = held v.v_string * held v.v_bytes.contents

-- The number of such values in a tree.
unfoldable mutual
  pub lost : Elements → ℕ
  lost null = 0
  lost (vector slots) = slot_lost slots

  pub slot_lost : Slots → ℕ
  slot_lost end = 0
  slot_lost (entry e slots) = field_lost e + slot_lost slots
  slot_lost (vacant slots) = slot_lost slots
  slot_lost (unset slots) = slot_lost slots

  pub field_lost : Element → ℕ
  field_lost (element name value n els) = value_lost value + lost els
