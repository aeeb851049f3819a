-- ===== src/Property/Access/Named.antt =====
-- The name of an element at an index, and the type where it has no value.
use libdsvdc.Base.{ℕ, ◌≡◌, false, Option, none, some, Bytes, leb}
use libdsvdc.Codes.{done}
use libdsvdc.Memory.{Mem, ok, pure, malloc-ok, IsPlentiful, spend}
use libdsvdc.Property.{PropertyValue, element, Elements, vector, Slots, Property}
use libdsvdc.Property.Access.{value_none, slot_at, get_value_type, get_name}

module _ (p : Property) (slots : Slots) (i n : ℕ) (els : Elements) (m : Mem)
    (inside : leb p.n_properties i ≡ false) (array : p.properties ≡ vector slots) where
  pub get_name-nameless :
      (val : Option PropertyValue)
      → slot_at slots i ≡ pure (some (element none val n els))
      → get_name (some p) i m ≡ ok (done none) m
  unfolding get_name
  get_name-nameless val slot = rw (inside, array, slot)

  pub get_name-named :
      (name : Bytes) (val : Option PropertyValue)
      → slot_at slots i ≡ pure (some (element (some name) val n els))
      → IsPlentiful m
      → get_name (some p) i m ≡ ok (done (some name)) (spend m 1)
  unfolding get_name
  get_name-named name val slot plenty = rw (inside, array, slot, malloc-ok m plenty)

  pub get_value_type-none :
      (name : Option Bytes)
      → slot_at slots i ≡ pure (some (element name none n els))
      → get_value_type (some p) i m ≡ ok (done value_none) m
  unfolding get_value_type
  get_value_type-none name slot = rw (inside, array, slot)
