-- ===== src/Property/Faults.antt =====
-- What src/properties.c does on paths that a failed allocation opens.
use libdsvdc.Base.{ℕ, suc, ◌+◌, ◌≡◌, true, false, none, some, arith}
use libdsvdc.Codes.{err_out_of_memory}
use libdsvdc.Memory.{Mem, ok, undefined, malloc, free}
use libdsvdc.Property.{null, vector, Slots, Property}
use libdsvdc.Property.Access.{get_value_type}
use libdsvdc.Property.Build.{add_property}
use libdsvdc.Property.Copy.{convert_query}

-- On an array with a count of one or more, where the new property is granted and the new array is
-- refused, `dsvdc_property_convert_query` still succeeds, with a property for whose first element
-- `dsvdc_property_get_value_type` is undefined.
pub convert_query-refused :
    (slots : Slots) (n : ℕ) (m k : Mem)
    → m.grants m.calls ≡ true
    → m.grants (m.calls + 1) ≡ false
    → (p : Property) × (g : Mem) × (convert_query (vector slots) (suc n) m ≡ ok (some p) g)
      × (get_value_type (some p) 0 k ≡ undefined)
unfolding convert_query malloc get_value_type
convert_query-refused slots n m k granted refused = (
  record { message_id = none; properties = null; n_properties = suc n },
  record m { calls = m.calls + 1 + 1; allocs = m.allocs + 1 },
  rw (granted, refused),
  ground arith,
)

-- Without a name, on a property that has an array, where the new element is granted and the
-- larger array is refused, `dsvdc_property_add_property` fails with the caller's source set to
-- NULL and only one block freed; the block of the new element is kept, and so is every block of
-- the source but that of its handle.
pub add_property-refused :
    (p source : Property) (slots : Slots) (m : Mem)
    → p.properties ≡ vector slots
    → m.grants m.calls ≡ true
    → m.grants (m.calls + 1) ≡ false
    → add_property (some p) none (some source) m
      ≡ ok
          (err_out_of_memory, some p, none)
          (record m { calls = m.calls + 1 + 1; allocs = m.allocs + 1; frees = m.frees + 1 })
unfolding add_property malloc free
add_property-refused p source slots m array granted refused = rw (granted, array, refused)
