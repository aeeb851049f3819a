-- ===== src/Property/Free.antt =====
-- The functions of src/properties.c that free a tree.
use libdsvdc.Base.{ℕ, zero, suc, Option, none, some, ◌==◌, if◌then◌else◌}
use libdsvdc.Memory.{Cmd, pure, ◌>>◌, fault, free}
use libdsvdc.Property.{
  PropertyValue, Element, element, Elements, null, vector, Slots, end, entry, vacant, unset,
  Property,
}

-- `if (p) free(p);`
abbrev pub free_some {ℓ} : {A : Type ℓ} → Option A → Cmd (Unit {0})
free_some none = pure tt
free_some (some _) = free

unfoldable pub free_value : Option PropertyValue → Cmd (Unit {0})
free_value none = pure tt
free_value (some v) =
    elim v.v_string [
      | some _ ↦ free
      | none ↦ if v.has_v_bytes then free_some v.v_bytes.contents else pure tt
    ]
    >> free

unfoldable mutual
  unfolding free_value

  pub free_elements : Elements → ℕ → Cmd (Unit {0})
  free_elements null n = pure tt
  free_elements (vector slots) n = free_slots slots n >> free

  -- The loop over the slots `j < n_elements`.
  pub free_slots : Slots → ℕ → Cmd (Unit {0})
  free_slots slots zero = pure tt
  free_slots end (suc n) = fault
  free_slots (entry e slots) (suc n) = free_element e >> free_slots slots n
  free_slots (vacant slots) (suc n) = free_slots slots n
  free_slots (unset slots) (suc n) = fault

  pub free_element : Element → Cmd (Unit {0})
  free_element (element name value n els) =
      free_some name
      >> free_value value
      >> (if n == 0 then pure tt else free_elements els n)
      >> free

-- `dsvdc_property_free`; `none` is a NULL handle.
unfoldable pub property_free : Option Property → Cmd (Unit {0})
property_free none = pure tt
property_free (some p) =
    (if p.n_properties == 0 then pure tt else free_elements p.properties p.n_properties) >> free
