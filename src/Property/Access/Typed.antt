-- ===== src/Property/Access/Typed.antt =====
-- The typed getters at a slot that holds a value.
use libdsvdc.Base.{
  ℕ, ◌≡◌, false, Bool-cases, inl, inr, Option, none, some, Bytes, leb, if◌then◌else◌,
}
use libdsvdc.Codes.{Answer, done, error, err_property_value_type}
use libdsvdc.Memory.{Mem, ok, Cmd, pure, fault}
use libdsvdc.Property.{PropertyValue, element, Elements, vector, Slots, Property}
use libdsvdc.Property.Access.{
  ValueType, value_bool, value_uint64, value_int64, value_double, value_string, value_type_eq,
  slot_at, type_of_value, get_value_type, get_typed, duplicate, get_bool, get_uint, get_int,
  get_double, get_string,
}

module _ (p : Property) (slots : Slots) (i : ℕ) (name : Option Bytes) (val : PropertyValue) (n : ℕ)
    (els : Elements) (m : Mem) (inside : leb p.n_properties i ≡ false)
    (array : p.properties ≡ vector slots)
    (slot : slot_at slots i ≡ pure (some (element name (some val) n els))) where
  pub get_value_type-at : get_value_type (some p) i m ≡ ok (done (type_of_value val)) m
  unfolding get_value_type
  get_value_type-at = rw (inside, array, slot)

  typed :
      {A : Type 0} (wanted : ValueType) (read : PropertyValue → Cmd (Answer A))
      → get_typed wanted read (some p) i m
        ≡ (if value_type_eq (type_of_value val) wanted
              then read val
              else pure (error err_property_value_type))
            m
  typed wanted read =
      rw get_value_type-at (elim (Bool-cases (value_type_eq (type_of_value val) wanted)) [
        | inl fits ↦ rw (fits, array, slot)
        | inr differs ↦ rw differs
      ])

  -- What a typed getter answers on a value of type `wanted`, and on others.
  abbrev pub Reads :
      {A : Type 0} → (Option Property → ℕ → Cmd (Answer A)) → ValueType → Cmd (Answer A) → Type 0
  Reads get wanted answer =
      get (some p) i m
      ≡ (if value_type_eq (type_of_value val) wanted
            then answer
            else pure (error err_property_value_type))
          m

  pub get_bool-at : Reads get_bool value_bool (pure (done val.v_bool))
  unfolding get_bool
  get_bool-at = typed value_bool _

  pub get_uint-at : Reads get_uint value_uint64 (pure (done val.v_uint64))
  unfolding get_uint
  get_uint-at = typed value_uint64 _

  pub get_int-at : Reads get_int value_int64 (pure (done val.v_int64))
  unfolding get_int
  get_int-at = typed value_int64 _

  pub get_double-at : Reads get_double value_double (pure (done val.v_double))
  unfolding get_double
  get_double-at = typed value_double _

  pub get_string-at :
      Reads get_string value_string (elim val.v_string [ none ↦ fault | some s ↦ duplicate s ])
  unfolding get_string
  get_string-at = typed value_string _

  -- At an index that holds an element with a value, the getters of the scalars answer with the
  -- value's field exactly when the type test gives their type, and report the type error on every
  -- other value; the memory stays as it was.
  pub getters-Reads :
      Reads get_bool value_bool (pure (done val.v_bool))
      × Reads get_uint value_uint64 (pure (done val.v_uint64))
      × Reads get_int value_int64 (pure (done val.v_int64))
      × Reads get_double value_double (pure (done val.v_double))
  getters-Reads = (get_bool-at, get_uint-at, get_int-at, get_double-at)
