-- ===== src/Property/Build/Read.antt =====
-- What has been added is read back, and what was there before is read as before.
use libdsvdc.Base.{
  ℕ, zero, suc, ◌+◌, ◌<◌, ◌≡◌, refl, ◌⊎◌, inl, inr, false, Option, none, some, Bytes, leb, arith,
}
use libdsvdc.Codes.{Code, dsvdc_ok, err_out_of_memory, Answer, done}
use libdsvdc.Memory.{Mem, Run, Cmd, pure, fault, Ends, ends, Holding}
use libdsvdc.Property.{
  PropertyValue, Element, null, vector, Slots, end, entry, vacant, unset, Property,
}
use libdsvdc.Property.Access.{
  slot_at, get_int, get_uint, get_string, get_value_type, type_of_value, value_type_eq, value_int64,
  value_uint64, value_string, duplicate,
}
use libdsvdc.Property.Access.Typed
use libdsvdc.Property.Build.{put_last, old_slots, add_int, add_uint, add_string}
use libdsvdc.Property.Build.Added.{
  extend, Added, added, refused, leaf_of, add_int-Added, add_uint-Added, add_string-Added,
}
use libdsvdc.Property.Whole.{WholeSlots, nil, cons}

slot_at-put_last :
    (slots : Slots) (n : ℕ) (e : Element) → slot_at (put_last slots n e) n ≡ pure (some e)
unfolding slot_at put_last
slot_at-put_last slots zero e = refl
slot_at-put_last end (suc n) e = slot_at-put_last end n e
slot_at-put_last (entry d slots) (suc n) e = slot_at-put_last slots n e
slot_at-put_last (vacant slots) (suc n) e = slot_at-put_last slots n e
slot_at-put_last (unset slots) (suc n) e = slot_at-put_last slots n e

slot_at-put_last_earlier :
    {slots : Slots} {n : ℕ} (e : Element) (i : ℕ)
    → WholeSlots slots n
    → i < n
    → slot_at (put_last slots n e) i ≡ slot_at slots i
unfolding slot_at put_last
slot_at-put_last_earlier e i nil h = absurd (omega arith)
slot_at-put_last_earlier e zero (cons we ws) h = refl
slot_at-put_last_earlier e (suc i) (cons we ws) h = slot_at-put_last_earlier e i ws (omega arith)

index_ok : (n : ℕ) → leb (n + 1) n ≡ false
index_ok n = ground arith

-- From memory `m`: the value was added and `get` reads it at the next index, or memory ran out,
-- the property is as it was and no block is held.
abbrev pub AddedAs :
    {A : Type 0}
    → Mem
    → Property
    → (Option Property → ℕ → Cmd (Answer A))
    → Cmd (Answer A)
    → Code × Option Property
    → Mem
    → Type 0
AddedAs m p get answer (c, q) n =
    ((c ≡ dsvdc_ok) × (get q p.n_properties n ≡ answer n))
    ⊎ ((c ≡ err_out_of_memory) × (q ≡ some p) × Holding m n 0)

read_back :
    {A : Type 0} {m : Mem} {p : Property} {e : Element} {k : ℕ}
    (get : Option Property → ℕ → Cmd (Answer A)) (answer : Cmd (Answer A))
    {r : Run (Code × Option Property)}
    → Ends (Added m p e k) r
    → ((n : Mem) → get (some (extend p e)) p.n_properties n ≡ answer n)
    → Ends (AddedAs m p get answer) r
read_back get answer (ends (added {n} h)) reads = ends (inl (refl, reads n))
read_back get answer (ends (refused h)) reads = ends (inr (refl, refl, h))

module _ (p : Property) (key : Bytes) (val : PropertyValue) (m : Mem) where
  abbrev longer : Property
  longer = extend p (leaf_of key val)

  last_slot :
      slot_at (put_last (old_slots p.properties) p.n_properties (leaf_of key val)) p.n_properties
      ≡ pure (some (leaf_of key val))
  last_slot = slot_at-put_last (old_slots p.properties) p.n_properties (leaf_of key val)

  int_last :
      Typed.Reads longer _ p.n_properties
        (some key)
        val
        0
        null
        m
        (index_ok p.n_properties)
        refl
        last_slot
        get_int
        value_int64
        (pure (done val.v_int64))
  int_last =
      Typed.get_int-at longer _ p.n_properties (some key) val 0 null m (index_ok p.n_properties)
        refl last_slot

  uint_last :
      Typed.Reads longer _ p.n_properties
        (some key)
        val
        0
        null
        m
        (index_ok p.n_properties)
        refl
        last_slot
        get_uint
        value_uint64
        (pure (done val.v_uint64))
  uint_last =
      Typed.get_uint-at longer _ p.n_properties (some key) val 0 null m (index_ok p.n_properties)
        refl last_slot

  string_last :
      Typed.Reads longer _ p.n_properties
        (some key)
        val
        0
        null
        m
        (index_ok p.n_properties)
        refl
        last_slot
        get_string
        value_string
        (elim val.v_string [ none ↦ fault | some s ↦ duplicate s ])
  string_last =
      Typed.get_string-at longer _ p.n_properties (some key) val 0 null m (index_ok p.n_properties)
        refl last_slot

module _ (p : Property) (key : Bytes) (m : Mem) where
  -- A number that `dsvdc_property_add_int` has added under a key is what `dsvdc_property_get_int`
  -- reads at the property's former length; when it was not added, memory ran out, the property is
  -- as it was and no block is held.
  pub add_int-get_int :
      (x : ℕ) → Ends (AddedAs m p get_int (pure (done x))) (add_int (some p) (some key) x m)
  unfolding value_type_eq type_of_value
  add_int-get_int x = read_back get_int (pure (done x)) (add_int-Added p key m x) (int_last p key _)

  -- An unsigned number that `dsvdc_property_add_uint` has added under a key is what
  -- `dsvdc_property_get_uint` reads at the property's former length; when it was not added,
  -- memory ran out, the property is as it was and no block is held.
  pub add_uint-get_uint :
      (x : ℕ) → Ends (AddedAs m p get_uint (pure (done x))) (add_uint (some p) (some key) x m)
  unfolding value_type_eq type_of_value
  add_uint-get_uint x =
      read_back get_uint (pure (done x)) (add_uint-Added p key m x) (uint_last p key _)

  -- A text that `dsvdc_property_add_string` has added under a key is read back by
  -- `dsvdc_property_get_string` as a copy, if memory suffices for that; when it was not added,
  -- memory ran out, the property is as it was and no block is held.
  pub add_string-get_string :
      (s : Bytes)
      → Ends (AddedAs m p get_string (duplicate s)) (add_string (some p) (some key) (some s) m)
  unfolding value_type_eq type_of_value
  add_string-get_string s =
      read_back get_string (duplicate s) (add_string-Added p key m s) (string_last p key _)

-- On a property with a well-formed array, to put an element behind the others changes what
-- `dsvdc_property_get_value_type` answers at no earlier index.
pub extend-get_value_type :
    {slots : Slots} (p : Property) (e : Element) (i : ℕ)
    → p.properties ≡ vector slots
    → WholeSlots slots p.n_properties
    → i < p.n_properties
    → get_value_type (some (extend p e)) i ≡ get_value_type (some p) i
unfolding get_value_type
extend-get_value_type {slots} p e i array w h =
    let longer_inside : leb (p.n_properties + 1) i ≡ false = ground arith in
    let inside : leb p.n_properties i ≡ false = ground arith in
    rw (array, longer_inside, inside, slot_at-put_last_earlier e i w h)
