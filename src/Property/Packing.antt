-- ===== src/Property/Packing.antt =====
-- What packing reads of a property's elements: every element that a count speaks of, and as many
-- bytes of a value as its length says.
use libdsvdc.Base.{
  ℕ, zero, suc, ◌≡◌, refl, Bool, true, false, not, ◌&&◌, ◌||◌, Option, none, some, leb, length,
  ◌==◌, arith,
}
use libdsvdc.Property.{
  Binary, PropertyValue, Element, element, Elements, null, vector, Slots, end, entry, vacant, unset,
}
use libdsvdc.Property.Whole.{
  WholeBytes, no_bytes, some_bytes, FormedOptional, absent, present, FormedElement, leaf, node,
  FormedSlots, nil, cons,
}

-- The bytes are there.
abbrev bytes_readable : Binary → Bool
bytes_readable b = elim b.contents [ none ↦ b.len == 0 | some bytes ↦ leb b.len (length bytes) ]

abbrev value_packable : Option PropertyValue → Bool
value_packable none = true
value_packable (some v) = not v.has_v_bytes || bytes_readable v.v_bytes

-- An array can be packed where all its elements up to the count are there and can be packed.
unfoldable mutual
  pub packable : Elements → ℕ → Bool
  packable null zero = true
  packable null (suc n) = false
  packable (vector slots) n = slots_packable slots n

  slots_packable : Slots → ℕ → Bool
  slots_packable slots zero = true
  slots_packable end (suc n) = false
  slots_packable (entry e slots) (suc n) = element_packable e && slots_packable slots n
  slots_packable (vacant slots) (suc n) = false
  slots_packable (unset slots) (suc n) = false

  element_packable : Element → Bool
  element_packable (element name value n els) = value_packable value && packable els n

WholeBytes-readable : {has : Bool} {b : Binary} → WholeBytes has b → bytes_readable b ≡ true
WholeBytes-readable (no_bytes has) = refl
WholeBytes-readable (some_bytes {n} bytes e) = ground arith

FormedOptional-packable : {o : Option PropertyValue} → FormedOptional o → value_packable o ≡ true
FormedOptional-packable absent = refl
FormedOptional-packable (present {v} w) = ground (arith, WholeBytes-readable w.bytes)

mutual
  unfolding packable

  FormedSlots-packable :
      {slots : Slots} {n : ℕ} → FormedSlots slots n → slots_packable slots n ≡ true
  FormedSlots-packable nil = refl
  FormedSlots-packable (cons we ws) = rw (FormedElement-packable we, FormedSlots-packable ws) refl

  FormedElement-packable : {e : Element} → FormedElement e → element_packable e ≡ true
  FormedElement-packable (leaf wv) = rw (FormedOptional-packable wv) refl
  FormedElement-packable (node wv ws) =
      rw (FormedOptional-packable wv, FormedSlots-packable ws) refl

-- Well-formed arrays can be packed.
pub packable-FormedSlots :
    {slots : Slots} {n : ℕ} → FormedSlots slots n → packable (vector slots) n ≡ true
unfolding packable
packable-FormedSlots ws = FormedSlots-packable ws
