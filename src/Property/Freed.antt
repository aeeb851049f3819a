-- ===== src/Property/Freed.antt =====
-- Freeing a tree gives back every block of it.
use libdsvdc.Base.{
  ℕ, suc, ◌+◌, ◌≡◌, refl, ap, ◌∙◌, ◌⊎◌, Bool, true, Option, none, some, Bytes, suc-==-zero, inl,
  inr, arith,
}
use libdsvdc.Memory.{
  Mem, Run, ok, Cmd, pure, and_then, ◌>>◌, free, free-ok, release, release-release,
}
use libdsvdc.Property.{Binary, PropertyValue, Element, vector, Slots}
use libdsvdc.Property.Free.{
  property_free, free_some, free_value, free_elements, free_slots, free_element,
}
use libdsvdc.Property.Whole.{
  WholeBytes, no_bytes, some_bytes, WholeOptional, absent, present, WholeElement, leaf, node,
  WholeSlots, nil, cons, held, value_blocks, blocks, slot_blocks, field_blocks,
}

-- A command that gives back `k` blocks and does nothing else, from any state.
abbrev pub Frees : Cmd (Unit {0}) → ℕ → Type 0
Frees c k = (m : Mem) → c m ≡ ok tt (release m k)

pub Frees-pure : Frees (pure tt) 0
Frees-pure m = ground arith

pub Frees-free : Frees free 1
Frees-free m = free-ok m

pub Frees-seq : (c d : Cmd (Unit {0})) (j k : ℕ) → Frees c j → Frees d k → Frees (c >> d) (j + k)
Frees-seq c d j k hc hd m =
    ap (λ (r : Run (Unit {0})). and_then r (λ _. d)) (hc m)
    ∙ hd (release m j)
    ∙ ap (ok tt) (release-release m j k)

pub free_some-Frees {ℓ} : {A : Type ℓ} (o : Option A) → Frees (free_some o) (held o)
free_some-Frees none m = Frees-pure m
free_some-Frees (some a) m = Frees-free m

pub flagged : {has : Bool} {b : Binary} → WholeBytes has b → (has ≡ true) ⊎ (b.contents ≡ none)
flagged (no_bytes has) = inr refl
flagged (some_bytes bytes e) = inl refl

free_value-Frees :
    (v : Option PropertyValue) → WholeOptional v → Frees (free_value v) (value_blocks v)
unfolding free_value free
free_value-Frees none absent m = Frees-pure m
free_value-Frees (some v) (present w) m = ground (arith, flagged w.bytes, w.single)

-- The four parts of an element, the array's part given.
pub fields :
    (name : Option Bytes) (value : Option PropertyValue) (c : Cmd (Unit {0})) (k : ℕ)
    → WholeOptional value
    → Frees c k
    → Frees
        (free_some name >> free_value value >> c >> free)
        (held name + value_blocks value + k + 1)
fields name value c k wv hc =
    Frees-seq _ free _ 1
      (Frees-seq _ c _ k
        (Frees-seq (free_some name) (free_value value) (held name) (value_blocks value)
          (free_some-Frees name) (free_value-Frees value wv))
        hc)
      Frees-free

mutual
  unfolding free_elements slot_blocks

  free_slots-Frees :
      {slots : Slots} {n : ℕ} → WholeSlots slots n → Frees (free_slots slots n) (slot_blocks slots)
  free_slots-Frees nil = Frees-pure
  free_slots-Frees (cons {e} {slots} {n} we ws) =
      Frees-seq (free_element e) (free_slots slots n) (field_blocks e + 1) (slot_blocks slots)
        (free_element-Frees we) (free_slots-Frees ws)

  free_element-Frees : {e : Element} → WholeElement e → Frees (free_element e) (field_blocks e + 1)
  free_element-Frees (leaf {name} {value} wv) = fields name value (pure tt) 0 wv Frees-pure
  free_element-Frees (node {name} {value} {n} {slots} wv ws) = rw (suc-==-zero n) (
      fields name value (free_slots slots (suc n) >> free) (slot_blocks slots + 1) wv (
        Frees-seq (free_slots slots (suc n)) free (slot_blocks slots) 1 (free_slots-Frees ws)
          Frees-free))

pub free_elements-Frees :
    {slots : Slots} {n : ℕ}
    → WholeSlots slots n
    → Frees (free_elements (vector slots) n) (blocks (vector slots))
unfolding free_elements blocks
free_elements-Frees {slots} {n} ws =
    Frees-seq (free_slots slots n) free (slot_blocks slots) 1 (free_slots-Frees ws) Frees-free

-- `dsvdc_property_free` frees the tree and its handle, where there is an element.
pub property_free-Frees :
    {slots : Slots} {n : ℕ} (id : Option ℕ)
    → WholeSlots slots (suc n)
    → Frees
        (property_free
          (some (record { message_id = id; properties = vector slots; n_properties = suc n })))
        (blocks (vector slots) + 1)
unfolding property_free
property_free-Frees {slots} {n} id ws = rw (suc-==-zero n) (
    Frees-seq (free_elements (vector slots) (suc n)) free (blocks (vector slots)) 1
      (free_elements-Frees ws) Frees-free)
