-- ===== src/Property/Lost.antt =====
-- Freeing a tree as unpacking gives it: all its blocks, save those of bytes beside a text.
use libdsvdc.Base.{ℕ, suc, ◌+◌, ◌≡◌, refl, Option, none, some, Bytes, suc-==-zero, arith}
use libdsvdc.Memory.{Cmd, pure, ◌>>◌, free}
use libdsvdc.Property.{PropertyValue, Element, vector, Slots}
use libdsvdc.Property.Free.{
  property_free, free_some, free_value, free_elements, free_slots, free_element,
}
use libdsvdc.Property.Freed.{Frees, Frees-pure, Frees-free, Frees-seq, free_some-Frees, flagged}
use libdsvdc.Property.Whole.{
  FormedOptional, absent, present, FormedElement, leaf, node, FormedSlots, nil, cons, held,
  value_blocks, blocks, slot_blocks, field_blocks, value_lost, lost, slot_lost, field_lost,
}

-- A command that gives back `b` blocks less `l`, and does nothing else.
abbrev pub FreesBut : Cmd (Unit {0}) → ℕ → ℕ → Type 0
FreesBut c b l = (k : ℕ) × (k + l ≡ b) × Frees c k

FreesBut-all : (c : Cmd (Unit {0})) (k : ℕ) → Frees c k → FreesBut c k 0
FreesBut-all c k h = (k, omega arith, h)

FreesBut-seq :
    (c d : Cmd (Unit {0})) (a b k l : ℕ)
    → FreesBut c a k
    → FreesBut d b l
    → FreesBut (c >> d) (a + b) (k + l)
FreesBut-seq c d a b k l (i, e, hc) (j, f, hd) = (i + j, omega arith, Frees-seq c d i j hc hd)

FreesBut-eq : (c : Cmd (Unit {0})) (a b k l : ℕ) → a ≡ b → k ≡ l → FreesBut c a k → FreesBut c b l
FreesBut-eq c a b k l e f (i, g, h) = (i, omega arith, h)

-- The number of blocks of a value that are given back.
value_freed : Option PropertyValue → ℕ
value_freed none = 0
value_freed (some v) = elim v.v_string [ some _ ↦ 2 | none ↦ held v.v_bytes.contents + 1 ]

free_value-FreesBut :
    (v : Option PropertyValue)
    → FormedOptional v
    → FreesBut (free_value v) (value_blocks v) (value_lost v)
unfolding free_value free value_freed
free_value-FreesBut none absent = FreesBut-all _ 0 Frees-pure
free_value-FreesBut (some v) (present w) =
    (value_freed (some v), ground (arith, flagged w.bytes), λ m. ground (arith, flagged w.bytes))

-- The four parts of an element, the array's part given.
element-FreesBut :
    (name : Option Bytes) (value : Option PropertyValue) (c : Cmd (Unit {0})) (b l : ℕ)
    → FormedOptional value
    → FreesBut c b l
    → FreesBut
        (free_some name >> free_value value >> c >> free)
        (held name + value_blocks value + b + 1)
        (value_lost value + l)
element-FreesBut name value c b l wv hc = FreesBut-eq _ _ _ _ _ refl (omega arith) (
    FreesBut-seq _ free _ 1 _ 0
      (FreesBut-seq _ c _ b _ l
        (FreesBut-seq (free_some name) (free_value value) (held name) (value_blocks value) 0
          (value_lost value) (FreesBut-all _ _ (free_some-Frees name))
          (free_value-FreesBut value wv))
        hc)
      (FreesBut-all free 1 Frees-free))

-- One block more.
and_free-FreesBut : (c : Cmd (Unit {0})) (b l : ℕ) → FreesBut c b l → FreesBut (c >> free) (b + 1) l
and_free-FreesBut c b l h =
    FreesBut-eq _ _ _ _ _ refl (omega arith)
      (FreesBut-seq c free b 1 l 0 h (FreesBut-all free 1 Frees-free))

mutual
  unfolding free_elements slot_blocks lost

  free_slots-FreesBut :
      {slots : Slots} {n : ℕ}
      → FormedSlots slots n
      → FreesBut (free_slots slots n) (slot_blocks slots) (slot_lost slots)
  free_slots-FreesBut nil = FreesBut-all _ 0 Frees-pure
  free_slots-FreesBut (cons {e} {slots} {n} we ws) =
      FreesBut-seq (free_element e) (free_slots slots n) (field_blocks e + 1) (slot_blocks slots)
        (field_lost e) (slot_lost slots) (free_element-FreesBut we) (free_slots-FreesBut ws)

  free_element-FreesBut :
      {e : Element}
      → FormedElement e
      → FreesBut (free_element e) (field_blocks e + 1) (field_lost e)
  free_element-FreesBut (leaf {name} {value} wv) =
      element-FreesBut name value (pure tt) 0 0 wv (FreesBut-all _ 0 Frees-pure)
  free_element-FreesBut (node {name} {value} {n} {slots} wv ws) = rw (suc-==-zero n) (
      element-FreesBut name value (free_slots slots (suc n) >> free) (slot_blocks slots + 1)
        (slot_lost slots) wv (and_free-FreesBut _ _ _ (free_slots-FreesBut ws)))

-- `dsvdc_property_free` frees the tree and its handle, where there is an element, save the bytes
-- of each value that has a text too.
pub property_free-FreesBut :
    {slots : Slots} {n : ℕ} (id : Option ℕ)
    → FormedSlots slots (suc n)
    → FreesBut
        (property_free
          (some (record { message_id = id; properties = vector slots; n_properties = suc n })))
        (blocks (vector slots) + 1)
        (lost (vector slots))
unfolding property_free free_elements blocks lost
property_free-FreesBut {slots} {n} id ws =
    rw (suc-==-zero n) (and_free-FreesBut _ _ _ (and_free-FreesBut _ _ _ (free_slots-FreesBut ws)))
