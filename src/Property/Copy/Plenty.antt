-- ===== src/Property/Copy/Plenty.antt =====
-- What a deep copy gives when memory suffices.
use libdsvdc.Base.{
  ℕ, zero, suc, ◌+◌, ◌≡◌, refl, ap, ◌∙◌, ◌⊎◌, Bool, true, false, not, ◌&&◌, Option, none, some,
  Bytes, ◌==◌, suc-==-zero, inl, inr, arith, take_all,
}
use libdsvdc.Memory.{
  Mem, ok, Cmd, pure, and_then, ◌>>=◌, malloc, malloc-ok, IsPlentiful, spend, spend-spend,
}
use libdsvdc.Property.{
  Property, Binary, PropertyValue, Element, element, null, vector, Slots, end, entry,
}
use libdsvdc.Property.Copy.{
  property_new, convert_query, memcpy, copy_value, deep_copy, copy_slots, copy_element, copy_name,
  copy_optional, whole, complete,
}
use libdsvdc.Property.Whole.{
  WholeBytes, no_bytes, some_bytes, FormedValue, FormedOptional, absent, present, FormedElement,
  leaf, node, FormedSlots, nil, cons, held, value_blocks, blocks, slot_blocks, field_blocks,
}

-- A command that, where memory suffices, gives `a` and takes `k` blocks.
abbrev pub Yields : {A : Type 0} → Cmd A → A → ℕ → Type 0
Yields c a k = (m : Mem) → IsPlentiful m → c m ≡ ok a (spend m k)

Yields-malloc : Yields malloc true 1
Yields-malloc m h = malloc-ok m h

Yields-pure : {A : Type 0} (a : A) → Yields (pure a) a 0
Yields-pure a m h = ground arith

Yields-bind :
    {A B : Type 0} (c : Cmd A) (f : A → Cmd B) (a : A) (b : B) (j k : ℕ)
    → Yields c a j
    → Yields (f a) b k
    → Yields (c >>= f) b (j + k)
Yields-bind c f a b j k hc hf m h =
    ap (λ r. and_then r f) (hc m h) ∙ hf (spend m j) h ∙ ap (ok b) (spend-spend m j k)

Yields-eq : {A : Type 0} (c : Cmd A) (a : A) (j k : ℕ) → j ≡ k → Yields c a j → Yields c a k
Yields-eq c a j k e h = rw (← e) h

pub memcpy-whole :
    {has : Bool} {b : Binary}
    → WholeBytes has b
    → ((b.contents ≡ none) × (has && not (b.len == 0) ≡ false) × (b.len ≡ 0))
      ⊎ ((bytes : Bytes) × (b.contents ≡ some bytes)
          × (memcpy b ≡ some bytes)
          × (has && not (b.len == 0) ≡ true))
memcpy-whole (no_bytes true) = inl (refl, refl, refl)
memcpy-whole (no_bytes false) = inl (refl, refl, refl)
memcpy-whole (some_bytes {n} bytes e) =
    inr (bytes, refl, ground (arith, take_all (suc n) bytes (omega arith)), ground arith)

copy_value-Yields :
    (v : PropertyValue) → FormedValue v → Yields (copy_value v) (some v) (value_blocks (some v))
unfolding copy_value malloc
copy_value-Yields v w m h =
    ground (arith, memcpy-whole w.bytes, h m.calls, h (m.calls + 1), h (m.calls + 1 + 1))

copy_name-Yields : (o : Option Bytes) → Yields (copy_name o) (o, true) (held o)
unfolding copy_name
copy_name-Yields none = Yields-pure (none, true)
copy_name-Yields (some s) =
    Yields-bind malloc _ true (some s, true) 1 0 Yields-malloc (Yields-pure (some s, true))

copy_optional-Yields :
    (o : Option PropertyValue)
    → FormedOptional o
    → Yields (copy_optional o) (o, true) (value_blocks o)
unfolding copy_optional
copy_optional-Yields none absent = Yields-pure (none, true)
copy_optional-Yields (some v) (present w) = Yields-eq _ _ _ _ (omega arith) (
    Yields-bind (copy_value v) _ (some v) (some v, true) (value_blocks (some v)) 0
      (copy_value-Yields v w) (Yields-pure (some v, true)))

-- The array around the loop.
array-Yields :
    (slots : Slots) (n : ℕ)
    → Yields (copy_slots slots n) (complete slots) (slot_blocks slots)
    → Yields (deep_copy (vector slots) n) (vector slots) (slot_blocks slots + 1)
unfolding deep_copy
array-Yields slots n h = Yields-eq _ _ _ _ (omega arith) (
    Yields-bind malloc _ true (vector slots) 1 _ Yields-malloc (
      Yields-bind (copy_slots slots n) _ (complete slots) (vector slots) (slot_blocks slots) 0 h
        (Yields-pure (vector slots))))

mutual
  unfolding deep_copy slot_blocks copy_optional copy_name

  copy_slots-Yields :
      {slots : Slots} {n : ℕ}
      → FormedSlots slots n
      → Yields (copy_slots slots n) (complete slots) (slot_blocks slots)
  copy_slots-Yields nil = Yields-pure (complete end)
  copy_slots-Yields (cons {e} {slots} {n} we ws) = Yields-eq _ _ _ _ (omega arith) (
      Yields-bind malloc _ true (complete (entry e slots)) 1 _ Yields-malloc (
        Yields-bind (copy_element e) _ (whole e) (complete (entry e slots)) (field_blocks e) _
          (copy_element-Yields we)
          (Yields-bind (copy_slots slots n) _ (complete slots) _ (slot_blocks slots) 0
            (copy_slots-Yields ws) (Yields-pure (complete (entry e slots))))))

  copy_element-Yields :
      {e : Element} → FormedElement e → Yields (copy_element e) (whole e) (field_blocks e)
  copy_element-Yields (leaf {name} {value} wv) = Yields-eq _ _ _ _ (omega arith) (
      Yields-bind (copy_name name) _ (name, true) _ (held name) _ (copy_name-Yields name)
        (Yields-bind (copy_optional value) _ (value, true) _ (value_blocks value) 0
          (copy_optional-Yields value wv) (Yields-pure (whole (element name value zero null)))))
  copy_element-Yields (node {name} {value} {n} {slots} wv ws) = Yields-eq _ _ _ _ (omega arith) (
      Yields-bind (copy_name name) _ (name, true) _ (held name) _ (copy_name-Yields name)
        (Yields-bind (copy_optional value) _ (value, true) _ (value_blocks value)
          (slot_blocks slots + 1 + 0) (copy_optional-Yields value wv)
          (rw (suc-==-zero n) (
            Yields-bind (deep_copy (vector slots) (suc n)) _ (vector slots) _ _ 0
              (array-Yields slots (suc n) (copy_slots-Yields ws))
              (Yields-pure (whole (element name value (suc n) (vector slots))))))))

-- On a well-formed array `dsvdc_property_deep_copy` gives an equal tree, and takes exactly as
-- many blocks as the tree holds, where every allocation is granted.
pub deep_copy-Yields :
    {slots : Slots} {n : ℕ}
    → FormedSlots slots n
    → Yields (deep_copy (vector slots) n) (vector slots) (blocks (vector slots))
unfolding deep_copy blocks
deep_copy-Yields {slots} {n} ws = array-Yields slots n (copy_slots-Yields ws)

-- The property that `dsvdc_property_convert_query` makes of an array.
abbrev pub query_of : Slots → ℕ → Property
query_of slots n = record { message_id = none; properties = vector slots; n_properties = n }

pub property_new-Yields :
    Yields property_new (some (record { message_id = none; properties = null; n_properties = 0 })) 1
unfolding property_new
property_new-Yields = Yields-bind malloc _ true _ 1 0 Yields-malloc (Yields-pure _)

pub convert_query-Yields :
    {slots : Slots} {n : ℕ}
    → FormedSlots slots n
    → Yields
        (convert_query (vector slots) n)
        (some (query_of slots n))
        (1 + (blocks (vector slots) + 0))
unfolding convert_query
convert_query-Yields {slots} {n} ws = Yields-bind property_new _ _ _ 1 _ property_new-Yields (
    Yields-bind (deep_copy (vector slots) n) _ (vector slots) _ _ 0 (deep_copy-Yields ws)
      (Yields-pure _))
