-- ===== src/Property/Build/Plenty.antt =====
-- What the adders do where memory suffices: one element more, and the blocks that it takes.
use mathlib.Core.Path.{subst}
use libdsvdc.Base.{
  ℕ, ◌+◌, ◌≡◌, refl, ap, ◌∙◌, Bool, true, Option, none, some, Bytes, arith, length, ◌∷◌, sym,
  suc-==-zero,
}
use libdsvdc.Codes.{Code, dsvdc_ok, done}
use libdsvdc.Memory.{
  Mem, ok, Cmd, ◌>>◌, and_then-ok, malloc, malloc-ok, free, spend, release, IsPlentiful,
}
use libdsvdc.Property.{
  PropertyValue, init_value, Element, element, Elements, null, vector, Property,
}
use libdsvdc.Property.Build.{
  property_add, prepare, prepare_element, grow, attach, free_leaf, add_scalar, add_block, add_int,
  add_uint, add_bool, add_double, add_string, add_bytes, add_property, give_name, store_bytes,
}
use libdsvdc.Property.Build.Added.{memcpy_all, extend, leaf_of}

-- `k` blocks more, and a larger array that took the place of the old one.
abbrev pub grown : Elements → Mem → ℕ → Mem
grown null m k = spend m (k + 1)
grown (vector slots) m k = release (spend m (k + 1)) 1

grow-Plenty : (els : Elements) (m : Mem) → IsPlentiful m → grow els m ≡ ok true (grown els m 0)
unfolding free
grow-Plenty null m h = malloc-ok m h
grow-Plenty (vector slots) m h = rw (malloc-ok m h)

property_add-Plenty :
    (p : Property) (e : Element) (m : Mem)
    → IsPlentiful m
    → property_add (some p) e m ≡ ok (dsvdc_ok, some (extend p e)) (grown p.properties m 0)
unfolding property_add
property_add-Plenty p e m h = rw (grow-Plenty p.properties m h)

grown-spend : (els : Elements) (m : Mem) (j k : ℕ) → grown els (spend m j) k ≡ grown els m (j + k)
grown-spend null m j k = ground arith
grown-spend (vector slots) m j k = ground arith

prepare-Plenty :
    (key : Bytes) (m : Mem)
    → IsPlentiful m
    → prepare (some key) m ≡ ok (done (leaf_of key init_value)) (spend m 3)
unfolding prepare malloc
prepare-Plenty key m h = ground (arith, h m.calls, h (m.calls + 1), h (m.calls + 1 + 1))

attach-Plenty :
    (p : Property) (e : Element) (cleanup : Cmd (Unit {0})) (m : Mem)
    → IsPlentiful m
    → attach (some p) e cleanup m ≡ ok (dsvdc_ok, some (extend p e)) (grown p.properties m 0)
unfolding attach
attach-Plenty p e cleanup m h = rw (property_add-Plenty p e m h)

add_scalar-Plenty :
    (set : PropertyValue → PropertyValue) (p : Property) (key : Bytes) (m : Mem)
    → IsPlentiful m
    → add_scalar set (some p) (some key) m
      ≡ ok (dsvdc_ok, some (extend p (leaf_of key (set init_value)))) (grown p.properties m 3)
unfolding prepare_element add_scalar
add_scalar-Plenty set p key m h = and_then-ok _ (prepare-Plenty key m h) (
    attach-Plenty p (leaf_of key (set init_value)) free_leaf (spend m 3) h
    ∙ ap (ok (dsvdc_ok, some (extend p (leaf_of key (set init_value)))))
        (grown-spend p.properties m 3 0))

add_block-Plenty :
    {A : Type 0} (a : A) (set : A → PropertyValue → PropertyValue) (p : Property) (key : Bytes)
    (m : Mem)
    → IsPlentiful m
    → add_block (some a) set (some p) key m
      ≡ ok (dsvdc_ok, some (extend p (leaf_of key (set a init_value)))) (grown p.properties m 4)
unfolding prepare_element add_block
add_block-Plenty a set p key m h = and_then-ok _ (prepare-Plenty key m h) (
    and_then-ok _ (malloc-ok (spend m 3) h) (
      attach-Plenty p (leaf_of key (set a init_value)) (free >> free_leaf) (spend (spend m 3) 1) h
      ∙ ap (ok (dsvdc_ok, some (extend p (leaf_of key (set a init_value)))))
          (grown-spend p.properties (spend m 3) 1 0 ∙ grown-spend p.properties m 3 1)))

-- The adders of the values that have no block of their own, and of a text.
module _ (p : Property) (key : Bytes) (m : Mem) (h : IsPlentiful m) where
  -- An element with a value was added, and `k` blocks with it.
  abbrev pub Adds : Cmd (Code × Option Property) → PropertyValue → ℕ → Type 0
  Adds c val k = c m ≡ ok (dsvdc_ok, some (extend p (leaf_of key val))) (grown p.properties m k)

  pub add_int-Plenty :
      (x : ℕ)
      → Adds
          (add_int (some p) (some key) x)
          (record init_value { v_int64 = x; has_v_int64 = true })
          3
  unfolding add_int
  add_int-Plenty x = add_scalar-Plenty _ p key m h

  pub add_uint-Plenty :
      (x : ℕ)
      → Adds
          (add_uint (some p) (some key) x)
          (record init_value { v_uint64 = x; has_v_uint64 = true })
          3
  unfolding add_uint
  add_uint-Plenty x = add_scalar-Plenty _ p key m h

  pub add_bool-Plenty :
      (x : Bool)
      → Adds
          (add_bool (some p) (some key) x)
          (record init_value { v_bool = x; has_v_bool = true })
          3
  unfolding add_bool
  add_bool-Plenty x = add_scalar-Plenty _ p key m h

  pub add_double-Plenty :
      (x : ℕ)
      → Adds
          (add_double (some p) (some key) x)
          (record init_value { v_double = x; has_v_double = true })
          3
  unfolding add_double
  add_double-Plenty x = add_scalar-Plenty _ p key m h

  pub add_string-Plenty :
      (s : Bytes)
      → Adds (add_string (some p) (some key) (some s)) (record init_value { v_string = some s }) 4
  unfolding add_string
  add_string-Plenty s = add_block-Plenty s (λ t val. record val { v_string = some t }) p key m h

-- Bytes, at least one, of which there are as many as the length says.
pub add_bytes-Plenty :
    (p : Property) (key : Bytes) (m : Mem) (b : ℕ) (bs : Bytes)
    → IsPlentiful m
    → add_bytes (some p) (some key) (some (b ∷ bs)) (length (b ∷ bs)) m
      ≡ ok
          (
            dsvdc_ok,
            some (extend p (leaf_of key (store_bytes (length (b ∷ bs)) (b ∷ bs) init_value))),
          )
          (grown p.properties m 4)
unfolding add_bytes
add_bytes-Plenty p key m b bs h = rw (suc-==-zero (length bs)) (
    subst
      (λ source.
        add_block source (store_bytes (length (b ∷ bs))) (some p) key m
        ≡ ok
            (
              dsvdc_ok,
              some (extend p (leaf_of key (store_bytes (length (b ∷ bs)) (b ∷ bs) init_value))),
            )
            (grown p.properties m 4))
      (sym (memcpy_all b bs)) (add_block-Plenty (b ∷ bs) (store_bytes (length (b ∷ bs))) p key m h))

prepare-none :
    (m : Mem) → IsPlentiful m → prepare none m ≡ ok (done (element none none 0 null)) (spend m 1)
unfolding prepare
prepare-none m h = rw (malloc-ok m h)

give_name-Plenty :
    (name : Bytes) (o : Option Bytes) (v : Option PropertyValue) (n : ℕ) (els : Elements) (m : Mem)
    → IsPlentiful m
    → give_name (some name) (element o v n els) m
      ≡ ok (some (element (some name) v n els)) (spend m 1)
give_name-Plenty name o v n els m h = rw (malloc-ok m h)

-- An element that takes a property's elements.
abbrev pub sub_element : Bytes → Property → Element
sub_element name source = element (some name) none source.n_properties source.properties

-- `dsvdc_property_add_property`: a new element that takes the source's elements, and one block
-- less, that of the source.
pub add_property-Plenty :
    (p source : Property) (name : Bytes) (m : Mem)
    → IsPlentiful m
    → add_property (some p) (some name) (some source) m
      ≡ ok
          (dsvdc_ok, some (extend p (sub_element name source)), none)
          (grown p.properties (release (spend (spend m 1) 1) 1) 0)
unfolding add_property free
add_property-Plenty p source name m h = and_then-ok _ (prepare-none m h) (
    and_then-ok _ (give_name-Plenty name none none 0 null (spend m 1) h) (
      and_then-ok _
        (property_add-Plenty p (sub_element name source) (release (spend (spend m 1) 1) 1) h) refl))
