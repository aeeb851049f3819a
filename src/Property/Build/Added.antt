-- ===== src/Property/Build/Added.antt =====
-- What the adders do, whichever allocation fails: one element more, or nothing changed and
-- nothing kept.
use libdsvdc.Base.{
  ℕ, suc, ◌+◌, ◌≡◌, Bool, true, false, Option, some, Bytes, ◌∷◌, suc-==-zero, if◌then◌else◌, length,
  arith, take_all, sym,
}
use mathlib.Core.Path.{subst}
use libdsvdc.Codes.{Code, dsvdc_ok, err_out_of_memory, Answer, done, error}
use libdsvdc.Memory.{
  Mem, Run, ok, Cmd, and_then, ◌>>◌, free, Ends, ends, Ends-bind, Holding, malloc-Ends,
}
use libdsvdc.Property.{
  PropertyValue, init_value, Element, element, Elements, null, vector, Property,
}
use libdsvdc.Property.Build.{
  put_last, property_add, prepare, prepare_element, grow, old_slots, attach, free_leaf, add_scalar,
  add_block, add_int, add_uint, add_bool, add_double, add_string, add_bytes, store_bytes,
}
use libdsvdc.Property.Copy.{memcpy}

-- `p` with `e` behind its elements.
abbrev pub extend : Property → Element → Property
extend p e = record p {
  properties = vector (put_last (old_slots p.properties) p.n_properties e);
  n_properties = p.n_properties + 1;
}

-- The block of the array, where there was none.
abbrev pub new_array : Elements → ℕ
new_array null = 1
new_array (vector slots) = 0

-- From memory `m`: the element was added and `k` blocks are held for it and the array, or
-- allocation failed, the property is as it was and nothing is held.
pub data Added (m : Mem) (p : Property) (e : Element) (k : ℕ)
    : Code × Option Property → Mem → Type 0 where
  added :
      {n : Mem}
      → Holding m n (k + new_array p.properties)
      → Added m p e k (dsvdc_ok, some (extend p e)) n
  refused : {n : Mem} → Holding m n 0 → Added m p e k (err_out_of_memory, some p) n

grow-Ends :
    (els : Elements) (m : Mem)
    → Ends (λ granted n. Holding m n (if granted then new_array els else 0)) (grow els m)
unfolding free
grow-Ends null m = malloc-Ends m
grow-Ends (vector slots) m =
    Ends-bind (malloc-Ends m) (elim [ true ↦ λ n h. ends (omega arith) | false ↦ λ n h. ends h ])

pub property_add-Ends :
    (p : Property) (e : Element) (m : Mem) → Ends (Added m p e 0) (property_add (some p) e m)
unfolding property_add
property_add-Ends p e m =
    Ends-bind (grow-Ends p.properties m)
      (elim [ true ↦ λ n h. ends (added (omega arith)) | false ↦ λ n h. ends (refused h) ])

-- A prepared leaf.
abbrev pub leaf_of : Bytes → PropertyValue → Element
leaf_of key val = element (some key) (some val) 0 null

pub data Prepared (m : Mem) (key : Bytes) : Answer Element → Mem → Type 0 where
  ready : {n : Mem} → Holding m n 3 → Prepared m key (done (leaf_of key init_value)) n
  failed : {n : Mem} → Holding m n 0 → Prepared m key (error err_out_of_memory) n

prepare-Ends : (key : Bytes) (m : Mem) → Ends (Prepared m key) (prepare (some key) m)
unfolding prepare free
prepare-Ends key m = Ends-bind (malloc-Ends m) (elim [
  | false ↦ λ n h. ends (failed h)
  | true ↦ λ n h. Ends-bind (malloc-Ends n) (elim [
    | false ↦ λ n' h'. ends (failed (omega arith))
    | true ↦ λ n' h'. Ends-bind (malloc-Ends n') (elim [
      | false ↦ λ g k. ends (failed (omega arith))
      | true ↦ λ g k. ends (ready (omega arith))
    ])
  ])
])

Prepared-bind :
    {B : Type 0} {m : Mem} {key : Bytes} {Q : B → Mem → Type 0} {r : Run (Answer Element)}
    (f : Answer Element → Cmd B)
    → Ends (Prepared m key) r
    → ((n : Mem) → Holding m n 3 → Ends Q (f (done (leaf_of key init_value)) n))
    → ((n : Mem) → Holding m n 0 → Ends Q (f (error err_out_of_memory) n))
    → Ends Q (and_then r f)
Prepared-bind f (ends (ready {n} h)) good bad = good n h
Prepared-bind f (ends (failed {n} h)) good bad = bad n h

Added-bind :
    {B : Type 0} {m : Mem} {p : Property} {e : Element} {k : ℕ} {Q : B → Mem → Type 0}
    {r : Run (Code × Option Property)} (f : Code × Option Property → Cmd B)
    → Ends (Added m p e k) r
    → ((n : Mem)
        → Holding m n (k + new_array p.properties)
        → Ends Q (f (dsvdc_ok, some (extend p e)) n))
    → ((n : Mem) → Holding m n 0 → Ends Q (f (err_out_of_memory, some p) n))
    → Ends Q (and_then r f)
Added-bind f (ends (added {n} h)) good bad = good n h
Added-bind f (ends (refused {n} h)) good bad = bad n h

-- The end of an adder: `cleanup` gives back the `k` blocks of the element.
attach-Ends :
    (p : Property) (e : Element) (m n : Mem) (k : ℕ) (cleanup : Cmd (Unit {0}))
    → Holding m n k
    → ((g : Mem) → cleanup g ≡ ok tt (record g { frees = g.frees + k }))
    → Ends (Added m p e k) (attach (some p) e cleanup n)
unfolding attach
attach-Ends p e m n k cleanup h clean =
    Added-bind _ (property_add-Ends p e n) (λ g h'. ends (added (omega arith)))
      λ g h'. rw (clean g) (ends (refused (omega arith)))

free_leaf-ok : (m : Mem) → free_leaf m ≡ ok tt (record m { frees = m.frees + 3 })
unfolding free
free_leaf-ok m = ground arith

add_scalar-Ends :
    (set : PropertyValue → PropertyValue) (p : Property) (key : Bytes) (m : Mem)
    → Ends (Added m p (leaf_of key (set init_value)) 3) (add_scalar set (some p) (some key) m)
unfolding prepare_element add_scalar
add_scalar-Ends set p key m =
    Prepared-bind _ (prepare-Ends key m)
      (λ n h. attach-Ends p (leaf_of key (set init_value)) m n 3 free_leaf h free_leaf-ok)
      λ n h. ends (refused h)

add_block-Ends :
    {A : Type 0} (a : A) (set : A → PropertyValue → PropertyValue) (p : Property) (key : Bytes)
    (m : Mem)
    → Ends (Added m p (leaf_of key (set a init_value)) 4) (add_block (some a) set (some p) key m)
unfolding prepare_element free add_block
add_block-Ends a set p key m =
    Prepared-bind _ (prepare-Ends key m)
      (λ n h. Ends-bind (malloc-Ends n) (elim [
        | true ↦ λ g h'.
            attach-Ends p (leaf_of key (set a init_value)) m g 4 (free >> free_leaf) (omega arith)
              (λ f. ground arith)
        | false ↦ λ g h'. ends (refused (omega arith))
      ]))
      λ n h. ends (refused h)

pub memcpy_all :
    (b : ℕ) (bs : Bytes)
    → memcpy (record { len = suc (length bs); contents = some (b ∷ bs) }) ≡ some (b ∷ bs)
memcpy_all b bs = ground (arith, take_all (length bs) bs (omega arith))

module _ (p : Property) (key : Bytes) (m : Mem) where
  pub add_int-Added :
      (x : ℕ)
      → Ends
          (Added m p (leaf_of key (record init_value { v_int64 = x; has_v_int64 = true })) 3)
          (add_int (some p) (some key) x m)
  unfolding add_int
  add_int-Added x = add_scalar-Ends _ p key m

  pub add_uint-Added :
      (x : ℕ)
      → Ends
          (Added m p (leaf_of key (record init_value { v_uint64 = x; has_v_uint64 = true })) 3)
          (add_uint (some p) (some key) x m)
  unfolding add_uint
  add_uint-Added x = add_scalar-Ends _ p key m

  pub add_bool-Added :
      (x : Bool)
      → Ends
          (Added m p (leaf_of key (record init_value { v_bool = x; has_v_bool = true })) 3)
          (add_bool (some p) (some key) x m)
  unfolding add_bool
  add_bool-Added x = add_scalar-Ends _ p key m

  pub add_double-Added :
      (x : ℕ)
      → Ends
          (Added m p (leaf_of key (record init_value { v_double = x; has_v_double = true })) 3)
          (add_double (some p) (some key) x m)
  unfolding add_double
  add_double-Added x = add_scalar-Ends _ p key m

  pub add_string-Added :
      (s : Bytes)
      → Ends
          (Added m p (leaf_of key (record init_value { v_string = some s })) 4)
          (add_string (some p) (some key) (some s) m)
  unfolding add_string
  add_string-Added s = add_block-Ends s (λ t val. record val { v_string = some t }) p key m

  -- Whichever allocation fails, to add a copy of bytes, at least one, under a key gives DSVDC_OK
  -- and the property with that element behind its others, four blocks more being held and a fifth
  -- for the array, if there was none; or DSVDC_ERR_OUT_OF_MEMORY with the property as it was and
  -- no block more.
  pub add_bytes-Added :
      (b : ℕ) (bs : Bytes)
      → Ends
          (Added m p (leaf_of key (store_bytes (length (b ∷ bs)) (b ∷ bs) init_value)) 4)
          (add_bytes (some p) (some key) (some (b ∷ bs)) (length (b ∷ bs)) m)
  unfolding add_bytes
  add_bytes-Added b bs = rw (suc-==-zero (length bs)) (
      subst
        (λ source.
          Ends (Added m p (leaf_of key (store_bytes (length (b ∷ bs)) (b ∷ bs) init_value)) 4)
            (add_block source (store_bytes (length (b ∷ bs))) (some p) key m))
        (sym (memcpy_all b bs)) (add_block-Ends (b ∷ bs) (store_bytes (length (b ∷ bs))) p key m))
