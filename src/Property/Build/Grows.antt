-- ===== src/Property/Build/Grows.antt =====
-- Additions to a well-formed property keep it well-formed, and hold exactly its blocks.
use libdsvdc.Base.{ℕ, suc, ◌+◌, ◌≤◌, ◌≡◌, refl, ◌∙◌, Option, some, Bytes, arith}
use mathlib.Core.Path.{subst}
use libdsvdc.Memory.{Mem, spend, release}
use libdsvdc.Property.{Element, null, vector, Slots, Property}
use libdsvdc.Property.Build.{put_last}
use libdsvdc.Property.Build.Added.{extend, new_array}
use libdsvdc.Property.Build.Plenty.{grown, sub_element}
use libdsvdc.Property.Whole.{
  WholeElement, WholeSlots, nil, cons, leaf, node, absent, blocks, slot_blocks, field_blocks,
}

-- A property whose count and array agree.
pub data WholeProperty : Property → Type 0 where
  empty :
      (id : Option ℕ)
      → WholeProperty (record { message_id = id; properties = null; n_properties = 0 })
  filled :
      (id : Option ℕ) {slots : Slots} {n : ℕ}
      → WholeSlots slots (suc n)
      → WholeProperty (record { message_id = id; properties = vector slots; n_properties = suc n })

put_last-Whole :
    {slots : Slots} {n : ℕ} {e : Element}
    → WholeSlots slots n
    → WholeElement e
    → WholeSlots (put_last slots n e) (suc n)
unfolding put_last
put_last-Whole nil w = cons w nil
put_last-Whole (cons v vs) w = cons v (put_last-Whole vs w)

extend-Whole :
    {p : Property} {e : Element} → WholeProperty p → WholeElement e → WholeProperty (extend p e)
unfolding put_last
extend-Whole (empty id) w = filled id (cons w nil)
extend-Whole {e} (filled id {slots} {n} ws) w =
    subst
      (λ k. WholeProperty (record {
        message_id = id;
        properties = vector (put_last slots (suc n) e);
        n_properties = k;
      }))
      {x = suc (suc n)} {y = suc n + 1} (omega arith) (filled id (put_last-Whole ws w))

put_last-blocks :
    {slots : Slots} {n : ℕ} (e : Element)
    → WholeSlots slots n
    → slot_blocks (put_last slots n e) ≡ slot_blocks slots + (field_blocks e + 1)
unfolding put_last slot_blocks
put_last-blocks e nil = omega arith
put_last-blocks e (cons v vs) = omega (arith, put_last-blocks e vs)

-- The blocks of a property but that of its handle.
abbrev pub size : Property → ℕ
size p = blocks p.properties

extend-size :
    {p : Property} (e : Element)
    → WholeProperty p
    → size (extend p e) ≡ size p + new_array p.properties + (field_blocks e + 1)
unfolding blocks slot_blocks put_last
extend-size e (empty id) = omega arith
extend-size e (filled id ws) = omega (arith, put_last-blocks e ws)

-- From memory `m`: what comes of a property is a well-formed one with the same id; the blocks held
-- for it grew as it did, `j` of them being there before.
pub data Grown (p : Property) (j : ℕ) (m : Mem) : Option Property → Mem → Type 0 where
  grown_to :
      {q : Property} {n : Mem}
      → WholeProperty q
      → q.message_id ≡ p.message_id
      → n.allocs + m.frees + (size p + j) ≡ m.allocs + n.frees + size q
      → n.grants ≡ m.grants
      → m.allocs ≤ n.allocs
      → Grown p j m (some q) n

-- An element was added to a property, and `k` blocks with it.
pub extend-Grown :
    {p : Property} (e : Element) (m : Mem) (k : ℕ)
    → WholeProperty p
    → WholeElement e
    → field_blocks e + 1 ≡ k
    → Grown p 0 m (some (extend p e)) (grown p.properties m k)
extend-Grown e m k (empty id) w c =
    grown_to (extend-Whole (empty id) w) refl (omega (arith, extend-size e (empty id), c)) refl
      (omega arith)
extend-Grown e m k (filled id ws) w c =
    grown_to (extend-Whole (filled id ws) w) refl (omega (arith, extend-size e (filled id ws), c))
      refl (omega arith)

sub_element-Whole :
    {q : Property} (name : Bytes) → WholeProperty q → WholeElement (sub_element name q)
sub_element-Whole name (empty id) = leaf absent
sub_element-Whole name (filled id ws) = node absent ws

-- An element took the elements of `q`, whose handle was freed.
pub sub-Grown :
    {p q : Property} (name : Bytes) (m : Mem)
    → WholeProperty p
    → WholeProperty q
    → Grown p
        (size q + 1)
        m
        (some (extend p (sub_element name q)))
        (grown p.properties (release (spend (spend m 1) 1) 1) 0)
unfolding field_blocks blocks
sub-Grown {q} name m (empty id) wq =
    grown_to (extend-Whole (empty id) (sub_element-Whole name wq)) refl
      (omega (arith, extend-size (sub_element name q) (empty id))) refl (omega arith)
sub-Grown {q} name m (filled id ws) wq =
    grown_to (extend-Whole (filled id ws) (sub_element-Whole name wq)) refl
      (omega (arith, extend-size (sub_element name q) (filled id ws))) refl (omega arith)

-- Nothing was added.
pub Grown-refl : {p : Property} (m : Mem) → WholeProperty p → Grown p 0 m (some p) m
Grown-refl m w = grown_to w refl (omega arith) refl (omega arith)

pub Grown-trans :
    {p q : Property} {m n k : Mem} {o : Option Property}
    → q.message_id ≡ p.message_id
    → n.allocs + m.frees + (size p + 0) ≡ m.allocs + n.frees + size q
    → n.grants ≡ m.grants
    → m.allocs ≤ n.allocs
    → Grown q 0 n o k
    → Grown p 0 m o k
Grown-trans e held same more (grown_to w e' held' same' more') =
    grown_to w (e' ∙ e) (omega (arith, held, held')) (same' ∙ same) (omega (arith, more, more'))

-- The blocks that were there before were taken from `m` on.
pub Grown-before :
    {p : Property} {j : ℕ} {m n k : Mem} {o : Option Property}
    → n.allocs + m.frees ≡ m.allocs + n.frees + j
    → n.grants ≡ m.grants
    → m.allocs ≤ n.allocs
    → Grown p j n o k
    → Grown p 0 m o k
Grown-before held same more (grown_to w e held' same' more') =
    grown_to w e (omega (arith, held, held')) (same' ∙ same) (omega (arith, more, more'))
