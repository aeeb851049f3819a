-- ===== src/Reference/GetProperty/Growing.antt =====
-- The parts of the answers of `getprop_cb`: each keeps a well-formed property well-formed, and
-- holds exactly its blocks.
use libdsvdc.Base.{
  ℕ, ◌+◌, ◌≤◌, ◌≡◌, refl, ◌∙◌, Bool, true, false, inl, inr, Option, none, some, List, [], ◌∷◌,
  Bytes, arith, if◌then◌else◌,
}
use libdsvdc.Memory.{
  Mem, Run, and_then, Cmd, pure, Ends, ends, Ends-bind, Ends-map, IsPlentiful, spend,
}
use libdsvdc.Property.{PropertyValue, init_value, null, Property}
use libdsvdc.Property.Build.Added.{leaf_of}
use libdsvdc.Property.Build.Grows.{
  WholeProperty, empty, size, Grown, grown_to, extend-Grown, sub-Grown, Grown-refl, Grown-trans,
  Grown-before,
}
use libdsvdc.Property.Build.Plenty.{
  add_uint-Plenty, add_int-Plenty, add_bool-Plenty, add_double-Plenty, add_string-Plenty,
  add_property-Plenty,
}
use libdsvdc.Property.Copy.Plenty.{property_new-Yields}
use libdsvdc.Property.Whole.{WholeElement, leaf, present, no_bytes, blocks, field_blocks}
use libdsvdc.Reference.GetProperty.Reply.{
  set_uint, set_int, set_bool, set_double, set_string, set_property, all_of, reply_with,
  reply_nested,
}

-- Where memory suffices, the command ends on every well-formed property, and extends it.
pub record Grows (c : Option Property → Cmd (Option Property)) : Type 0 where
  pub on :
      (p : Property) (m : Mem) → WholeProperty p → IsPlentiful m → Ends (Grown p 0 m) (c (some p) m)

scalar-Whole :
    (key : Bytes) (val : PropertyValue)
    → val.v_bytes ≡ init_value.v_bytes
    → val.v_string ≡ none
    → WholeElement (leaf_of key val)
scalar-Whole key val e f = leaf (present (record { bytes = rw e (no_bytes _); single = inl f }))

pub set_uint-Grows : (key : Bytes) (x : ℕ) → Grows (set_uint key x)
unfolding field_blocks blocks
set_uint-Grows key x = record {
  on = λ p m w h.
      rw (add_uint-Plenty p key m h x)
        (ends (extend-Grown _ m 3 w (scalar-Whole key _ refl refl) (omega arith)));
}

pub set_int-Grows : (key : Bytes) (x : ℕ) → Grows (set_int key x)
unfolding field_blocks blocks
set_int-Grows key x = record {
  on = λ p m w h.
      rw (add_int-Plenty p key m h x)
        (ends (extend-Grown _ m 3 w (scalar-Whole key _ refl refl) (omega arith)));
}

pub set_double-Grows : (key : Bytes) (x : ℕ) → Grows (set_double key x)
unfolding field_blocks blocks
set_double-Grows key x = record {
  on = λ p m w h.
      rw (add_double-Plenty p key m h x)
        (ends (extend-Grown _ m 3 w (scalar-Whole key _ refl refl) (omega arith)));
}

pub set_bool-Grows : (key : Bytes) (x : Bool) → Grows (set_bool key x)
unfolding field_blocks blocks
set_bool-Grows key x = record {
  on = λ p m w h.
      rw (add_bool-Plenty p key m h x)
        (ends (extend-Grown _ m 3 w (scalar-Whole key _ refl refl) (omega arith)));
}

pub set_string-Grows : (key s : Bytes) → Grows (set_string key s)
unfolding field_blocks blocks
set_string-Grows key s = record {
  on = λ p m w h. rw (add_string-Plenty p key m h s) (
      ends (
        extend-Grown _ m 4 w (leaf (present (record { bytes = no_bytes _; single = inr refl })))
          (omega arith)));
}

pub set_property-Grown :
    (key : Bytes) (p q : Property) (m : Mem)
    → WholeProperty p
    → WholeProperty q
    → IsPlentiful m
    → Ends (Grown p (size q + 1) m) (set_property key (some q) (some p) m)
set_property-Grown key p q m w wq h =
    rw (add_property-Plenty p q key m h) (ends (sub-Grown key m w wq))

pub data AllGrow : List (Option Property → Cmd (Option Property)) → Type 0 where
  nil : AllGrow []
  cons :
      {c : Option Property → Cmd (Option Property)}
      {cs : List (Option Property → Cmd (Option Property))}
      → Grows c
      → AllGrow cs
      → AllGrow (c ∷ cs)

pub all_of-Grows :
    (cs : List (Option Property → Cmd (Option Property))) → AllGrow cs → Grows (all_of cs)
all_of-Grows [] nil = record { on = λ p m w h. ends (Grown-refl m w) }
all_of-Grows (c ∷ cs) (cons g gs) = record {
  on = λ p m w h. Ends-bind (g.on p m w h) (elim [
    | some q ↦ λ n k. elim k [
      | grown_to w' e held same more ↦
          Ends-map ((all_of-Grows cs gs).on q n w' (rw same h))
            λ o l k'. Grown-trans e held same more k'
    ]
    | none ↦ λ n k. elim k [ ]
  ]);
}

-- A new property.
abbrev pub fresh : Property
fresh = record { message_id = none; properties = null; n_properties = 0 }

-- A reply that is being made since memory `m`: all that was taken are its blocks and `j` more.
pub data Tracked (m : Mem) (j : ℕ) : Option Property → Mem → Type 0 where
  tracked :
      {q : Property} {n : Mem}
      → WholeProperty q
      → n.allocs + m.frees ≡ m.allocs + n.frees + (size q + j)
      → n.grants ≡ m.grants
      → m.allocs ≤ n.allocs
      → Tracked m j (some q) n

Grown-Tracked :
    {p : Property} {i j : ℕ} {m n k : Mem} {o : Option Property}
    → n.allocs + m.frees ≡ m.allocs + n.frees + (size p + i + j)
    → n.grants ≡ m.grants
    → m.allocs ≤ n.allocs
    → Grown p i n o k
    → Tracked m j o k
Grown-Tracked held same more (grown_to w e held' same' more') =
    tracked w (omega (arith, held, held')) (same' ∙ same) (omega (arith, more, more'))

pub Tracked-bind :
    {B : Type 0} {Q : B → Mem → Type 0} {m : Mem} {j : ℕ} {r : Run (Option Property)}
    (f : Option Property → Cmd B)
    → Ends (Tracked m j) r
    → ((q : Property) (n : Mem)
        → WholeProperty q
        → n.allocs + m.frees ≡ m.allocs + n.frees + (size q + j)
        → n.grants ≡ m.grants
        → m.allocs ≤ n.allocs
        → Ends Q (f (some q) n))
    → Ends Q (and_then r f)
Tracked-bind f (ends (tracked w held same more)) next = next _ _ w held same more

-- More is added to the reply.
pub all_of-Tracked :
    {m : Mem} {j : ℕ} (cs : List (Option Property → Cmd (Option Property))) (q : Property) (n : Mem)
    → AllGrow cs
    → IsPlentiful m
    → WholeProperty q
    → n.allocs + m.frees ≡ m.allocs + n.frees + (size q + j)
    → n.grants ≡ m.grants
    → m.allocs ≤ n.allocs
    → Ends (Tracked m j) (all_of cs (some q) n)
all_of-Tracked cs q n gs h w held same more =
    Ends-map ((all_of-Grows cs gs).on q n w (rw same h))
      λ o k g. Grown-Tracked (omega (arith, held)) same more g

-- Another reply `i` becomes an element of it.
pub set_property-Tracked :
    {m : Mem} {j : ℕ} (key : Bytes) (q i : Property) (n : Mem)
    → IsPlentiful m
    → WholeProperty q
    → WholeProperty i
    → n.allocs + m.frees ≡ m.allocs + n.frees + (size q + (size i + 1) + j)
    → n.grants ≡ m.grants
    → m.allocs ≤ n.allocs
    → Ends (Tracked m j) (set_property key (some i) (some q) n)
set_property-Tracked key q i n h w wi held same more =
    Ends-map (set_property-Grown key q i n w wi (rw same h))
      λ o k g. Grown-Tracked (omega (arith, held)) same more g

-- A filled reply becomes an element of the answer.
pub attached :
    {p q : Property} {m : Mem} (name : Bytes) (n : Mem)
    → WholeProperty p
    → WholeProperty q
    → n.allocs + m.frees ≡ m.allocs + n.frees + (size q + 1)
    → n.grants ≡ m.grants
    → m.allocs ≤ n.allocs
    → IsPlentiful m
    → Ends (Grown p 0 m) (set_property name (some q) (some p) n)
attached {p} {q} name n w wq held same more h =
    Ends-map (set_property-Grown name p q n w wq (rw same h)) λ o k g. Grown-before held same more g

pub reply_with-Grows :
    (cs : List (Option Property → Cmd (Option Property))) (name : Bytes)
    → AllGrow cs
    → Grows (reply_with cs name)
unfolding reply_with blocks
reply_with-Grows cs name gs = record {
  on = λ p m w h. rw (property_new-Yields m h) (
      Tracked-bind _
        (all_of-Tracked {m = m} {j = 1} cs fresh (spend m 1) gs h (empty none) (omega arith) refl
          (omega arith))
        λ q n w' held same more. attached name n w w' held same more h);
}

pub reply_nested-Grows :
    (key : Bytes) (inner cs : List (Option Property → Cmd (Option Property))) (name : Bytes)
    → AllGrow inner
    → AllGrow cs
    → Grows (reply_nested key inner cs name)
unfolding reply_nested blocks
reply_nested-Grows key inner cs name is gs = record {
  on = λ p m w h.
      rw (property_new-Yields m h, property_new-Yields (spend m 1) h)
        (Tracked-bind _
          (all_of-Tracked {m = m} {j = 2} inner fresh (spend (spend m 1) 1) is h (empty none)
            (omega arith) refl (omega arith))
          λ i n wi held same more.
            Tracked-bind _
              (set_property-Tracked {m = m} {j = 1} key fresh i n h (empty none) wi
                (omega (arith, held)) same more)
              λ r n' wr held' same' more'.
                Tracked-bind _ (all_of-Tracked {m = m} {j = 1} cs r n' gs h wr held' same' more')
                  λ r' n'' wr' held'' same'' more''.
                    attached name n'' w wr' held'' same'' more'' h);
}

pub pure-Grows : Grows pure
pure-Grows = record { on = λ p m w h. ends (Grown-refl m w) }

pub Grows-if :
    (b : Bool) {c d : Option Property → Cmd (Option Property)}
    → Grows c
    → Grows d
    → Grows (if b then c else d)
Grows-if true gc gd = gc
Grows-if false gc gd = gd

-- What adds to an answer.
pub ruleset growing = (
  set_uint-Grows, set_int-Grows, set_double-Grows, set_bool-Grows, set_string-Grows, pure-Grows,
  Grows-if, nil, cons, reply_with-Grows, reply_nested-Grows,
)
