-- ===== src/Property/Copy/Failure.antt =====
-- Names and values: what copying them does when an allocation fails.
use libdsvdc.Base.{ℕ, ◌+◌, ◌≡◌, refl, Bool, true, false, Option, none, some, Bytes, inl, inr, arith}
use libdsvdc.Memory.{
  Mem, Run, Cmd, pure, and_then, ◌>>◌, free, Ends, ends, Ends-bind, Holding, malloc-Ends,
}
use libdsvdc.Property.{PropertyValue}
use libdsvdc.Property.Copy.{copy_bytes, unfilled, copy_text, copy_value, copy_name, copy_optional}
use libdsvdc.Property.Copy.Plenty.{memcpy-whole}
use libdsvdc.Property.Free.{free_some}
use libdsvdc.Property.Whole.{WholeValue, WholeOptional, absent, present, held, value_blocks}

-- The copied value, or nothing kept.
abbrev ValueOr : Mem → PropertyValue → Option PropertyValue → Mem → Type 0
ValueOr m v (some w) n = (w ≡ v) × Holding m n (value_blocks (some v))
ValueOr m v none n = Holding m n 0

drop_value :
    (m n : Mem) (v : PropertyValue) (s : Option Bytes)
    → Holding m n (held s + 1)
    → Ends (ValueOr m v) ((free_some s >> (free >> pure none)) n)
unfolding free
drop_value m n v none h = ends (omega arith)
drop_value m n v (some s) h = ends (omega arith)

module _ (v : PropertyValue) (m : Mem) (w : WholeValue v) where
  copy_bytes-Ends :
      (s : Option Bytes) (n : Mem)
      → v.v_string ≡ s
      → Holding m n (held s + 1)
      → Ends (ValueOr m v) (copy_bytes v (unfilled v s) n)
  unfolding copy_bytes
  copy_bytes-Ends s n e h = elim (memcpy-whole w.bytes) [
    | inl (empty, skip, zero_len) ↦ rw skip (ends (ground arith, ground arith))
    | inr (bytes, holds, copied, go) ↦ rw go (
        Ends-bind (malloc-Ends n) (elim [
          | true ↦ λ n' h'. rw copied (ends (ground arith, ground arith))
          | false ↦ λ n' h'. drop_value m n' v s (omega arith)
        ]))
  ]

  copy_text-Ends :
      (s : Option Bytes) (n : Mem)
      → v.v_string ≡ s
      → Holding m n 1
      → Ends (ValueOr m v) (copy_text v s n)
  unfolding copy_text free
  copy_text-Ends none n e h = copy_bytes-Ends none n e (omega arith)
  copy_text-Ends (some s) n e h = Ends-bind (malloc-Ends n) (elim [
    | true ↦ λ n' h'. copy_bytes-Ends (some s) n' e (omega arith)
    | false ↦ λ n' h'. ends (omega arith)
  ])

  copy_value-Ends : Ends (ValueOr m v) (copy_value v m)
  unfolding copy_value
  copy_value-Ends =
      Ends-bind (malloc-Ends m)
        (elim [ true ↦ λ n h. copy_text-Ends v.v_string n refl h | false ↦ λ n h. ends h ])

-- A name or a value that was copied, and whether that went well.
pub data PartOr {A : Type 0} (size : Option A → ℕ) (m : Mem) (o : Option A)
    : Option A × Bool → Mem → Type 0 where
  copied_part : {n : Mem} → Holding m n (size o) → PartOr size m o (o, true) n
  no_part : {o' : Option A} {n : Mem} → Holding m n 0 → PartOr size m o (o', false) n

pub copy_name-Ends : (o : Option Bytes) (m : Mem) → Ends (PartOr held m o) (copy_name o m)
unfolding copy_name
copy_name-Ends none m = ends (copied_part (omega arith))
copy_name-Ends (some s) m =
    Ends-bind (malloc-Ends m)
      (elim [ true ↦ λ n h. ends (copied_part h) | false ↦ λ n h. ends (no_part h) ])

pub copy_optional-Ends :
    (o : Option PropertyValue) (m : Mem)
    → WholeOptional o
    → Ends (PartOr value_blocks m o) (copy_optional o m)
unfolding copy_optional
copy_optional-Ends none m absent = ends (copied_part (omega arith))
copy_optional-Ends (some v) m (present w) = Ends-bind (copy_value-Ends v m w) (elim [
  | none ↦ λ n h. ends (no_part h)
  | some w' ↦ λ n (same, h). rw same (ends (copied_part h))
])

-- What follows such a copy, by whether it went well.
pub PartOr-bind :
    {A B : Type 0} {size : Option A → ℕ} {m : Mem} {o : Option A} {Q : B → Mem → Type 0}
    {r : Run (Option A × Bool)} (f : Option A × Bool → Cmd B)
    → Ends (PartOr size m o) r
    → ((o' : Option A) (n : Mem) → Holding m n 0 → Ends Q (f (o', false) n))
    → ((n : Mem) → Holding m n (size o) → Ends Q (f (o, true) n))
    → Ends Q (and_then r f)
PartOr-bind f (ends (copied_part {n} h)) bad good = good n h
PartOr-bind f (ends (no_part {o'} {n} h)) bad good = bad o' n h
