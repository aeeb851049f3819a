-- ===== src/Property/Copy/Single.antt =====
-- Trees whose arrays have one slot each, as a chain of names that a request asks for: a deep copy
-- of such a tree is safe whichever allocation fails.
use libdsvdc.Base.{ℕ, zero, suc, ◌+◌, ◌≡◌, true, false, Option, Bytes}
use libdsvdc.Memory.{Mem, undefined, malloc, Holding}
use libdsvdc.Property.{PropertyValue, Element, element, Elements, null, vector, Slots, end, entry}
use libdsvdc.Property.Copy.{deep_copy, Turn, whole, part, Copied, complete, broken}
use libdsvdc.Property.Free.{free_elements, free_slots, free_element}
use libdsvdc.Property.Freed.{Frees}
use libdsvdc.Property.Whole.{WholeOptional, blocks, field_blocks}

-- A well-formed element under which every array has one slot.
pub data Chain : Element → Type 0 where
  leaf :
      {name : Option Bytes} {value : Option PropertyValue}
      → WholeOptional value
      → Chain (element name value zero null)
  node :
      {name : Option Bytes} {value : Option PropertyValue} {e : Element}
      → WholeOptional value
      → Chain e
      → Chain (element name value (suc zero) (vector (entry e end)))

-- Part of an element, which still can be freed.
abbrev Freeable : Mem → Element → Mem → Type 0
Freeable m c n = (k : ℕ) × Frees (free_element c) (k + 1) × Holding m n k

-- The copied element, or a part of one that still can be freed.
abbrev ElementOr : Mem → Element → Turn → Mem → Type 0
ElementOr m e (whole c) n = (c ≡ e) × Holding m n (field_blocks e)
ElementOr m e (part c) n = Freeable m c n

-- The copied slot, or slots that still can be freed.
abbrev SlotOr : Mem → Element → Copied → Mem → Type 0
SlotOr m e (complete s) n = (s ≡ entry e end) × Holding m n (field_blocks e + 1)
SlotOr m e (broken s) n = (k : ℕ) × Frees (free_slots s (suc zero)) k × Holding m n k

-- The copied array, or nothing kept.
abbrev pub SingleOr : Mem → Element → Elements → Mem → Type 0
SingleOr m e (vector s) n = (s ≡ entry e end) × Holding m n (blocks (vector (entry e end)))
SingleOr m e null n = Holding m n 0

-- On an array with an element first and a count of two or more, `dsvdc_property_deep_copy` is
-- undefined where the new array is granted and the first new element is refused: the way out
-- frees slots that were never written.
pub deep_copy-undefined :
    (e : Element) (slots : Slots) (n : ℕ) (m : Mem)
    → m.grants m.calls ≡ true
    → m.grants (m.calls + 1) ≡ false
    → deep_copy (vector (entry e slots)) (suc (suc n)) m ≡ undefined
unfolding deep_copy free_elements malloc
deep_copy-undefined e slots n m g r = rw (g, r)
