-- ===== src/Reference/GetProperty/Responses.antt =====
-- The loop of `getprop_cb` over the elements of a request.
use libdsvdc.Base.{ℕ, suc, ◌+◌, ◌≡◌, refl, false, Option, none, some, Bytes, leb, arith}
use mathlib.Core.Path.{subst}
use libdsvdc.Memory.{
  Mem, pure, and_then, Ends, ends, Ends-bind, Ends-map, spend, release, free, IsPlentiful,
}
use libdsvdc.Property.{Element, element, Slots, Property}
use libdsvdc.Property.Access.{slot_at}
use libdsvdc.Property.Access.Named.{get_name-nameless, get_name-named}
use libdsvdc.Property.Build.Grows.{WholeProperty, Grown, grown_to, Grown-refl, Grown-trans}
use libdsvdc.Property.Copy.Plenty.{query_of}
use libdsvdc.Property.Whole.{FormedSlots, nil, cons}
use libdsvdc.Reference.GetProperty.Growing.{Grows}
use libdsvdc.Reference.GetProperty.Reply.{Answering, answer_loop}

module _ (answering : Answering) (grows : (name : Bytes) → Grows (answering name)) where
  -- What follows a name, where the rest of the loop is known.
  named-Grown :
      (query : Option Property) (n i : ℕ) (name : Bytes) (p : Property) (m : Mem)
      → WholeProperty p
      → IsPlentiful m
      → ((q : Property) (k : Mem)
          → WholeProperty q
          → IsPlentiful k
          → Ends (Grown q 0 k) (answer_loop answering query n (i + 1) (some q) k))
      → Ends (Grown p 0 m) (
          and_then
            (answering name (some p) (spend m 1))
            λ property k. and_then (free k) λ _. answer_loop answering query n (i + 1) property)
  unfolding free
  named-Grown query n i name p m w h next = Ends-bind ((grows name).on p (spend m 1) w h) (elim [
    | some q ↦ λ k g. elim g [
      | grown_to {n = k} w' e held same more ↦
          Ends-map (next q (release k 1) w' (rw same h))
            λ o l g'. Grown-trans e (omega (arith, held)) same (omega (arith, more)) g'
    ]
    | none ↦ λ k g. elim g [ ]
  ])

  -- The turn for an element.
  turn-Grown :
      (total : ℕ) (slots : Slots) (e : Element) (n i : ℕ) (p : Property) (m : Mem)
      → slot_at slots i ≡ pure (some e)
      → leb total i ≡ false
      → WholeProperty p
      → IsPlentiful m
      → ((q : Property) (k : Mem)
          → WholeProperty q
          → IsPlentiful k
          → Ends
              (Grown q 0 k)
              (answer_loop answering (some (query_of slots total)) n (i + 1) (some q) k))
      → Ends
          (Grown p 0 m)
          (answer_loop answering (some (query_of slots total)) (suc n) i (some p) m)
  unfolding answer_loop
  turn-Grown total slots (element none val l els) n i p m at inside w h next =
      rw (answer_loop, get_name-nameless (query_of slots total) slots i l els m inside refl val at)
        (ends (Grown-refl m w))
  turn-Grown total slots (element (some name) val l els) n i p m at inside w h next =
      rw
        (
          answer_loop,
          get_name-named (query_of slots total) slots i l els m inside refl name val at h,
        )
        (named-Grown (some (query_of slots total)) n i name p m w h next)

  pub answer_loop-Grown :
      (total : ℕ) (slots : Slots) {rest : Slots} {n : ℕ} (i : ℕ) (p : Property) (m : Mem)
      → FormedSlots rest n
      → ((k : ℕ) → slot_at slots (k + i) ≡ slot_at rest k)
      → n + i ≡ total
      → WholeProperty p
      → IsPlentiful m
      → Ends (Grown p 0 m) (answer_loop answering (some (query_of slots total)) n i (some p) m)
  unfolding answer_loop slot_at
  answer_loop-Grown total slots i p m nil at count w h = ends (Grown-refl m w)
  answer_loop-Grown total slots i p m (cons {e} {slots = rest} {n} v vs) at count w h =
      turn-Grown total slots e n i p m
        (subst (λ j. slot_at slots j ≡ pure (some e)) {x = 0 + i} {y = i} (omega arith) (at 0))
        (ground (arith, count)) w h
        λ q k wq more.
          answer_loop-Grown total slots (i + 1) q k vs
            (λ j.
              subst (λ a. slot_at slots a ≡ slot_at rest j) {x = suc j + i} {y = j + (i + 1)}
                (omega arith) (at (suc j)))
            (omega (arith, count)) wq more
