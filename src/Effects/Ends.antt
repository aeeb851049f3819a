-- ===== src/Effects/Ends.antt =====
-- Runs that end: with a result, and a postcondition on it and the state after it.
use mathlib.Core.Path.{subst}
use libdsvdc.Base.{◌≡◌, sym}
use libdsvdc.Effects.{M, Outcome, ok, and_then, returned, heap, ◌>>=◌}
use libdsvdc.Handle.{State}
use libdsvdc.Memory
use libdsvdc.Memory.{Mem, Cmd}

pub data Ends {A : Type 0} (P : A → State → Type 0) : Outcome A → Type 0 where
  ends : {a : A} {s : State} → P a s → Ends P (ok a s)

module _ {A : Type 0} {P : A → State → Type 0} where
  pub Ends-bind :
      {B : Type 0} {Q : B → State → Type 0} {r : Outcome A} {f : A → M B}
      → Ends P r
      → ((a : A) (s : State) → P a s → Ends Q (f a s))
      → Ends Q (and_then r f)
  Ends-bind (ends p) next = next _ _ p

  pub Ends-map :
      {Q : A → State → Type 0} {r : Outcome A}
      → Ends P r
      → ((a : A) (s : State) → P a s → Q a s)
      → Ends Q r
  Ends-map (ends p) next = ends (next _ _ p)

-- A postcondition that holds under an assumption, beside one that holds in any case.
pub Ends-given :
    {A X : Type 0} {P Q : A → State → Type 0} {r : Outcome A}
    → (X → Ends Q r)
    → Ends P r
    → Ends (λ a s. P a s × (X → Q a s)) r
Ends-given {Q} h (ends {a} {s} p) = ends (p, λ x. holds (h x))
  where
    holds : Ends Q (ok a s) → Q a s
    holds (ends q) = q

-- A step on the heap whose result is known.
pub heap-bind :
    {A B : Type 0} {P : B → State → Type 0} (c : Cmd A) (s : State) {a : A} {m : Mem} (k : A → M B)
    → c s.mem ≡ Memory.ok a m
    → Ends P (k a (record s { mem = m }))
    → Ends P ((heap c >>= k) s)
heap-bind {P} c s k e h = subst (λ r. Ends P (and_then (returned r s) k)) (sym e) h

-- A step on the heap that ends.
pub heap-Ends :
    {A B : Type 0} {R : A → Mem → Type 0} {P : B → State → Type 0} (c : Cmd A) (s : State)
    (k : A → M B)
    → Memory.Ends R (c s.mem)
    → ((a : A) (m : Mem) → R a m → Ends P (k a (record s { mem = m })))
    → Ends P ((heap c >>= k) s)
heap-Ends {A = A} {R = R} {P = P} c s k h next = after (c s.mem) h
  where
    after : (r : Memory.Run A) → Memory.Ends R r → Ends P (and_then (returned r s) k)
    after r (Memory.ends {a} {m} p) = next a m p
