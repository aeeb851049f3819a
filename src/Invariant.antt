-- ===== src/Invariant.antt =====
-- What holds of an instance between two turns of the application's main loop.
pub mod Careful
pub mod Sending
pub mod Ending
pub mod Announcing
use libdsvdc.Base.{
  ℕ, ◌+◌, ◌-◌, ◌∙◌, ◌≤◌, ◌≡◌, Bool, true, false, refl, if◌then◌else◌, Option, is_some, arith,
}
use libdsvdc.Effects.{M, skip}
use libdsvdc.Effects.Ends.{Ends, ends}
use libdsvdc.Handle.{Handle, State, in_fd_set, fits_fd_set}
use libdsvdc.Memory.{Mem, IsPlentiful}
use libdsvdc.Requests.Answers.{Answerable}
use libdsvdc.Requests.Order.{Below, Below-weaken}

-- The waiting requests lie in falling order of their addresses, below the next block, and each
-- has a function to call; a session has a connection; there is a listening socket, and `select` can
-- watch it and the connection, if there is one; memory does not run out.
pub record IsSound (h : Handle) (m : Mem) : Type 0 where
  pub ordered : Below (m.allocs + 1) h.requests_list
  pub answerable : Answerable h.requests_list
  pub connected : h.session ≡ true → is_some h.connected_fd ≡ true
  pub listening : in_fd_set h.listen_fd ≡ true
  pub watched : fits_fd_set h.connected_fd ≡ true
  pub plentiful : IsPlentiful m

-- The state is sound, and the mutex is held as often as before.
pub record Kept (s t : State) : Type 0 where
  pub sound : IsSound t.handle t.mem
  pub locks : t.locks ≡ s.locks

-- A command ends on a sound state and keeps it so.
abbrev pub Keeps : {A : Type 0} → M A → Type 0
Keeps m = (s : State) → IsSound s.handle s.mem → Ends (λ _ t. Kept s t) (m s)

-- A sound state stays so under allocations and releases.
pub IsSound-grown :
    {h : Handle} {m n : Mem} → IsSound h m → m.allocs ≤ n.allocs → n.grants ≡ m.grants → IsSound h n
IsSound-grown {h} {m} {n} v grown same = record {
  ordered = Below-weaken (m.allocs + 1) (n.allocs + 1) h.requests_list (omega arith) v.ordered;
  answerable = v.answerable;
  connected = v.connected;
  listening = v.listening;
  watched = v.watched;
  plentiful = rw same v.plentiful;
}

-- A section under the mutex.
pub unlocked :
    {s t : State}
    → Kept (record s { locks = s.locks + 1 }) t
    → Kept s (record t { locks = t.locks - 1 })
unlocked k = record { sound = k.sound; locks = omega (arith, k.locks) }

-- One command after another.
pub Kept-trans : {s t q : State} → Kept s t → Kept t q → Kept s q
Kept-trans k l = record { sound = l.sound; locks = l.locks ∙ k.locks }

pub skip-Keeps : Keeps skip
skip-Keeps s v = ends (record { sound = v; locks = refl })

-- A test, whichever way it goes.
pub Keeps-if : (b : Bool) {m n : M (Unit {0})} → Keeps m → Keeps n → Keeps (if b then m else n)
Keeps-if true km kn = km
Keeps-if false km kn = kn

-- Code that branches and does nothing on some branches.
pub ruleset keeping = (skip-Keeps, Keeps-if)
