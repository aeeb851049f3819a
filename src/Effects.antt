-- ===== src/Effects.antt =====
-- The effects of the library's functions on the state, in a monad.
pub mod Ends
use libdsvdc.Base.{ℕ, ◌+◌, ◌-◌, Bool, true, false, Option, none, some, List, [], ◌∷◌, ◌++◌, Bytes}
use libdsvdc.Handle.{Handle, Callbacks, Arguments, Call, State, Env}
use libdsvdc.Memory.{Mem, Cmd}
use libdsvdc.Memory
use libdsvdc.Sock
use libdsvdc.Sock.{Written, WriteResult, sockwrite, SocketStatus, ReadResult, sockread}

-- `undefined` is undefined behaviour, such as a call of NULL; `blocked` is a wait for a peer that
-- has no end; `out_of_fuel` is the end of a loop's fuel.
pub data Outcome (A : Type 0) : Type 0 where
  ok : A → State → Outcome A
  undefined : Outcome A
  blocked : Outcome A
  out_of_fuel : Outcome A

abbrev pub M : Type 0 → Type 0
M A = State → Outcome A

abbrev pub pure : {A : Type 0} → A → M A
pure a s = ok a s

module _ {A B : Type 0} where
  abbrev pub and_then : Outcome A → (A → M B) → Outcome B
  and_then (ok a s) k = k a s
  and_then undefined k = undefined
  and_then blocked k = blocked
  and_then out_of_fuel k = out_of_fuel

  infixl 5 ◌>>=◌
  abbrev pub ◌>>=◌ : M A → (A → M B) → M B
  ◌>>=◌ c k s = and_then (c s) k

infixl 5 ◌>>◌
abbrev pub ◌>>◌ : {B : Type 0} → M (Unit {0}) → M B → M B
c >> d = c >>= λ _. d

abbrev pub skip : M (Unit {0})
skip s = ok tt s

abbrev pub fault : {A : Type 0} → M A
fault s = undefined

abbrev pub gets : {A : Type 0} → (State → A) → M A
gets f s = ok (f s) s

abbrev pub get_handle : M Handle
get_handle s = ok s.handle s

abbrev pub put_handle : Handle → M (Unit {0})
put_handle h s = ok tt (record s { handle = h })

-- `pthread_mutex_lock` and `pthread_mutex_unlock` of the recursive mutex.
abbrev pub lock : M (Unit {0})
lock s = ok tt (record s { locks = s.locks + 1 })

abbrev pub unlock : M (Unit {0})
unlock s = ok tt (record s { locks = s.locks - 1 })

-- `time(NULL)`
abbrev pub time : M ℕ
time s = ok (s.clock s.ticks) (record s { ticks = s.ticks + 1 })

abbrev pub close : ℕ → M (Unit {0})
close fd s = ok tt (record s { closed = s.closed ++ fd ∷ [] })

-- An operation on the heap alone.
abbrev pub returned : {A : Type 0} → Memory.Run A → State → Outcome A
returned (Memory.ok a m) s = ok a (record s { mem = m })
returned Memory.undefined s = undefined

abbrev pub heap : {A : Type 0} → Cmd A → M A
heap c s = returned (c s.mem) s

-- `sockwrite` on the connected socket.
abbrev pub write : ℕ → Bytes → M WriteResult
write fd bytes s =
    let w = sockwrite bytes s.writes in
    ok w.result (record s { writes = w.rest; wire = s.wire ++ (fd, w.wire) ∷ [] })

-- `sockread` from the connected socket: the status with the bytes that were read.
abbrev received : ReadResult → State → Outcome (SocketStatus × Bytes)
received (Sock.returned status bytes rest) s = ok (status, bytes) (record s { reads = rest })
received Sock.blocked s = blocked

abbrev pub read : ℕ → ℕ → M (SocketStatus × Bytes)
read len timeout s = received (sockread len timeout s.reads) s

module _ (env : Env) where
  -- A call of the application is recorded, and then the application acts.
  abbrev pub invoke : ℕ → Arguments → M Bool
  invoke f args s =
      let call : Call = record {
        function = f;
        arguments = args;
        userdata = s.handle.callback_userdata;
      } in
      let after = env.react call (record s { calls = s.calls ++ call ∷ [] }) in ok after.1 after.0

  -- `if (handle->callback) handle->callback(...)`
  abbrev pub notify_by : Option ℕ → Arguments → M (Unit {0})
  notify_by none args s = ok tt s
  notify_by (some f) args s = (invoke f args >>= λ _. skip) s

  abbrev pub notify : (Callbacks → Option ℕ) → Arguments → M (Unit {0})
  notify callback args s = notify_by (callback s.handle.callbacks) args s
