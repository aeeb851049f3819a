-- ===== src/Work/Reading.antt =====
-- The reading part of `dsvdc_work` keeps an instance sound and gives the mutex back.
use libdsvdc.Base.{
  ℕ, ◌+◌, ◌-◌, ◌≡◌, ◌≢◌, refl, Bool, true, false, not, ◌||◌, Bytes, ◌==◌, if◌then◌else◌, is_some,
  length, ltb, arith,
}
use libdsvdc.Dispatch.Keeping.{UnpacksFormed, process_message-Kept}
use libdsvdc.Effects.{M, ◌>>=◌, unlock, read}
use libdsvdc.Effects.Ends.{Ends, ends, Ends-bind}
use libdsvdc.Handle.{State, Env}
use libdsvdc.Invariant.{IsSound, IsSound-grown}
use libdsvdc.Memory.{malloc, free}
use libdsvdc.Invariant.Ending.{closed-IsSound, end_session-Kept}
use libdsvdc.Process.Session.{disconnect-Disconnected}
use libdsvdc.Invariant.Careful.{IsCareful}
use libdsvdc.Send.Frame.{ntohs}
use libdsvdc.Sock.{SocketStatus, sockread, ReadResult, returned, blocked}
use libdsvdc.Sock.Returns.{Returns, sockread-Returns}
use libdsvdc.Work.{
  Poll, reset, handle_body, read_body, handle_header, read_message, from_connection, status_ok,
  max_data_size,
}

-- A sound state in which the mutex is held `n` times.
pub record Done (n : ℕ) (t : State) : Type 0 where
  pub sound : IsSound t.handle t.mem
  pub locks : t.locks ≡ n

-- A command that gives the mutex back, from a sound and connected state.
abbrev pub Finishes : M (Unit {0}) → Type 0
Finishes m =
    (n : ℕ) (s : State)
    → IsSound s.handle s.mem
    → is_some s.handle.connected_fd ≡ true
    → s.locks ≡ n + 1
    → Ends (λ _ t. Done n t) (m s)

Finishes-if :
    (b : Bool) {m n : M (Unit {0})} → Finishes m → Finishes n → Finishes (if b then m else n)
Finishes-if true km kn = km
Finishes-if false km kn = kn

pub unlock-Done :
    (n : ℕ) (s : State)
    → IsSound s.handle s.mem
    → s.locks ≡ n + 1
    → Ends (λ _ t. Done n t) (unlock s)
unlock-Done n s v l = ends (record { sound = v; locks = omega (arith, l) })

unlock-Finishes : Finishes unlock
unlock-Finishes n s v c l = unlock-Done n s v l

module _ (env : Env) (careful : IsCareful env) (whole : UnpacksFormed env) (poll : Poll)
    (timeout : ℕ) (timed : timeout ≢ 0) where
  reset-Finishes : Finishes (reset env poll timeout)
  reset-Finishes n s v c l = Ends-bind (disconnect-Disconnected env s) λ _ t d.
      Ends-bind (end_session-Kept env careful t (rw (d.handle, d.mem) (closed-IsSound v)))
        λ _ q k. ends (record { sound = k.sound; locks = omega (arith, k.locks, d.locks, l) })

  handle_body-Finishes :
      (size : ℕ) (r : SocketStatus × Bytes) → Finishes (handle_body env poll timeout size r)
  unfolding free
  handle_body-Finishes size (status, body) =
      Finishes-if (not (status_ok status) || not (length body == size))
        (λ n s v c l. Ends-bind (disconnect-Disconnected env s) λ _ t d.
          Ends-bind
            (end_session-Kept env careful
              (record t { mem = record t.mem { frees = t.mem.frees + 1 } })
              (rw (d.handle, d.mem)
                (IsSound-grown {n = record s.mem { frees = s.mem.frees + 1 }} (closed-IsSound v)
                  (omega arith) refl)))
            λ _ q k.
              ends {s = record q { locks = q.locks - 1 }}
                (record { sound = k.sound; locks = omega (arith, k.locks, d.locks, l) }))
        λ n s v c l.
          Ends-bind
            (process_message-Kept env careful whole body (record s { locks = s.locks - 1 }) v c)
            λ _ t k.
              ends {s = record t { mem = record t.mem { frees = t.mem.frees + 1 } }} (record {
                sound =
                    IsSound-grown {n = record t.mem { frees = t.mem.frees + 1 }} k.sound
                      (omega arith) refl;
                locks = omega (arith, k.locks, l);
              })

  -- A read from the connection, whose timeout is not 0, and what follows.
  read-Finishes :
      (len : ℕ) (k : SocketStatus × Bytes → M (Unit {0}))
      → ((r : SocketStatus × Bytes) → Finishes (k r))
      → Finishes (read len timeout >>= k)
  read-Finishes len k next n s v c l =
      came_back (sockread len timeout s.reads) (sockread-Returns len timeout s.reads timed) refl
    where
      came_back :
          (r : ReadResult)
          → Returns r
          → sockread len timeout s.reads ≡ r
          → Ends (λ _ t. Done n t) ((read len timeout >>= k) s)
      came_back (returned status bytes rest) p e =
          simp e (next (status, bytes) n (record s { reads = rest }) v c l)
      came_back blocked p e = elim p [ ]

  read_body-Finishes : (size : ℕ) → Finishes (read_body env poll timeout size)
  unfolding malloc
  read_body-Finishes size = Finishes-if (size == 0) unlock-Finishes λ n s v c l.
      simp (v.plentiful s.mem.calls) (
        read-Finishes size (handle_body env poll timeout size) (handle_body-Finishes size) n
          (record s { mem = record s.mem { calls = s.mem.calls + 1; allocs = s.mem.allocs + 1 } })
          (IsSound-grown v (omega arith) refl) c l)

  handle_header-Finishes : (r : SocketStatus × Bytes) → Finishes (handle_header env poll timeout r)
  handle_header-Finishes (status, header) =
      Finishes-if
        (not (status_ok status) || not (length header == 2) || ltb max_data_size (ntohs header))
        reset-Finishes (read_body-Finishes (ntohs header))

  read_message-Finishes : Finishes (read_message env poll timeout)
  unfolding read_message
  read_message-Finishes = read-Finishes 2 (handle_header env poll timeout) handle_header-Finishes

  pub from_connection-Finishes :
      (readable : Bool) → Finishes (from_connection env poll timeout readable)
  unfolding from_connection
  from_connection-Finishes readable n s v c l =
      simp c (Finishes-if readable read_message-Finishes unlock-Finishes n s v c l)
