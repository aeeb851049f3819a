-- ===== src/Send/Frame.antt =====
-- What `dsvdc_send_message` puts on the wire, and what it leaves alone.
use libdsvdc.Base.{
  ℕ, ◌+◌, ◌-◌, ◌%◌, ◌^◌, ◌*◌, ◌<◌, ◌≤◌, ◌≡◌, refl, sym, ◌∙◌, ◌↔◌, inl, inr, true, false, ap, none,
  some, List, [], ◌∷◌, ◌++◌, Bytes, if◌then◌else◌, length, arith, Bool-cases, Option-cases,
  append_assoc,
}
use libdsvdc.Codes.{Code, dsvdc_ok, err_out_of_memory, err_socket, err_not_connected}
use libdsvdc.Effects.{pure}
use libdsvdc.Effects.Ends.{Ends, ends}
use libdsvdc.Handle.{State, Env}
use libdsvdc.Memory.{Mem, malloc, free, Balanced, IsPlentiful}
use libdsvdc.Message.{Outgoing}
use libdsvdc.Send.{htons, wrote, transmit, send_message}
use libdsvdc.Sock.{Written, WriteResult, count, failed, sockwrite, WriteEvent}
use libdsvdc.Sock.Write.{sockwrite-whole}

-- The header of two bytes and the packed message, each in a write of its own.
abbrev pub frame : ℕ → Bytes → List (ℕ × Bytes)
frame fd packed = (fd, htons (length packed)) ∷ (fd, packed) ∷ []

-- All that a sent message leaves alone: the handle, the mutex, the blocks held, the application,
-- the clock and what is received. Allocations are only ever made.
pub record Untouched (s t : State) : Type 0 where
  pub handle : t.handle ≡ s.handle
  pub locks : t.locks ≡ s.locks
  pub blocks : Balanced s.mem t.mem
  pub grown : s.mem.allocs ≤ t.mem.allocs
  pub grants : t.mem.grants ≡ s.mem.grants
  pub calls : t.calls ≡ s.calls
  pub closed : t.closed ≡ s.closed
  pub reads : t.reads ≡ s.reads
  pub ticks : t.ticks ≡ s.ticks
  pub clock : t.clock ≡ s.clock

pub Untouched-trans : {s r t : State} → Untouched s r → Untouched r t → Untouched s t
Untouched-trans u v = record {
  handle = v.handle ∙ u.handle;
  locks = v.locks ∙ u.locks;
  blocks = omega (arith, u.blocks, v.blocks);
  grown = omega (arith, u.grown, v.grown);
  grants = v.grants ∙ u.grants;
  calls = v.calls ∙ u.calls;
  closed = v.closed ∙ u.closed;
  reads = v.reads ∙ u.reads;
  ticks = v.ticks ∙ u.ticks;
  clock = v.clock ∙ u.clock;
}

-- Blocks were taken and given back.
pub Untouched-mem :
    (s : State) {m : Mem}
    → Balanced s.mem m
    → s.mem.allocs ≤ m.allocs
    → m.grants ≡ s.mem.grants
    → Untouched s (record s { mem = m })
Untouched-mem s b h g = record {
  handle = refl;
  locks = refl;
  blocks = b;
  grown = h;
  grants = g;
  calls = refl;
  closed = refl;
  reads = refl;
  ticks = refl;
  clock = refl;
}

-- What the header of a packed message, and then the message itself, do to the socket.
abbrev header_out : Bytes → State → Written
header_out packed s = sockwrite (htons (length packed)) s.writes

abbrev body_out : Bytes → State → Written
body_out packed s = sockwrite packed (header_out packed s).rest

-- The code with what it says of the socket: what is on the wire, and which of the socket's events
-- are used up. There is one case for each way in which a message can go out or fail to, and no two
-- of them apply to the same state before.
pub data Reported (packed : Bytes) (s t : State) : Code → Type 0 where
  delivered :
      (fd : ℕ)
      → s.handle.connected_fd ≡ some fd
      → s.mem.grants s.mem.calls ≡ true
      → wrote (header_out packed s).result 2 ≡ true
      → wrote (body_out packed s).result (length packed) ≡ true
      → t.wire ≡ s.wire ++ frame fd packed
      → t.writes ≡ (body_out packed s).rest
      → Reported packed s t dsvdc_ok
  no_memory :
      (fd : ℕ)
      → s.handle.connected_fd ≡ some fd
      → s.mem.grants s.mem.calls ≡ false
      → t.wire ≡ s.wire
      → t.writes ≡ s.writes
      → Reported packed s t err_out_of_memory
  unconnected :
      s.handle.connected_fd ≡ none
      → t.wire ≡ s.wire
      → t.writes ≡ s.writes
      → Reported packed s t err_not_connected
  cut_header :
      (fd : ℕ)
      → s.handle.connected_fd ≡ some fd
      → s.mem.grants s.mem.calls ≡ true
      → wrote (header_out packed s).result 2 ≡ false
      → t.wire ≡ s.wire ++ (fd, (header_out packed s).wire) ∷ []
      → t.writes ≡ (header_out packed s).rest
      → Reported packed s t err_socket
  cut_body :
      (fd : ℕ)
      → s.handle.connected_fd ≡ some fd
      → s.mem.grants s.mem.calls ≡ true
      → wrote (header_out packed s).result 2 ≡ true
      → wrote (body_out packed s).result (length packed) ≡ false
      → t.wire ≡ s.wire ++ (fd, htons (length packed)) ∷ (fd, (body_out packed s).wire) ∷ []
      → t.writes ≡ (body_out packed s).rest
      → Reported packed s t err_socket

-- The same socket before and after, and the same answer of the allocator.
pub Reported-elsewhere :
    {packed : Bytes} {s r t q : State} {code : Code}
    → r.handle.connected_fd ≡ s.handle.connected_fd
    → r.mem.grants r.mem.calls ≡ s.mem.grants s.mem.calls
    → r.writes ≡ s.writes
    → r.wire ≡ s.wire
    → q.wire ≡ t.wire
    → q.writes ≡ t.writes
    → Reported packed r t code
    → Reported packed s q code
Reported-elsewhere c m e i f g (delivered fd d a b h w x) =
    delivered fd (sym c ∙ d) (sym m ∙ a) (rw (← e) b) (rw (← e) h) (f ∙ w ∙ rw i refl)
      (g ∙ x ∙ rw e refl)
Reported-elsewhere c m e i f g (no_memory fd d a w x) =
    no_memory fd (sym c ∙ d) (sym m ∙ a) (f ∙ w ∙ i) (g ∙ x ∙ e)
Reported-elsewhere c m e i f g (unconnected d w x) = unconnected (sym c ∙ d) (f ∙ w ∙ i) (g ∙ x ∙ e)
Reported-elsewhere {packed} c m e i f g (cut_header fd d a b w x) =
    cut_header fd (sym c ∙ d) (sym m ∙ a) (rw (← e) b) (f ∙ w ∙ rw (i, e) refl) (g ∙ x ∙ rw e refl)
Reported-elsewhere {packed} c m e i f g (cut_body fd d a b h w x) =
    cut_body fd (sym c ∙ d) (sym m ∙ a) (rw (← e) b) (rw (← e) h) (f ∙ w ∙ rw (i, e) refl)
      (g ∙ x ∙ rw e refl)

-- A handle, a mutex or a clock of its own does not matter to the socket.
pub Reported-same :
    {packed : Bytes} {s r t q : State} {code : Code}
    → r.handle.connected_fd ≡ s.handle.connected_fd
    → r.mem ≡ s.mem
    → r.writes ≡ s.writes
    → r.wire ≡ s.wire
    → q.wire ≡ t.wire
    → q.writes ≡ t.writes
    → Reported packed r t code
    → Reported packed s q code
Reported-same c m = Reported-elsewhere c (ap (λ (x : Mem). x.grants x.calls) m)

-- Where memory suffices, before and after other allocations.
pub Reported-plentiful :
    {packed : Bytes} {s t q : State} {m : Mem} {code : Code}
    → IsPlentiful m
    → IsPlentiful s.mem
    → q.wire ≡ t.wire
    → q.writes ≡ t.writes
    → Reported packed (record s { mem = m }) t code
    → Reported packed s q code
Reported-plentiful h h' = Reported-elsewhere refl (h _ ∙ sym (h' _)) refl refl

abbrev pub Sent : Env → Outgoing → State → Code → State → Type 0
Sent env msg s code t = Untouched s t × Reported (env.pack msg) s t code

wrote-whole :
    (bytes : Bytes) (es : List WriteEvent)
    → wrote (sockwrite bytes es).result (length bytes) ≡ true
    → (sockwrite bytes es).wire ≡ bytes
wrote-whole bytes es h = sockwrite-whole bytes es (counted (sockwrite bytes es).result h)
  where
    counted : (r : WriteResult) → wrote r (length bytes) ≡ true → r ≡ count (length bytes)
    counted (count n) e = ground arith
    counted (failed s) e = cc

module _ (env : Env) (msg : Outgoing) where
  abbrev packed : Bytes
  packed = env.pack msg

  -- The second write, and the end.
  body-Sent :
      (fd : ℕ) (s t : State)
      → s.handle.connected_fd ≡ some fd
      → s.mem.grants s.mem.calls ≡ true
      → wrote (header_out packed s).result 2 ≡ true
      → Untouched s t
      → t.wire
        ≡ (s.wire ++ (fd, (header_out packed s).wire) ∷ []) ++ (fd, (body_out packed s).wire) ∷ []
      → t.writes ≡ (body_out packed s).rest
      → Ends (Sent env msg s) (
          (if wrote (body_out packed s).result (length packed)
              then pure dsvdc_ok
              else pure err_socket)
            t)
  unfolding htons
  body-Sent fd s t e a first u w x =
      let header : (header_out packed s).wire ≡ htons (length packed) =
        wrote-whole (htons (length packed)) s.writes first in
      let joined : t.wire
          ≡ s.wire ++ (fd, htons (length packed)) ∷ (fd, (body_out packed s).wire) ∷ [] =
        w
        ∙ append_assoc s.wire ((fd, (header_out packed s).wire) ∷ [])
            ((fd, (body_out packed s).wire) ∷ [])
        ∙ ap (λ b. s.wire ++ (fd, b) ∷ (fd, (body_out packed s).wire) ∷ []) header in
      elim (Bool-cases (wrote (body_out packed s).result (length packed))) [
        | inr short ↦ rw short (ends (u, cut_body fd e a first short joined x))
        | inl full ↦ rw full (
            ends (
              u,
              delivered fd e a first full
                  (joined
                    ∙ ap (λ b. s.wire ++ (fd, htons (length packed)) ∷ (fd, b) ∷ [])
                        (wrote-whole packed (header_out packed s).rest full))
                  x,
            ))
      ]

  -- The connected case, on a state where the mutex is held and the buffer was allocated.
  transmit-Sent :
      (fd : ℕ) (s : State)
      → s.handle.connected_fd ≡ some fd
      → s.mem.grants s.mem.calls ≡ true
      → Ends (Sent env msg s) (
          transmit env fd packed (record s {
            locks = s.locks + 1;
            mem = record s.mem { calls = s.mem.calls + 1; allocs = s.mem.allocs + 1 };
          }))
  unfolding free htons
  transmit-Sent fd s e a =
      elim (Bool-cases (wrote (sockwrite (htons (length packed)) s.writes).result 2)) [
        | inr short ↦ rw short (ends (left_alone, cut_header fd e a short refl refl))
        | inl full ↦ rw full (body-Sent fd s _ e a full left_alone refl refl)
      ]
    where
      left_alone :
          {ws : List WriteEvent} {wire : List (ℕ × Bytes)}
          → Untouched s (record s {
            locks = s.locks + 1 - 1;
            writes = ws;
            wire = wire;
            mem = record s.mem {
              calls = s.mem.calls + 1;
              allocs = s.mem.allocs + 1;
              frees = s.mem.frees + 1;
            };
          })
      left_alone = record {
        handle = refl;
        locks = omega arith;
        blocks = omega arith;
        grown = omega arith;
        grants = refl;
        calls = refl;
        closed = refl;
        reads = refl;
        ticks = refl;
        clock = refl;
      }

  -- Whatever the socket and the allocator do, `dsvdc_send_message` returns, with the handle, the
  -- mutex, the blocks held and the application untouched; it returns DSVDC_OK only if the header
  -- and the whole packed message went out.
  pub send_message-Sent : (s : State) → Ends (Sent env msg s) (send_message env msg s)
  unfolding send_message malloc
  send_message-Sent s = elim (Option-cases s.handle.connected_fd) [
    | inl no_fd ↦ simp no_fd (
        ends (
          record {
            handle = refl;
            locks = omega arith;
            blocks = omega arith;
            grown = omega arith;
            grants = refl;
            calls = refl;
            closed = refl;
            reads = refl;
            ticks = refl;
            clock = refl;
          },
          unconnected no_fd refl refl,
        ))
    | inr (fd, e) ↦ simp e (elim (Bool-cases (s.mem.grants s.mem.calls)) [
      | inr refused ↦ simp refused (
          ends (
            record {
              handle = refl;
              locks = omega arith;
              blocks = omega arith;
              grown = omega arith;
              grants = refl;
              calls = refl;
              closed = refl;
              reads = refl;
              ticks = refl;
              clock = refl;
            },
            no_memory fd e refused refl refl,
          ))
      | inl granted ↦ simp granted (transmit-Sent fd s e granted)
    ])
  ]

-- The length that a receiver computes from the header, as `dsvdc_work` does with `ntohs`.
unfoldable pub ntohs : Bytes → ℕ
ntohs (hi ∷ lo ∷ []) = hi * 256 + lo
ntohs _ = 0

-- The header of a length, read as a big-endian number, is the length modulo 2 ^ 16; it is the
-- length itself if and only if that is less than 65536.
pub htons-announced :
    (n : ℕ) → (ntohs (htons n) ≡ n % 2 ^ 16) × ((ntohs (htons n) ≡ n) ↔ (n < 65536))
unfolding ntohs htons
htons-announced n = (omega arith, (λ e. omega arith, λ h. omega arith))
