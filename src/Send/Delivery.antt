-- ===== src/Send/Delivery.antt =====
-- `dsvdc_send_message` on a socket that takes the header and the message in a write each.
use libdsvdc.Base.{
  ℕ, ◌≤◌, ◌<◌, ◌≡◌, true, some, List, [], ◌∷◌, ◌++◌, append_assoc, Bytes, ◌==◌, length, arith,
}
use libdsvdc.Effects.Ends.{Ends, ends}
use libdsvdc.Handle.{State, Env}
use libdsvdc.Memory.{Mem, malloc, free}
use libdsvdc.Message.{Outgoing}
use libdsvdc.Send.{htons, send_message}
use libdsvdc.Send.Frame.{frame}
use libdsvdc.Sock.{WriteEvent, room}
use libdsvdc.Sock.Write.{sockwrite-room}

-- The memory for the buffer is granted, and the socket takes both writes whole.
pub record Takes (packed : Bytes) (m : Mem) (writes : List WriteEvent) : Type 0 where
  pub granted : m.grants m.calls ≡ true
  pub filled : 0 < length packed
  pub script :
      (header body : ℕ) × (rest : List WriteEvent) × (2 ≤ header)
      × (length packed ≤ body)
      × (writes ≡ room header ∷ room body ∷ rest)

module _ (env : Env) (msg : Outgoing) where
  pub send_message-Delivers :
      (fd : ℕ) (s : State)
      → s.handle.connected_fd ≡ some fd
      → Takes (env.pack msg) s.mem s.writes
      → Ends (λ code t. t.wire ≡ s.wire ++ frame fd (env.pack msg)) (send_message env msg s)
  unfolding send_message malloc free htons
  send_message-Delivers fd s e takes =
      let (header, body, rest, h2, hb, script) = takes.script in
      let first =
        sockwrite-room (htons (length (env.pack msg))) header (room body ∷ rest) (omega arith) h2 in
      let second = sockwrite-room (env.pack msg) body rest takes.filled hb in
      let same : (length (env.pack msg) == length (env.pack msg)) ≡ true = ground arith in
      simp (e, takes.granted, script, first, second, same)
        (ends (
          append_assoc s.wire ((fd, htons (length (env.pack msg))) ∷ []) ((fd, env.pack msg) ∷ [])))
