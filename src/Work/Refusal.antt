-- ===== src/Work/Refusal.antt =====
-- What `dsvdc_work` does with a length that it does not accept.
use libdsvdc.Base.{
  ℕ, ◌+◌, ◌-◌, ◌*◌, ◌<◌, ◌≡◌, refl, ap, ◌∙◌, true, List, [], ◌∷◌, ◌++◌, Bytes, length, take, arith,
  ltb,
}
use libdsvdc.Effects.Ends.{Ends, ends, Ends-bind}
use libdsvdc.Handle.{State, Env}
use libdsvdc.Process.Session.{
  disconnected, ended, descriptor, farewell, disconnect-Disconnected, end_session-Ended,
}
use libdsvdc.Requests.Answers.{IsModest}
use libdsvdc.Send.Frame.{ntohs}
use libdsvdc.Sock.{ReadEvent, returned, socket_ok, sockread}
use libdsvdc.Sock.Read.{IsReady, stream, sockread-full}
use libdsvdc.Work.{max_data_size, read_message, reset, Poll}

-- The connection and the session have ended, each once, and the mutex was given back.
pub record Dropped (s t : State) : Type 0 where
  pub handle : t.handle ≡ ended (disconnected s.handle)
  pub locks : t.locks ≡ s.locks - 1
  pub mem : t.mem ≡ s.mem
  pub closed : t.closed ≡ s.closed ++ descriptor s.handle.connected_fd
  pub calls :
      t.calls
      ≡ s.calls
        ++ farewell s.handle.session s.handle.callbacks.vdsm_end_session s.handle.callback_userdata

module _ (env : Env) (modest : IsModest env) (poll : Poll) (timeout : ℕ) where
  reset-Dropped :
      (s : State) (rest : List ReadEvent)
      → Ends (λ _ t. Dropped s t) (reset env poll timeout (record s { reads = rest }))
  reset-Dropped s rest =
      Ends-bind (disconnect-Disconnected env (record s { reads = rest })) λ _ t c.
        Ends-bind (end_session-Ended env modest t) λ _ q g. ends (record {
          handle = g.handle ∙ ap ended c.handle;
          locks = omega (arith, g.locks, c.locks);
          mem = g.mem ∙ c.mem;
          closed = g.closed ∙ c.closed;
          calls = g.calls ∙ rw (c.handle, c.calls) refl;
        })

  -- Where the two bytes at the front of the connection's stream announce more than 16384 bytes
  -- and arrive with neither an error nor a delay, and the application does not use the library
  -- from inside a callback, the reading part of `dsvdc_work` ends: there is no connection and no
  -- session then, the connection was closed once, if there was one, the application was told of
  -- the end once, if there was a session, and of nothing else, and the mutex was given back.
  pub read_message-Refuses :
      (hi lo : ℕ) (more : Bytes) (s : State)
      → IsReady s.reads
      → stream s.reads ≡ hi ∷ lo ∷ more
      → max_data_size < hi * 256 + lo
      → Ends (λ _ t. Dropped s t) (read_message env poll timeout s)
  unfolding read_message ntohs
  read_message-Refuses hi lo more s ready front large =
      found (sockread-full 2 timeout s.reads (omega arith) ready (omega (arith, ap length front)))
    where
      found :
          (rest : List ReadEvent) × (sockread 2 timeout s.reads
              ≡ returned socket_ok (take 2 (stream s.reads)) rest)
            × IsReady rest
          → Ends (λ _ t. Dropped s t) (read_message env poll timeout s)
      found (rest, first, _) =
          let first' : sockread 2 timeout s.reads ≡ returned socket_ok (hi ∷ lo ∷ []) rest =
            first ∙ ap (λ (xs : Bytes). returned socket_ok (take 2 xs) rest) front in
          let too_large : ltb max_data_size (hi * 256 + lo) ≡ true = ground arith in
          simp (first', too_large) (reset-Dropped s rest)
