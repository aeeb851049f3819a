-- ===== src/Work/Rejection.antt =====
-- What `dsvdc_work` does with a second connection.
use libdsvdc.Base.{
  ℕ, ◌+◌, ◌≤◌, ◌≡◌, refl, ◌∙◌, true, false, none, some, List, Bytes, [], ◌∷◌, ◌++◌, append-nil,
  replicate,
}
use libdsvdc.Effects.Ends.{Ends, ends, Ends-given, Ends-map, Ends-bind}
use libdsvdc.Handle.{Handle, State, Env}
use libdsvdc.Instance.{setup_handle, dsuid_array, clear_callbacks}
use libdsvdc.Instance.Cleanup.{cleanup_handle-idle}
use libdsvdc.Message.{ResultCode}
use libdsvdc.Send.{send_error_message, error_message}
use libdsvdc.Sock.{WriteEvent}
use libdsvdc.Send.Delivery.{Takes, send_message-Delivers}
use libdsvdc.Send.Frame.{frame, Untouched, send_message-Sent}
use libdsvdc.Work.{Poll, reject, turn_away}

-- The packed refusal.
abbrev pub refusal : Env → Bytes
refusal env = env.pack (error_message ResultCode.err_service_not_available 0)

-- What a rejection of `new_fd`, whose socket takes `room_left`, leaves: all of the instance is as
-- it was, and the new connection is closed.
pub record Rejected (env : Env) (room_left : List WriteEvent) (s : State) (new_fd : ℕ) (t : State)
    : Type 0 where
  pub handle : t.handle ≡ s.handle
  pub locks : t.locks ≡ s.locks
  pub closed : t.closed ≡ s.closed ++ new_fd ∷ []
  pub calls : t.calls ≡ s.calls
  pub writes : t.writes ≡ s.writes
  pub grants : t.mem.grants ≡ s.mem.grants
  pub grown : s.mem.allocs ≤ t.mem.allocs
  pub told : Takes (refusal env) s.mem room_left → t.wire ≡ s.wire ++ frame new_fd (refusal env)

module _ (env : Env) (poll : Poll) (timeout : ℕ) where
  -- The refusal.
  refused :
      (new_fd : ℕ) (s : State)
      → s.handle.connected_fd ≡ some new_fd
      → Ends
          (λ _ t.
            Untouched s t
            × (Takes (refusal env) s.mem s.writes → t.wire ≡ s.wire ++ frame new_fd (refusal env)))
          (send_error_message env ResultCode.err_service_not_available 0 s)
  unfolding send_error_message
  refused new_fd s e =
      let msg = error_message ResultCode.err_service_not_available 0 in
      Ends-bind
        (Ends-given (send_message-Delivers env msg new_fd s e) (send_message-Sent env msg s))
        λ code t ((u, report), told). ends (u, told)

  -- The refusal and the cleanup, on the handle that was set up.
  turned_away :
      (new_fd : ℕ) (s : State) (fake : Handle)
      → fake.requests_list ≡ []
      → fake.listen_fd ≡ none
      → Ends
          (λ _ t. Rejected env poll.writes s new_fd t)
          (turn_away env poll timeout new_fd (some fake) s)
  turned_away new_fd s fake idle deaf =
      let other : State = record s {
        handle = record fake { connected_fd = some new_fd };
        writes = poll.writes;
      } in
      Ends-bind
        (Ends-bind (refused new_fd other refl) λ _ t (u, told).
          let list : t.handle.requests_list ≡ [] = rw u.handle idle in
          Ends-map
            {Q = λ _ q.
              Rejected env poll.writes s new_fd (record q { handle = s.handle; writes = s.writes })}
            (cleanup_handle-idle env t list)
            λ _ q e. record {
              handle = refl;
              locks = e.locks ∙ u.locks;
              closed = e.closed ∙ rw (u.closed, u.handle, deaf) refl;
              calls = e.calls ∙ rw (list, u.calls) (append-nil s.calls);
              writes = refl;
              grants = e.grants ∙ u.grants;
              grown = rw e.allocs u.grown;
              told = λ takes. e.wire ∙ told takes;
            })
        λ _ q r. ends r

  -- Where the three calls on the mutex of the second handle succeed, the rejection of a second
  -- connection ends, whatever the application does in callbacks. The new connection is closed then, once, and no other; the instance's handle, its socket's buffer and
  -- the mutex are as they were, and the application was not called. Where memory for the refusal
  -- is granted and the new connection takes its header and the message, it got both.
  pub reject-Rejected :
      (new_fd : ℕ) (s : State)
      → poll.setup.attr_init ≡ true
      → poll.setup.attr_settype ≡ true
      → poll.setup.mutex_init ≡ true
      → Ends (λ _ t. Rejected env poll.writes s new_fd t) (reject env poll timeout new_fd s)
  unfolding reject setup_handle
  reject-Rejected new_fd s init settype mutex =
      let fake : Handle = record {
        port = s.handle.port;
        listen_fd = none;
        connected_fd = none;
        vdsm_dsuid = replicate 35 0;
        vdc_dsuid = dsuid_array poll.setup.tolower s.handle.vdc_dsuid;
        requests_list = [];
        last_list_cleanup = s.clock (s.ticks + 1);
        request_id = 0;
        session = false;
        callback_userdata = 0;
        callbacks = clear_callbacks poll.stack.callbacks;
      } in
      simp (init, settype, mutex)
        (Ends-map (turned_away new_fd (record s { ticks = s.ticks + 1 + 1 }) fake refl refl)
          λ _ t r. record {
            handle = r.handle;
            locks = r.locks;
            closed = r.closed;
            calls = r.calls;
            writes = r.writes;
            grants = r.grants;
            grown = r.grown;
            told = r.told;
          })
