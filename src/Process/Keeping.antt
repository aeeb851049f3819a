-- ===== src/Process/Keeping.antt =====
-- PING, REMOVE, HELLO and BYE keep an instance sound.
use mathlib.Core.Path.{subst}
use libdsvdc.Base.{
  ℕ, ◌+◌, ◌≡◌, sym, true, not, Option, none, some, Bytes, arith, is_some, if◌then◌else◌, Bool-cases,
  inl, inr, ◌==◌,
}
use libdsvdc.Effects.{skip, ◌>>=◌}
use libdsvdc.Effects.Ends.{Ends, ends, Ends-map, Ends-bind}
use libdsvdc.Handle.{State, Env, for_dsuid, nothing}
use libdsvdc.Invariant.{
  IsSound, IsSound-grown, Kept, Keeps, unlocked, Kept-trans, skip-Keeps, Keeps-if,
}
use libdsvdc.Invariant.Sending.{
  send_message-Kept, send_error_message-Kept, invoke-Kept, notify-Kept,
}
use libdsvdc.Message.{Message, Hello, Addressed, ResultCode}
use libdsvdc.Process.{
  process_ping, check_ping, ping_for, process_remove, check_remove, remove_for, ask_remove,
  answer_error, process_hello, check_hello, greet, accept_hello, begin_session, process_bye,
  take_leave, leave, c_string, dsuid_length, supported_api_version, strncmp_eq,
}
use libdsvdc.Invariant.Ending.{closed-IsSound, end_session-Kept}
use libdsvdc.Process.Session.{disconnect-Disconnected}
use libdsvdc.Invariant.Careful.{IsCareful}
use libdsvdc.Send.{send_pong}
use libdsvdc.Send.Frame.{send_message-Sent}

module _ (env : Env) (careful : IsCareful env) where
  send_pong-Keeps : (dsuid : Bytes) → Keeps (send_pong env true (some dsuid) >>= λ _. skip)
  unfolding send_pong
  send_pong-Keeps dsuid s v = Ends-bind (send_message-Kept env _ s v) λ _ t k. ends k

  ping_for-Keeps : (o : Option Bytes) → Keeps (ping_for env o)
  ping_for-Keeps none s v = skip-Keeps s v
  ping_for-Keeps (some dsuid) s v =
      Ends-bind
        (Keeps-if (strncmp_eq (c_string s.handle.vdc_dsuid) dsuid dsuid_length)
          (send_pong-Keeps (c_string s.handle.vdc_dsuid))
          (notify-Kept env careful (λ c. c.vdsm_send_ping) (for_dsuid dsuid))
          (record s { locks = s.locks + 1 }) v)
        λ _ t k. ends (unlocked k)

  check_ping-Keeps : (o : Option Addressed) → Keeps (check_ping env o)
  check_ping-Keeps none = skip-Keeps
  check_ping-Keeps (some ping) = ping_for-Keeps ping.dsuid

  answer_error-Keeps : (msg : Message) (code : ResultCode) → Keeps (answer_error env msg code)
  answer_error-Keeps msg code =
      Keeps-if msg.has_message_id (send_error_message-Kept env code msg.message_id) skip-Keeps

  ask_remove-Keeps :
      (msg : Message) (dsuid : Bytes) (o : Option ℕ) → Keeps (ask_remove env msg dsuid o)
  ask_remove-Keeps msg dsuid none s v = skip-Keeps s v
  ask_remove-Keeps msg dsuid (some f) s v =
      Ends-bind
        {f = λ removed.
          answer_error env msg (if removed then ResultCode.err_ok else ResultCode.err_missing_data)}
        (invoke-Kept env careful f (for_dsuid dsuid) s v)
        λ removed t k.
          Ends-map
            (answer_error-Keeps msg
              (if removed then ResultCode.err_ok else ResultCode.err_missing_data) t k.sound)
            λ _ q l. Kept-trans k l

  remove_for-Keeps : (msg : Message) (o : Option Bytes) → Keeps (remove_for env msg o)
  remove_for-Keeps msg none s v = answer_error-Keeps msg _ s v
  remove_for-Keeps msg (some dsuid) s v =
      Ends-bind
        (ask_remove-Keeps msg dsuid s.handle.callbacks.vdsm_send_remove
          (record s { locks = s.locks + 1 }) v)
        λ _ t k. ends (unlocked k)

  check_remove-Keeps : (msg : Message) (o : Option Addressed) → Keeps (check_remove env msg o)
  check_remove-Keeps msg none = answer_error-Keeps msg _
  check_remove-Keeps msg (some remove) = remove_for-Keeps msg remove.dsuid

  pub process_ping-Keeps : (msg : Message) → Keeps (process_ping env msg)
  unfolding process_ping
  process_ping-Keeps msg = check_ping-Keeps msg.vdsm_send_ping

  pub process_remove-Keeps : (msg : Message) → Keeps (process_remove env msg)
  unfolding process_remove
  process_remove-Keeps msg = check_remove-Keeps msg msg.vdsm_send_remove

  leave-Keeps : (o : Option Bytes) → Keeps (leave env o)
  leave-Keeps none s v = skip-Keeps s v
  leave-Keeps (some dsuid) s v =
      Ends-bind (disconnect-Disconnected env (record s { locks = s.locks + 1 })) λ _ t c.
        Ends-bind (end_session-Kept env careful t (rw (c.handle, c.mem) (closed-IsSound v)))
          λ _ q k. ends (record { sound = k.sound; locks = omega (arith, k.locks, c.locks) })

  take_leave-Keeps : (o : Option Addressed) → Keeps (take_leave env o)
  take_leave-Keeps none = skip-Keeps
  take_leave-Keeps (some bye) = leave-Keeps bye.dsuid

  pub process_bye-Keeps : (msg : Message) → Keeps (process_bye env msg)
  unfolding process_bye
  process_bye-Keeps msg = take_leave-Keeps msg.vdsm_send_bye

  -- HELLO comes over a connection, which the session needs.
  begin_session-Kept :
      (s : State)
      → IsSound s.handle s.mem
      → is_some s.handle.connected_fd ≡ true
      → Ends (λ _ t. Kept s t) (begin_session env s)
  unfolding begin_session
  begin_session-Kept s v c = elim (Bool-cases s.handle.session) [
    | inl running ↦ simp running (skip-Keeps s v)
    | inr idle ↦ simp idle (
        Ends-map
          (notify-Kept env careful (λ d. d.vdsm_new_session) nothing
            (record s { handle = record s.handle { session = true } })
            (record {
              ordered = v.ordered;
              answerable = v.answerable;
              connected = λ _. c;
              listening = v.listening;
              watched = v.watched;
              plentiful = v.plentiful;
            }))
          λ _ t k. record { sound = k.sound; locks = k.locks })
  ]

  accept_hello-Kept :
      (dsuid : Bytes) (id : ℕ) (s : State)
      → IsSound s.handle s.mem
      → is_some s.handle.connected_fd ≡ true
      → Ends (λ _ t. Kept s t) (accept_hello env dsuid id s)
  unfolding accept_hello
  accept_hello-Kept dsuid id s v c = Ends-bind (send_message-Sent env _ _) λ _ t (u, _).
      Ends-bind
        (begin_session-Kept (record t { locks = t.locks + 1 })
          (subst (λ h. IsSound h t.mem) (sym u.handle)
            (IsSound-grown {m = s.mem}
              (record {
                ordered = v.ordered;
                answerable = v.answerable;
                connected = v.connected;
                listening = v.listening;
                watched = v.watched;
                plentiful = v.plentiful;
              })
              u.grown u.grants))
          (rw u.handle c))
        λ _ q k. ends (record { sound = k.sound; locks = omega (arith, k.locks, u.locks) })

  greet-Kept :
      (id : ℕ) (o : Option Bytes) (s : State)
      → IsSound s.handle s.mem
      → is_some s.handle.connected_fd ≡ true
      → Ends (λ _ t. Kept s t) (greet env id o s)
  greet-Kept id none s v c = skip-Keeps s v
  greet-Kept id (some dsuid) s v c = accept_hello-Kept dsuid id s v c

  check_hello-Kept :
      (id : ℕ) (o : Option Hello) (s : State)
      → IsSound s.handle s.mem
      → is_some s.handle.connected_fd ≡ true
      → Ends (λ _ t. Kept s t) (check_hello env id o s)
  check_hello-Kept id none s v c = skip-Keeps s v
  check_hello-Kept id (some hello) s v c = elim (Bool-cases (not hello.has_api_version)) [
    | inl missing ↦ simp missing (skip-Keeps s v)
    | inr given ↦ simp given (elim (Bool-cases (not (hello.api_version == supported_api_version))) [
      | inl other ↦ simp other (skip-Keeps s v)
      | inr fits ↦ simp fits (greet-Kept id hello.dsuid s v c)
    ])
  ]

  pub process_hello-Kept :
      (msg : Message) (s : State)
      → IsSound s.handle s.mem
      → is_some s.handle.connected_fd ≡ true
      → Ends (λ _ t. Kept s t) (process_hello env msg s)
  unfolding process_hello
  process_hello-Kept msg s v c = elim (Bool-cases (not msg.has_message_id)) [
    | inl missing ↦ simp missing (skip-Keeps s v)
    | inr given ↦ simp given (check_hello-Kept msg.message_id msg.vdsm_request_hello s v c)
  ]
