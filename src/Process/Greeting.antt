-- ===== src/Process/Greeting.antt =====
-- The begin of a session, by HELLO.
use libdsvdc.Base.{
  ℕ, ◌+◌, ◌≡◌, refl, sym, ap, ◌∙◌, Bool, true, false, Option, none, some, List, [], ◌∷◌, ◌++◌,
  Bytes, ◌==◌, arith, append-nil, Bool-cases, inl, inr, ◌&&◌, if◌then◌else◌,
}
use libdsvdc.Codes.{Code}
use libdsvdc.Effects.Ends.{Ends, ends, Ends-bind}
use libdsvdc.Handle.{Handle, State, Env, Call, nothing}
use libdsvdc.Message.{Message, Hello, Outgoing, vdc_response_hello_type, vdc_response_hello}
use libdsvdc.Process.{
  begin_session, accept_hello, check_hello, greet, process_hello, c_string, strncpy, dsuid_length,
  supported_api_version,
}
use libdsvdc.Requests.Answers.{IsModest}
use libdsvdc.Send.Frame.{Reported-same, Reported, send_message-Sent}

-- The call of the application at the begin of a session, which is not a second one.
abbrev pub welcome : Bool → Option ℕ → ℕ → List Call
welcome false (some f) userdata =
    (record { function = f; arguments = nothing; userdata = userdata }) ∷ []
welcome _ _ userdata = []

-- The session runs, and all else of the handle is as it was.
record Begun (s t : State) : Type 0 where
  handle : t.handle ≡ record s.handle { session = true }
  locks : t.locks ≡ s.locks
  calls :
      t.calls
      ≡ s.calls
        ++ welcome s.handle.session s.handle.callbacks.vdsm_new_session s.handle.callback_userdata
  wire : t.wire ≡ s.wire

-- The reply to a HELLO of that id: it has the id and the vDC's dSUID, up to the NUL.
abbrev pub hello_answer : Handle → ℕ → Outgoing
hello_answer h id = record {
  type = vdc_response_hello_type;
  has_message_id = true;
  message_id = id;
  body = vdc_response_hello (c_string h.vdc_dsuid);
}

-- The handle with the vdSM's dSUID.
abbrev pub introduced : Handle → Bytes → Handle
introduced h dsuid = record h { vdsm_dsuid = strncpy h.vdsm_dsuid dsuid dsuid_length }

-- The session runs with the vdSM of that dSUID, whatever became of the reply. What is on the wire
-- is what the sending of the one reply, from `s`, left there.
pub record Greeted (env : Env) (dsuid : Bytes) (id : ℕ) (s t : State) : Type 0 where
  pub handle : t.handle ≡ record (introduced s.handle dsuid) { session = true }
  pub locks : t.locks ≡ s.locks
  pub calls :
      t.calls
      ≡ s.calls
        ++ welcome s.handle.session s.handle.callbacks.vdsm_new_session s.handle.callback_userdata
  pub sent : State
  pub code : Code
  pub reply : Reported (env.pack (hello_answer s.handle id)) s sent code
  pub wire : t.wire ≡ sent.wire

-- The dSUID of a HELLO that has an id, the version that is known and a dSUID.
abbrev pub greeting : Bool → Option Hello → Option Bytes
greeting false o = none
greeting true none = none
greeting true (some hello) =
    if hello.has_api_version && (hello.api_version == supported_api_version)
    then hello.dsuid
    else none

abbrev pub Received : Env → Option Bytes → ℕ → State → State → Type 0
Received env none id s t = t ≡ s
Received env (some dsuid) id s t = Greeted env dsuid id s t

module _ (env : Env) (modest : IsModest env) where
  begin_session-Begun : (s : State) → Ends (λ _ t. Begun s t) (begin_session env s)
  unfolding begin_session
  begin_session-Begun s = by_session s.handle.session s.handle.callbacks.vdsm_new_session refl refl
    where
      by_session :
          (b : Bool) (o : Option ℕ)
          → s.handle.session ≡ b
          → s.handle.callbacks.vdsm_new_session ≡ o
          → Ends (λ _ t. Begun s t) (begin_session env s)
      by_session true o e f = simp e (
          ends (record {
            handle = ap (λ b. record s.handle { session = b }) e;
            locks = refl;
            calls = rw e (sym (append-nil s.calls));
            wire = refl;
          }))
      by_session false none e f =
          simp (e, f)
            (ends (record {
              handle = refl;
              locks = refl;
              calls = rw (e, f) (sym (append-nil s.calls));
              wire = refl;
            }))
      by_session false (some g) e f =
          simp (e, f)
            (ends (record {
              handle = modest.handle _ _;
              locks = modest.locks _ _;
              calls = modest.calls _ _ ∙ rw (e, f) refl;
              wire = modest.wire _ _;
            }))

  accept_hello-Greeted :
      (dsuid : Bytes) (id : ℕ) (s : State)
      → Ends (λ _ t. Greeted env dsuid id s t) (accept_hello env dsuid id s)
  unfolding accept_hello
  accept_hello-Greeted dsuid id s = Ends-bind (send_message-Sent env _ _) λ code t (u, report).
      Ends-bind (begin_session-Begun (record t { locks = t.locks + 1 })) λ _ q b. ends (record {
        handle = b.handle ∙ ap (λ (h : Handle). record h { session = true }) u.handle;
        locks = omega (arith, b.locks, u.locks);
        calls = b.calls ∙ rw (u.handle, u.calls) refl;
        sent = t;
        code = code;
        reply = Reported-same refl refl refl refl refl refl report;
        wire = b.wire;
      })

  greet-Received :
      (id : ℕ) (o : Option Bytes) (s : State)
      → Ends (λ _ t. Received env o id s t) (greet env id o s)
  greet-Received id none s = ends refl
  greet-Received id (some dsuid) s = accept_hello-Greeted dsuid id s

  check_hello-Received :
      (id : ℕ) (o : Option Hello) (s : State)
      → Ends (λ _ t. Received env (greeting true o) id s t) (check_hello env id o s)
  check_hello-Received id none s = ends refl
  check_hello-Received id (some hello) s = elim (Bool-cases hello.has_api_version) [
    | inr missing ↦ simp missing (ends refl)
    | inl given ↦ elim (Bool-cases (hello.api_version == supported_api_version)) [
      | inr other ↦ simp (given, other) (ends refl)
      | inl known ↦ simp (given, known) (greet-Received id hello.dsuid s)
    ]
  ]

  -- Where the application does not use the library from inside a callback, `dsvdc_process_hello`
  -- ends. A HELLO that has an id, the supported API version and a dSUID starts a session if there
  -- is none, and tells the application of it once; its dSUID is copied into the handle and one
  -- reply is sent, with its id: what is on the wire is the whole reply, or what went out of it where
  -- the allocation or a write fails or there is no connection, none of which prevents the session.
  -- Any other HELLO changes nothing.
  pub process_hello-Received :
      (msg : Message) (s : State)
      → Ends
          (λ _ t.
            Received env (greeting msg.has_message_id msg.vdsm_request_hello) msg.message_id s t)
          (process_hello env msg s)
  unfolding process_hello
  process_hello-Received msg s = elim (Bool-cases msg.has_message_id) [
    | inr missing ↦ simp missing (ends refl)
    | inl given ↦ simp given (check_hello-Received msg.message_id msg.vdsm_request_hello s)
  ]
