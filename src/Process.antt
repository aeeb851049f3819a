-- ===== src/Process.antt =====
-- src/msg_processor.c: what the library does with a message of the vdSM.
pub mod Notification
pub mod Properties
pub mod Session
pub mod Response
pub mod Keeping
pub mod Greeting
mod Examples
use libdsvdc.Base.{
  ℕ, ◌+◌, ◌-◌, Bool, true, false, not, ◌&&◌, ◌||◌, Option, none, some, List, [], ◌∷◌, ◌++◌, Bytes,
  ◌==◌, bytes_eq, if◌then◌else◌, length, take, drop, replicate, is_some,
}
use libdsvdc.Codes.{Code, dsvdc_ok, api}
use libdsvdc.Effects.{
  M, pure, ◌>>=◌, ◌>>◌, skip, fault, get_handle, put_handle, lock, unlock, close, heap, invoke,
  notify,
}
use libdsvdc.Handle.{Request, Handle, Callbacks, State, Env, nothing, for_dsuid}
use libdsvdc.Message.{
  MessageType, Message, Hello, Addressed, ResultCode, vdc_response_hello_type, vdc_response_hello,
  Outgoing,
}
use libdsvdc.Requests.{get_cached_request, answer_request}
use libdsvdc.Send.{send_message, send_error_message, send_pong}

-- DSUID_LENGTH and SUPPORTED_API_VERSION
abbrev pub dsuid_length : ℕ
dsuid_length = 34

abbrev pub supported_api_version : ℕ
supported_api_version = 2

-- `strncpy(to, from, n)` into an array: at most `n` bytes, filled up with NUL; the rest stays.
unfoldable pub strncpy : Bytes → Bytes → ℕ → Bytes
strncpy to from n = take n (from ++ replicate n 0) ++ drop n to

-- The C string in an array of chars.
unfoldable pub c_string : Bytes → Bytes
c_string [] = []
c_string (b ∷ bs) = if b == 0 then [] else b ∷ c_string bs

-- `strncmp(a, b, n) == 0` of C strings.
abbrev pub strncmp_eq : Bytes → Bytes → ℕ → Bool
strncmp_eq a b n = bytes_eq (take n a) (take n b)

-- The reply of `dsvdc_process_hello`.
abbrev pub hello_reply : Handle → ℕ → Outgoing
hello_reply handle id = record {
  type = vdc_response_hello_type;
  has_message_id = true;
  message_id = id;
  body = vdc_response_hello (c_string handle.vdc_dsuid);
}

module _ (env : Env) where
  -- The session begins with the first HELLO.
  begin_session : M (Unit {0})
  begin_session = do
    handle ← get_handle
    if handle.session then skip else (do
      put_handle (record handle { session = true })
      notify env (λ c. c.vdsm_new_session) nothing)

  -- `dsvdc_process_hello` past its guards.
  accept_hello : Bytes → ℕ → M (Unit {0})
  unfolding begin_session
  accept_hello dsuid id = do
    lock
    handle ← get_handle
    put_handle (record handle { vdsm_dsuid = strncpy handle.vdsm_dsuid dsuid dsuid_length })
    unlock
    handle' ← get_handle
    _ ← send_message env (hello_reply handle' id)
    lock
    begin_session
    unlock

  -- The guards of `dsvdc_process_hello`, from the last to the first.
  abbrev greet : ℕ → Option Bytes → M (Unit {0})
  greet id none = skip
  greet id (some dsuid) = accept_hello dsuid id

  abbrev check_hello : ℕ → Option Hello → M (Unit {0})
  check_hello id none = skip
  check_hello id (some hello) =
      if not hello.has_api_version
      then skip
      else if not (hello.api_version == supported_api_version)
      then skip
      else greet id hello.dsuid

  -- `dsvdc_process_hello`
  pub process_hello : Message → M (Unit {0})
  unfolding accept_hello
  process_hello msg =
      if not msg.has_message_id then skip else check_hello msg.message_id msg.vdsm_request_hello

  -- A PING for the dSUID: the library answers for its own, and the application for any other.
  abbrev ping_for : Option Bytes → M (Unit {0})
  ping_for none = skip
  ping_for (some dsuid) = do
    lock
    handle ← get_handle
    if strncmp_eq (c_string handle.vdc_dsuid) dsuid dsuid_length
        then (do _ ← send_pong env true (some (c_string handle.vdc_dsuid)); skip)
        else notify env (λ c. c.vdsm_send_ping) (for_dsuid dsuid)
    unlock

  abbrev check_ping : Option Addressed → M (Unit {0})
  check_ping none = skip
  check_ping (some ping) = ping_for ping.dsuid

  -- `dsvdc_process_ping`
  pub process_ping : Message → M (Unit {0})
  process_ping msg = check_ping msg.vdsm_send_ping

  -- `if (msg->has_message_id) dsvdc_send_error_message(handle, code, msg->message_id);`
  abbrev answer_error : Message → ResultCode → M (Unit {0})
  answer_error msg code =
      if msg.has_message_id then send_error_message env code msg.message_id else skip

  -- The call of the application, if it takes REMOVE, and the answer for the vdSM.
  abbrev ask_remove : Message → Bytes → Option ℕ → M (Unit {0})
  ask_remove msg dsuid none = skip
  ask_remove msg dsuid (some f) = do
    removed ← invoke env f (for_dsuid dsuid)
    answer_error msg (if removed then ResultCode.err_ok else ResultCode.err_missing_data)

  abbrev remove_for : Message → Option Bytes → M (Unit {0})
  remove_for msg none = answer_error msg ResultCode.err_missing_data
  remove_for msg (some dsuid) = do
    lock
    handle ← get_handle
    ask_remove msg dsuid handle.callbacks.vdsm_send_remove
    unlock

  abbrev check_remove : Message → Option Addressed → M (Unit {0})
  check_remove msg none = answer_error msg ResultCode.err_missing_data
  check_remove msg (some remove) = remove_for msg remove.dsuid

  -- `dsvdc_process_remove`
  pub process_remove : Message → M (Unit {0})
  process_remove msg = check_remove msg msg.vdsm_send_remove

  -- The end of a session: `dsvdc_end_session` of src/dsvdc.c, and the same lines of
  -- `dsvdc_process_bye`.
  unfoldable pub end_session : M (Unit {0})
  end_session = do
    handle ← get_handle
    if handle.session
        then (do
          put_handle (record handle { session = false })
          notify env (λ c. c.vdsm_end_session) nothing)
        else skip

  -- `close(handle->connected_fd); handle->connected_fd = -1;` if there is a connection.
  unfoldable pub disconnect : M (Unit {0})
  disconnect = do
    handle ← get_handle
    elim handle.connected_fd [
      | none ↦ skip
      | some fd ↦ (do close fd; put_handle (record handle { connected_fd = none }))
    ]

  -- `dsvdc_process_bye`, by its message and by the dSUID.
  abbrev leave : Option Bytes → M (Unit {0})
  leave none = skip
  leave (some dsuid) = do lock; disconnect; end_session; unlock

  abbrev take_leave : Option Addressed → M (Unit {0})
  take_leave none = skip
  take_leave (some bye) = leave bye.dsuid

  -- `dsvdc_process_bye`
  pub process_bye : Message → M (Unit {0})
  unfolding end_session disconnect
  process_bye msg = take_leave msg.vdsm_send_bye

  -- The answer for the application, if a request was found.
  abbrev give_answer : Code → Option Request → M (Unit {0})
  give_answer code none = skip
  give_answer code (some r) = answer_request env r code

  -- `dsvdc_process_generic_response` past its guards.
  abbrev respond_to : ℕ → ℕ → M (Unit {0})
  respond_to code id = do
    lock
    request ← get_cached_request id
    give_answer (if code == 0 then dsvdc_ok else api code) request
    unlock

  -- The same by the response, and whether there is an id, and the id.
  abbrev respond : Option ℕ → Bool → ℕ → M (Unit {0})
  respond none has_id id = skip
  respond (some code) has_id id =
      if not has_id || (has_id && id == 0) then skip else respond_to code id

  -- `dsvdc_process_generic_response`
  pub process_generic_response : Message → M (Unit {0})
  unfolding get_cached_request
  process_generic_response msg = respond msg.generic_response msg.has_message_id msg.message_id
