-- ===== src/Work.antt =====
-- `dsvdc_work` of src/dsvdc.c, in the build without Avahi: one turn of the application's main
-- loop.
pub mod Delivery
pub mod Refusal
pub mod Rejection
pub mod Reading
pub mod Keeping
mod Examples
use libdsvdc.Base.{
  ℕ, ◌-◌, Bool, true, false, not, ◌||◌, ◌&&◌, Option, none, some, List, [], ◌∷◌, Bytes, ◌==◌,
  if◌then◌else◌, ltb, length, is_some,
}
use libdsvdc.Dispatch.{process_message}
use libdsvdc.Effects.{
  M, and_then, ok, pure, ◌>>=◌, ◌>>◌, skip, fault, get_handle, put_handle, lock, unlock, close,
  heap, read,
}
use libdsvdc.Handle.{Handle, State, Env, in_fd_set, fits_fd_set}
use libdsvdc.Instance.{Setup, setup_handle, cleanup_handle}
use libdsvdc.Memory.{malloc, free}
use libdsvdc.Message.{ResultCode}
use libdsvdc.Process.{disconnect, end_session}
use libdsvdc.Requests.{cleanup_request_list}
use libdsvdc.Send.{send_error_message}
use libdsvdc.Send.Frame.{ntohs}
use libdsvdc.Sock.{SocketStatus, socket_ok, ReadEvent, WriteEvent}

-- What the system calls give in a turn.
pub record Poll : Type 0 where
  -- `none` when `select` returns 0 or -1, or whether the two sockets are readable
  pub selected : Option (Bool × Bool)
  pub accepted : Option ℕ
  -- how the accepted connection receives and takes bytes
  pub reads : List ReadEvent
  pub writes : List WriteEvent
  -- what the stack holds where the handle for a rejection will lie
  pub stack : Handle
  pub setup : Setup

-- MAX_DATA_SIZE
abbrev pub max_data_size : ℕ
max_data_size = 16384

-- A command on another handle and connection, after which the instance's own are back.
abbrev on_handle : Handle → List WriteEvent → M (Unit {0}) → M (Unit {0})
on_handle h ws c s =
    and_then (c (record s { handle = h; writes = ws }))
      λ _ t. ok tt (record t { handle = s.handle; writes = s.writes })

abbrev status_ok : SocketStatus → Bool
status_ok socket_ok = true
status_ok _ = false

module _ (env : Env) (poll : Poll) (timeout : ℕ) where
  -- The rejection, on a handle that was set up on the stack. Where it could not be set up,
  -- `dsvdc_setup_handle` has freed it, which is undefined.
  abbrev turn_away : ℕ → Option Handle → M (Unit {0})
  turn_away new_fd none = fault
  turn_away new_fd (some fake) =
      on_handle (record fake { connected_fd = some new_fd }) poll.writes
        (do send_error_message env ResultCode.err_service_not_available 0; cleanup_handle env)

  -- A second connection is told so and closed, by way of a handle on the stack.
  unfoldable pub reject : ℕ → M (Unit {0})
  reject new_fd = do
    handle ← get_handle
    made ← setup_handle poll.setup handle.port handle.vdc_dsuid 0 poll.stack
    turn_away new_fd made

  -- The new connection, by whether there is one already.
  abbrev pub admit : ℕ → Option ℕ → M (Unit {0})
  admit new_fd (some _) = reject new_fd
  admit new_fd none = λ s. ok tt (record s {
    handle = record s.handle { connected_fd = some new_fd };
    reads = poll.reads;
    writes = poll.writes;
  })

  -- `accept`, when the listening socket is readable.
  abbrev pub accept_connection : Option ℕ → M (Unit {0})
  accept_connection none = skip
  accept_connection (some new_fd) = do handle ← get_handle; admit new_fd handle.connected_fd

  -- The connection is reset, and the session with it.
  abbrev pub reset : M (Unit {0})
  reset = do disconnect env; end_session env; unlock

  -- What is done with the bytes that were read behind a length.
  abbrev pub handle_body : ℕ → SocketStatus × Bytes → M (Unit {0})
  handle_body size (status, body) =
      if not (status_ok status) || not (length body == size)
      then (do disconnect env; heap free; end_session env; unlock)
      else (do unlock; process_message env body; heap free)

  -- The packed message behind its length.
  abbrev pub read_body : ℕ → M (Unit {0})
  read_body size = if size == 0 then unlock else (do
    granted ← heap malloc
    if granted then (read size timeout >>= handle_body size) else reset)

  -- What is done with the bytes of the length.
  abbrev pub handle_header : SocketStatus × Bytes → M (Unit {0})
  handle_header (status, header) =
      if not (status_ok status) || not (length header == 2) || ltb max_data_size (ntohs header)
      then reset
      else read_body (ntohs header)

  -- A message of the connection, with the mutex held, which is given back in all cases.
  unfoldable pub read_message : M (Unit {0})
  read_message = read 2 timeout >>= handle_header

  -- What is done for the connection, by whether it is readable. Where a callback has closed it,
  -- `FD_ISSET` of -1 is undefined.
  pub from_connection : Bool → M (Unit {0})
  unfolding read_message
  from_connection readable = do
    handle ← get_handle
    if is_some handle.connected_fd then (if readable then read_message else unlock) else fault

  -- What `select` reports; `connected` is what was known before.
  abbrev pub serve_sockets : Bool → Option (Bool × Bool) → M (Unit {0})
  serve_sockets connected none = unlock
  serve_sockets connected (some (incoming, readable)) = do
    if incoming then accept_connection poll.accepted else skip
    if connected then from_connection readable else unlock

  -- The set for `select`. `FD_SET` of -1, or of a descriptor from FD_SETSIZE on, is undefined.
  abbrev pub watch : M (Unit {0})
  watch = do
    handle ← get_handle
    if in_fd_set handle.listen_fd && fits_fd_set handle.connected_fd then skip else fault

  -- `dsvdc_work`; the flag says whether there is a handle.
  unfoldable pub work : Bool → M (Unit {0})
  unfolding from_connection reject
  work false = skip
  work true = do
    lock
    handle ← get_handle
    cleanup_request_list env (is_some handle.connected_fd)
    watch
    serve_sockets (is_some handle.connected_fd) poll.selected
