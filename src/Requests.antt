-- ===== src/Requests.antt =====
-- The requests that wait for the vdSM's answer: src/msg_processor.c (announcing, and finding a
-- request) and src/dsvdc.c (dropping those that are out of date). The list macros are utlist's.
pub mod Order
pub mod Announce
pub mod Take
pub mod Answers
pub mod Cleanup
pub mod Keeping
mod Examples
use libdsvdc.Base.{
  ℕ, zero, suc, ◌+◌, ◌%◌, ◌^◌, Bool, true, false, not, ◌&&◌, ◌||◌, Option, none, some, List, [],
  ◌∷◌, Bytes, ◌==◌, if◌then◌else◌, ltb, length,
}
use libdsvdc.Codes.{Code, dsvdc_ok, err_out_of_memory, err_timeout, err_not_connected, is_ok}
use libdsvdc.Effects.{
  M, Outcome, pure, ◌>>=◌, ◌>>◌, skip, fault, gets, get_handle, put_handle, lock, unlock, time,
  heap, invoke, out_of_fuel,
}
use libdsvdc.Handle.{Request, Handle, State, Env, answer}
use libdsvdc.Memory.{malloc, free}
use libdsvdc.Message.{
  MessageType, vdc_send_announce_vdc_type, vdc_send_announce_device_type, Body,
  vdc_send_announce_vdc, vdc_send_announce_device, Outgoing,
}
use libdsvdc.Send.{send_message}

-- `LL_DELETE`: unlink the node at an address.
unfoldable pub delete : ℕ → List Request → List Request
delete a [] = []
delete a (r ∷ rs) = if r.address == a then rs else r ∷ delete a rs

abbrev pub put_requests : List Request → M (Unit {0})
put_requests rs s = put_handle (record s.handle { requests_list = rs }) s

-- `LL_PREPEND` and `LL_DELETE` on the handle's list.
abbrev pub prepend : Request → M (Unit {0})
prepend r = do handle ← get_handle; put_requests (r ∷ handle.requests_list)

abbrev pub unlink : Request → M (Unit {0})
unlink r = do handle ← get_handle; put_requests (delete r.address handle.requests_list)

-- `++(handle->request_id)`, a uint32_t.
unfoldable pub next_id : ℕ → ℕ
next_id id = (id + 1) % 2 ^ 32

abbrev pub take_id : M ℕ
take_id = do
  handle ← get_handle
  put_handle (record handle { request_id = next_id handle.request_id })
  pure (next_id handle.request_id)

-- A request that was sent is remembered under its id. Its address is that of a new block.
abbrev remember : ℕ → ℕ → Option ℕ → M Code
remember id arg function = do
  granted ← heap malloc
  if granted
      then (do
        timestamp ← time
        address ← gets (λ s. s.mem.allocs)
        lock
        prepend (record {
          address = address;
          message_id = id;
          timestamp = timestamp;
          arg = arg;
          callback = function;
        })
        unlock
        pure dsvdc_ok)
      else pure err_out_of_memory

module _ (env : Env) where
  -- What `dsvdc_announce_container` and `dsvdc_announce_device` share.
  unfoldable pub announce : MessageType → Body → ℕ → Option ℕ → M Code
  announce type body arg function = do
    lock
    id ← take_id
    unlock
    ret ←
        send_message env
          (record { type = type; has_message_id = true; message_id = id; body = body })
    if is_ok ret then remember id arg function else pure ret

  -- `dsvdc_announce_container`
  unfoldable pub announce_container : Option Bytes → ℕ → Option ℕ → M Code
  unfolding announce
  announce_container dsuid arg function =
      announce vdc_send_announce_vdc_type (vdc_send_announce_vdc dsuid) arg function

  -- `dsvdc_announce_device`
  unfoldable pub announce_device : Option Bytes → Option Bytes → ℕ → Option ℕ → M Code
  unfolding announce
  announce_device container_dsuid dsuid arg function =
      announce vdc_send_announce_device_type (vdc_send_announce_device dsuid container_dsuid) arg
        function

-- The search of `dsvdc_get_cached_request`.
unfoldable pub find_request : ℕ → List Request → Option Request
find_request id [] = none
find_request id (r ∷ rs) = if r.message_id == id then some r else find_request id rs

-- The unlinking of what was found, and the end.
abbrev pub take_found : Option Request → M (Option Request)
take_found none = do unlock; pure none
take_found (some r) = do unlink r; unlock; pure (some r)

-- `dsvdc_get_cached_request`
unfoldable pub get_cached_request : ℕ → M (Option Request)
get_cached_request id = do
  lock
  handle ← get_handle
  take_found (find_request id handle.requests_list)

module _ (env : Env) where
  -- `request->callback(...); free(request);`. To call NULL is undefined.
  abbrev pub answer_request : Request → Code → M (Unit {0})
  answer_request r code = do
    elim r.callback [ none ↦ fault | some f ↦ (invoke env f (answer code r.arg) >>= λ _. skip) ]
    heap free

-- The node at an address, and the address of the node behind it.
unfoldable pub node_at : ℕ → List Request → Option (Request × Option ℕ)
node_at a [] = none
node_at a (r ∷ []) = if r.address == a then some (r, none) else none
node_at a (r ∷ q ∷ rs) = if r.address == a then some (r, some q.address) else node_at a (q ∷ rs)

abbrev head_address : List Request → Option ℕ
head_address [] = none
head_address (r ∷ rs) = some r.address

-- `!connected || difftime(now, request->timestamp) > DEFAULT_VDSM_MSG_TIMEOUT`
abbrev pub is_obsolete : Bool → ℕ → Request → Bool
is_obsolete connected now r = not connected || ltb (r.timestamp + 10) now

module _ (env : Env) where
  -- The body of `LL_FOREACH_SAFE`.
  abbrev visit : Bool → ℕ → Code → Request → M (Unit {0})
  visit connected now code r =
      if is_obsolete connected now r then (do unlink r; answer_request env r code) else skip

  -- One turn, at what was found at the address; `walk` is the rest of the loop.
  abbrev at_node :
      Bool → ℕ → Code → (Option ℕ → M (Unit {0})) → Option (Request × Option ℕ) → M (Unit {0})
  at_node connected now code walk none = fault
  at_node connected now code walk (some (r, next)) = do visit connected now code r; walk next

  -- `LL_FOREACH_SAFE`: the next address is read before the body runs; a node that is no longer
  -- there is read after it was freed.
  unfoldable pub foreach : ℕ → Bool → ℕ → Code → Option ℕ → M (Unit {0})
  foreach fuel connected now code none = skip
  foreach zero connected now code (some a) = λ s. out_of_fuel
  foreach (suc fuel) connected now code (some a) = do
    handle ← get_handle
    at_node connected now code (foreach fuel connected now code) (node_at a handle.requests_list)

  -- `dsvdc_cleanup_request_list`. The fuel is the number of nodes.
  pub cleanup_request_list : Bool → M (Unit {0})
  unfolding foreach
  cleanup_request_list connected = do
    let code = if connected then err_timeout else err_not_connected
    now ← time
    lock
    handle ← get_handle
    if connected && ltb now (handle.last_list_cleanup + 20) then unlock else (do
      foreach (length handle.requests_list) connected now code (head_address handle.requests_list)
      then' ← time
      handle' ← get_handle
      put_handle (record handle' { last_list_cleanup = then' })
      unlock)
