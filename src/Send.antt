-- ===== src/Send.antt =====
-- src/msg_processor.c: sending a message, and the messages that have no answer.
pub mod Frame
pub mod Receive
pub mod Delivery
pub mod Responding
mod Examples
use libdsvdc.Base.{
  ℕ, ◌+◌, ◌/◌, ◌%◌, ◌^◌, Bool, true, false, not, ◌&&◌, is_some, Option, none, some, List, [], ◌∷◌,
  ◌++◌, Bytes, ◌==◌, if◌then◌else◌, length, codes,
}
use libdsvdc.Codes.{Code, dsvdc_ok, err_out_of_memory, err_socket, err_not_connected, err_param}
use libdsvdc.Effects.{M, pure, skip, fault, ◌>>=◌, ◌>>◌, lock, unlock, heap, write, get_handle}
use libdsvdc.Handle.{Handle, State, Env}
use libdsvdc.Memory.{malloc, free}
use libdsvdc.Message.{
  MessageType, generic_response_type, vdc_send_pong_type, vdc_send_identify_type,
  vdc_send_vanish_type, vdc_response_get_property_type, vdc_send_push_property_type, ResultCode,
  Body, generic_response, vdc_send_pong, vdc_send_identify, vdc_send_vanish,
  vdc_response_get_property, vdc_send_push_property, Outgoing,
}
use libdsvdc.Property.{Property}
use libdsvdc.Property.Free.{property_free}
use libdsvdc.Property.Packing.{packable}
use libdsvdc.Sock.{WriteResult, count, failed}

-- The two bytes of `htons(msg_len)` in memory. The length is cut to 16 bits.
unfoldable pub htons : ℕ → Bytes
htons n = (n % 2 ^ 16 / 256) ∷ (n % 256) ∷ []

-- `sockwrite(..) == len`
abbrev pub wrote : WriteResult → ℕ → Bool
wrote (count n) len = n == len
wrote (failed s) len = false

module _ (env : Env) where
  -- `dsvdc_send_message` while there is a connection and the buffer is allocated.
  abbrev transmit : ℕ → Bytes → M Code
  transmit fd packed = do
    header ← write fd (htons (length packed))
    if wrote header 2
        then (do
          body ← write fd packed
          heap free
          unlock
          if wrote body (length packed) then pure dsvdc_ok else pure err_socket)
        else (do heap free; unlock; pure err_socket)

  -- `dsvdc_send_message`
  unfoldable pub send_message : Outgoing → M Code
  send_message msg = do
    lock
    handle ← get_handle
    elim handle.connected_fd [
      | none ↦ (do unlock; pure err_not_connected)
      | some fd ↦ (do
        granted ← heap malloc
        if granted then transmit fd (env.pack msg) else (do unlock; pure err_out_of_memory))
    ]

-- The descriptions of `dsvdc_send_error_message`.
unfoldable pub description : ResultCode → Bytes
description ResultCode.err_ok = codes "OK"
description ResultCode.err_message_unknown = codes "Unknown message type"
description ResultCode.err_incompatible_api = codes "Incompatible API version"
description ResultCode.err_service_not_available = codes "Service not available"
description ResultCode.err_insufficient_storage = codes "Insufficient storage"
description ResultCode.err_forbidden = codes "Forbidden"
description ResultCode.err_not_implemented = codes "Not implemented"
description ResultCode.err_no_content_for_array = codes "No content for array"
description ResultCode.err_invalid_value_type = codes "Invalid or unexpected value type"
description ResultCode.err_missing_submessage = codes "Missing protocol submessage"
description ResultCode.err_missing_data = codes "Missing data / empty message"
description ResultCode.err_not_found = codes "Requested entity was not found"
description ResultCode.err_not_authorized = codes "Not authorized to perform requested action"

-- The message of `dsvdc_send_error_message`.
abbrev pub error_message : ResultCode → ℕ → Outgoing
error_message code message_id = record {
  type = generic_response_type;
  has_message_id = true;
  message_id = message_id;
  body = generic_response code (description code);
}

-- A message that has no id.
abbrev pub plain_message : MessageType → Body → Outgoing
plain_message type body = record {
  type = type;
  has_message_id = false;
  message_id = 0;
  body = body;
}

module _ (env : Env) where
  -- `dsvdc_send_error_message`, with a handle that is not NULL.
  unfoldable pub send_error_message : ResultCode → ℕ → M (Unit {0})
  send_error_message code message_id = do _ ← send_message env (error_message code message_id); skip

  -- `dsvdc_send_pong`, `dsvdc_identify_device` and `dsvdc_device_vanished` share their guards.
  -- The first argument says whether there is a handle.
  abbrev send_for_dsuid : MessageType → (Bytes → Body) → Bool → Option Bytes → M Code
  send_for_dsuid type body false dsuid = pure err_param
  send_for_dsuid type body true none = pure err_param
  send_for_dsuid type body true (some dsuid) = send_message env (plain_message type (body dsuid))

  unfoldable pub send_pong : Bool → Option Bytes → M Code
  send_pong = send_for_dsuid vdc_send_pong_type vdc_send_pong

  unfoldable pub identify_device : Bool → Option Bytes → M Code
  identify_device = send_for_dsuid vdc_send_identify_type vdc_send_identify

  unfoldable pub device_vanished : Bool → Option Bytes → M Code
  device_vanished = send_for_dsuid vdc_send_vanish_type vdc_send_vanish

-- `DSVDC_ERR_NOT_AUTHORIZED`, the greatest code of the API, and the code of each number up to it.
result_code : ℕ → Option ResultCode
result_code n =
    if n == 0
    then some ResultCode.err_ok
    else if n == 1
    then some ResultCode.err_message_unknown
    else if n == 2
    then some ResultCode.err_incompatible_api
    else if n == 3
    then some ResultCode.err_service_not_available
    else if n == 4
    then some ResultCode.err_insufficient_storage
    else if n == 5
    then some ResultCode.err_forbidden
    else if n == 6
    then some ResultCode.err_not_implemented
    else if n == 7
    then some ResultCode.err_no_content_for_array
    else if n == 8
    then some ResultCode.err_invalid_value_type
    else if n == 9
    then some ResultCode.err_missing_submessage
    else if n == 10
    then some ResultCode.err_missing_data
    else if n == 11
    then some ResultCode.err_not_found
    else if n == 12
    then some ResultCode.err_not_authorized
    else none

-- `dsvdc_property_free` of an optional property.
abbrev free_property : Option Property → M (Unit {0})
free_property p = heap (property_free p)

-- An indeterminate message id is read: undefined.
abbrev with_id : Property → (ℕ → M Code) → M Code
with_id p k = elim p.message_id [ none ↦ fault | some id ↦ k id ]

module _ (env : Env) where
  -- A message with the elements of a property: over a connection they are packed, which reads them
  -- all, and is undefined where one is missing.
  abbrev send_elements : Property → Outgoing → M Code
  send_elements p msg = do
    handle ← get_handle
    if not (packable p.properties p.n_properties) && is_some handle.connected_fd
        then fault
        else send_message env msg

  -- `dsvdc_send_get_property_response`
  pub send_get_property_response : Bool → Option Property → M Code
  send_get_property_response false property = do free_property property; pure err_param
  send_get_property_response true none = pure err_param
  send_get_property_response true (some p) = with_id p λ id. do
    ret ← send_elements p (record {
      type = vdc_response_get_property_type;
      has_message_id = true;
      message_id = id;
      body = vdc_response_get_property p.n_properties p.properties;
    })
    free_property (some p)
    pure ret

  -- `dsvdc_send_set_property_response`
  pub send_set_property_response : Bool → Option Property → ℕ → M Code
  unfolding result_code
  send_set_property_response false property code = do free_property property; pure err_param
  send_set_property_response true none code = pure err_param
  send_set_property_response true (some p) code = elim (result_code code) [
    | none ↦ pure err_param
    | some c ↦ with_id p λ id. do send_error_message env c id; free_property (some p); pure dsvdc_ok
  ]

  -- `dsvdc_push_property`; a NULL property is dereferenced.
  unfoldable pub push_property : Bool → Option Bytes → Option Property → M Code
  push_property false dsuid property = pure err_param
  push_property true dsuid none = fault
  push_property true dsuid (some p) = send_elements p (
      plain_message vdc_send_push_property_type
        (vdc_send_push_property dsuid p.n_properties p.properties))
