-- ===== src/Process/Properties.antt =====
-- src/msg_processor.c: requests to get and to set properties. The application is given a property
-- to answer with, which it keeps, and a copy of the query, which is freed after the call.
pub mod Serving
pub mod Keeping
use libdsvdc.Base.{ℕ, Option, none, some, Bytes}
use libdsvdc.Effects.{M, ◌>>=◌, ◌>>◌, skip, get_handle, lock, unlock, heap, invoke}
use libdsvdc.Handle.{Callbacks, Env, properties}
use libdsvdc.Message.{Message, PropertyRequest, ResultCode}
use libdsvdc.Property.{Property, Elements, null, vector}
use libdsvdc.Property.Copy.{property_new, convert_query}
use libdsvdc.Property.Free.{property_free}
use libdsvdc.Send.{send_error_message}

module _ (env : Env) where
  -- The way out when a property could not be allocated.
  abbrev give_up : ℕ → M (Unit {0})
  give_up id = do send_error_message env ResultCode.err_service_not_available id; unlock

  -- The call of the application with the property for the answer and the copy of the query.
  abbrev call_with : ℕ → Bytes → ℕ → Property → Option Property → M (Unit {0})
  call_with f dsuid id property none = give_up id
  call_with f dsuid id property (some query) = do
    _ ← invoke env f (properties dsuid (record property { message_id = some id }) query)
    heap (property_free (some query))
    unlock

  abbrev copy_query : ℕ → Bytes → Elements → ℕ → ℕ → Option Property → M (Unit {0})
  copy_query f dsuid elements n_elements id none = give_up id
  copy_query f dsuid elements n_elements id (some property) =
      heap (convert_query elements n_elements) >>= call_with f dsuid id property

  -- The part under `if (handle->vdsm_request_..._property)`, with the mutex held.
  abbrev serve : Bytes → Elements → ℕ → ℕ → Option ℕ → M (Unit {0})
  serve dsuid elements n_elements id none = unlock
  serve dsuid elements n_elements id (some f) =
      heap property_new >>= copy_query f dsuid elements n_elements id

  -- What both requests share, past the guards. The id is read with no test that there is one.
  abbrev request_on : (Callbacks → Option ℕ) → ℕ → ℕ → Elements → Option Bytes → M (Unit {0})
  request_on callback n_elements id elements none = skip
  request_on callback n_elements id null (some dsuid) = skip
  request_on callback n_elements id (vector slots) (some dsuid) = do
    lock
    handle ← get_handle
    serve dsuid (vector slots) n_elements id (callback handle.callbacks)

  abbrev process_request : (Callbacks → Option ℕ) → Option PropertyRequest → ℕ → M (Unit {0})
  process_request callback none id = skip
  process_request callback (some request) id =
      request_on callback request.n_elements id request.elements request.dsuid

  -- `dsvdc_process_get_property`
  pub process_get_property : Message → M (Unit {0})
  process_get_property msg =
      process_request (λ c. c.vdsm_request_get_property) msg.vdsm_request_get_property
        msg.message_id

  -- `dsvdc_process_set_property`
  pub process_set_property : Message → M (Unit {0})
  process_set_property msg =
      process_request (λ c. c.vdsm_request_set_property) msg.vdsm_request_set_property
        msg.message_id
