-- ===== src/Instance.antt =====
-- src/dsvdc.c: making and clearing an instance, and its callbacks. The build has no Avahi.
pub mod Port
pub mod New
pub mod Cleanup
mod Examples
use libdsvdc.Base.{
  ℕ, zero, suc, ◌+◌, ◌-◌, Bool, true, false, not, ◌&&◌, ◌||◌, Option, none, some, List, [], ◌∷◌,
  ◌++◌, Bytes, ◌==◌, if◌then◌else◌, length, take, replicate, is_some,
}
use libdsvdc.Codes.{Code, dsvdc_ok, err_out_of_memory}
use libdsvdc.Effects.{
  M, pure, ◌>>=◌, ◌>>◌, skip, get_handle, put_handle, lock, unlock, time, close, heap,
}
use libdsvdc.Handle.{Request, Callbacks, Handle, State, Env}
use libdsvdc.Memory.{free}
use libdsvdc.Requests.{cleanup_request_list}

-- `tolower` of the C library, and whether the three calls on the mutex succeed.
pub record Setup : Type 0 where
  pub tolower : ℕ → ℕ
  pub attr_init : Bool
  pub attr_settype : Bool
  pub mutex_init : Bool

-- Every callback is cleared but one: there is no line for `vdsm_request_set_property`.
abbrev pub clear_callbacks : Callbacks → Callbacks
clear_callbacks c = record {
  vdsm_new_session = none;
  vdsm_end_session = none;
  vdsm_send_ping = none;
  vdsm_send_remove = none;
  vdsm_send_call_scene = none;
  vdsm_send_save_scene = none;
  vdsm_send_undo_scene = none;
  vdsm_send_set_local_prio = none;
  vdsm_send_call_min_scene = none;
  vdsm_send_identify = none;
  vdsm_send_set_control_value = none;
  vdsm_request_get_property = none;
  vdsm_request_set_property = c.vdsm_request_set_property;
  vdsm_send_output_channel_value = none;
}

-- The loop that copies the dSUID: up to `n` bytes of the C string, in lower case.
unfoldable pub lower : (ℕ → ℕ) → ℕ → Bytes → Bytes
lower tolower zero bytes = []
lower tolower (suc n) [] = []
lower tolower (suc n) (b ∷ bs) = tolower b ∷ lower tolower n bs

-- The array of 35 bytes, which was nulled out before.
unfoldable pub dsuid_array : (ℕ → ℕ) → Bytes → Bytes
unfolding lower
dsuid_array tolower dsuid =
    lower tolower 34 dsuid ++ replicate (35 - length (lower tolower 34 dsuid)) 0

-- `dsvdc_setup_handle` on memory that held `inst`. `none` when the mutex could not be made, and
-- the memory was freed.
unfoldable pub setup_handle : Setup → ℕ → Bytes → ℕ → Handle → M (Option Handle)
setup_handle setup port dsuid userdata inst = do
  _ ← time
  if not setup.attr_init || not setup.attr_settype || not setup.mutex_init
      then (do heap free; pure none)
      else (do
        now ← time
        pure (
            some (record {
              port = port;
              listen_fd = none;
              connected_fd = none;
              vdsm_dsuid = replicate 35 0;
              vdc_dsuid = dsuid_array setup.tolower dsuid;
              requests_list = [];
              last_list_cleanup = now;
              request_id = 0;
              session = false;
              callback_userdata = userdata;
              callbacks = clear_callbacks inst.callbacks;
            })))

-- `if (fd > -1) close(fd);`
abbrev close_some : Option ℕ → M (Unit {0})
close_some none = skip
close_some (some fd) = close fd

-- The callbacks that `dsvdc_cleanup_handle` leaves.
abbrev leave_callbacks : Callbacks → Callbacks
leave_callbacks c = record (clear_callbacks c) {
  vdsm_new_session = c.vdsm_new_session;
  vdsm_end_session = c.vdsm_end_session;
}

-- `dsvdc_cleanup_handle` behind the cleanup of the requests. `vdsm_push_uri` is never set, and
-- the mutex is destroyed.
abbrev close_sockets : Env → M (Unit {0})
close_sockets env = do
  lock
  handle ← get_handle
  close_some handle.listen_fd
  close_some handle.connected_fd
  handle' ← get_handle
  put_handle (record handle' {
    listen_fd = none;
    connected_fd = none;
    callbacks = leave_callbacks handle'.callbacks;
    callback_userdata = 0;
  })
  unlock

-- `dsvdc_cleanup_handle`
unfoldable pub cleanup_handle : Env → M (Unit {0})
cleanup_handle env = do cleanup_request_list env false; close_sockets env

-- `dsvdc_has_session`
unfoldable pub has_session : M Bool
has_session = do
  lock
  handle ← get_handle
  unlock
  pure (is_some handle.connected_fd && handle.session)

-- What the functions that register a callback share; the flag says whether there is a handle.
abbrev pub register : (Callbacks → Callbacks) → Bool → M (Unit {0})
register set false = skip
register set true = do
  lock
  handle ← get_handle
  put_handle (record handle { callbacks = set handle.callbacks })
  unlock

pub set_new_session_callback : Option ℕ → Bool → M (Unit {0})
set_new_session_callback f = register λ c. record c { vdsm_new_session = f }

pub set_end_session_callback : Option ℕ → Bool → M (Unit {0})
set_end_session_callback f = register λ c. record c { vdsm_end_session = f }

pub set_ping_callback : Option ℕ → Bool → M (Unit {0})
set_ping_callback f = register λ c. record c { vdsm_send_ping = f }

pub set_remove_callback : Option ℕ → Bool → M (Unit {0})
set_remove_callback f = register λ c. record c { vdsm_send_remove = f }

pub set_call_scene_notification_callback : Option ℕ → Bool → M (Unit {0})
set_call_scene_notification_callback f = register λ c. record c { vdsm_send_call_scene = f }

pub set_save_scene_notification_callback : Option ℕ → Bool → M (Unit {0})
set_save_scene_notification_callback f = register λ c. record c { vdsm_send_save_scene = f }

pub set_undo_scene_notification_callback : Option ℕ → Bool → M (Unit {0})
set_undo_scene_notification_callback f = register λ c. record c { vdsm_send_undo_scene = f }

pub set_local_priority_notification_callback : Option ℕ → Bool → M (Unit {0})
set_local_priority_notification_callback f = register λ c. record c { vdsm_send_set_local_prio = f }

pub set_call_min_scene_notification_callback : Option ℕ → Bool → M (Unit {0})
set_call_min_scene_notification_callback f = register λ c. record c { vdsm_send_call_min_scene = f }

pub set_identify_notification_callback : Option ℕ → Bool → M (Unit {0})
set_identify_notification_callback f = register λ c. record c { vdsm_send_identify = f }

pub set_control_value_callback : Option ℕ → Bool → M (Unit {0})
set_control_value_callback f = register λ c. record c { vdsm_send_set_control_value = f }

pub set_output_channel_value_callback : Option ℕ → Bool → M (Unit {0})
set_output_channel_value_callback f = register λ c. record c { vdsm_send_output_channel_value = f }

pub set_get_property_callback : Option ℕ → Bool → M (Unit {0})
set_get_property_callback f = register λ c. record c { vdsm_request_get_property = f }

pub set_set_property_callback : Option ℕ → Bool → M (Unit {0})
set_set_property_callback f = register λ c. record c { vdsm_request_set_property = f }

-- `dsvdc_cleanup`; the flag says whether there is a handle.
pub cleanup : Env → Bool → M (Unit {0})
unfolding cleanup_handle
cleanup env false = skip
cleanup env true = do cleanup_handle env; heap free
