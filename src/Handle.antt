-- ===== src/Handle.antt =====
-- src/common.h: the library's instance, with the world that it acts on.
use libdsvdc.Base.{ℕ, Bool, true, false, ltb, Option, none, some, List, Bytes}
use libdsvdc.Codes.{Code}
use libdsvdc.Memory.{Mem}
use libdsvdc.Message.{Message, Outgoing}
use libdsvdc.Property.{Property}
use libdsvdc.Sock.{WriteEvent, ReadEvent}

-- `cached_request_t`. `address` is where it lies; a function pointer is a number, NULL is `none`.
pub record Request : Type 0 where
  pub address : ℕ
  pub message_id : ℕ
  pub timestamp : ℕ
  pub arg : ℕ
  pub callback : Option ℕ

-- The function pointers of `struct dsvdc`.
pub record Callbacks : Type 0 where
  pub vdsm_new_session : Option ℕ
  pub vdsm_end_session : Option ℕ
  pub vdsm_send_ping : Option ℕ
  pub vdsm_send_remove : Option ℕ
  pub vdsm_send_call_scene : Option ℕ
  pub vdsm_send_save_scene : Option ℕ
  pub vdsm_send_undo_scene : Option ℕ
  pub vdsm_send_set_local_prio : Option ℕ
  pub vdsm_send_call_min_scene : Option ℕ
  pub vdsm_send_identify : Option ℕ
  pub vdsm_send_set_control_value : Option ℕ
  pub vdsm_request_get_property : Option ℕ
  pub vdsm_request_set_property : Option ℕ
  pub vdsm_send_output_channel_value : Option ℕ

-- `struct dsvdc`. A file descriptor of -1 is `none`; the two dSUID arrays hold 35 bytes each.
pub record Handle : Type 0 where
  pub port : ℕ
  pub listen_fd : Option ℕ
  pub connected_fd : Option ℕ
  pub vdsm_dsuid : Bytes
  pub vdc_dsuid : Bytes
  pub requests_list : List Request
  pub last_list_cleanup : ℕ
  pub request_id : ℕ
  pub session : Bool
  pub callback_userdata : ℕ
  pub callbacks : Callbacks

-- The arguments of a call of the application, without the handle and the userdata.
pub data Arguments : Type 0 where
  -- new and end of session
  nothing : Arguments
  -- ping and remove
  for_dsuid : Bytes → Arguments
  -- call scene: dSUIDs, their number, scene, force, group, zone
  scene_call : Option (List Bytes) → ℕ → ℕ → Bool → ℕ → ℕ → Arguments
  -- save, undo and local priority: dSUIDs, their number, scene, group, zone
  scene : Option (List Bytes) → ℕ → ℕ → ℕ → ℕ → Arguments
  -- minimum scene and identify: dSUIDs, their number, group, zone
  target : Option (List Bytes) → ℕ → ℕ → ℕ → Arguments
  -- control value: dSUIDs, their number, value, group, zone
  control : Option (List Bytes) → ℕ → ℕ → ℕ → ℕ → Arguments
  -- output channel: dSUIDs, their number, apply, channel, value
  channel : Option (List Bytes) → ℕ → Bool → ℕ → ℕ → Arguments
  -- get and set property: dSUID, the property to answer with, the query or the new properties
  properties : Bytes → Property → Property → Arguments
  -- the answer to a request of the library: code, argument
  answer : Code → ℕ → Arguments

pub record Call : Type 0 where
  pub function : ℕ
  pub arguments : Arguments
  pub userdata : ℕ

pub record State : Type 0 where
  pub handle : Handle
  pub mem : Mem
  -- how often the calling thread has locked the handle's recursive mutex
  pub locks : ℕ
  -- the k-th call of `time` gives `clock k`; `ticks` calls have been made
  pub clock : ℕ → ℕ
  pub ticks : ℕ
  -- how the connected socket takes what is written
  pub writes : List WriteEvent
  -- what the connected socket receives
  pub reads : List ReadEvent
  -- what was written, with the descriptor, and which descriptors were closed, oldest first
  pub wire : List (ℕ × Bytes)
  pub closed : List ℕ
  -- the calls of the application, oldest first
  pub calls : List Call

-- What is not in the repository: the code that protobuf-c generates, the conversion of a double
-- to an int32_t, and the application behind the callbacks, which may do anything to the state.
pub record Env : Type 0 where
  pub pack : Outgoing → Bytes
  pub unpack : Bytes → Option Message
  pub to_int32 : ℕ → ℕ
  pub react : Call → State → State × Bool

-- FD_SETSIZE
abbrev fd_setsize : ℕ
fd_setsize = 1024

-- Whether a descriptor can be put into an `fd_set`; there is no such descriptor as -1.
abbrev pub in_fd_set : Option ℕ → Bool
in_fd_set none = false
in_fd_set (some fd) = ltb fd fd_setsize

-- The same for a descriptor that is not put there where it is -1.
abbrev pub fits_fd_set : Option ℕ → Bool
fits_fd_set none = true
fits_fd_set (some fd) = ltb fd fd_setsize
