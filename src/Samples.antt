-- ===== src/Samples.antt =====
-- Data for the tests: a connected instance in a session, with two requests waiting, and a world
-- that grants all memory and takes all that is written.
use libdsvdc.Base.{ap, arith, Option, refl, not, ◌==◌, true, none, some, [], ◌∷◌, replicate}
use mathlib.Core.Path.{subst}
use libdsvdc.Dispatch.Keeping.{IsFormed, UnpacksFormed}
use libdsvdc.Invariant.{IsSound}
use libdsvdc.Message.{Message, PropertyRequest, vdsm_request_get_property_type}
use libdsvdc.Process.Properties.Serving.{asked}
use libdsvdc.Property.{PropertyValue, init_value, Slots, entry, end, element, null, vector}
use libdsvdc.Property.Whole.{FormedSlots, WholeSlots, absent, cons, nil, leaf, present, some_bytes}
use libdsvdc.Handle.{Request, Callbacks, Handle, State, Env}
use libdsvdc.Memory.{Mem}
use libdsvdc.Requests.Answers.{IsModest}
use libdsvdc.Sock.{room}

abbrev pub plenty : Mem
plenty = record { grants = λ k. true; calls = 0; allocs = 0; frees = 0 }

-- The second request for memory is refused.
abbrev pub tight : Mem
tight = record { grants = λ k. not (k == 1); calls = 0; allocs = 0; frees = 0 }

abbrev pub some_callbacks : Callbacks
some_callbacks = record {
  vdsm_new_session = some 1;
  vdsm_end_session = some 2;
  vdsm_send_ping = some 3;
  vdsm_send_remove = none;
  vdsm_send_call_scene = some 4;
  vdsm_send_save_scene = none;
  vdsm_send_undo_scene = none;
  vdsm_send_set_local_prio = none;
  vdsm_send_call_min_scene = none;
  vdsm_send_identify = none;
  vdsm_send_set_control_value = none;
  vdsm_request_get_property = some 5;
  vdsm_request_set_property = none;
  vdsm_send_output_channel_value = none;
}

abbrev pub newer_request : Request
newer_request = record { address = 4; message_id = 8; timestamp = 95; arg = 40; callback = some 11 }

abbrev pub older_request : Request
older_request = record { address = 2; message_id = 7; timestamp = 80; arg = 20; callback = some 12 }

abbrev pub instance_handle : Handle
instance_handle = record {
  port = 0;
  listen_fd = some 5;
  connected_fd = some 9;
  vdsm_dsuid = replicate 35 0;
  vdc_dsuid = replicate 35 0;
  requests_list = newer_request ∷ older_request ∷ [];
  last_list_cleanup = 60;
  request_id = 8;
  session = true;
  callback_userdata = 77;
  callbacks = some_callbacks;
}

abbrev pub running : State
running = record {
  handle = instance_handle;
  mem = record plenty { calls = 4; allocs = 4 };
  locks = 0;
  clock = λ k. 100;
  ticks = 0;
  writes = room 4 ∷ room 1 ∷ room 9 ∷ [];
  reads = [];
  wire = [];
  closed = [];
  calls = [];
}

abbrev pub world : Env
world = record {
  pack = λ m. 10 ∷ 20 ∷ 30 ∷ [];
  unpack = λ bytes. none;
  to_int32 = λ n. n;
  react = λ c s. (s, true);
}

pub world-IsModest : IsModest world
world-IsModest = record {
  handle = λ c s. refl;
  locks = λ c s. refl;
  calls = λ c s. refl;
  clock = λ c s. refl;
  ticks = λ c s. refl;
  closed = λ c s. refl;
  wire = λ c s. refl;
  mem = λ c s. refl;
}

-- It is sound.
pub running-IsSound : IsSound running.handle running.mem
running-IsSound = record {
  ordered = (omega arith, (omega arith, tt));
  answerable = ((λ e. absurd cc), ((λ e. absurd cc), tt));
  connected = λ _. refl;
  listening = refl;
  watched = refl;
  plentiful = λ k. refl;
}

-- A value with a text and bytes.
abbrev both : PropertyValue
both = record init_value {
  v_string = some (116 ∷ []);
  has_v_bytes = true;
  v_bytes = record { len = 1; contents = some (98 ∷ []) };
}

-- A request for one property, by its name.
abbrev pub query : Slots
query = entry (element (some (110 ∷ [])) (some both) 0 null) end

pub query-Formed : FormedSlots query 1
query-Formed = cons (leaf (present (record { bytes = some_bytes _ refl }))) nil

-- A request for one property, without a value.
abbrev pub plain_query : Slots
plain_query = entry (element (some (110 ∷ [])) none 0 null) end

pub plain_query-Whole : WholeSlots plain_query 1
plain_query-Whole = cons (leaf absent) nil

abbrev pub query_request : PropertyRequest
query_request = record { dsuid = some (65 ∷ []); n_elements = 1; elements = vector query }

abbrev pub query_message : Message
query_message = record {
  type = vdsm_request_get_property_type;
  has_message_id = true;
  message_id = 3;
  generic_response = none;
  vdsm_request_hello = none;
  vdsm_request_get_property = some query_request;
  vdsm_request_set_property = none;
  vdsm_send_ping = none;
  vdsm_send_remove = none;
  vdsm_send_bye = none;
  vdsm_send_call_scene = none;
  vdsm_send_save_scene = none;
  vdsm_send_undo_scene = none;
  vdsm_send_set_local_prio = none;
  vdsm_send_call_min_scene = none;
  vdsm_send_identify = none;
  vdsm_send_set_control_value = none;
  vdsm_send_output_channel_value = none;
}

-- A world in which all bytes are that request.
abbrev pub asking : Env
asking = record world { unpack = λ bytes. some query_message }

pub asking-IsModest : IsModest asking
asking-IsModest = record {
  handle = λ c s. refl;
  locks = λ c s. refl;
  calls = λ c s. refl;
  clock = λ c s. refl;
  ticks = λ c s. refl;
  closed = λ c s. refl;
  wire = λ c s. refl;
  mem = λ c s. refl;
}

abbrev message_of : Option Message → Message
message_of none = query_message
message_of (some msg) = msg

pub asking-UnpacksFormed : UnpacksFormed asking
asking-UnpacksFormed bytes msg e =
    subst IsFormed (ap message_of e) (record { get = asked query-Formed; set = tt })
