-- ===== src/Process/Examples.antt =====
-- The end of a session at a concrete instance.
use libdsvdc.Base.{true, arith, refl, false, none, some, [], ◌∷◌}
use libdsvdc.Effects.Ends.{Ends}
use libdsvdc.Message.{vdsm_request_hello_type, Message, vdsm_send_bye_type, generic_response_type}
use libdsvdc.Process.{process_hello, process_bye, process_generic_response}
use libdsvdc.Process.Response.{Answered, process_generic_response-Answered}
use libdsvdc.Codes.{api}
use libdsvdc.Process.Greeting.{Received, process_hello-Received}
use libdsvdc.Process.Session.{Left, process_bye-Ended}
use libdsvdc.Process.Properties.{process_get_property}
use libdsvdc.Process.Properties.Serving.{Served, request_call, process_get_property-Served}
use libdsvdc.Handle.{State}
use libdsvdc.Property.Whole.{lost}
use libdsvdc.Samples.{
  instance_handle, query, query-Formed, query_request, query_message, world-IsModest, running,
  world,
}

abbrev bye_message : Message
bye_message = record {
  type = vdsm_send_bye_type;
  has_message_id = false;
  message_id = 0;
  generic_response = none;
  vdsm_request_hello = none;
  vdsm_request_get_property = none;
  vdsm_request_set_property = none;
  vdsm_send_ping = none;
  vdsm_send_remove = none;
  vdsm_send_bye = some (record { dsuid = some (65 ∷ []) });
  vdsm_send_call_scene = none;
  vdsm_send_save_scene = none;
  vdsm_send_undo_scene = none;
  vdsm_send_set_local_prio = none;
  vdsm_send_call_min_scene = none;
  vdsm_send_identify = none;
  vdsm_send_set_control_value = none;
  vdsm_send_output_channel_value = none;
}

process_bye-Ended_example : Ends (λ _ t. Left running t) (process_bye world bye_message running)
process_bye-Ended_example =
    process_bye-Ended world world-IsModest bye_message (record { dsuid = some (65 ∷ []) }) (65 ∷ [])
      running refl refl

-- The answer with code 3 to the older request.
abbrev answer_message : Message
answer_message = record bye_message {
  type = generic_response_type;
  has_message_id = true;
  message_id = 7;
  generic_response = some 3;
}

process_generic_response-Answered_example :
    Ends
      (λ _ t. Answered 7 (api 3) running t)
      (process_generic_response world answer_message running)
process_generic_response-Answered_example =
    process_generic_response-Answered world world-IsModest answer_message 3 5 running refl refl
      (λ e. omega arith) (omega arith, (omega arith, tt)) ((λ e. cc), ((λ e. cc), tt))

process_get_property-Served_example :
    Ends
      (λ _ t. Served running (request_call 5 (65 ∷ []) 3 query 1 77) 1 t)
      (process_get_property world query_message running)
unfolding lost
process_get_property-Served_example =
    process_get_property-Served world world-IsModest query_message query_request (65 ∷ []) 5 running
      refl refl refl refl query-Formed refl (λ k. refl)

-- The first HELLO of a connection.
abbrev hello_message : Message
hello_message = record bye_message {
  type = vdsm_request_hello_type;
  has_message_id = true;
  message_id = 1;
  vdsm_request_hello =
      some (record { has_api_version = true; api_version = 2; dsuid = some (70 ∷ 71 ∷ []) });
}

abbrev connected : State
connected = record running { handle = record instance_handle { session = false } }

process_hello-Received_example :
    Ends
      (λ _ t. Received world (some (70 ∷ 71 ∷ [])) 1 connected t)
      (process_hello world hello_message connected)
process_hello-Received_example = process_hello-Received world world-IsModest hello_message connected
