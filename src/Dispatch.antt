-- ===== src/Dispatch.antt =====
-- `dsvdc_process_message` of src/msg_processor.c. The unpacked message is freed by generated
-- code, on a heap of its own that the model does not count.
pub mod Keeping
use libdsvdc.Base.{Option, none, some, Bytes}
use libdsvdc.Effects.{M, skip}
use libdsvdc.Handle.{Env}
use libdsvdc.Message.{
  MessageType, generic_response_type, vdsm_request_hello_type, vdsm_request_get_property_type,
  vdsm_request_set_property_type, vdsm_send_ping_type, vdsm_send_remove_type, vdsm_send_bye_type,
  vdsm_notification_call_scene_type, vdsm_notification_save_scene_type,
  vdsm_notification_undo_scene_type, vdsm_notification_set_local_prio_type,
  vdsm_notification_call_min_scene_type, vdsm_notification_identify_type,
  vdsm_notification_set_control_value_type, vdsm_notification_set_output_channel_value_type,
  Message,
}
use libdsvdc.Process.{
  process_hello, process_ping, process_remove, process_bye, process_generic_response,
}
use libdsvdc.Process.Notification.{
  process_call_scene, process_save_scene, process_undo_scene, process_set_local_prio,
  process_call_min_scene, process_identify, process_set_control_value,
  process_set_output_channel_value,
}
use libdsvdc.Process.Properties.{process_get_property, process_set_property}

module _ (env : Env) where
  -- The `switch` over the message's type.
  pub dispatch : MessageType → Message → M (Unit {0})
  dispatch vdsm_request_hello_type msg = process_hello env msg
  dispatch vdsm_request_get_property_type msg = process_get_property env msg
  dispatch vdsm_request_set_property_type msg = process_set_property env msg
  dispatch vdsm_send_ping_type msg = process_ping env msg
  dispatch vdsm_send_remove_type msg = process_remove env msg
  dispatch vdsm_send_bye_type msg = process_bye env msg
  dispatch vdsm_notification_call_scene_type msg = process_call_scene env msg
  dispatch vdsm_notification_save_scene_type msg = process_save_scene env msg
  dispatch vdsm_notification_undo_scene_type msg = process_undo_scene env msg
  dispatch vdsm_notification_set_local_prio_type msg = process_set_local_prio env msg
  dispatch vdsm_notification_call_min_scene_type msg = process_call_min_scene env msg
  dispatch vdsm_notification_identify_type msg = process_identify env msg
  dispatch vdsm_notification_set_control_value_type msg = process_set_control_value env msg
  dispatch vdsm_notification_set_output_channel_value_type msg =
      process_set_output_channel_value env msg
  dispatch generic_response_type msg = process_generic_response env msg
  dispatch _ msg = skip

  abbrev process_unpacked : Option Message → M (Unit {0})
  process_unpacked none = skip
  process_unpacked (some msg) = dispatch msg.type msg

  -- `dsvdc_process_message`
  pub process_message : Bytes → M (Unit {0})
  unfolding dispatch
  process_message bytes = process_unpacked (env.unpack bytes)
