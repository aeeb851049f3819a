-- ===== src/Message.antt =====
-- The protocol messages of messages/messages.proto and messages/vdcapi.proto, as far as
-- src/msg_processor.c reads and writes them. A pointer that may be NULL is an `Option`; int32
-- values and doubles are bit patterns.
use libdsvdc.Base.{ℕ, Bool, Option, List, Bytes}
use libdsvdc.Property.{Elements}

-- `Vdcapi__Type`
pub data MessageType : Type 0 where
  generic_response_type vdsm_request_hello_type vdc_response_hello_type : MessageType
  vdsm_request_get_property_type vdc_response_get_property_type : MessageType
  vdsm_request_set_property_type vdc_response_set_property_type : MessageType
  vdsm_send_ping_type vdc_send_pong_type vdc_send_announce_device_type : MessageType
  vdc_send_vanish_type vdc_send_push_property_type vdsm_send_remove_type : MessageType
  vdsm_send_bye_type vdsm_notification_call_scene_type : MessageType
  vdsm_notification_save_scene_type vdsm_notification_undo_scene_type : MessageType
  vdsm_notification_set_local_prio_type vdsm_notification_call_min_scene_type : MessageType
  vdsm_notification_identify_type vdsm_notification_set_control_value_type : MessageType
  vdsm_notification_dim_channel_type : MessageType
  vdsm_notification_set_output_channel_value_type vdc_send_identify_type : MessageType
  vdc_send_announce_vdc_type : MessageType

-- `Vdcapi__ResultCode`
pub data ResultCode : Type 0 where
  err_ok err_message_unknown err_incompatible_api err_service_not_available : ResultCode
  err_insufficient_storage err_forbidden err_not_implemented err_no_content_for_array : ResultCode
  err_invalid_value_type err_missing_submessage err_missing_data err_not_found : ResultCode
  err_not_authorized : ResultCode

pub record Hello : Type 0 where
  pub dsuid : Option Bytes
  pub has_api_version : Bool
  pub api_version : ℕ

-- VDSM_SEND_PING, VDSM_SEND_REMOVE and VDSM_SEND_BYE carry a dSUID alone.
pub record Addressed : Type 0 where
  pub dsuid : Option Bytes

-- Get and set property requests: a dSUID, and an array of elements with its length.
pub record PropertyRequest : Type 0 where
  pub dsuid : Option Bytes
  pub elements : Elements
  pub n_elements : ℕ

-- The dSUIDs, the group and the zone that all notifications have.
pub record Target : Type 0 where
  pub n_dsuid : ℕ
  pub dsuid : Option (List Bytes)
  pub has_group : Bool
  pub group : ℕ
  pub has_zone_id : Bool
  pub zone_id : ℕ

-- The scene notifications; `force` stands only in a call.
pub record SceneNotification : Type 0 where
  pub target : Target
  pub has_scene : Bool
  pub scene : ℕ
  pub has_force : Bool
  pub force : Bool

pub record ControlNotification : Type 0 where
  pub target : Target
  pub has_value : Bool
  -- a double
  pub value : ℕ

pub record ChannelNotification : Type 0 where
  pub n_dsuid : ℕ
  pub dsuid : Option (List Bytes)
  pub has_channel : Bool
  pub channel : ℕ
  pub has_value : Bool
  pub value : ℕ
  pub has_apply_now : Bool
  pub apply_now : Bool

-- `Vdcapi__Message`, as it is received. `generic_response` keeps the code.
pub record Message : Type 0 where
  pub type : MessageType
  pub has_message_id : Bool
  pub message_id : ℕ
  pub generic_response : Option ℕ
  pub vdsm_request_hello : Option Hello
  pub vdsm_request_get_property : Option PropertyRequest
  pub vdsm_request_set_property : Option PropertyRequest
  pub vdsm_send_ping : Option Addressed
  pub vdsm_send_remove : Option Addressed
  pub vdsm_send_bye : Option Addressed
  pub vdsm_send_call_scene : Option SceneNotification
  pub vdsm_send_save_scene : Option SceneNotification
  pub vdsm_send_undo_scene : Option SceneNotification
  pub vdsm_send_set_local_prio : Option SceneNotification
  pub vdsm_send_call_min_scene : Option Target
  pub vdsm_send_identify : Option Target
  pub vdsm_send_set_control_value : Option ControlNotification
  pub vdsm_send_output_channel_value : Option ChannelNotification

-- The submessage of a message that the library sends.
pub data Body : Type 0 where
  generic_response : ResultCode → Bytes → Body
  vdc_response_hello : Bytes → Body
  vdc_response_get_property : ℕ → Elements → Body
  vdc_send_pong vdc_send_identify vdc_send_vanish : Bytes → Body
  vdc_send_announce_vdc : Option Bytes → Body
  -- the device's dSUID and its container's
  vdc_send_announce_device : Option Bytes → Option Bytes → Body
  vdc_send_push_property : Option Bytes → ℕ → Elements → Body

-- `Vdcapi__Message`, as it is sent.
pub record Outgoing : Type 0 where
  pub type : MessageType
  pub has_message_id : Bool
  pub message_id : ℕ
  pub body : Body
