-- ===== src/Dispatch/Keeping.antt =====
-- Every message keeps an instance sound.
use mathlib.Core.Path.{subst}
use libdsvdc.Base.{◌≡◌, sym, inl, inr, true, some, Bytes, is_some, Option-cases}
use libdsvdc.Dispatch.{dispatch, process_unpacked, process_message}
use libdsvdc.Effects.Ends.{Ends}
use libdsvdc.Handle.{State, Env}
use libdsvdc.Invariant.{IsSound, Kept, skip-Keeps}
use libdsvdc.Message.{MessageType, Message}
use libdsvdc.Process.Keeping.{
  process_ping-Keeps, process_remove-Keeps, process_bye-Keeps, process_hello-Kept,
}
use libdsvdc.Process.Notification.Keeping.{
  process_call_scene-Keeps, process_save_scene-Keeps, process_undo_scene-Keeps,
  process_set_local_prio-Keeps, process_call_min_scene-Keeps, process_identify-Keeps,
  process_set_control_value-Keeps, process_set_output_channel_value-Keeps,
}
use libdsvdc.Process.Properties.Keeping.{process_get_property-Keeps, process_set_property-Keeps}
use libdsvdc.Process.Properties.Serving.{FormedOptionalRequest}
use libdsvdc.Process.Response.Keeping.{process_generic_response-Keeps}
use libdsvdc.Invariant.Careful.{IsCareful}

-- The property requests of a message are as unpacking gives them.
pub record IsFormed (msg : Message) : Type 0 where
  pub get : FormedOptionalRequest msg.vdsm_request_get_property
  pub set : FormedOptionalRequest msg.vdsm_request_set_property

-- Unpacking gives well-formed arrays of elements, and a NULL pointer for an empty one: an array has
-- as many elements as its count says, and bytes are as long as their length says. A value may hold
-- any of its fields, a text and bytes at once too.
abbrev pub UnpacksFormed : Env → Type 0
UnpacksFormed env = (bytes : Bytes) (msg : Message) → env.unpack bytes ≡ some msg → IsFormed msg

module _ (env : Env) (careful : IsCareful env) where
  dispatch-Kept :
      (type : MessageType) (msg : Message)
      → IsFormed msg
      → (s : State) → IsSound s.handle s.mem
      → is_some s.handle.connected_fd ≡ true
      → Ends (λ _ t. Kept s t) (dispatch env type msg s)
  unfolding dispatch
  dispatch-Kept MessageType.generic_response_type msg w s v c =
      process_generic_response-Keeps env careful msg s v
  dispatch-Kept MessageType.vdsm_request_hello_type msg w s v c =
      process_hello-Kept env careful msg s v c
  dispatch-Kept MessageType.vdsm_request_get_property_type msg w s v c =
      process_get_property-Keeps env careful msg w.get s v
  dispatch-Kept MessageType.vdsm_request_set_property_type msg w s v c =
      process_set_property-Keeps env careful msg w.set s v
  dispatch-Kept MessageType.vdsm_send_ping_type msg w s v c = process_ping-Keeps env careful msg s v
  dispatch-Kept MessageType.vdsm_send_remove_type msg w s v c =
      process_remove-Keeps env careful msg s v
  dispatch-Kept MessageType.vdsm_send_bye_type msg w s v c = process_bye-Keeps env careful msg s v
  dispatch-Kept MessageType.vdsm_notification_call_scene_type msg w s v c =
      process_call_scene-Keeps env careful msg s v
  dispatch-Kept MessageType.vdsm_notification_save_scene_type msg w s v c =
      process_save_scene-Keeps env careful msg s v
  dispatch-Kept MessageType.vdsm_notification_undo_scene_type msg w s v c =
      process_undo_scene-Keeps env careful msg s v
  dispatch-Kept MessageType.vdsm_notification_set_local_prio_type msg w s v c =
      process_set_local_prio-Keeps env careful msg s v
  dispatch-Kept MessageType.vdsm_notification_call_min_scene_type msg w s v c =
      process_call_min_scene-Keeps env careful msg s v
  dispatch-Kept MessageType.vdsm_notification_identify_type msg w s v c =
      process_identify-Keeps env careful msg s v
  dispatch-Kept MessageType.vdsm_notification_set_control_value_type msg w s v c =
      process_set_control_value-Keeps env careful msg s v
  dispatch-Kept MessageType.vdsm_notification_set_output_channel_value_type msg w s v c =
      process_set_output_channel_value-Keeps env careful msg s v
  dispatch-Kept _ msg w s v c = skip-Keeps s v

  -- Where the application does not use the library from inside a callback and unpacking gives
  -- well-formed property requests, `dsvdc_process_message` ends on a connected instance whatever
  -- the bytes are. An instance that is sound is so afterwards (its waiting requests lie in order
  -- and each has a callback, a session has a connection, memory does not run out), and the mutex
  -- is held as often as before.
  pub process_message-Kept :
      UnpacksFormed env
      → (bytes : Bytes) (s : State) → IsSound s.handle s.mem
      → is_some s.handle.connected_fd ≡ true
      → Ends (λ _ t. Kept s t) (process_message env bytes s)
  unfolding process_message
  process_message-Kept whole bytes s v c = elim (Option-cases (env.unpack bytes)) [
    | inl garbled ↦
        subst (λ o. Ends (λ _ t. Kept s t) (process_unpacked env o s)) (sym garbled)
          (skip-Keeps s v)
    | inr (msg, e) ↦
        subst (λ o. Ends (λ _ t. Kept s t) (process_unpacked env o s)) (sym e)
          (dispatch-Kept msg.type msg (whole bytes msg e) s v c)
  ]
