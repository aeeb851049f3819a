-- ===== src/Process/Notification/Keeping.antt =====
-- The notifications keep an instance sound.
use libdsvdc.Base.{ℕ, ◌+◌, Option, none, some}
use libdsvdc.Effects.Ends.{ends, Ends-bind}
use libdsvdc.Handle.{Callbacks, Arguments, Env}
use libdsvdc.Invariant.{Keeps, unlocked, keeping, skip-Keeps}
use libdsvdc.Invariant.Sending.{notify-Kept}
use libdsvdc.Message.{Message, SceneNotification, Target, ControlNotification, ChannelNotification}
use libdsvdc.Process.Notification.{
  hand_over, process_scene, process_target, check_call_scene, check_control_value,
  check_channel_value, process_call_scene, process_save_scene, process_undo_scene,
  process_set_local_prio, process_call_min_scene, process_identify, process_set_control_value,
  process_set_output_channel_value,
}
use libdsvdc.Invariant.Careful.{IsCareful}

module _ (env : Env) (careful : IsCareful env) where
  hand_over-Keeps :
      (callback : Callbacks → Option ℕ) (args : Arguments) → Keeps (hand_over env callback args)
  hand_over-Keeps callback args s v =
      Ends-bind (notify-Kept env careful callback args (record s { locks = s.locks + 1 }) v)
        λ _ t k. ends (unlocked k)

  process_scene-Keeps :
      (callback : Callbacks → Option ℕ) (o : Option SceneNotification)
      → Keeps (process_scene env callback o)
  process_scene-Keeps callback none = skip-Keeps
  process_scene-Keeps callback (some n) = search (keeping, hand_over-Keeps)

  process_target-Keeps :
      (callback : Callbacks → Option ℕ) (o : Option Target) → Keeps (process_target env callback o)
  process_target-Keeps callback none = skip-Keeps
  process_target-Keeps callback (some n) = search (keeping, hand_over-Keeps)

  check_call_scene-Keeps : (o : Option SceneNotification) → Keeps (check_call_scene env o)
  check_call_scene-Keeps none = skip-Keeps
  check_call_scene-Keeps (some n) = search (keeping, hand_over-Keeps)

  check_control_value-Keeps : (o : Option ControlNotification) → Keeps (check_control_value env o)
  check_control_value-Keeps none = skip-Keeps
  check_control_value-Keeps (some n) = search (keeping, hand_over-Keeps)

  check_channel_value-Keeps : (o : Option ChannelNotification) → Keeps (check_channel_value env o)
  check_channel_value-Keeps none = skip-Keeps
  check_channel_value-Keeps (some n) = search (keeping, hand_over-Keeps)

  pub process_call_scene-Keeps : (msg : Message) → Keeps (process_call_scene env msg)
  unfolding process_call_scene
  process_call_scene-Keeps msg = check_call_scene-Keeps msg.vdsm_send_call_scene

  pub process_save_scene-Keeps : (msg : Message) → Keeps (process_save_scene env msg)
  unfolding process_save_scene
  process_save_scene-Keeps msg = process_scene-Keeps _ msg.vdsm_send_save_scene

  pub process_undo_scene-Keeps : (msg : Message) → Keeps (process_undo_scene env msg)
  unfolding process_undo_scene
  process_undo_scene-Keeps msg = process_scene-Keeps _ msg.vdsm_send_undo_scene

  pub process_set_local_prio-Keeps : (msg : Message) → Keeps (process_set_local_prio env msg)
  unfolding process_set_local_prio
  process_set_local_prio-Keeps msg = process_scene-Keeps _ msg.vdsm_send_set_local_prio

  pub process_call_min_scene-Keeps : (msg : Message) → Keeps (process_call_min_scene env msg)
  unfolding process_call_min_scene
  process_call_min_scene-Keeps msg = process_target-Keeps _ msg.vdsm_send_call_min_scene

  pub process_identify-Keeps : (msg : Message) → Keeps (process_identify env msg)
  unfolding process_identify
  process_identify-Keeps msg = process_target-Keeps _ msg.vdsm_send_identify

  pub process_set_control_value-Keeps : (msg : Message) → Keeps (process_set_control_value env msg)
  unfolding process_set_control_value
  process_set_control_value-Keeps msg = check_control_value-Keeps msg.vdsm_send_set_control_value

  pub process_set_output_channel_value-Keeps :
      (msg : Message) → Keeps (process_set_output_channel_value env msg)
  unfolding process_set_output_channel_value
  process_set_output_channel_value-Keeps msg =
      check_channel_value-Keeps msg.vdsm_send_output_channel_value
