-- ===== src/Process/Notification.antt =====
-- src/msg_processor.c: the notifications. Each is checked and handed to the application.
pub mod Keeping
use libdsvdc.Base.{
  ℕ, ◌-◌, ◌^◌, Bool, not, ◌||◌, Option, none, some, List, Bytes, ◌==◌, if◌then◌else◌, is_some,
}
use libdsvdc.Effects.{M, ◌>>◌, skip, lock, unlock, notify}
use libdsvdc.Handle.{Callbacks, Env, Arguments, scene_call, scene, target, control, channel}
use libdsvdc.Message.{Message, Target, SceneNotification, ControlNotification, ChannelNotification}

-- DEFAULT_UNKNOWN_GROUP and DEFAULT_UNKNOWN_ZONE: -1 as an int32_t.
abbrev pub default_unknown : ℕ
default_unknown = 2 ^ 32 - 1

abbrev pub group_of : Target → ℕ
group_of t = if t.has_group then t.group else default_unknown

abbrev pub zone_of : Target → ℕ
zone_of t = if t.has_zone_id then t.zone_id else default_unknown

-- `(n_dsuid == 0) || (!dsuid)`
abbrev pub no_dsuid : ℕ → Option (List Bytes) → Bool
no_dsuid n dsuid = n == 0 || not (is_some dsuid)

module _ (env : Env) where
  -- The call of the application, with the mutex held.
  abbrev hand_over : (Callbacks → Option ℕ) → Arguments → M (Unit {0})
  hand_over callback args = do lock; notify env callback args; unlock

  abbrev check_call_scene : Option SceneNotification → M (Unit {0})
  check_call_scene none = skip
  check_call_scene (some n) =
      if no_dsuid n.target.n_dsuid n.target.dsuid
      then skip
      else if not n.has_scene
      then skip
      else if not n.has_force
      then skip
      else hand_over (λ c. c.vdsm_send_call_scene)
          (scene_call n.target.dsuid n.target.n_dsuid n.scene n.force (group_of n.target)
            (zone_of n.target))

  -- `dsvdc_process_call_scene`
  pub process_call_scene : Message → M (Unit {0})
  process_call_scene msg = check_call_scene msg.vdsm_send_call_scene

  -- What saving, undoing and the local priority of a scene share.
  abbrev process_scene : (Callbacks → Option ℕ) → Option SceneNotification → M (Unit {0})
  process_scene callback none = skip
  process_scene callback (some n) =
      if no_dsuid n.target.n_dsuid n.target.dsuid
      then skip
      else if not n.has_scene
      then skip
      else hand_over callback
          (scene n.target.dsuid n.target.n_dsuid n.scene (group_of n.target) (zone_of n.target))

  -- `dsvdc_process_save_scene`
  pub process_save_scene : Message → M (Unit {0})
  process_save_scene msg = process_scene (λ c. c.vdsm_send_save_scene) msg.vdsm_send_save_scene

  -- `dsvdc_process_undo_scene`
  pub process_undo_scene : Message → M (Unit {0})
  process_undo_scene msg = process_scene (λ c. c.vdsm_send_undo_scene) msg.vdsm_send_undo_scene

  -- `dsvdc_process_set_local_prio`
  pub process_set_local_prio : Message → M (Unit {0})
  process_set_local_prio msg =
      process_scene (λ c. c.vdsm_send_set_local_prio) msg.vdsm_send_set_local_prio

  -- What the minimum scene and identifying share.
  abbrev process_target : (Callbacks → Option ℕ) → Option Target → M (Unit {0})
  process_target callback none = skip
  process_target callback (some t) =
      if no_dsuid t.n_dsuid t.dsuid
      then skip
      else hand_over callback (target t.dsuid t.n_dsuid (group_of t) (zone_of t))

  -- `dsvdc_process_call_min_scene`
  pub process_call_min_scene : Message → M (Unit {0})
  process_call_min_scene msg =
      process_target (λ c. c.vdsm_send_call_min_scene) msg.vdsm_send_call_min_scene

  -- `dsvdc_process_identify`
  pub process_identify : Message → M (Unit {0})
  process_identify msg = process_target (λ c. c.vdsm_send_identify) msg.vdsm_send_identify

  -- The double is converted to an int32_t by the call.
  abbrev check_control_value : Option ControlNotification → M (Unit {0})
  check_control_value none = skip
  check_control_value (some n) =
      if no_dsuid n.target.n_dsuid n.target.dsuid
      then skip
      else if not n.has_value
      then skip
      else hand_over (λ c. c.vdsm_send_set_control_value)
          (control n.target.dsuid n.target.n_dsuid (env.to_int32 n.value) (group_of n.target)
            (zone_of n.target))

  -- `dsvdc_process_set_control_value`
  pub process_set_control_value : Message → M (Unit {0})
  process_set_control_value msg = check_control_value msg.vdsm_send_set_control_value

  abbrev check_channel_value : Option ChannelNotification → M (Unit {0})
  check_channel_value none = skip
  check_channel_value (some n) =
      if no_dsuid n.n_dsuid n.dsuid
      then skip
      else if not n.has_channel
      then skip
      else if not n.has_value
      then skip
      else if not n.has_apply_now
      then skip
      else hand_over (λ c. c.vdsm_send_output_channel_value)
          (channel n.dsuid n.n_dsuid n.apply_now n.channel n.value)

  -- `dsvdc_process_set_output_channel_value`
  pub process_set_output_channel_value : Message → M (Unit {0})
  process_set_output_channel_value msg = check_channel_value msg.vdsm_send_output_channel_value
