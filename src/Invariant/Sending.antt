-- ===== src/Invariant/Sending.antt =====
-- Sending, calling the application and taking requests keep an instance sound.
use mathlib.Core.Path.{subst}
use libdsvdc.Base.{ℕ, [], ◌∷◌, ◌++◌, refl, sym, Option, none, some}
use libdsvdc.Effects.{invoke, notify_by, notify}
use libdsvdc.Effects.Ends.{Ends, ends, Ends-map, Ends-bind}
use libdsvdc.Handle.{Callbacks, Arguments, Call, State, Env}
use libdsvdc.Invariant.{IsSound, Keeps, IsSound-grown}
use libdsvdc.Message.{Outgoing, ResultCode}
use libdsvdc.Invariant.Careful.{Attended, IsCareful}
use libdsvdc.Send.{send_message, send_error_message, error_message}
use libdsvdc.Send.Frame.{send_message-Sent}

module _ (env : Env) where
  pub send_message-Kept : (msg : Outgoing) → Keeps (send_message env msg)
  send_message-Kept msg s v = Ends-map (send_message-Sent env msg s) λ code t (u, _). record {
    sound = subst (λ h. IsSound h t.mem) (sym u.handle) (IsSound-grown v u.grown u.grants);
    locks = u.locks;
  }

  pub send_error_message-Kept :
      (code : ResultCode) (id : ℕ) → Keeps (send_error_message env code id)
  unfolding send_error_message
  send_error_message-Kept code id s v =
      Ends-bind (send_message-Kept (error_message code id) s v) λ _ t k. ends k

module _ (env : Env) (careful : IsCareful env) where
  -- The record of the call aside, the state is as the callback finds it.
  pub attended :
      (c : Call) (s : State)
      → IsSound s.handle s.mem
      → Attended s (env.react c (record s { calls = s.calls ++ c ∷ [] })).0
  attended c s v =
      let a = careful.attends c (record s { calls = s.calls ++ c ∷ [] }) v in
      record {
        kept = record { sound = a.kept.sound; locks = a.kept.locks };
        still = a.still;
        newer = a.newer;
        requests = a.requests;
      }

  pub invoke-Attended :
      (f : ℕ) (args : Arguments) (s : State)
      → IsSound s.handle s.mem
      → Ends (λ _ t. Attended s t) (invoke env f args s)
  invoke-Attended f args s v = ends (attended _ s v)

  pub invoke-Kept : (f : ℕ) (args : Arguments) → Keeps (invoke env f args)
  invoke-Kept f args s v = Ends-map (invoke-Attended f args s v) λ _ t a. a.kept

  notify_by-Kept : (o : Option ℕ) (args : Arguments) → Keeps (notify_by env o args)
  notify_by-Kept none args s v = ends (record { sound = v; locks = refl })
  notify_by-Kept (some f) args s v = Ends-bind (invoke-Kept f args s v) λ _ t k. ends k

  pub notify-Kept :
      (callback : Callbacks → Option ℕ) (args : Arguments) → Keeps (notify env callback args)
  notify-Kept callback args s v = notify_by-Kept (callback s.handle.callbacks) args s v
