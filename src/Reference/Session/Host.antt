-- ===== src/Reference/Session/Host.antt =====
-- An application that opens sessions as the reference device connector does.
use libdsvdc.Base.{ℕ, true, Bool-cases, inl, inr, ◌==◌, if◌then◌else◌, some}
use libdsvdc.Codes.{is_ok}
use libdsvdc.Message.{
  vdc_send_announce_vdc_type, vdc_send_announce_device_type, vdc_send_announce_vdc,
  vdc_send_announce_device,
}
use libdsvdc.Effects.{Outcome, ok, undefined, blocked, out_of_fuel}
use libdsvdc.Effects.Ends.{Ends, ends, Ends-bind}
use libdsvdc.Handle.{State, Env}
use libdsvdc.Invariant.{IsSound}
use libdsvdc.Invariant.Announcing.{announce-Attended}
use libdsvdc.Invariant.Careful.{Attended, IsCareful, Attended-refl, Attended-trans}
use libdsvdc.Reference.Session.{
  new_session, announce_container_cb, announce_device_cb, vdc_dsuid_address, dev_dsuid_address,
}
use libdsvdc.Reference.Site.{Site, Globals}
use libdsvdc.Requests.{announce_container, announce_device}

module _ (env : Env) (site : Site) (g : Globals) where
  -- Opening a session leaves a sound instance sound and adds requests only in front.
  pub new_session-Attended :
      (s : State) → IsSound s.handle s.mem → Ends (λ _ t. Attended s t) (new_session env site g s)
  unfolding new_session announce_container announce_device
  new_session-Attended s v =
      Ends-bind
        (announce-Attended env vdc_send_announce_vdc_type (vdc_send_announce_vdc (some g.vdc_dsuid))
          vdc_dsuid_address announce_container_cb s v)
        λ code t a. elim (Bool-cases (is_ok code)) [
          | inl fine ↦ simp fine (
              Ends-bind
                (announce-Attended env vdc_send_announce_device_type
                  (vdc_send_announce_device (some g.dev_dsuid) (some g.vdc_dsuid)) dev_dsuid_address
                  announce_device_cb t a.kept.sound)
                λ _ q b. ends (Attended-trans a b))
          | inr failed ↦ simp failed (ends a)
        ]

  -- The state that a callback leaves; one that does not return leaves none, which does not happen
  -- to `new_session`.
  abbrev left_by : Outcome (Unit {0}) → State → State
  left_by (ok _ t) s = t
  left_by undefined s = s
  left_by blocked s = s
  left_by out_of_fuel s = s

  -- The callback at the address `new_session_cb` is `new_session`; the others print only.
  abbrev pub hosted : ℕ → Env
  hosted new_session_cb = record env {
    react = λ c s.
        (if c.function == new_session_cb then left_by (new_session env site g s) s else s, true);
  }

  left_by-Attended :
      {s : State} {r : Outcome (Unit {0})} → Ends (λ _ t. Attended s t) r → Attended s (left_by r s)
  left_by-Attended (ends a) = a

  pub hosted-IsCareful : (new_session_cb : ℕ) → IsCareful (hosted new_session_cb)
  hosted-IsCareful new_session_cb = record {
    attends = λ c s v. elim (Bool-cases (c.function == new_session_cb)) [
      | inl e ↦ simp e (left_by-Attended (new_session-Attended s v))
      | inr e ↦ simp e (Attended-refl v)
    ];
  }
