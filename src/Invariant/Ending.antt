-- ===== src/Invariant/Ending.antt =====
-- The end of a session keeps an instance sound, whatever the callback for it announces or sends.
use libdsvdc.Base.{refl, inl, inr, Bool-cases}
use libdsvdc.Effects.Ends.{Ends, ends, Ends-map}
use libdsvdc.Handle.{Handle, State, Env, nothing}
use libdsvdc.Invariant.{IsSound, Kept}
use libdsvdc.Invariant.Careful.{IsCareful}
use libdsvdc.Invariant.Sending.{notify-Kept}
use libdsvdc.Memory.{Mem}
use libdsvdc.Process.{end_session}
use libdsvdc.Process.Session.{disconnected, ended}

-- A handle without a connection and a session.
pub closed-IsSound : {h : Handle} {m : Mem} → IsSound h m → IsSound (ended (disconnected h)) m
closed-IsSound v = record {
  ordered = v.ordered;
  answerable = v.answerable;
  connected = λ e. absurd cc;
  listening = v.listening;
  watched = refl;
  plentiful = v.plentiful;
}

module _ (env : Env) (careful : IsCareful env) where
  -- The session may have lost its connection.
  pub end_session-Kept :
      (s : State) → IsSound (ended s.handle) s.mem → Ends (λ _ t. Kept s t) (end_session env s)
  unfolding end_session
  end_session-Kept s v = elim (Bool-cases s.handle.session) [
    | inl running ↦ simp running (
        Ends-map
          (notify-Kept env careful (λ c. c.vdsm_end_session) nothing
            (record s { handle = ended s.handle }) v)
          λ _ t k. record { sound = k.sound; locks = k.locks })
    | inr idle ↦ simp idle (
        ends (record {
          sound = record {
            ordered = v.ordered;
            answerable = v.answerable;
            connected = λ e. absurd cc;
            listening = v.listening;
            watched = v.watched;
            plentiful = v.plentiful;
          };
          locks = refl;
        }))
  ]
