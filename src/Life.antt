-- ===== src/Life.antt =====
-- The life of an instance: any sequence of turns of the main loop and calls of the API.
mod Examples
use libdsvdc.Base.{
  ℕ, ◌+◌, ◌-◌, ◌≤◌, ◌<◌, ◌≡◌, ◌≢◌, refl, sym, ap, ◌∙◌, Bool, true, Option, none, some, List, [],
  ◌∷◌, Bytes, arith,
}
use libdsvdc.Codes.{Code}
use libdsvdc.Dispatch.Keeping.{UnpacksFormed}
use libdsvdc.Effects.{M, ◌>>=◌, ◌>>◌, skip}
use libdsvdc.Effects.Ends.{Ends, ends, Ends-map, Ends-bind}
use libdsvdc.Handle.{Callbacks, State, Env}
use libdsvdc.Instance.{register}
use libdsvdc.Invariant.{IsSound, Kept, Keeps, IsSound-grown, Kept-trans, skip-Keeps}
use libdsvdc.Invariant.Sending.{send_message-Kept}
use libdsvdc.Message.{MessageType, Body, ResultCode}
use libdsvdc.Property.{Property}
use libdsvdc.Property.Packing.{packable}
use libdsvdc.Requests.{announce, announce_container, announce_device}
use libdsvdc.Requests.Announce.{
  Announced, numbered, remembered, sent_only, unsent, announce-Announced,
}
use libdsvdc.Invariant.Announcing.{announce-Attended}
use libdsvdc.Invariant.Careful.{IsCareful}
use libdsvdc.Requests.Order.{Below-weaken}
use libdsvdc.Send.{send_pong, identify_device, device_vanished, push_property}
use libdsvdc.Work.{Poll, work}
use libdsvdc.Work.Keeping.{IsRegular, work-Done}

-- What an application does with an instance. A callback for the response to an announcement is
-- never NULL.
pub data Operation : Type 0 where
  turn : Poll → Operation
  announce_a_container : Option Bytes → ℕ → ℕ → Operation
  announce_a_device : Option Bytes → Option Bytes → ℕ → ℕ → Operation
  pong identify vanish : Option Bytes → Operation
  push : Option Bytes → Property → Operation
  subscribe : (Callbacks → Callbacks) → Operation

module _ (env : Env) (timeout : ℕ) where
  abbrev pub perform : Operation → M (Unit {0})
  perform (turn poll) = work env poll timeout true
  perform (announce_a_container dsuid arg f) =
      announce_container env dsuid arg (some f) >>= λ _. skip
  perform (announce_a_device container dsuid arg f) =
      announce_device env container dsuid arg (some f) >>= λ _. skip
  perform (pong dsuid) = send_pong env true dsuid >>= λ _. skip
  perform (identify dsuid) = identify_device env true dsuid >>= λ _. skip
  perform (vanish dsuid) = device_vanished env true dsuid >>= λ _. skip
  perform (push dsuid p) = push_property env true dsuid (some p) >>= λ _. skip
  perform (subscribe set) = register set true

  abbrev pub live : List Operation → M (Unit {0})
  live [] = skip
  live (o ∷ os) = do perform o; live os

-- In each turn, a handle for a rejection can be set up and an accepted connection can be watched;
-- a property that is pushed can be packed.
abbrev pub IsPossible : Operation → Type 0
IsPossible (turn poll) = IsRegular poll
IsPossible (push dsuid p) = packable p.properties p.n_properties ≡ true
IsPossible _ = Unit {0}

abbrev pub ArePossible : List Operation → Type 0
ArePossible [] = Unit {0}
ArePossible (o ∷ os) = IsPossible o × ArePossible os

-- A command whose result is not looked at.
dropped-Keeps : {A : Type 0} {m : M A} → Keeps m → Keeps (m >>= λ _. skip)
dropped-Keeps k s v = Ends-bind (k s v) λ _ t e. ends e

announce-Keeps :
    (env : Env) (type : MessageType) (body : Body) (arg f : ℕ)
    → Keeps (announce env type body arg (some f))
announce-Keeps env type body arg f s v =
    Ends-map (announce-Attended env type body arg f s v) λ _ t a. a.kept

module _ (env : Env) (careful : IsCareful env) (whole : UnpacksFormed env) (timeout : ℕ)
    (timed : timeout ≢ 0) where
  perform-Keeps : (o : Operation) → IsPossible o → Keeps (perform env timeout o)
  unfolding announce_container announce_device send_pong identify_device device_vanished
      push_property
  perform-Keeps (turn poll) up = λ s v.
      Ends-map (work-Done env careful whole poll timeout timed s up v)
        λ _ t d. record { sound = d.sound; locks = d.locks }
  perform-Keeps (announce_a_container dsuid arg f) p = dropped-Keeps (announce-Keeps env _ _ arg f)
  perform-Keeps (announce_a_device container dsuid arg f) p =
      dropped-Keeps (announce-Keeps env _ _ arg f)
  perform-Keeps (pong none) p = skip-Keeps
  perform-Keeps (pong (some dsuid)) p = dropped-Keeps (send_message-Kept env _)
  perform-Keeps (identify none) p = skip-Keeps
  perform-Keeps (identify (some dsuid)) p = dropped-Keeps (send_message-Kept env _)
  perform-Keeps (vanish none) p = skip-Keeps
  perform-Keeps (vanish (some dsuid)) p = dropped-Keeps (send_message-Kept env _)
  perform-Keeps (push dsuid q) p = simp p (dropped-Keeps (send_message-Kept env _))
  perform-Keeps (subscribe set) p = λ s v. ends (record {
    sound = record {
      ordered = v.ordered;
      answerable = v.answerable;
      connected = v.connected;
      listening = v.listening;
      watched = v.watched;
      plentiful = v.plentiful;
    };
    locks = omega arith;
  })

  -- Where each callback of the application, which may itself announce, send and allocate, leaves
  -- a sound instance sound, the mutex held as often as before, an existing connection there and
  -- the waiting requests in place behind those it adds, where unpacking gives well-formed property
  -- requests (each array has as many elements as its count says, and all bytes are as long as they
  -- say), the timeout is not 0, each turn's second handle can be set up, accepted descriptors are
  -- below FD_SETSIZE and each pushed property's elements and bytes are all there to be packed, any
  -- sequence of turns of `dsvdc_work`, announcements with a callback, notifications, property
  -- pushes and registrations of callbacks ends, whatever the peer sends, with no undefined
  -- behaviour and no endless wait. A sound instance is sound afterwards (it has a listening
  -- socket, that and the connection are below FD_SETSIZE, its waiting requests lie in order and
  -- each has a callback, a session has a connection, memory does not run out), and the mutex is
  -- held as often as before.
  pub live-Keeps : (os : List Operation) → ArePossible os → Keeps (live env timeout os)
  live-Keeps [] p = skip-Keeps
  live-Keeps (o ∷ os) (p, ps) = λ s v.
      Ends-bind (perform-Keeps o p s v)
        λ _ t k. Ends-map (live-Keeps os ps t k.sound) λ _ q l. Kept-trans k l
