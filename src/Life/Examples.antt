-- ===== src/Life/Examples.antt =====
-- A short life of an instance.
use mathlib.Core.Path.{subst}
use libdsvdc.Base.{Option, ap, refl, false, true, none, some, List, [], ◌∷◌, arith}
use libdsvdc.Dispatch.Keeping.{IsFormed, UnpacksFormed}
use libdsvdc.Effects.Ends.{Ends}
use libdsvdc.Handle.{Env, State}
use libdsvdc.Invariant.{Kept}
use libdsvdc.Life.{Operation, turn, announce_a_container, pong, subscribe, live, live-Keeps}
use libdsvdc.Message.{Message, vdsm_request_hello_type}
use libdsvdc.Reference.Session.Host.{hosted, hosted-IsCareful}
use libdsvdc.Reference.Site.{Site, Globals}
use libdsvdc.Samples.{running, running-IsSound, world, query_message, instance_handle}
use libdsvdc.Sock.{chunk}
use libdsvdc.Work.{Poll}

abbrev poll : Poll
poll = record {
  selected = some (true, true);
  accepted = some 12;
  reads = [];
  writes = [];
  stack = instance_handle;
  setup = record { tolower = λ b. b; attr_init = true; attr_settype = true; mutex_init = true };
}

abbrev life : List Operation
life =
    announce_a_container (some (65 ∷ [])) 50 13
    ∷ turn poll
    ∷ pong (some (65 ∷ []))
    ∷ subscribe (λ c. record c { vdsm_send_ping = none })
    ∷ turn poll
    ∷ []

abbrev born : State
born = record running { reads = chunk 0 (3 ∷ 10 ∷ 20 ∷ 30 ∷ 0 ∷ []) ∷ [] }

-- A greeting, and an application that answers it with the two announcements of the reference
-- device connector.
abbrev greeting : Message
greeting = record query_message {
  type = vdsm_request_hello_type;
  vdsm_request_get_property = none;
  vdsm_request_hello =
      some (record { dsuid = some (66 ∷ []); has_api_version = true; api_version = 2 });
}

abbrev site : Site
site = record {
  tolower = λ c. c;
  toupper = λ c. c;
  version = [];
  socket = false;
  interfaces = none;
}

abbrev globals : Globals
globals = record { dev_dsuid = 65 ∷ []; vdc_dsuid = 66 ∷ []; lib_dsuid = 67 ∷ [] }

abbrev greeted : Env
greeted = record world { unpack = λ bytes. some greeting }

abbrev application : Env
application = hosted greeted site globals 1

message_of : Option Message → Message
message_of none = greeting
message_of (some msg) = msg

application-UnpacksFormed : UnpacksFormed application
unfolding message_of
application-UnpacksFormed bytes msg e =
    subst IsFormed (ap message_of e) (record { get = tt; set = tt })

-- A connection without a session.
abbrev connected : State
connected = record born { handle = record instance_handle { session = false } }

live-Keeps_example : Ends (λ _ t. Kept connected t) (live application 5 life connected)
live-Keeps_example =
    live-Keeps application (hosted-IsCareful greeted site globals 1) application-UnpacksFormed 5
      (λ e. omega arith) life
      (
        tt,
        (
          record { attr_init = refl; attr_settype = refl; mutex_init = refl; accepted = refl },
          (
            tt,
            (
              tt,
              (
                record {
                  attr_init = refl;
                  attr_settype = refl;
                  mutex_init = refl;
                  accepted = refl;
                },
                tt,
              ),
            ),
          ),
        ),
      )
      connected
      (record {
        ordered = running-IsSound.ordered;
        answerable = running-IsSound.answerable;
        connected = λ e. refl;
        listening = refl;
        watched = refl;
        plentiful = λ k. refl;
      })
