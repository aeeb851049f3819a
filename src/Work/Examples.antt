-- ===== src/Work/Examples.antt =====
-- The theorems on the work loop at a concrete stream.
use libdsvdc.Base.{◌≡◌, refl, true, false, none, some, List, [], ◌∷◌, arith}
use libdsvdc.Dispatch.{process_message}
use libdsvdc.Effects.{◌>>◌, heap}
use libdsvdc.Effects.Ends.{Ends}
use libdsvdc.Handle.{State}
use libdsvdc.Invariant.Careful.{IsModest-IsCareful}
use libdsvdc.Memory.{free}
use libdsvdc.Samples.{
  running-IsSound, asking, asking-IsModest, asking-UnpacksFormed, world-IsModest, running, world,
  instance_handle,
}
use libdsvdc.Send.{htons}
use libdsvdc.Sock.{ReadEvent, chunk, room}
use libdsvdc.Sock.Read.{stream}
use libdsvdc.Work.{Poll, read_message, reject, work}
use libdsvdc.Work.Keeping.{work-Done}
use libdsvdc.Work.Reading.{Done}
use libdsvdc.Work.Rejection.{Rejected, reject-Rejected}
use libdsvdc.Work.Delivery.{processing, read_message-Delivers}
use libdsvdc.Work.Refusal.{Dropped, read_message-Refuses}

abbrev poll : Poll
poll = record {
  selected = some (false, true);
  accepted = none;
  reads = [];
  writes = room 2 ∷ room 3 ∷ [];
  stack = instance_handle;
  setup = record { tolower = λ b. b; attr_init = true; attr_settype = true; mutex_init = true };
}

-- A framed message of three bytes in two segments, with one byte behind it.
abbrev receiving : State
receiving = record running {
  locks = 1;
  reads = chunk 0 (3 ∷ 10 ∷ []) ∷ ReadEvent.interrupted ∷ chunk 20 (30 ∷ 99 ∷ []) ∷ [];
}

read_message-Delivers_example :
    (rest : List ReadEvent) × (read_message world poll 5 receiving
      ≡ (process_message world (10 ∷ 20 ∷ 30 ∷ []) >> heap free) (processing receiving rest))
    × (stream rest ≡ 99 ∷ [])
unfolding htons
read_message-Delivers_example =
    read_message-Delivers world poll 5 (10 ∷ 20 ∷ 30 ∷ []) (99 ∷ []) receiving (omega arith)
      (omega arith) tt refl refl

-- A length of 65281 bytes.
abbrev flooded : State
flooded = record running { locks = 1; reads = chunk 255 (1 ∷ 7 ∷ []) ∷ [] }

read_message-Refuses_example : Ends (λ _ t. Dropped flooded t) (read_message world poll 5 flooded)
read_message-Refuses_example =
    read_message-Refuses world world-IsModest poll 5 255 1 (7 ∷ []) flooded tt refl (omega arith)

reject-Rejected_example :
    Ends (λ _ t. Rejected world poll.writes running 12 t) (reject world poll 5 12 running)
reject-Rejected_example = reject-Rejected world poll 5 12 running refl refl refl

-- A second connection comes in together with a property request.
abbrev busy : Poll
busy = record poll { selected = some (true, true); accepted = some 12 }

abbrev asked : State
asked = record running { reads = chunk 0 (3 ∷ 10 ∷ 20 ∷ 30 ∷ []) ∷ [] }

work-Done_example : Ends (λ _ t. Done asked.locks t) (work asking busy 5 true asked)
work-Done_example =
    work-Done asking (IsModest-IsCareful asking-IsModest) asking-UnpacksFormed busy 5
      (λ e. omega arith) asked
      (record { attr_init = refl; attr_settype = refl; mutex_init = refl; accepted = refl })
      running-IsSound
