-- ===== src/Sock/Examples.antt =====
-- Runs of sockutil.c, and its theorems at concrete scripts.
use libdsvdc.Base.{◌≡◌, refl, ◌≤◌, ℕ, List, [], ◌∷◌, ◌++◌, Bytes, arith, length}
use libdsvdc.Sock.{
  socket_ok, ReadEvent, gap, chunk, returned, WriteEvent, room, count, read_loop, sockread,
  sockwrite,
}
use libdsvdc.Sock.Read.{Returning, stream, sockread-stream, sockread-full, sockread-gap, IsReady}
use libdsvdc.Sock.Write.{sockwrite-prefix, sockwrite-all}

-- Five bytes in two segments, with a signal between them; three are wanted.
abbrev arriving : List ReadEvent
arriving = chunk 10 (20 ∷ []) ∷ ReadEvent.interrupted ∷ chunk 30 (40 ∷ 50 ∷ []) ∷ []

sockread_run :
    sockread 3 5 arriving ≡ returned socket_ok (10 ∷ 20 ∷ 30 ∷ []) (chunk 40 (50 ∷ []) ∷ [])
unfolding sockread read_loop
sockread_run = refl

sockread-stream_example :
    Returning
      (sockread 3 5 arriving)
      λ s bs rest. (bs ++ stream rest ≡ stream arriving) × (length bs ≤ 3)
sockread-stream_example = sockread-stream 3 5 arriving

sockread-full_example :
    (rest : List ReadEvent) × (sockread 3 5 arriving ≡ returned socket_ok (10 ∷ 20 ∷ 30 ∷ []) rest)
    × IsReady rest
sockread-full_example = sockread-full 3 5 arriving (omega arith) tt (omega arith)

sockread-gap_example :
    sockread 3 5 (chunk 10 (20 ∷ []) ∷ gap ∷ chunk 30 [] ∷ [])
    ≡ returned socket_ok (10 ∷ 20 ∷ []) (chunk 30 [] ∷ [])
sockread-gap_example = sockread-gap 3 5 10 (20 ∷ []) (chunk 30 [] ∷ []) (omega arith) (omega arith)

abbrev message : Bytes
message = 1 ∷ 2 ∷ 3 ∷ []

abbrev draining : List WriteEvent
draining = room 2 ∷ WriteEvent.interrupted ∷ room 5 ∷ []

sockwrite_run : sockwrite message draining ≡ record { result = count 3; wire = message; rest = [] }
unfolding sockwrite
sockwrite_run = refl

sockwrite-prefix_example :
    (tail : Bytes) × ((sockwrite message draining).wire ++ tail ≡ message)
    × ((n : ℕ)
        → (sockwrite message draining).result ≡ count n
        → n ≡ length (sockwrite message draining).wire)
sockwrite-prefix_example = sockwrite-prefix message draining

sockwrite-all_example :
    ((sockwrite message draining).result ≡ count 3) × ((sockwrite message draining).wire ≡ message)
sockwrite-all_example = sockwrite-all message draining (omega arith) (omega arith) (omega arith)
