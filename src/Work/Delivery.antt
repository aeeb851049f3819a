-- ===== src/Work/Delivery.antt =====
-- Which bytes of the stream `dsvdc_work` hands to `dsvdc_process_message`.
use libdsvdc.Base.{
  ℕ, ◌+◌, ◌-◌, ◌<◌, ◌≤◌, ◌≡◌, refl, true, false, List, ◌++◌, Bytes, length, arith, ◌==◌, ltb,
  ==_refl,
}
use libdsvdc.Dispatch.{process_message}
use libdsvdc.Effects.{◌>>◌, heap}
use libdsvdc.Handle.{State, Env}
use libdsvdc.Memory.{malloc, free}
use libdsvdc.Send.{htons}
use libdsvdc.Send.Frame.{ntohs, htons-announced}
use libdsvdc.Send.Receive.{framed, framed-Read}
use libdsvdc.Sock.{ReadEvent, returned, socket_ok, sockread}
use libdsvdc.Sock.Read.{IsReady, stream}
use libdsvdc.Work.{max_data_size, read_message, Poll}

-- The state in which a message is processed: the mutex is free again, the buffer is allocated,
-- and `rest` is still to be received.
abbrev pub processing : State → List ReadEvent → State
processing s rest = record s {
  reads = rest;
  locks = s.locks - 1;
  mem = record s.mem { calls = s.mem.calls + 1; allocs = s.mem.allocs + 1 };
}

length-htons : (n : ℕ) → (length (htons n) == 2) ≡ true
unfolding htons
length-htons n = refl

module _ (env : Env) (poll : Poll) (timeout : ℕ) where
  -- Where a framed message of 1 to 16384 bytes stands at the front of the connection's stream and
  -- arrives with neither an error nor a delay, and its buffer is granted, the reading part of
  -- `dsvdc_work` is the processing of exactly the packed message, after the mutex was given back,
  -- and then the freeing of the buffer; what comes behind the message is left in the stream.
  pub read_message-Delivers :
      (packed more : Bytes) (s : State)
      → 0 < length packed
      → length packed ≤ max_data_size
      → IsReady s.reads
      → stream s.reads ≡ framed packed ++ more
      → s.mem.grants s.mem.calls ≡ true
      → (rest : List ReadEvent) × (read_message env poll timeout s
          ≡ (process_message env packed >> heap free) (processing s rest))
        × (stream rest ≡ more)
  unfolding read_message malloc
  read_message-Delivers packed more s p small ready front granted =
      found (framed-Read packed more timeout s.reads p (omega arith) ready front)
    where
      found :
          (middle rest : List ReadEvent) × (sockread 2 timeout s.reads
              ≡ returned socket_ok (htons (length packed)) middle)
            × (sockread (ntohs (htons (length packed))) timeout middle
                ≡ returned socket_ok packed rest)
            × (stream rest ≡ more)
          → (rest : List ReadEvent) × (read_message env poll timeout s
              ≡ (process_message env packed >> heap free) (processing s rest))
            × (stream rest ≡ more)
      found (middle, rest, first, second, tail) =
          let size : ntohs (htons (length packed)) ≡ length packed =
            (htons-announced (length packed)).1.1 (omega arith) in
          let small' : ltb max_data_size (length packed) ≡ false = ground arith in
          let filled : (length packed == 0) ≡ false = ground arith in
          let two : (length (htons (length packed)) == 2) ≡ true = length-htons (length packed) in
          let second' : sockread (length packed) timeout middle ≡ returned socket_ok packed rest =
            rw (← size) second in
          (
            rest,
            simp (first, two, size, small', filled, granted, second', ==_refl (length packed)) refl,
            tail,
          )
