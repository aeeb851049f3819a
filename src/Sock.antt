-- ===== src/Sock.antt =====
-- src/sockutil.c: `sockread` and `sockwrite`, with the operating system as a script of events.
-- A script that has ended means that nothing more happens: a `select` with a timeout then returns
-- 0, and a `select` with none waits for ever.
pub mod Read
pub mod Returns
pub mod Write
mod Examples
use libdsvdc.Base.{
  ℕ, zero, ◌-◌, Bool, true, false, not, List, [], ◌∷◌, ◌++◌, Bytes, ◌==◌, if◌then◌else◌, length,
  take, drop, min,
}

-- `enum socket_ops`
pub data SocketStatus : Type 0 where
  socket_ok socket_operation_timed_out socket_select_failed socket_recv_failed : SocketStatus
  socket_send_failed socket_error socket_closed : SocketStatus

-- What the kernel does on the receiving side.
pub data ReadEvent : Type 0 where
  -- `select` returns -1, with EINTR or another errno
  interrupted select_fails : ReadEvent
  -- nothing is readable at the moment, but within the timeout
  gap : ReadEvent
  -- nothing is readable for longer than the timeout
  pause : ReadEvent
  -- readable, and `recv` returns -1, or 0
  recv_fails hang_up : ReadEvent
  -- readable, with these bytes in the buffer
  chunk : ℕ → Bytes → ReadEvent

-- The status with the bytes put into the caller's buffer (their number is `*out_bytes_read`) and
-- what is left of the script, or no return at all.
pub data ReadResult : Type 0 where
  returned : SocketStatus → Bytes → List ReadEvent → ReadResult
  blocked : ReadResult

-- What `recv` leaves in the socket's buffer.
abbrev pub put_back : Bytes → List ReadEvent → List ReadEvent
put_back [] es = es
put_back (b ∷ bs) es = chunk b bs ∷ es

-- `select` returned 0
abbrev on_timeout : Bool → SocketStatus
on_timeout true = socket_ok
on_timeout false = socket_operation_timed_out

-- One turn of the loop for each event. `len` is what is still wanted, `got` what has been read.
-- With `timeout` 0 `select` has no timeout, so a delay only passes.
pub read_loop : ℕ → Bool → ℕ → Bytes → List ReadEvent → ReadResult
read_loop timeout eod len got [] =
    if timeout == 0 then blocked else returned (on_timeout eod) got []
read_loop timeout eod len got (interrupted ∷ es) = read_loop timeout eod len got es
read_loop timeout eod len got (select_fails ∷ es) = returned socket_select_failed got es
read_loop timeout eod len got (gap ∷ es) =
    let rest = read_loop timeout eod len got es in
    if not (timeout == 0) then if eod then returned socket_ok got es else rest else rest
read_loop timeout eod len got (pause ∷ es) =
    let rest = read_loop timeout eod len got es in
    if timeout == 0 then rest else returned (on_timeout eod) got es
read_loop timeout eod len got (recv_fails ∷ es) = returned socket_recv_failed got es
read_loop timeout eod len got (hang_up ∷ es) = returned socket_closed got es
read_loop timeout eod len got (chunk b bs ∷ es) =
    let part = take len (b ∷ bs) in
    let eod' = if timeout == 0 then eod else true in
    let rest = read_loop timeout eod' (len - length part) (got ++ part) es in
    if len == 0
    then returned socket_closed got (chunk b bs ∷ es)
    else if len - length part == 0
    then returned socket_ok (got ++ part) (put_back (drop len (b ∷ bs)) es)
    else rest

pub sockread : ℕ → ℕ → List ReadEvent → ReadResult
unfolding read_loop
sockread len timeout es = read_loop timeout false len [] es

-- What the kernel does on the sending side. The timeout of `sockwrite` is a bound in any case.
pub data WriteEvent : Type 0 where
  interrupted select_fails : WriteEvent
  -- not writable for longer than the timeout
  pause : WriteEvent
  send_fails : WriteEvent
  -- writable, and `send` takes up to so many bytes
  room : ℕ → WriteEvent

-- The returned value: a number of bytes or a negative status.
pub data WriteResult : Type 0 where
  count : ℕ → WriteResult
  failed : SocketStatus → WriteResult

pub record Written : Type 0 where
  pub result : WriteResult
  -- what went into the socket
  pub wire : Bytes
  pub rest : List WriteEvent

-- `left` is what is still to be sent, `done` what has been.
pub write_loop : Bytes → Bytes → List WriteEvent → Written
write_loop done left [] = record {
  result = failed socket_operation_timed_out;
  wire = done;
  rest = [];
}
write_loop done left (interrupted ∷ es) = write_loop done left es
write_loop done left (select_fails ∷ es) = record {
  result = failed socket_select_failed;
  wire = done;
  rest = es;
}
write_loop done left (pause ∷ es) = record {
  result = failed socket_operation_timed_out;
  wire = done;
  rest = es;
}
write_loop done left (send_fails ∷ es) = record {
  result = failed socket_send_failed;
  wire = done;
  rest = es;
}
write_loop done left (room k ∷ es) =
    let sent = done ++ take k left in
    let more = write_loop sent (drop k left) es in
    if min k (length left) == 0
    then record { result = count (length done); wire = done; rest = es }
    else if length (drop k left) == 0
    then record { result = count (length sent); wire = sent; rest = es }
    else more

unfoldable pub sockwrite : Bytes → List WriteEvent → Written
unfolding write_loop
sockwrite bytes es = write_loop [] bytes es
