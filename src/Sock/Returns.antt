-- ===== src/Sock/Returns.antt =====
-- `sockread` with a timeout: it does not wait for ever.
use libdsvdc.Base.{
  ℕ, ◌-◌, ◌≡◌, ◌≢◌, Bool, true, false, inl, inr, Bool-cases, List, [], ◌∷◌, ◌++◌, Bytes, ◌==◌,
  if◌then◌else◌, length, take, arith,
}
use libdsvdc.Sock.{
  SocketStatus, ReadEvent, ReadResult, returned, interrupted, select_fails, gap, pause, recv_fails,
  hang_up, chunk, read_loop, sockread,
}

-- The call comes back.
pub data Returns : ReadResult → Type 0 where
  returns : {s : SocketStatus} {bs : Bytes} {es : List ReadEvent} → Returns (returned s bs es)

Returns-if : (b : Bool) {r q : ReadResult} → Returns r → Returns q → Returns (if b then r else q)
Returns-if b y n = elim (Bool-cases b) [ inl e ↦ rw e y | inr e ↦ rw e n ]

read_loop-Returns :
    (timeout : ℕ) (eod : Bool) (len : ℕ) (got : Bytes) (es : List ReadEvent)
    → timeout ≢ 0
    → Returns (read_loop timeout eod len got es)
unfolding read_loop
read_loop-Returns timeout eod len got [] h = simp (timed) returns
  where
    timed : (timeout == 0) ≡ false
    timed = ground arith
read_loop-Returns timeout eod len got (interrupted ∷ es) h =
    read_loop-Returns timeout eod len got es h
read_loop-Returns timeout eod len got (select_fails ∷ es) h = returns
read_loop-Returns timeout eod len got (gap ∷ es) h =
    Returns-if _ (Returns-if _ returns (read_loop-Returns timeout eod len got es h))
      (read_loop-Returns timeout eod len got es h)
read_loop-Returns timeout eod len got (pause ∷ es) h =
    Returns-if _ (read_loop-Returns timeout eod len got es h) returns
read_loop-Returns timeout eod len got (recv_fails ∷ es) h = returns
read_loop-Returns timeout eod len got (hang_up ∷ es) h = returns
read_loop-Returns timeout eod len got (chunk b bs ∷ es) h = Returns-if (len == 0) returns (
    Returns-if (len - length (take len (b ∷ bs)) == 0) returns (
      read_loop-Returns timeout (if timeout == 0 then eod else true)
        (len - length (take len (b ∷ bs))) (got ++ take len (b ∷ bs)) es h))

-- With a timeout that is not 0, `sockread` returns, whatever the peer sends or does not send.
pub sockread-Returns :
    (len timeout : ℕ) (es : List ReadEvent) → timeout ≢ 0 → Returns (sockread len timeout es)
unfolding sockread
sockread-Returns len timeout es h = read_loop-Returns timeout false len [] es h
