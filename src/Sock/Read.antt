-- ===== src/Sock/Read.antt =====
-- What a caller of `sockread` can rely on.
use libdsvdc.Base.{
  ℕ, ◌+◌, ◌-◌, ◌≤◌, ◌<◌, ◌≡◌, refl, sym, ap, ◌∙◌, ◌≢◌, ◌⊎◌, inl, inr, Bool, true, false, List, [],
  ◌∷◌, ◌++◌, Bytes, ◌==◌, if◌then◌else◌, length, take, drop, arith, Bool-cases, append_assoc,
  length-append, length-take, take-append-drop, take-append_le, take-append_ge, take_all,
}
use native.Mathlib.Nat.{zero-add}
use libdsvdc.Sock.{
  SocketStatus, socket_ok, ReadEvent, gap, recv_fails, hang_up, chunk, ReadResult, returned,
  blocked, put_back, read_loop, sockread,
}

-- The bytes that the peer sends in the course of a script.
abbrev pub stream : List ReadEvent → Bytes
stream [] = []
stream (chunk b bs ∷ es) = (b ∷ bs) ++ stream es
stream (_ ∷ es) = stream es

-- A predicate on what a call returns, if it does.
abbrev pub Returning : ReadResult → (SocketStatus → Bytes → List ReadEvent → Type 0) → Type 0
Returning (returned s bs es) P = P s bs es
Returning blocked P = Unit {0}

stream-put_back : (bs : Bytes) (es : List ReadEvent) → stream (put_back bs es) ≡ bs ++ stream es
stream-put_back [] es = refl
stream-put_back (b ∷ bs) es = refl

-- The loop's invariant.
abbrev Reads : Bytes → ℕ → List ReadEvent → ReadResult → Type 0
Reads got len es r =
    Returning r λ s bs rest. (bs ++ stream rest ≡ got ++ stream es) × (length bs ≤ length got + len)

-- What was read and what was left over, put together.
rejoin :
    (got : Bytes) (len : ℕ) (bs rest : Bytes)
    → (got ++ take len bs) ++ (drop len bs ++ rest) ≡ got ++ (bs ++ rest)
rejoin got len bs rest = simp append_assoc (
    ap (◌++◌ got) (
      sym (append_assoc (take len bs) (drop len bs) rest)
      ∙ ap (λ (xs : Bytes). xs ++ rest) (take-append-drop len bs)))

-- The bytes in hand are within the bound after a `recv`.
length-recv : (got : Bytes) (len : ℕ) (bs : Bytes) → length (got ++ take len bs) ≤ length got + len
length-recv got len bs = omega (arith, length-append got (take len bs), length-take len bs)

-- A turn that took all that `recv` offered, followed by the rest of the loop.
Reads-chunk :
    (got : Bytes) (len b : ℕ) (bs : Bytes) (es : List ReadEvent) (r : ReadResult)
    → (len - length (take len (b ∷ bs)) == 0) ≡ false
    → Reads (got ++ take len (b ∷ bs)) (len - length (take len (b ∷ bs))) es r
    → Reads got len (chunk b bs ∷ es) r
Reads-chunk got len b bs es blocked more h = tt
Reads-chunk got len b bs es (returned s xs rest) more (h, k) = (
  rw h (
      append_assoc got (take len (b ∷ bs)) (stream es)
      ∙ ap (λ (ys : Bytes). got ++ (ys ++ stream es)) (take_all len (b ∷ bs) short)),
  omega (arith, length-append got (take len (b ∷ bs)), length-take len (b ∷ bs)),
)
  where
    short : length (b ∷ bs) ≤ len
    short = ground (arith, length-take len (b ∷ bs))

read_loop-Reads :
    (timeout : ℕ) (eod : Bool) (len : ℕ) (got : Bytes) (es : List ReadEvent)
    → Reads got len es (read_loop timeout eod len got es)
unfolding read_loop
read_loop-Reads timeout eod len got [] = ground arith
read_loop-Reads timeout eod len got (ReadEvent.interrupted ∷ es) =
    read_loop-Reads timeout eod len got es
read_loop-Reads timeout eod len got (ReadEvent.select_fails ∷ es) = (refl, omega arith)
read_loop-Reads timeout eod len got (gap ∷ es) =
    ground (arith, read_loop-Reads timeout eod len got es)
read_loop-Reads timeout eod len got (ReadEvent.pause ∷ es) =
    ground (arith, read_loop-Reads timeout eod len got es)
read_loop-Reads timeout eod len got (recv_fails ∷ es) = (refl, omega arith)
read_loop-Reads timeout eod len got (hang_up ∷ es) = (refl, omega arith)
read_loop-Reads timeout eod len got (chunk b bs ∷ es) = elim (Bool-cases (len == 0)) [
  | inl none_wanted ↦ rw none_wanted (refl, omega arith)
  | inr wanted ↦ rw wanted (elim (Bool-cases (len - length (take len (b ∷ bs)) == 0)) [
    | inl done ↦ rw done (
      ap (◌++◌ (got ++ take len (b ∷ bs))) (stream-put_back (drop len (b ∷ bs)) es)
          ∙ rejoin got len (b ∷ bs) (stream es),
      length-recv got len (b ∷ bs),
    )
    | inr more ↦ rw more (
        Reads-chunk got len b bs es _ more (
          read_loop-Reads timeout (if timeout == 0 then eod else true)
            (len - length (take len (b ∷ bs))) (got ++ take len (b ∷ bs)) es))
  ])
]

-- However `sockread` returns, on an error or a timeout too, the bytes in the caller's buffer
-- followed by those that the peer's later reads will get are the peer's stream: nothing is lost,
-- doubled or moved. And the buffer of `len` bytes is never overrun.
pub sockread-stream :
    (len timeout : ℕ) (es : List ReadEvent)
    → Returning
        (sockread len timeout es)
        λ s bs rest. (bs ++ stream rest ≡ stream es) × (length bs ≤ len)
unfolding sockread
sockread-stream len timeout es = simp zero-add at (read_loop-Reads timeout false len [] es)

-- Success means the full count, or, where there is a timeout, at least one byte.
abbrev pub Filled : ℕ → ℕ → ReadResult → Type 0
Filled timeout n r =
    Returning r λ s bs rest. s ≡ socket_ok → (length bs ≡ n) ⊎ ((timeout ≢ 0) × (0 < length bs))

-- The flag `eod` is set only where there is a timeout, by a `recv` that got bytes.
abbrev Flagged : ℕ → Bool → Bytes → Type 0
Flagged timeout eod got = (eod ≡ false) ⊎ ((timeout ≢ 0) × (0 < length got))

read_loop-Filled :
    (timeout : ℕ) (eod : Bool) (len : ℕ) (got : Bytes) (n : ℕ) (es : List ReadEvent)
    → length got + len ≡ n
    → Flagged timeout eod got
    → Filled timeout n (read_loop timeout eod len got es)
unfolding read_loop
read_loop-Filled timeout eod len got n [] e f = ground arith
read_loop-Filled timeout eod len got n (ReadEvent.interrupted ∷ es) e f =
    read_loop-Filled timeout eod len got n es e f
read_loop-Filled timeout eod len got n (ReadEvent.select_fails ∷ es) e f = λ q. cc
read_loop-Filled timeout eod len got n (gap ∷ es) e f =
    ground (arith, read_loop-Filled timeout eod len got n es)
read_loop-Filled timeout eod len got n (ReadEvent.pause ∷ es) e f =
    ground (arith, read_loop-Filled timeout eod len got n es)
read_loop-Filled timeout eod len got n (recv_fails ∷ es) e f = λ q. cc
read_loop-Filled timeout eod len got n (hang_up ∷ es) e f = λ q. cc
read_loop-Filled timeout eod len got n (chunk b bs ∷ es) e f = elim (Bool-cases (len == 0)) [
  | inl none_wanted ↦ rw none_wanted (λ q. cc)
  | inr wanted ↦ rw wanted (elim (Bool-cases (len - length (take len (b ∷ bs)) == 0)) [
    | inl done ↦ rw done (λ q. inl (ground (arith, recv_count, length-take len (b ∷ bs))))
    | inr more ↦ rw more (
        read_loop-Filled timeout (if timeout == 0 then eod else true)
          (len - length (take len (b ∷ bs))) (got ++ take len (b ∷ bs)) n es
          (omega (arith, recv_count, length-take len (b ∷ bs)))
          (ground (arith, recv_count, length-take len (b ∷ bs))))
  ])
]
  where
    recv_count : length (got ++ take len (b ∷ bs)) ≡ length got + length (take len (b ∷ bs))
    recv_count = length-append got (take len (b ∷ bs))

-- When `sockread` succeeds it has read all `len` bytes; with a timeout it may have stopped short,
-- but then it has read at least one byte.
pub sockread-Filled :
    (len timeout : ℕ) (es : List ReadEvent) → Filled timeout len (sockread len timeout es)
unfolding sockread
sockread-Filled len timeout es =
    read_loop-Filled timeout false len [] len es (omega arith) (inl refl)

-- A stop is what ends a wait before the buffer is full.
abbrev pub IsReady : List ReadEvent → Type 0
IsReady [] = Unit {0}
IsReady (chunk b bs ∷ es) = IsReady es
IsReady (ReadEvent.interrupted ∷ es) = IsReady es
IsReady (_ ∷ es) = ⊥

put_back-IsReady : (bs : Bytes) (es : List ReadEvent) → IsReady es → IsReady (put_back bs es)
put_back-IsReady [] es h = h
put_back-IsReady (b ∷ bs) es h = h

full_step :
    (got : Bytes) (len b : ℕ) (bs tail : Bytes) (r : ReadResult)
    → (len - length (take len (b ∷ bs)) == 0) ≡ false
    → (rest : List ReadEvent) × (r
        ≡ returned socket_ok
            ((got ++ take len (b ∷ bs)) ++ take (len - length (take len (b ∷ bs))) tail)
            rest)
      × IsReady rest
    → (rest : List ReadEvent) × (r ≡ returned socket_ok (got ++ take len (b ∷ bs ++ tail)) rest)
      × IsReady rest
full_step got len b bs tail r more (rest, e, h) =
    (rest, e ∙ ap (λ (xs : Bytes). returned socket_ok xs rest) joined, h)
  where
    short : length (b ∷ bs) ≤ len
    short = ground (arith, length-take len (b ∷ bs))

    joined :
        (got ++ take len (b ∷ bs)) ++ take (len - length (take len (b ∷ bs))) tail
        ≡ got ++ take len (b ∷ bs ++ tail)
    joined =
        rw (take_all len (b ∷ bs) short, take-append_ge len (b ∷ bs) tail short)
          (append_assoc got (b ∷ bs) _)

read_loop-full :
    (timeout : ℕ) (eod : Bool) (len : ℕ) (got : Bytes) (es : List ReadEvent)
    → 0 < len
    → IsReady es
    → len ≤ length (stream es)
    → (rest : List ReadEvent) × (read_loop timeout eod len got es
        ≡ returned socket_ok (got ++ take len (stream es)) rest)
      × IsReady rest
unfolding read_loop
read_loop-full timeout eod len got [] p h k = absurd (omega arith)
read_loop-full timeout eod len got (ReadEvent.interrupted ∷ es) p h k =
    read_loop-full timeout eod len got es p h k
read_loop-full timeout eod len got (ReadEvent.select_fails ∷ es) p h k = absurd h
read_loop-full timeout eod len got (gap ∷ es) p h k = absurd h
read_loop-full timeout eod len got (ReadEvent.pause ∷ es) p h k = absurd h
read_loop-full timeout eod len got (recv_fails ∷ es) p h k = absurd h
read_loop-full timeout eod len got (hang_up ∷ es) p h k = absurd h
read_loop-full timeout eod len got (chunk b bs ∷ es) p h k =
    let wanted : (len == 0) ≡ false = ground arith in
    rw wanted (elim (Bool-cases (len - length (take len (b ∷ bs)) == 0)) [
      | inl done ↦ rw done (
        put_back (drop len (b ∷ bs)) es,
        rw (take-append_le len (b ∷ bs) (stream es) (ground (arith, length-take len (b ∷ bs)))),
        put_back-IsReady (drop len (b ∷ bs)) es h,
      )
      | inr more ↦ rw more (
          full_step got len b bs (stream es) _ more (
            read_loop-full timeout (if timeout == 0 then eod else true)
              (len - length (take len (b ∷ bs))) (got ++ take len (b ∷ bs)) es (ground arith) h
              (omega (arith, length-append (b ∷ bs) (stream es), length-take len (b ∷ bs)))))
    ])

-- When enough bytes come with neither an error nor a delay, `sockread` succeeds with exactly the
-- first `len` bytes of the stream, however they are cut into segments and interrupted, and what
-- is left comes in the same way.
pub sockread-full :
    (len timeout : ℕ) (es : List ReadEvent)
    → 0 < len
    → IsReady es
    → len ≤ length (stream es)
    → (rest : List ReadEvent) × (sockread len timeout es
        ≡ returned socket_ok (take len (stream es)) rest)
      × IsReady rest
unfolding sockread
sockread-full len timeout es p h k = read_loop-full timeout false len [] es p h k

-- With a timeout, where a first segment shorter than `len` is followed by a delay, `sockread`
-- waits no longer, even if the rest would come within the timeout, and returns success with that
-- segment alone.
pub sockread-gap :
    (len timeout b : ℕ) (bs : Bytes) (es : List ReadEvent)
    → timeout ≢ 0
    → length (b ∷ bs) < len
    → sockread len timeout (chunk b bs ∷ gap ∷ es) ≡ returned socket_ok (b ∷ bs) es
unfolding sockread read_loop
sockread-gap len timeout b bs es t h =
    ground (arith, length-take len (b ∷ bs), take_all len (b ∷ bs) (omega arith))
