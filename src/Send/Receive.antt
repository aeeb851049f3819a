-- ===== src/Send/Receive.antt =====
-- A sent message comes out of the stream at the other end.
use libdsvdc.Base.{
  ℕ, ◌<◌, ◌≤◌, ◌≡◌, ap, ◌∙◌, List, [], ◌∷◌, ◌++◌, Bytes, length, take, drop, arith, append_assoc,
  length-append, take-append,
}
use mathlib.Core.Path.{subst}
use libdsvdc.Send.{htons}
use libdsvdc.Send.Frame.{ntohs, htons-announced}
use libdsvdc.Sock.{ReadEvent, returned, socket_ok, sockread, ReadResult}
use libdsvdc.Sock.Read.{IsReady, stream, sockread-full, sockread-stream, Returning}

-- The bytes of a sent message: the header and the packed message.
abbrev pub framed : Bytes → Bytes
framed packed = htons (length packed) ++ packed

append_cancel : (xs ys zs : Bytes) → xs ++ ys ≡ xs ++ zs → ys ≡ zs
append_cancel [] ys zs e = e
append_cancel (x ∷ xs) ys zs e = append_cancel xs ys zs (ap (drop 1) e)

-- One read from a ready script: the first bytes, and a ready script of the others.
read_front :
    (front more : Bytes) (timeout : ℕ) (es : List ReadEvent)
    → 0 < length front
    → IsReady es
    → stream es ≡ front ++ more
    → (rest : List ReadEvent) × (sockread (length front) timeout es ≡ returned socket_ok front rest)
      × IsReady rest
      × (stream rest ≡ more)
read_front front more timeout es p h e = found (
    sockread-full (length front) timeout es p h
      (omega (arith, ap length e, length-append front more)))
  where
    found :
        (rest : List ReadEvent) × (sockread (length front) timeout es
            ≡ returned socket_ok (take (length front) (stream es)) rest)
          × IsReady rest
        → (rest : List ReadEvent) × (sockread (length front) timeout es
            ≡ returned socket_ok front rest)
          × IsReady rest
          × (stream rest ≡ more)
    found (rest, r, ready) =
        let same : take (length front) (stream es) ≡ front =
          ap (take (length front)) e ∙ take-append front more in
        let r' : sockread (length front) timeout es ≡ returned socket_ok front rest =
          r ∙ ap (λ (xs : Bytes). returned socket_ok xs rest) same in
        (
          rest,
          r',
          ready,
          append_cancel front _ more (
              (subst
                (λ (r : ReadResult).
                  Returning r
                    λ s bs rest. (bs ++ stream rest ≡ stream es) × (length bs ≤ length front))
                r' (sockread-stream (length front) timeout es)).0
              ∙ e),
        )

-- Where a framed message of 1 to 65535 bytes arrives with neither an error nor a delay, a
-- receiver that reads two bytes, and then as many as they announce, gets the message, and what
-- comes behind it is left in the stream, however all of it was cut into segments.
pub framed-Read :
    (packed more : Bytes) (timeout : ℕ) (es : List ReadEvent)
    → 0 < length packed
    → length packed < 65536
    → IsReady es
    → stream es ≡ framed packed ++ more
    → (middle rest : List ReadEvent) × (sockread 2 timeout es
        ≡ returned socket_ok (htons (length packed)) middle)
      × (sockread (ntohs (htons (length packed))) timeout middle ≡ returned socket_ok packed rest)
      × (stream rest ≡ more)
unfolding htons
framed-Read packed more timeout es p b h e = second (
    read_front (htons (length packed)) (packed ++ more) timeout es (omega arith) h
      (e ∙ append_assoc (htons (length packed)) packed more))
  where
    second :
        (middle : List ReadEvent) × (sockread (length (htons (length packed))) timeout es
            ≡ returned socket_ok (htons (length packed)) middle)
          × IsReady middle
          × (stream middle ≡ packed ++ more)
        → (middle rest : List ReadEvent) × (sockread 2 timeout es
            ≡ returned socket_ok (htons (length packed)) middle)
          × (sockread (ntohs (htons (length packed))) timeout middle
              ≡ returned socket_ok packed rest)
          × (stream rest ≡ more)
    second (middle, r, ready, e') = third (read_front packed more timeout middle p ready e')
      where
        third :
            (rest : List ReadEvent) × (sockread (length packed) timeout middle
                ≡ returned socket_ok packed rest)
              × IsReady rest
              × (stream rest ≡ more)
            → (middle rest : List ReadEvent) × (sockread 2 timeout es
                ≡ returned socket_ok (htons (length packed)) middle)
              × (sockread (ntohs (htons (length packed))) timeout middle
                  ≡ returned socket_ok packed rest)
              × (stream rest ≡ more)
        third (rest, r', _, e'') =
            (middle, rest, r, rw ((htons-announced (length packed)).1.1 b) r', e'')
