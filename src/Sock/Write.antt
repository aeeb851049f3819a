-- ===== src/Sock/Write.antt =====
-- What a caller of `sockwrite` can rely on.
use libdsvdc.Base.{
  ℕ, ◌+◌, ◌≤◌, ◌<◌, ◌≡◌, refl, sym, ap, ◌∙◌, List, [], ◌∷◌, ◌++◌, Bytes, ◌==◌, length, take, drop,
  min, arith, Bool-cases, append-nil, append_assoc, inl, inr, length-append, length-take,
  length-drop, take-append-drop, take_all, true, false,
}
use native.Mathlib.Nat.{zero-add}
use libdsvdc.Sock.{WriteEvent, pause, send_fails, room, count, Written, write_loop, sockwrite}

-- What goes into the socket is `done` and a first part of `left`; a returned count is the length
-- of both together.
abbrev Sends : Bytes → Bytes → Written → Type 0
Sends done left w =
    (tail : Bytes) × (w.wire ++ tail ≡ done ++ left)
    × ((n : ℕ) → w.result ≡ count n → n ≡ length w.wire)

write_loop-Sends :
    (done left : Bytes) (es : List WriteEvent) → Sends done left (write_loop done left es)
unfolding write_loop
write_loop-Sends done left [] = (left, refl, λ n e. cc)
write_loop-Sends done left (WriteEvent.interrupted ∷ es) = write_loop-Sends done left es
write_loop-Sends done left (WriteEvent.select_fails ∷ es) = (left, refl, λ n e. cc)
write_loop-Sends done left (pause ∷ es) = (left, refl, λ n e. cc)
write_loop-Sends done left (send_fails ∷ es) = (left, refl, λ n e. cc)
write_loop-Sends done left (room k ∷ es) = elim (Bool-cases (min k (length left) == 0)) [
  | inl stuck ↦ rw stuck (left, refl, λ n e. cc)
  | inr sends ↦ rw sends (elim (Bool-cases (length (drop k left) == 0)) [
    | inl all ↦ rw all (drop k left, joined, λ n e. cc)
    | inr more ↦ rw more (
        resume (write_loop (done ++ take k left) (drop k left) es)
          (write_loop-Sends (done ++ take k left) (drop k left) es))
  ])
]
  where
    joined : (done ++ take k left) ++ drop k left ≡ done ++ left
    joined = simp append_assoc (ap (◌++◌ done) (take-append-drop k left))

    resume : (w : Written) → Sends (done ++ take k left) (drop k left) w → Sends done left w
    resume w (tail, e, c) = (tail, e ∙ joined, c)

-- Whatever the socket does, what it got is the beginning of the buffer, in order and once; a
-- count that `sockwrite` returns is the number of bytes that the socket got.
pub sockwrite-prefix :
    (bytes : Bytes) (es : List WriteEvent)
    → (tail : Bytes) × ((sockwrite bytes es).wire ++ tail ≡ bytes)
      × ((n : ℕ) → (sockwrite bytes es).result ≡ count n → n ≡ length (sockwrite bytes es).wire)
unfolding sockwrite
sockwrite-prefix bytes es = write_loop-Sends [] bytes es

-- So a count equal to the buffer's length means that the whole buffer was sent.
pub sockwrite-whole :
    (bytes : Bytes) (es : List WriteEvent)
    → (sockwrite bytes es).result ≡ count (length bytes)
    → (sockwrite bytes es).wire ≡ bytes
sockwrite-whole bytes es h = whole (sockwrite-prefix bytes es)
  where
    nil_of_length : (xs : Bytes) → length xs ≡ 0 → xs ≡ []
    nil_of_length [] e = refl
    nil_of_length (x ∷ xs) e = absurd (omega arith)

    whole :
        (tail : Bytes) × ((sockwrite bytes es).wire ++ tail ≡ bytes)
          × ((n : ℕ) → (sockwrite bytes es).result ≡ count n → n ≡ length (sockwrite bytes es).wire)
        → (sockwrite bytes es).wire ≡ bytes
    whole (tail, e, c) =
        sym (append-nil _)
        ∙ ap (◌++◌ (sockwrite bytes es).wire) (
            sym (
              nil_of_length tail (
                omega (
                  arith,
                  c (length bytes) h,
                  ap length e,
                  length-append (sockwrite bytes es).wire tail,
                ))))
        ∙ e

-- Only interruptions and turns in which the socket takes at least one byte.
abbrev pub IsOpen : List WriteEvent → Type 0
IsOpen [] = Unit {0}
IsOpen (room k ∷ es) = (0 < k) × IsOpen es
IsOpen (WriteEvent.interrupted ∷ es) = IsOpen es
IsOpen (_ ∷ es) = ⊥

-- How many bytes a script takes.
abbrev pub capacity : List WriteEvent → ℕ
capacity [] = 0
capacity (room k ∷ es) = k + capacity es
capacity (_ ∷ es) = capacity es

write_loop-all :
    (done left : Bytes) (es : List WriteEvent)
    → 0 < length left
    → IsOpen es
    → length left ≤ capacity es
    → (write_loop done left es).result ≡ count (length done + length left)
unfolding write_loop
write_loop-all done left [] p h k = absurd (omega arith)
write_loop-all done left (WriteEvent.interrupted ∷ es) p h k = write_loop-all done left es p h k
write_loop-all done left (WriteEvent.select_fails ∷ es) p h k = absurd h
write_loop-all done left (pause ∷ es) p h k = absurd h
write_loop-all done left (send_fails ∷ es) p h k = absurd h
write_loop-all done left (room r ∷ es) p h k = ground (
  arith,
  length-append done (take r left),
  length-take r left,
  length-drop r left,
  write_loop-all (done ++ take r left) (drop r left) es,
)

counted :
    (bytes : Bytes) (es : List WriteEvent)
    → 0 < length bytes
    → IsOpen es
    → length bytes ≤ capacity es
    → (sockwrite bytes es).result ≡ count (length bytes)
unfolding sockwrite
counted bytes es p h k = simp zero-add at (write_loop-all [] bytes es p h k)

-- A buffer that is not empty is sent whole, in pieces and across interruptions, where the socket
-- takes that much without an error or a delay.
pub sockwrite-all :
    (bytes : Bytes) (es : List WriteEvent)
    → 0 < length bytes
    → IsOpen es
    → length bytes ≤ capacity es
    → ((sockwrite bytes es).result ≡ count (length bytes)) × ((sockwrite bytes es).wire ≡ bytes)
sockwrite-all bytes es p h k =
    (counted bytes es p h k, sockwrite-whole bytes es (counted bytes es p h k))

-- Room for all of a buffer.
pub sockwrite-room :
    (bytes : Bytes) (k : ℕ) (es : List WriteEvent)
    → 0 < length bytes
    → length bytes ≤ k
    → sockwrite bytes (room k ∷ es)
      ≡ record { result = count (length bytes); wire = bytes; rest = es }
unfolding sockwrite write_loop
sockwrite-room bytes k es p h =
    let all : take k bytes ≡ bytes = take_all k bytes h in
    let some_room : (min k (length bytes) == 0) ≡ false = ground arith in
    let nothing_left : (length (drop k bytes) == 0) ≡ true = ground (arith, length-drop k bytes) in
    simp (all, some_room, nothing_left) refl
