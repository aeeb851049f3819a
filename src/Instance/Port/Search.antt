-- ===== src/Instance/Port/Search.antt =====
-- The port that `dsvdc_setup_socket` binds, and what it does with the socket.
use libdsvdc.Base.{
  ℕ, zero, suc, ◌+◌, ◌≤◌, ◌<◌, ◌≡◌, ◌⊎◌, inl, inr, refl, Bool, true, false, ◌&&◌, Option, none,
  some, [], ◌∷◌, ◌++◌, ◌==◌, arith, Bool-cases, suc-==-zero, Option-cases, if◌then◌else◌, ltb,
}
use libdsvdc.Codes.{Code, dsvdc_ok, err_socket}
use libdsvdc.Effects.Ends.{Ends, ends}
use libdsvdc.Handle.{State}
use libdsvdc.Instance.Port.{
  Binding, bound, in_use, refused, Network, default_vdc_port, last_port, search_loop, search_fuel,
  start_port, searched, setup_socket,
}

Binding-cases : (b : Binding) → (b ≡ bound) ⊎ ((b ≡ in_use) ⊎ (b ≡ refused))
Binding-cases bound = inl refl
Binding-cases in_use = inr (inl refl)
Binding-cases refused = inr (inr refl)

-- A search from `port` ended: at the first port that could be bound, with all before it in use
-- and none of them passed over without a search; or nowhere.
pub data Searched (bind : ℕ → Binding) (portsearch : Bool) (port : ℕ)
    : Option (ℕ × Bool) → Type 0 where
  hit :
      (p : ℕ)
      → bind p ≡ bound
      → port ≤ p
      → (p ≡ port) ⊎ (p ≤ last_port)
      → ((q : ℕ) → port ≤ q → q < p → (bind q ≡ in_use) × (portsearch ≡ true))
      → Searched bind portsearch port (some (p, true))
  miss : (p : ℕ) → Searched bind portsearch port (some (p, false))

Searched-earlier :
    (bind : ℕ → Binding) (port : ℕ) {o : Option (ℕ × Bool)}
    → bind port ≡ in_use
    → port < last_port
    → Searched bind true (port + 1) o
    → Searched bind true port o
Searched-earlier bind port busy low (hit p b le end' before) =
    hit p b (omega arith) (inr (elim end' [ inl e ↦ omega arith | inr h ↦ h ])) λ q l u.
      elim (Bool-cases (q == port)) [
        | inl same ↦ (let e : q ≡ port = ground arith in rw e (busy, refl))
        | inr other ↦ before q (ground arith) u
      ]
Searched-earlier bind port busy low (miss p) = miss p

next_turn :
    (fuel : ℕ) (bind : ℕ → Binding) (portsearch : Bool) (port : ℕ)
    → bind port ≡ in_use
    → (port < last_port → Searched bind true (port + 1) (search_loop fuel bind true (port + 1)))
    → Searched bind portsearch port (
        if portsearch && ltb port last_port
        then search_loop fuel bind portsearch (port + 1)
        else some (port, false))
next_turn fuel bind false port busy later = miss port
next_turn fuel bind true port busy later = elim (Bool-cases (ltb port last_port)) [
  | inr top ↦ rw top (miss port)
  | inl low ↦
      let below : port < last_port = ground arith in
      rw low (Searched-earlier bind port busy below (later below))
]

search_loop-Searched :
    (fuel : ℕ) (bind : ℕ → Binding) (portsearch : Bool) (port : ℕ)
    → 0 < fuel
    → last_port < port + fuel
    → Searched bind portsearch port (search_loop fuel bind portsearch port)
unfolding search_loop
search_loop-Searched zero bind portsearch port p h = absurd (omega arith)
search_loop-Searched (suc fuel) bind portsearch port p h = elim (Binding-cases (bind port)) [
  | inl free_port ↦
      rw free_port (hit port free_port (omega arith) (inl refl) λ q l u. absurd (omega arith))
  | inr (inr error) ↦ rw error (miss port)
  | inr (inl busy) ↦ rw busy (
      next_turn fuel bind portsearch port busy
        λ low. search_loop-Searched fuel bind true (port + 1) (omega arith) (omega arith))
]

-- The port that was asked for, or the first free one from 49500 to 65534 if that was 0.
abbrev pub IsChosen : (ℕ → Binding) → ℕ → ℕ → Type 0
IsChosen bind asked p =
    if asked == 0
    then (default_vdc_port ≤ p)
      × (p ≤ last_port)
      × ((q : ℕ) → default_vdc_port ≤ q → q < p → bind q ≡ in_use)
    else p ≡ asked

-- The socket listens on the chosen port and stays open, or there is no socket left.
pub data SetUp (net : Network) (s : State) : Code → State → Type 0 where
  listening :
      {t : State} (fd p : ℕ)
      → net.socket ≡ some fd
      → net.bind p ≡ bound
      → net.listen ≡ true
      → (net.reuse_option ≡ true) × (net.linger_option ≡ true)
      → IsChosen net.bind s.handle.port p
      → t.handle ≡ record s.handle { port = p; listen_fd = some fd; connected_fd = none }
      → t.closed ≡ s.closed
      → SetUp net s dsvdc_ok t
  no_socket :
      {t : State}
      → net.socket ≡ none
      → t.handle ≡ record s.handle { listen_fd = none; connected_fd = none }
      → t.closed ≡ s.closed
      → SetUp net s err_socket t
  abandoned :
      {t : State} (fd p : ℕ)
      → net.socket ≡ some fd
      → t.handle ≡ record s.handle { port = p; listen_fd = none; connected_fd = none }
      → t.closed ≡ s.closed ++ fd ∷ []
      → SetUp net s err_socket t

chosen :
    (bind : ℕ → Binding) (asked p : ℕ)
    → (start_port asked).0 ≤ p
    → (p ≡ (start_port asked).0) ⊎ (p ≤ last_port)
    → ((q : ℕ)
        → (start_port asked).0 ≤ q
        → q < p
        → (bind q ≡ in_use) × ((start_port asked).1 ≡ true))
    → IsChosen bind asked p
chosen bind zero p low top before =
    (low, elim top [ inl e ↦ omega arith | inr h ↦ h ], λ q l u. (before q l u).0)
chosen bind (suc n) p low top before =
    let low' : suc n ≤ p = simp (suc-==-zero n) at low in
    let before' : (q : ℕ) → suc n ≤ q → q < p → (bind q ≡ in_use) × (false ≡ true) =
      simp (suc-==-zero n) at before in
    rw (suc-==-zero n) (elim (Bool-cases (ltb (suc n) p)) [
      | inl passed ↦ absurd (false_ne_true (before' (suc n) (omega arith) (ground arith)).1)
      | inr same ↦ ground arith
    ])
  where
    false_ne_true : false ≡ true → ⊥
    false_ne_true e = cc

finish-SetUp :
    (net : Network) (fd : ℕ) (s : State) {o : Option (ℕ × Bool)}
    → net.socket ≡ some fd
    → (net.reuse_option ≡ true) × (net.linger_option ≡ true)
    → Searched net.bind (start_port s.handle.port).1 (start_port s.handle.port).0 o
    → Ends (SetUp net s) (
        searched net fd o
          (record s { handle = record s.handle { listen_fd = some fd; connected_fd = none } }))
finish-SetUp net fd s e options (miss p) = ends (abandoned fd p e refl refl)
finish-SetUp net fd s e options (hit p b low top before) = elim (Bool-cases net.listen) [
  | inl listens ↦ simp listens (
      ends (
        listening fd p e b listens options (chosen net.bind s.handle.port p low top before) refl
          refl))
  | inr fails ↦ simp fails (ends (abandoned fd p e refl refl))
]

-- `dsvdc_setup_socket` ends, whatever the network does: the search never runs out of turns. On
-- success `listen` and both socket options have succeeded, and the instance listens on the port that was asked for, or on the first free port from
-- 49500 to 65534 if none was asked for, and the socket stays open; on an error the instance has
-- no socket and the one that was made has been closed.
pub setup_socket-SetUp : (net : Network) (s : State) → Ends (SetUp net s) (setup_socket net s)
unfolding setup_socket
setup_socket-SetUp net s = elim (Option-cases net.socket) [
  | inl none' ↦ simp none' (ends (no_socket none' refl refl))
  | inr (fd, e) ↦ simp e (elim (Bool-cases (net.reuse_option && net.linger_option)) [
    | inr fails ↦ rw fails (ends (abandoned fd s.handle.port e refl refl))
    | inl set' ↦ rw set' (
        finish-SetUp net fd s e (ground (arith, set'))
          (search_loop-Searched search_fuel net.bind _ _ (omega arith) (omega arith)))
  ])
]
