-- ===== src/Requests/Take.antt =====
-- `dsvdc_get_cached_request`: what it takes out of the list.
use libdsvdc.Base.{ℕ, ◌+◌, ◌≡◌, refl, sym, Option, none, some, List, ◌∷◌, ◌++◌, arith}
use mathlib.Core.Path.{subst}
use libdsvdc.Effects.{ok}
use libdsvdc.Effects.Ends.{Ends, ends, Ends-map}
use libdsvdc.Handle.{Request, State}
use libdsvdc.Requests.{take_found, get_cached_request, delete}
use libdsvdc.Requests.Order.{
  Below, Below-Absent, Below-remove, delete-Absent, Unasked, Found, found, missing,
  find_request-Found,
}

-- `s` with another list of requests.
abbrev pub with_requests : State → List Request → State
with_requests s rs = record s { handle = record s.handle { requests_list = rs } }

-- From `s`, the answer and the state after it: the first request with the id was taken out and
-- all others are left in their order, or there is none and nothing changed.
pub data Taken (id : ℕ) (s : State) : Option Request → State → Type 0 where
  taken :
      (newer : List Request) (r : Request) (older : List Request)
      → s.handle.requests_list ≡ newer ++ r ∷ older
      → r.message_id ≡ id
      → Unasked id newer
      → Taken id s (some r) (with_requests s (newer ++ older))
  unknown : Unasked id s.handle.requests_list → Taken id s none s

take_found-Taken :
    {id : ℕ} {rs : List Request} {o : Option Request} (b : ℕ) (s : State)
    → Found id rs o
    → s.handle.requests_list ≡ rs
    → Below b rs
    → Ends (Taken id s) (take_found o (record s { locks = s.locks + 1 }))
take_found-Taken {id} b s (found newer r older e h) list w =
    let rest : delete r.address s.handle.requests_list ≡ newer ++ older =
      rw list (delete-Absent newer r older (Below-Absent b newer r older w).1) in
    rw rest (
      subst
        (λ l.
          Ends (Taken id s) (ok (some r) (record (with_requests s (newer ++ older)) { locks = l })))
        (omega arith) (ends (taken newer r older list e h)))
take_found-Taken {id} b s (missing h) list w =
    subst (λ l. Ends (Taken id s) (ok none (record s { locks = l }))) (omega arith)
      (ends (unknown (subst (Unasked id) (sym list) h)))

-- Where the addresses of the waiting requests fall from the newest to the oldest,
-- `dsvdc_get_cached_request` takes out the first request with the id, and leaves the others in
-- their order and all else as it was; where no request has the id, it answers NULL and changes
-- nothing. The mutex is held as often as before.
pub get_cached_request-Taken :
    (id b : ℕ) (s : State)
    → Below b s.handle.requests_list
    → Ends (Taken id s) (get_cached_request id s)
unfolding get_cached_request
get_cached_request-Taken id b s w =
    take_found-Taken b s (find_request-Found id s.handle.requests_list) refl w

-- Where the addresses of the waiting requests fall from the newest to the oldest, below a bound,
-- they do so, below the same bound, after `dsvdc_get_cached_request`, whether it finds one or
-- not.
pub get_cached_request-Below :
    (id b : ℕ) (s : State)
    → Below b s.handle.requests_list
    → Ends (λ o t. Below b t.handle.requests_list) (get_cached_request id s)
get_cached_request-Below id b s w = Ends-map (get_cached_request-Taken id b s w) in_order
  where
    in_order : (o : Option Request) (t : State) → Taken id s o t → Below b t.handle.requests_list
    in_order o t (taken newer r older list e h) =
        Below-remove b newer r older (subst (Below b) list w)
    in_order o t (unknown h) = w
