-- ===== src/Requests/Order.antt =====
-- The order of the waiting requests: a new one lies at a higher address than all before it, and
-- the list is walked from the newest to the oldest.
use libdsvdc.Base.{
  ℕ, ◌≤◌, ◌<◌, ◌≡◌, ◌≢◌, ap, inl, inr, false, Option, none, some, List, [], ◌∷◌, ◌++◌, ◌==◌, arith,
  Bool-cases,
}
use libdsvdc.Handle.{Request}
use libdsvdc.Requests.{delete, find_request, node_at, head_address}

-- The addresses fall strictly, from below `b`.
abbrev pub Below : ℕ → List Request → Type 0
Below b [] = Unit {0}
Below b (r ∷ rs) = (r.address < b) × Below r.address rs

-- No request has the address.
abbrev pub Absent : ℕ → List Request → Type 0
Absent a [] = Unit {0}
Absent a (r ∷ rs) = (r.address ≢ a) × Absent a rs

-- No request has the message id.
abbrev pub Unasked : ℕ → List Request → Type 0
Unasked id [] = Unit {0}
Unasked id (r ∷ rs) = (r.message_id ≢ id) × Unasked id rs

pub Below-weaken : (b c : ℕ) (rs : List Request) → b ≤ c → Below b rs → Below c rs
Below-weaken b c [] h w = tt
Below-weaken b c (r ∷ rs) h (lt, w) = (omega arith, w)

-- Above the requests that follow, so not among those in front.
pub Below-Absent :
    (b : ℕ) (kept : List Request) (r : Request) (rs : List Request)
    → Below b (kept ++ r ∷ rs)
    → (r.address < b) × Absent r.address kept
Below-Absent b [] r rs (lt, w) = (lt, tt)
Below-Absent b (k ∷ kept) r rs (lt, w) =
    let (above, absent) = Below-Absent k.address kept r rs w in
    (omega arith, ((λ e. omega arith), absent))

pub Below-remove :
    (b : ℕ) (kept : List Request) (r : Request) (rs : List Request)
    → Below b (kept ++ r ∷ rs)
    → Below b (kept ++ rs)
Below-remove b [] r rs (lt, w) = Below-weaken r.address b rs (omega arith) w
Below-remove b (k ∷ kept) r rs (lt, w) = (lt, Below-remove k.address kept r rs w)

pub delete-Absent :
    (kept : List Request) (r : Request) (rs : List Request)
    → Absent r.address kept
    → delete r.address (kept ++ r ∷ rs) ≡ kept ++ rs
unfolding delete
delete-Absent [] r rs h = ground arith
delete-Absent (k ∷ kept) r rs (ne, h) =
    let other : (k.address == r.address) ≡ false = ground arith in
    rw other (ap (◌∷◌ k) (delete-Absent kept r rs h))

pub node_at-Absent :
    (kept : List Request) (r : Request) (rs : List Request)
    → Absent r.address kept
    → node_at r.address (kept ++ r ∷ rs) ≡ some (r, head_address rs)
unfolding node_at
node_at-Absent [] r [] h = ground arith
node_at-Absent [] r (q ∷ rs) h = ground arith
node_at-Absent (k ∷ []) r rs (ne, h) =
    let other : (k.address == r.address) ≡ false = ground arith in
    rw other (node_at-Absent [] r rs h)
node_at-Absent (k ∷ l ∷ kept) r rs (ne, h) =
    let other : (k.address == r.address) ≡ false = ground arith in
    rw other (node_at-Absent (l ∷ kept) r rs h)

-- What a search finds: the first request with the id, or that there is none.
pub data Found (id : ℕ) : List Request → Option Request → Type 0 where
  found :
      (newer : List Request) (r : Request) (older : List Request)
      → r.message_id ≡ id
      → Unasked id newer
      → Found id (newer ++ r ∷ older) (some r)
  missing : {rs : List Request} → Unasked id rs → Found id rs none

Found-behind :
    {id : ℕ} (r : Request) {rs : List Request} {o : Option Request}
    → (r.message_id == id) ≡ false
    → Found id rs o
    → Found id (r ∷ rs) o
Found-behind {id} r ne (found newer q older e h) =
    found (r ∷ newer) q older e ((λ same. ground arith), h)
Found-behind {id} r ne (missing h) = missing ((λ same. ground arith), h)

pub find_request-Found : (id : ℕ) (rs : List Request) → Found id rs (find_request id rs)
unfolding find_request
find_request-Found id [] = missing tt
find_request-Found id (r ∷ rs) = elim (Bool-cases (r.message_id == id)) [
  | inl same ↦ rw same (found [] r rs (ground arith) tt)
  | inr other ↦ rw other (Found-behind r other (find_request-Found id rs))
]
