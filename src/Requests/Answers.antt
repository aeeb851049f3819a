-- ===== src/Requests/Answers.antt =====
-- Which requests `dsvdc_cleanup_request_list` keeps, and what the application is told.
use libdsvdc.Base.{
  ℕ, ◌-◌, ◌≡◌, ◌≢◌, refl, true, false, ltb, inl, inr, Bool, Option, none, some, List, [], ◌∷◌, ◌++◌,
  arith, Bool-cases, if◌then◌else◌,
}
use libdsvdc.Codes.{Code}
use libdsvdc.Handle.{Request, State, Env, Call, answer}
use libdsvdc.Requests.{is_obsolete}
use libdsvdc.Requests.Order.{Below-weaken, Below}

-- The application may do as it likes, but it does not use the library from inside a callback: it
-- leaves the handle, the mutex, the clock, the library's heap, the wire and the records of calls
-- and closed descriptors as they are.
pub record IsModest (env : Env) : Type 0 where
  pub handle : (c : Call) (s : State) → (env.react c s).0.handle ≡ s.handle
  pub locks : (c : Call) (s : State) → (env.react c s).0.locks ≡ s.locks
  pub calls : (c : Call) (s : State) → (env.react c s).0.calls ≡ s.calls
  pub clock : (c : Call) (s : State) → (env.react c s).0.clock ≡ s.clock
  pub ticks : (c : Call) (s : State) → (env.react c s).0.ticks ≡ s.ticks
  pub closed : (c : Call) (s : State) → (env.react c s).0.closed ≡ s.closed
  pub mem : (c : Call) (s : State) → (env.react c s).0.mem ≡ s.mem
  pub wire : (c : Call) (s : State) → (env.react c s).0.wire ≡ s.wire

-- Each request has a function to call.
abbrev pub Answerable : List Request → Type 0
Answerable [] = Unit {0}
Answerable (r ∷ rs) = (r.callback ≢ none) × Answerable rs

pub Answerable-remove :
    (newer : List Request) (r : Request) (older : List Request)
    → Answerable (newer ++ r ∷ older)
    → Answerable (newer ++ older)
Answerable-remove [] r older (callable, a) = a
Answerable-remove (q ∷ newer) r older (callable, a) = (callable, Answerable-remove newer r older a)

-- Without a connection all requests are dropped, and with one those that were made more than ten
-- seconds ago.
abbrev pub is_late : Bool → ℕ → Request → Bool
is_late false now r = true
is_late true now r = ltb 10 (now - r.timestamp)

pub is_obsolete-late :
    (connected : Bool) (now : ℕ) (r : Request)
    → is_obsolete connected now r ≡ is_late connected now r
is_obsolete-late false now r = refl
is_obsolete-late true now r = ground arith

-- Those that stay, and the calls for those that do not.
abbrev pub staying : Bool → ℕ → List Request → List Request
staying connected now [] = []
staying connected now (r ∷ rs) =
    if is_late connected now r then staying connected now rs else r ∷ staying connected now rs

abbrev pub told_to : ℕ → Code → ℕ → Request → List Call
told_to f code userdata r =
    (record { function = f; arguments = answer code r.arg; userdata = userdata }) ∷ []

abbrev pub call_to : Option ℕ → Code → ℕ → Request → List Call
call_to none code userdata r = []
call_to (some f) code userdata r = told_to f code userdata r

abbrev pub call_of : Code → ℕ → Request → List Call
call_of code userdata r = call_to r.callback code userdata r

abbrev pub answers : Bool → ℕ → Code → ℕ → List Request → List Call
answers connected now code userdata [] = []
answers connected now code userdata (r ∷ rs) =
    if is_late connected now r
    then call_of code userdata r ++ answers connected now code userdata rs
    else answers connected now code userdata rs

pub staying-Answerable :
    (connected : Bool) (now : ℕ) (rs : List Request)
    → Answerable rs
    → Answerable (staying connected now rs)
staying-Answerable connected now [] a = tt
staying-Answerable connected now (r ∷ rs) (callable, a) =
    elim (Bool-cases (is_late connected now r)) [
      | inl old ↦ rw old (staying-Answerable connected now rs a)
      | inr young ↦ rw young (callable, staying-Answerable connected now rs a)
    ]

pub staying-Below :
    (connected : Bool) (now b : ℕ) (rs : List Request)
    → Below b rs
    → Below b (staying connected now rs)
staying-Below connected now b [] w = tt
staying-Below connected now b (r ∷ rs) (lt, w) = elim (Bool-cases (is_late connected now r)) [
  | inl old ↦
      rw old (staying-Below connected now b rs (Below-weaken r.address b rs (omega arith) w))
  | inr young ↦ rw young (lt, staying-Below connected now r.address rs w)
]
