-- ===== src/Process/Response.antt =====
-- The vdSM's answer to a request of the library.
pub mod Keeping
use mathlib.Core.Path.{subst}
use libdsvdc.Base.{
  ℕ, ◌+◌, ◌-◌, ◌≡◌, ◌≢◌, refl, sym, inl, inr, true, false, Option, none, some, List, [], ◌∷◌, ◌++◌,
  ◌==◌, arith, Option-cases, if◌then◌else◌,
}
use libdsvdc.Codes.{Code, dsvdc_ok, api}
use libdsvdc.Effects.Ends.{Ends, ends, Ends-bind}
use libdsvdc.Handle.{Request, State, Env}
use libdsvdc.Memory.{free}
use libdsvdc.Message.{Message}
use libdsvdc.Process.{process_generic_response, give_answer, respond}
use libdsvdc.Requests.Answers.{IsModest, Answerable, told_to}
use libdsvdc.Requests.Order.{Below, Unasked}
use libdsvdc.Requests.Take.{Taken, taken, unknown, get_cached_request-Taken}

-- From `s`, the first request with the id was taken out and its callback was called once, with
-- the code; or no request has the id, and nothing changed.
pub data Answered (id : ℕ) (code : Code) (s t : State) : Type 0 where
  answered :
      (newer : List Request) (r : Request) (older : List Request) (f : ℕ)
      → s.handle.requests_list ≡ newer ++ r ∷ older
      → r.message_id ≡ id
      → Unasked id newer
      → r.callback ≡ some f
      → t.handle ≡ record s.handle { requests_list = newer ++ older }
      → t.calls ≡ s.calls ++ told_to f code s.handle.callback_userdata r
      → t.locks ≡ s.locks
      → Answered id code s t
  nobody :
      Unasked id s.handle.requests_list
      → t.handle ≡ s.handle
      → t.calls ≡ s.calls
      → t.locks ≡ s.locks
      → Answered id code s t

pub Answerable-middle :
    (newer : List Request) (r : Request) (older : List Request)
    → Answerable (newer ++ r ∷ older)
    → r.callback ≢ none
Answerable-middle [] r older (callable, a) = callable
Answerable-middle (q ∷ newer) r older (callable, a) = Answerable-middle newer r older a

module _ (env : Env) (modest : IsModest env) where
  give_answer-Answered :
      (id : ℕ) (code : Code) (s : State) {o : Option Request} {t : State}
      → Answerable s.handle.requests_list
      → Taken id s o t
      → Ends (λ _ q. Answered id code s q) (give_answer env code o t)
  unfolding free
  give_answer-Answered id code s a (unknown h) = ends (nobody h refl refl refl)
  give_answer-Answered id code s a (taken newer r older list e h) = elim (Option-cases r.callback) [
    | inl missing ↦ absurd (Answerable-middle newer r older (subst Answerable list a) missing)
    | inr (f, c) ↦ simp c (
        ends (
          answered newer r older f list e h c (modest.handle _ _) (modest.calls _ _)
            (modest.locks _ _)))
  ]

  unlocked :
      {id : ℕ} {code : Code} {s t : State}
      → Answered id code (record s { locks = s.locks + 1 }) t
      → Answered id code s (record t { locks = t.locks - 1 })
  unlocked (answered newer r older f list e h c handle calls locks) =
      answered newer r older f list e h c handle calls (omega arith)
  unlocked (nobody h handle calls locks) = nobody h handle calls (omega arith)

  -- To an answer with an id that is not 0, where the addresses of the waiting requests fall from
  -- the newest to the oldest, each has a callback, and the application does not use the library
  -- from inside a callback, `dsvdc_process_generic_response` ends: the first request with the id
  -- is taken out, its callback was called once, with DSVDC_OK for the code 0 and the code itself
  -- otherwise, and the others are as they were; or no request has the id, and neither the handle
  -- nor the calls changed. The mutex is held as often as before.
  pub process_generic_response-Answered :
      (msg : Message) (code b : ℕ) (s : State)
      → msg.generic_response ≡ some code
      → msg.has_message_id ≡ true
      → msg.message_id ≢ 0
      → Below b s.handle.requests_list
      → Answerable s.handle.requests_list
      → Ends
          (λ _ t. Answered msg.message_id (if code == 0 then dsvdc_ok else api code) s t)
          (process_generic_response env msg s)
  unfolding process_generic_response
  process_generic_response-Answered msg code b s response has_id nonzero w a =
      let id_ok : (msg.message_id == 0) ≡ false = ground arith in
      subst
        (λ o.
          Ends (λ _ t. Answered msg.message_id (if code == 0 then dsvdc_ok else api code) s t)
            (respond env o msg.has_message_id msg.message_id s))
        (sym response)
        (subst
          (λ h.
            Ends (λ _ t. Answered msg.message_id (if code == 0 then dsvdc_ok else api code) s t)
              (respond env (some code) h msg.message_id s))
          (sym has_id)
          (rw id_ok (
            Ends-bind
              (get_cached_request-Taken msg.message_id b (record s { locks = s.locks + 1 }) w)
              λ o t taken_out.
                Ends-bind (give_answer-Answered msg.message_id _ _ a taken_out)
                  λ _ q given. ends (unlocked given))))
