-- ===== src/Process/Response/Keeping.antt =====
-- An answer of the vdSM keeps an instance sound.
use mathlib.Core.Path.{subst}
use libdsvdc.Base.{ℕ, ◌+◌, ◌++◌, refl, inl, inr, Bool, Option, none, some, arith, Option-cases}
use libdsvdc.Codes.{Code}
use libdsvdc.Effects.Ends.{Ends, ends, Ends-map, Ends-bind}
use libdsvdc.Handle.{Request, State, Env}
use libdsvdc.Invariant.{IsSound, Kept, Keeps, skip-Keeps, keeping}
use libdsvdc.Invariant.Careful.{IsCareful}
use libdsvdc.Message.{Message}
use libdsvdc.Process.{process_generic_response, give_answer, respond, respond_to}
use libdsvdc.Process.Response.{Answerable-middle}
use libdsvdc.Requests.Keeping.{answer_request-Attended}
use libdsvdc.Requests.Answers.{Answerable, Answerable-remove}
use libdsvdc.Requests.Order.{Below, Below-remove}
use libdsvdc.Requests.Take.{Taken, taken, unknown, get_cached_request-Taken}

module _ (env : Env) (careful : IsCareful env) where
  give_answer-Kept :
      (id : ℕ) (code : Code) (s : State) {o : Option Request} {t : State}
      → IsSound s.handle s.mem
      → Taken id s o t
      → Ends (λ _ q. Kept s q) (give_answer env code o t)
  give_answer-Kept id code s v (unknown h) = ends (record { sound = v; locks = refl })
  give_answer-Kept id code s v (taken newer r older list e h) = elim (Option-cases r.callback) [
    | inl missing ↦
        absurd (Answerable-middle newer r older (subst Answerable list v.answerable) missing)
    | inr (f, c) ↦
        Ends-map
          (answer_request-Attended env careful r code f
            (record s { handle = record s.handle { requests_list = newer ++ older } }) c
            (record {
              ordered =
                  Below-remove (s.mem.allocs + 1) newer r older
                    (subst (Below (s.mem.allocs + 1)) list v.ordered);
              answerable = Answerable-remove newer r older (subst Answerable list v.answerable);
              connected = v.connected;
              listening = v.listening;
              watched = v.watched;
              plentiful = v.plentiful;
            }))
          λ _ q a. record { sound = a.kept.sound; locks = a.kept.locks }
  ]

  ask-Keeps : (code id : ℕ) → Keeps (respond_to env code id)
  ask-Keeps code id s v =
      Ends-bind
        (get_cached_request-Taken id (s.mem.allocs + 1) (record s { locks = s.locks + 1 })
          v.ordered)
        λ o t taken_out.
          Ends-bind (give_answer-Kept id _ (record s { locks = s.locks + 1 }) v taken_out)
            λ _ q k. ends (record { sound = k.sound; locks = omega (arith, k.locks) })

  respond-Keeps : (o : Option ℕ) (has_id : Bool) (id : ℕ) → Keeps (respond env o has_id id)
  respond-Keeps none has_id id = skip-Keeps
  respond-Keeps (some code) has_id id = search (keeping, ask-Keeps)

  pub process_generic_response-Keeps : (msg : Message) → Keeps (process_generic_response env msg)
  unfolding process_generic_response
  process_generic_response-Keeps msg =
      respond-Keeps msg.generic_response msg.has_message_id msg.message_id
