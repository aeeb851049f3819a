-- ===== src/Requests/Keeping.antt =====
-- Calling back for a request, and the cleanup of the requests that are out of date, keep an
-- instance sound, whatever the callbacks announce or send.
use libdsvdc.Base.{
  ℕ, zero, suc, ◌+◌, ◌≤◌, ◌≡◌, refl, sym, ◌∙◌, Bool, inl, inr, some, List, [], ◌∷◌, ◌++◌, length,
  Bool-cases, Option-cases, append_assoc, if◌then◌else◌, is_some, true, arith, ◌&&◌, ltb,
}
use mathlib.Core.Path.{subst}
use libdsvdc.Codes.{Code, err_timeout, err_not_connected}
use libdsvdc.Effects.Ends.{Ends, ends, Ends-map, Ends-bind}
use libdsvdc.Handle.{Request, State, Env}
use libdsvdc.Invariant.{IsSound, IsSound-grown, Kept}
use libdsvdc.Invariant.Careful.{Attended, IsCareful}
use libdsvdc.Invariant.Sending.{attended}
use libdsvdc.Process.Response.{Answerable-middle}
use libdsvdc.Memory.{free}
use libdsvdc.Requests.{
  answer_request, foreach, cleanup_request_list, head_address, is_obsolete, visit, node_at, delete,
}
use libdsvdc.Requests.Answers.{Answerable, Answerable-remove}
use libdsvdc.Requests.Order.{
  Below, Below-Absent, Below-remove, delete-Absent, node_at-Absent, Absent,
}

-- A block was given back.
freed :
    {s t : State}
    → Attended s t
    → Attended s (record t { mem = record t.mem { frees = t.mem.frees + 1 } })
freed {s} {t} a = record {
  kept = record {
    sound =
        IsSound-grown {n = record t.mem { frees = t.mem.frees + 1 }} a.kept.sound (omega arith)
          refl;
    locks = a.kept.locks;
  };
  still = a.still;
  newer = a.newer;
  requests = a.requests;
}

module _ (env : Env) (careful : IsCareful env) where
  pub answer_request-Attended :
      (r : Request) (code : Code) (f : ℕ) (s : State)
      → r.callback ≡ some f
      → IsSound s.handle s.mem
      → Ends (λ _ t. Attended s t) (answer_request env r code s)
  unfolding free
  answer_request-Attended r code f s e v = simp e (ends (freed (attended env careful _ s v)))

-- The instance is sound, the mutex is held as often as before, and a connection is still there.
pub record Passed (s t : State) : Type 0 where
  pub kept : Kept s t
  pub still : is_some s.handle.connected_fd ≡ true → is_some t.handle.connected_fd ≡ true

Passed-then : {s t q : State} → Passed s t → Passed t q → Passed s q
Passed-then p r = record {
  kept = record { sound = r.kept.sound; locks = r.kept.locks ∙ p.kept.locks };
  still = λ c. r.still (p.still c);
}

module _ (env : Env) (careful : IsCareful env) (connected : Bool) (now : ℕ) (code : Code) where
  -- The state without the request that is called back for.
  abbrev without : State → List Request → State
  without s rs = record s { handle = record s.handle { requests_list = rs } }

  removed-IsSound :
      (s : State) (kept : List Request) (r : Request) (rs : List Request)
      → s.handle.requests_list ≡ kept ++ r ∷ rs
      → IsSound s.handle s.mem
      → IsSound (record s.handle { requests_list = kept ++ rs }) s.mem
  removed-IsSound s kept r rs list v = record {
    ordered =
        Below-remove (s.mem.allocs + 1) kept r rs (subst (Below (s.mem.allocs + 1)) list v.ordered);
    answerable = Answerable-remove kept r rs (subst Answerable list v.answerable);
    connected = v.connected;
    listening = v.listening;
    watched = v.watched;
    plentiful = v.plentiful;
  }

  visit-Attended :
      (kept : List Request) (r : Request) (rs : List Request) (s : State) (f : ℕ)
      → is_obsolete connected now r ≡ true
      → s.handle.requests_list ≡ kept ++ r ∷ rs
      → Absent r.address kept
      → r.callback ≡ some f
      → IsSound s.handle s.mem
      → Ends (λ _ t. Attended (without s (kept ++ rs)) t) (visit env connected now code r s)
  visit-Attended kept r rs s f old list apart e v =
      let rest : delete r.address s.handle.requests_list ≡ kept ++ rs =
        rw list (delete-Absent kept r rs apart) in
      simp (old, rest)
        (answer_request-Attended env careful r code f (without s (kept ++ rs)) e
          (removed-IsSound s kept r rs list v))

  foreach-Passed :
      (kept rs : List Request) (fuel : ℕ) (s : State)
      → s.handle.requests_list ≡ kept ++ rs
      → IsSound s.handle s.mem
      → length rs ≤ fuel
      → Ends (λ _ t. Passed s t) (foreach env fuel connected now code (head_address rs) s)
  unfolding foreach
  foreach-Passed kept [] fuel s list v h =
      ends (record { kept = record { sound = v; locks = refl }; still = λ c. c })
  foreach-Passed kept (r ∷ rs) zero s list v h = absurd (omega arith)
  foreach-Passed kept (r ∷ rs) (suc fuel) s list v h =
      let ordered : Below (s.mem.allocs + 1) (kept ++ r ∷ rs) =
        subst (Below (s.mem.allocs + 1)) list v.ordered in
      let apart : Absent r.address kept = (Below-Absent (s.mem.allocs + 1) kept r rs ordered).1 in
      let node : node_at r.address s.handle.requests_list ≡ some (r, head_address rs) =
        rw list (node_at-Absent kept r rs apart) in
      simp node (elim (Bool-cases (is_obsolete connected now r)) [
        | inl old ↦ elim (Option-cases r.callback) [
          | inl missing ↦
              absurd (Answerable-middle kept r rs (subst Answerable list v.answerable) missing)
          | inr (f, e) ↦ Ends-bind (visit-Attended kept r rs s f old list apart e v) λ _ t a.
              Ends-map
                (foreach-Passed (a.newer ++ kept) rs fuel t
                  (a.requests ∙ sym (append_assoc a.newer kept rs)) a.kept.sound (omega arith))
                λ _ q p.
                  Passed-then
                    (record {
                      kept = record { sound = a.kept.sound; locks = a.kept.locks };
                      still = a.still;
                    })
                    p
        ]
        | inr young ↦ simp young (
            foreach-Passed (kept ++ r ∷ []) rs fuel s (list ∙ sym (append_assoc kept (r ∷ []) rs)) v
              (omega arith))
      ])

-- A cleanup of the requests passes on a sound instance.
pub cleanup_request_list-Passed :
    (env : Env) (careful : IsCareful env) (connected : Bool) (s : State)
    → IsSound s.handle s.mem
    → Ends (λ _ t. Passed s t) (cleanup_request_list env connected s)
unfolding cleanup_request_list
cleanup_request_list-Passed env careful connected s v =
    elim (Bool-cases (connected && ltb (s.clock s.ticks) (s.handle.last_list_cleanup + 20))) [
      | inl early ↦
          simp early
            (ends (record { kept = record { sound = v; locks = omega arith }; still = λ c. c }))
      | inr due ↦ simp due (
          Ends-bind
            (foreach-Passed env careful connected (s.clock s.ticks)
              (if connected then err_timeout else err_not_connected) [] s.handle.requests_list _ _
              refl v (omega arith))
            λ _ t p. ends (record {
              kept = record {
                sound = record {
                  ordered = p.kept.sound.ordered;
                  answerable = p.kept.sound.answerable;
                  connected = p.kept.sound.connected;
                  listening = p.kept.sound.listening;
                  watched = p.kept.sound.watched;
                  plentiful = p.kept.sound.plentiful;
                };
                locks = omega (arith, p.kept.locks);
              };
              still = p.still;
            }))
    ]
