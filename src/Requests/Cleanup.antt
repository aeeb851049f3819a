-- ===== src/Requests/Cleanup.antt =====
-- `dsvdc_cleanup_request_list`: which requests it drops, and whom it tells.
use libdsvdc.Base.{
  ℕ, zero, suc, ◌+◌, ◌≤◌, ◌≡◌, refl, sym, ap, ◌∙◌, inl, inr, Bool, true, false, ◌&&◌, some, List,
  [], ◌∷◌, ◌++◌, length, arith, Bool-cases, if◌then◌else◌, Option-cases, append_assoc, append-nil,
  ltb,
}
use mathlib.Core.Path.{subst}
use libdsvdc.Codes.{Code, err_timeout, err_not_connected}
use libdsvdc.Effects.Ends.{Ends, ends, Ends-map, Ends-bind}
use libdsvdc.Handle.{Request, Handle, State, Env, Call}
use libdsvdc.Memory.{Mem, free}
use libdsvdc.Requests.{
  foreach, cleanup_request_list, head_address, is_obsolete, visit, node_at, delete,
}
use libdsvdc.Requests.Order.{
  Below, Below-Absent, Below-remove, delete-Absent, node_at-Absent, Absent,
}
use libdsvdc.Requests.Answers.{
  is_obsolete-late, IsModest, Answerable, staying, told_to, call_to, answers,
}

-- From `s`, the list is now `rs`, the application got the calls `told`, and all else of the
-- handle is as it was.
pub record Cleaned (s : State) (rs : List Request) (told : List Call) (t : State) : Type 0 where
  pub handle : t.handle ≡ record s.handle { requests_list = rs }
  pub locks : t.locks ≡ s.locks
  pub calls : t.calls ≡ s.calls ++ told
  pub clock : t.clock ≡ s.clock
  pub ticks : t.ticks ≡ s.ticks
  pub closed : t.closed ≡ s.closed
  pub grants : t.mem.grants ≡ s.mem.grants
  pub allocs : t.mem.allocs ≡ s.mem.allocs
  pub wire : t.wire ≡ s.wire

Cleaned-then :
    {s t q : State} {rs rs' : List Request} {told told' : List Call}
    → Cleaned s rs told t
    → Cleaned t rs' told' q
    → Cleaned s rs' (told ++ told') q
Cleaned-then {s} {t} {q} {rs} {rs'} {told} {told'} c d = record {
  handle = d.handle ∙ ap (λ (g : Handle). record g { requests_list = rs' }) c.handle;
  locks = d.locks ∙ c.locks;
  calls = d.calls ∙ rw c.calls (append_assoc s.calls told told');
  clock = d.clock ∙ c.clock;
  ticks = d.ticks ∙ c.ticks;
  closed = d.closed ∙ c.closed;
  grants = d.grants ∙ c.grants;
  allocs = d.allocs ∙ c.allocs;
  wire = d.wire ∙ c.wire;
}

module _ (env : Env) (modest : IsModest env) (connected : Bool) (now : ℕ) (code : Code) where
  -- The end of a walk behind the requests in `kept`.
  abbrev Walked : State → List Request → List Request → Unit {0} → State → Type 0
  Walked s kept rs _ t =
      Cleaned s (kept ++ staying connected now rs)
        (answers connected now code s.handle.callback_userdata rs) t

  visit-Dropped :
      (kept : List Request) (r : Request) (rs : List Request) (s : State) (f : ℕ)
      → is_obsolete connected now r ≡ true
      → s.handle.requests_list ≡ kept ++ r ∷ rs
      → Absent r.address kept
      → r.callback ≡ some f
      → Ends
          (λ _ t. Cleaned s (kept ++ rs) (told_to f code s.handle.callback_userdata r) t)
          (visit env connected now code r s)
  unfolding free
  visit-Dropped kept r rs s f old list apart e =
      let rest : delete r.address s.handle.requests_list ≡ kept ++ rs =
        rw list (delete-Absent kept r rs apart) in
      simp (old, e, rest)
        (ends (record {
          handle = modest.handle _ _;
          locks = modest.locks _ _;
          calls = modest.calls _ _;
          clock = modest.clock _ _;
          ticks = modest.ticks _ _;
          closed = modest.closed _ _;
          grants = ap (λ (m : Mem). m.grants) (modest.mem _ _);
          allocs = ap (λ (m : Mem). m.allocs) (modest.mem _ _);
          wire = modest.wire _ _;
        }))

  -- A walk from the first request behind `kept`.
  foreach-Walked :
      (b : ℕ) (kept rs : List Request) (fuel : ℕ) (s : State)
      → s.handle.requests_list ≡ kept ++ rs
      → Below b (kept ++ rs)
      → Answerable rs
      → length rs ≤ fuel
      → Ends (Walked s kept rs) (foreach env fuel connected now code (head_address rs) s)
  unfolding foreach
  foreach-Walked b kept [] fuel s list w a h = ends (record {
    handle = (rw (append-nil kept) (rw (← list ∙ append-nil kept) refl));
    locks = refl;
    calls = sym (append-nil _);
    clock = refl;
    ticks = refl;
    closed = refl;
    grants = refl;
    allocs = refl;
    wire = refl;
  })
  foreach-Walked b kept (r ∷ rs) zero s list w a h = absurd (omega arith)
  foreach-Walked b kept (r ∷ rs) (suc fuel) s list w (callable, a) h =
      let apart : Absent r.address kept = (Below-Absent b kept r rs w).1 in
      let node : node_at r.address s.handle.requests_list ≡ some (r, head_address rs) =
        rw list (node_at-Absent kept r rs apart) in
      simp node (elim (Bool-cases (is_obsolete connected now r)) [
        | inl old ↦ elim (Option-cases r.callback) [
          | inl missing ↦ absurd (callable missing)
          | inr (f, e) ↦ Ends-bind (visit-Dropped kept r rs s f old list apart e) λ _ t c.
              Ends-map
                (foreach-Walked b kept rs fuel t (ap (λ (g : Handle). g.requests_list) c.handle)
                  (Below-remove b kept r rs w) a (omega arith))
                λ _ q d. simp (sym (is_obsolete-late connected now r) ∙ old) (
                  subst
                    (λ l.
                      Cleaned s (kept ++ staying connected now rs)
                        (l ++ answers connected now code s.handle.callback_userdata rs) q)
                    (sym (ap (λ o. call_to o code s.handle.callback_userdata r) e))
                    (Cleaned-then c (
                      subst
                        (λ u.
                          Cleaned t (kept ++ staying connected now rs)
                            (answers connected now code u rs) q)
                        (ap (λ (g : Handle). g.callback_userdata) c.handle) d)))
        ]
        | inr young ↦ simp young (
            Ends-map
              (foreach-Walked b (kept ++ r ∷ []) rs fuel s
                (list ∙ sym (append_assoc kept (r ∷ []) rs))
                (subst (Below b) (sym (append_assoc kept (r ∷ []) rs)) w) a (omega arith))
              λ _ q d. simp (sym (is_obsolete-late connected now r) ∙ young) (
                subst
                  (λ xs. Cleaned s xs (answers connected now code s.handle.callback_userdata rs) q)
                  (append_assoc kept (r ∷ []) _) d))
      ])

-- The handle after a cleanup.
abbrev pub cleaned_handle : Handle → List Request → ℕ → Handle
cleaned_handle h rs stamp = record h { requests_list = rs; last_list_cleanup = stamp }

-- What a cleanup leaves alone in all cases.
pub record Aside (s t : State) : Type 0 where
  pub locks : t.locks ≡ s.locks
  pub closed : t.closed ≡ s.closed
  pub grants : t.mem.grants ≡ s.mem.grants
  pub allocs : t.mem.allocs ≡ s.mem.allocs
  pub wire : t.wire ≡ s.wire

abbrev pub CleanedUp : Bool → State → State → Type 0
CleanedUp connected s t =
    let now = s.clock s.ticks in
    Aside s t
    × (if connected && ltb now (s.handle.last_list_cleanup + 20)
        then (t.handle ≡ s.handle) × (t.calls ≡ s.calls)
        else (t.handle
            ≡ cleaned_handle s.handle (staying connected now s.handle.requests_list)
                (s.clock (s.ticks + 1)))
          × (t.calls
              ≡ s.calls
                ++ answers connected now (if connected then err_timeout else err_not_connected)
                    s.handle.callback_userdata s.handle.requests_list))

-- Without a waiting request the application is not called.
pub cleanup_request_list-idle :
    (env : Env) (s : State)
    → s.handle.requests_list ≡ []
    → Ends (λ _ t. CleanedUp false s t) (cleanup_request_list env false s)
unfolding cleanup_request_list foreach
cleanup_request_list-idle env s idle = simp idle (
    ends (
      record { locks = omega arith; closed = refl; grants = refl; allocs = refl; wire = refl },
      (refl, sym (append-nil s.calls)),
    ))

module _ (env : Env) (modest : IsModest env) where
  -- Where the addresses of the waiting requests fall from the newest to the oldest, each request
  -- has a callback, and the application does not use the library from inside a callback,
  -- `dsvdc_cleanup_request_list` ends, with the mutex held as often as before, no descriptor
  -- closed, nothing written and no block allocated. It drops exactly the obsolete requests, all
  -- of them without a connection and those older than ten seconds with one, keeps the others in
  -- their order, and calls back for each dropped one, in the list's order, with the code of the
  -- reason; with a connection it changes nothing of the handle and calls nobody for twenty
  -- seconds after the last cleanup.
  pub cleanup_request_list-Cleaned :
      (b : ℕ) (connected : Bool) (s : State)
      → Below b s.handle.requests_list
      → Answerable s.handle.requests_list
      → Ends (λ _ t. CleanedUp connected s t) (cleanup_request_list env connected s)
  unfolding cleanup_request_list
  cleanup_request_list-Cleaned b connected s w a =
      elim (Bool-cases (connected && ltb (s.clock s.ticks) (s.handle.last_list_cleanup + 20))) [
        | inl early ↦ simp early (
            ends (
              record {
                locks = omega arith;
                closed = refl;
                grants = refl;
                allocs = refl;
                wire = refl;
              },
              (refl, refl),
            ))
        | inr due ↦ simp due (
            Ends-bind
              (foreach-Walked env modest connected (s.clock s.ticks)
                (if connected then err_timeout else err_not_connected) b [] s.handle.requests_list _
                _ refl w a (omega arith))
              λ _ t c. ends (
                record {
                  locks = omega (arith, c.locks);
                  closed = c.closed;
                  grants = c.grants;
                  allocs = c.allocs;
                  wire = c.wire;
                },
                (rw (c.handle, c.clock, c.ticks) (refl), c.calls),
              ))
      ]
