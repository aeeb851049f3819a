-- ===== src/Instance/Cleanup.antt =====
-- What `dsvdc_cleanup_handle` leaves of an instance.
use libdsvdc.Base.{
  ℕ, ◌+◌, ◌≡◌, refl, sym, ap, ◌∙◌, false, Option, none, some, List, [], ◌∷◌, ◌++◌, append-nil,
  append_assoc, arith,
}
use libdsvdc.Codes.{err_not_connected}
use libdsvdc.Effects.Ends.{Ends, ends, Ends-map, Ends-bind}
use libdsvdc.Handle.{Handle, Request, State, Env}
use libdsvdc.Instance.{cleanup_handle, close_some, close_sockets}
use libdsvdc.Memory.{Mem}
use libdsvdc.Process.Session.{descriptor}
use libdsvdc.Requests.Answers.{IsModest, Answerable, staying, answers}
use libdsvdc.Requests.Cleanup.{cleanup_request_list-Cleaned, CleanedUp, cleanup_request_list-idle}
use libdsvdc.Requests.Order.{Below}

-- What is closed: the listening socket and the connection, each if there is one.
abbrev pub sockets : Handle → List ℕ
sockets h = descriptor h.listen_fd ++ descriptor h.connected_fd

-- Nothing of an instance is left: no socket and no waiting request, and each waiting request has
-- been answered.
pub record Emptied (s t : State) : Type 0 where
  pub locks : t.locks ≡ s.locks
  pub closed : t.closed ≡ s.closed ++ sockets s.handle
  pub requests : t.handle.requests_list ≡ []
  pub listen_fd : t.handle.listen_fd ≡ none
  pub connected_fd : t.handle.connected_fd ≡ none
  pub calls :
      t.calls
      ≡ s.calls
        ++ answers false
            (s.clock s.ticks)
            err_not_connected
            s.handle.callback_userdata
            s.handle.requests_list
  pub grants : t.mem.grants ≡ s.mem.grants
  pub allocs : t.mem.allocs ≡ s.mem.allocs
  pub wire : t.wire ≡ s.wire

staying_none : (now : ℕ) (rs : List Request) → staying false now rs ≡ []
staying_none now [] = refl
staying_none now (r ∷ rs) = staying_none now rs

-- A socket that is closed if there is one.
close_some-Closed :
    (o : Option ℕ) (s : State)
    → Ends (λ _ t. t ≡ record s { closed = s.closed ++ descriptor o }) (close_some o s)
close_some-Closed none s = ends (ap (λ l. record s { closed = l }) (sym (append-nil s.closed)))
close_some-Closed (some fd) s = ends refl

-- The second half.
record Closed (s t : State) : Type 0 where
  locks : t.locks ≡ s.locks
  closed : t.closed ≡ s.closed ++ sockets s.handle
  requests : t.handle.requests_list ≡ s.handle.requests_list
  listen_fd : t.handle.listen_fd ≡ none
  connected_fd : t.handle.connected_fd ≡ none
  calls : t.calls ≡ s.calls
  mem : t.mem ≡ s.mem
  wire : t.wire ≡ s.wire

close_sockets-Closed : (env : Env) (s : State) → Ends (λ _ t. Closed s t) (close_sockets env s)
close_sockets-Closed env s =
    Ends-bind (close_some-Closed s.handle.listen_fd (record s { locks = s.locks + 1 })) λ _ t e.
      Ends-bind (close_some-Closed s.handle.connected_fd t) λ _ q f.
        let e' : q ≡ record s {
          locks = s.locks + 1;
          closed = (s.closed ++ descriptor s.handle.listen_fd) ++ descriptor s.handle.connected_fd;
        } =
          f
          ∙ ap (λ (u : State). record u { closed = u.closed ++ descriptor s.handle.connected_fd })
              e in
        ends (record {
          locks = rw e' (omega arith);
          closed = rw e' (append_assoc s.closed _ _);
          requests = ap (λ (u : State). u.handle.requests_list) e';
          listen_fd = refl;
          connected_fd = refl;
          calls = ap (λ (u : State). u.calls) e';
          mem = ap (λ (u : State). u.mem) e';
          wire = ap (λ (u : State). u.wire) e';
        })

close_sockets-Emptied :
    (env : Env) (s t : State)
    → CleanedUp false s t
    → Ends (λ _ q. Emptied s q) (close_sockets env t)
close_sockets-Emptied env s t (aside, (handle, calls)) =
    Ends-map (close_sockets-Closed env t) λ _ q c. record {
      locks = c.locks ∙ aside.locks;
      closed = c.closed ∙ rw (aside.closed, handle) refl;
      requests = c.requests ∙ rw handle (staying_none (s.clock s.ticks) s.handle.requests_list);
      listen_fd = c.listen_fd;
      connected_fd = c.connected_fd;
      calls = c.calls ∙ calls;
      grants = ap (λ (m : Mem). m.grants) c.mem ∙ aside.grants;
      allocs = ap (λ (m : Mem). m.allocs) c.mem ∙ aside.allocs;
      wire = c.wire ∙ aside.wire;
    }

-- Without a waiting request the application is not called.
pub cleanup_handle-idle :
    (env : Env) (s : State)
    → s.handle.requests_list ≡ []
    → Ends (λ _ t. Emptied s t) (cleanup_handle env s)
unfolding cleanup_handle
cleanup_handle-idle env s idle =
    Ends-bind (cleanup_request_list-idle env s idle) λ _ t c. close_sockets-Emptied env s t c

module _ (env : Env) (modest : IsModest env) where
  -- Where the addresses of the waiting requests fall from the newest to the oldest, each request
  -- has a callback, and the application does not use the library from inside a callback,
  -- `dsvdc_cleanup_handle` ends. The listening socket and the connection are closed then, each
  -- once and if there is one, each waiting request was called back for in the list's order with
  -- the code for a missing connection, no request waits, the mutex is held as often as before,
  -- and nothing was written or allocated.
  pub cleanup_handle-Emptied :
      (b : ℕ) (s : State)
      → Below b s.handle.requests_list
      → Answerable s.handle.requests_list
      → Ends (λ _ t. Emptied s t) (cleanup_handle env s)
  unfolding cleanup_handle
  cleanup_handle-Emptied b s w a =
      Ends-bind (cleanup_request_list-Cleaned env modest b false s w a)
        λ _ t c. close_sockets-Emptied env s t c
