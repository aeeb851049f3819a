-- ===== src/Work/Keeping.antt =====
-- A whole turn of `dsvdc_work` keeps an instance sound and gives the mutex back.
use libdsvdc.Base.{
  ℕ, ◌+◌, ◌≡◌, ◌≢◌, refl, inl, inr, Bool, true, false, Bool-cases, Option, none, some,
  if◌then◌else◌, is_some, arith,
}
use libdsvdc.Dispatch.Keeping.{UnpacksFormed}
use libdsvdc.Effects.{skip}
use libdsvdc.Effects.Ends.{Ends, ends, Ends-map, Ends-bind}
use libdsvdc.Handle.{State, Env, fits_fd_set}
use libdsvdc.Invariant.{IsSound, IsSound-grown}
use libdsvdc.Invariant.Careful.{IsCareful}
use libdsvdc.Requests.Keeping.{Passed, cleanup_request_list-Passed}
use libdsvdc.Work.{Poll, admit, accept_connection, serve_sockets, work}
use libdsvdc.Work.Rejection.{reject-Rejected}
use libdsvdc.Work.Reading.{Done, unlock-Done, from_connection-Finishes}

-- In a turn, the three calls on a mutex succeed, and `accept` gives a descriptor that an `fd_set`
-- can hold.
pub record IsRegular (poll : Poll) : Type 0 where
  pub attr_init : poll.setup.attr_init ≡ true
  pub attr_settype : poll.setup.attr_settype ≡ true
  pub mutex_init : poll.setup.mutex_init ≡ true
  pub accepted : fits_fd_set poll.accepted ≡ true

module _ (env : Env) (careful : IsCareful env) (whole : UnpacksFormed env) (poll : Poll)
    (timeout : ℕ) (timed : timeout ≢ 0) where
  admit-Passed :
      (new_fd : ℕ) (o : Option ℕ) (s : State)
      → s.handle.connected_fd ≡ o
      → fits_fd_set (some new_fd) ≡ true
      → IsRegular poll
      → IsSound s.handle s.mem
      → Ends (λ _ t. Passed s t) (admit env poll timeout new_fd o s)
  admit-Passed new_fd none s e low up v = ends (record {
    kept = record {
      sound = record {
        ordered = v.ordered;
        answerable = v.answerable;
        connected = λ _. refl;
        listening = v.listening;
        watched = low;
        plentiful = v.plentiful;
      };
      locks = refl;
    };
    still = λ _. refl;
  })
  admit-Passed new_fd (some fd) s e low up v =
      Ends-map
        (reject-Rejected env poll timeout new_fd s up.attr_init up.attr_settype up.mutex_init)
        λ _ t r. record {
          kept = record { sound = rw r.handle (IsSound-grown v r.grown r.grants); locks = r.locks };
          still = λ c. rw r.handle c;
        }

  accept_connection-Passed :
      (o : Option ℕ) (s : State)
      → fits_fd_set o ≡ true
      → IsRegular poll
      → IsSound s.handle s.mem
      → Ends (λ _ t. Passed s t) (accept_connection env poll timeout o s)
  accept_connection-Passed none s low up v =
      ends (record { kept = record { sound = v; locks = refl }; still = λ c. c })
  accept_connection-Passed (some new_fd) s low up v =
      admit-Passed new_fd s.handle.connected_fd s refl low up v

  serve_sockets-Done :
      (n : ℕ) (connected : Bool) (o : Option (Bool × Bool)) (s : State)
      → (connected ≡ true → is_some s.handle.connected_fd ≡ true)
      → IsRegular poll
      → IsSound s.handle s.mem
      → s.locks ≡ n + 1
      → Ends (λ _ t. Done n t) (serve_sockets env poll timeout connected o s)
  serve_sockets-Done n connected none s c up v l = unlock-Done n s v l
  serve_sockets-Done n connected (some (incoming, readable)) s c up v l =
      Ends-bind (accepted incoming) λ _ t r. elim (Bool-cases connected) [
        | inl both ↦ simp both (
            from_connection-Finishes env careful whole poll timeout timed readable n t r.kept.sound
              (r.still (c both)) (omega (arith, r.kept.locks, l)))
        | inr deaf ↦ simp deaf (unlock-Done n t r.kept.sound (omega (arith, r.kept.locks, l)))
      ]
    where
      accepted :
          (b : Bool)
          → Ends
              (λ _ t. Passed s t)
              ((if b then accept_connection env poll timeout poll.accepted else skip) s)
      accepted true = accept_connection-Passed poll.accepted s up.accepted up v
      accepted false = ends (record { kept = record { sound = v; locks = refl }; still = λ c. c })

  -- Where each callback of the application ends and leaves a sound instance sound, with the mutex
  -- as it was, the connection there and no waiting request taken away, whatever it sends or
  -- announces, unpacking gives well-formed property requests (each array has as many elements as its
  -- count says, and all bytes are as long as they say), the timeout is not 0, the second handle can
  -- be set up and `accept` gives a descriptor below FD_SETSIZE if it gives one, a turn of
  -- `dsvdc_work` on a sound instance ends, with no undefined behaviour, whatever `select` and the
  -- peer give, and leaves a sound instance with the mutex held as often as before the turn. An
  -- instance is sound where it has a listening socket, that and the connection are below
  -- FD_SETSIZE, its waiting requests lie in order and each has a callback, a session has a
  -- connection, and memory does not run out.
  pub work-Done :
      (s : State)
      → IsRegular poll
      → IsSound s.handle s.mem
      → Ends (λ _ t. Done s.locks t) (work env poll timeout true s)
  unfolding work
  work-Done s up v =
      Ends-bind
        (cleanup_request_list-Passed env careful (is_some s.handle.connected_fd)
          (record s { locks = s.locks + 1 }) v)
        λ _ t r.
          simp (r.kept.sound.listening, r.kept.sound.watched)
            (serve_sockets-Done s.locks _ poll.selected t r.still up r.kept.sound r.kept.locks)
