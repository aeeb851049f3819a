-- ===== src/Process/Session.antt =====
-- The end of a session, by BYE.
use libdsvdc.Base.{
  ℕ, ◌+◌, ◌≡◌, refl, sym, ap, ◌∙◌, Bool, true, false, Option, none, some, List, [], ◌∷◌, ◌++◌,
  Bytes, arith, append-nil,
}
use libdsvdc.Effects.Ends.{Ends, ends, Ends-bind}
use libdsvdc.Handle.{Handle, State, Env, Call, nothing}
use libdsvdc.Message.{Message, Addressed}
use libdsvdc.Process.{disconnect, end_session, process_bye, leave, take_leave}
use mathlib.Core.Path.{subst}
use libdsvdc.Requests.Answers.{IsModest}

-- The handle without its connection, and without its session.
abbrev pub disconnected : Handle → Handle
disconnected h = record h { connected_fd = none }

abbrev pub ended : Handle → Handle
ended h = record h { session = false }

-- The descriptor that is to be closed.
abbrev pub descriptor : Option ℕ → List ℕ
descriptor none = []
descriptor (some fd) = fd ∷ []

-- The call of the application at the end of a session.
abbrev pub farewell : Bool → Option ℕ → ℕ → List Call
farewell true (some f) userdata =
    (record { function = f; arguments = nothing; userdata = userdata }) ∷ []
farewell _ _ userdata = []

-- The connection is gone.
pub record Disconnected (s t : State) : Type 0 where
  pub handle : t.handle ≡ disconnected s.handle
  pub locks : t.locks ≡ s.locks
  pub mem : t.mem ≡ s.mem
  pub calls : t.calls ≡ s.calls
  pub closed : t.closed ≡ s.closed ++ descriptor s.handle.connected_fd

pub disconnect-Disconnected :
    (env : Env) (s : State) → Ends (λ _ t. Disconnected s t) (disconnect env s)
unfolding disconnect
disconnect-Disconnected env s = by_descriptor s.handle.connected_fd refl
  where
    by_descriptor :
        (o : Option ℕ)
        → s.handle.connected_fd ≡ o
        → Ends (λ _ t. Disconnected s t) (disconnect env s)
    by_descriptor none e = simp e (
        ends (record {
          handle = ap (λ o. record s.handle { connected_fd = o }) e;
          locks = refl;
          mem = refl;
          calls = refl;
          closed = sym (ap (λ o. s.closed ++ descriptor o) e ∙ append-nil s.closed);
        }))
    by_descriptor (some fd) e = simp e (
        ends (record {
          handle = refl;
          locks = refl;
          mem = refl;
          calls = refl;
          closed = ap (λ o. s.closed ++ descriptor o) (sym e);
        }))

-- The session is over, and the application was told once, if there was one.
pub record Ended (s t : State) : Type 0 where
  pub handle : t.handle ≡ ended s.handle
  pub locks : t.locks ≡ s.locks
  pub mem : t.mem ≡ s.mem
  pub closed : t.closed ≡ s.closed
  pub calls :
      t.calls
      ≡ s.calls
        ++ farewell s.handle.session s.handle.callbacks.vdsm_end_session s.handle.callback_userdata

-- Both, under the mutex.
pub record Left (s t : State) : Type 0 where
  pub handle : t.handle ≡ ended (disconnected s.handle)
  pub locks : t.locks ≡ s.locks
  pub mem : t.mem ≡ s.mem
  pub closed : t.closed ≡ s.closed ++ descriptor s.handle.connected_fd
  pub calls :
      t.calls
      ≡ s.calls
        ++ farewell s.handle.session s.handle.callbacks.vdsm_end_session s.handle.callback_userdata

module _ (env : Env) (modest : IsModest env) where
  -- Ending a session leaves none, and tells the application once, if there was one.
  pub end_session-Ended : (s : State) → Ends (λ _ t. Ended s t) (end_session env s)
  unfolding end_session
  end_session-Ended s = by_session s.handle.session s.handle.callbacks.vdsm_end_session refl refl
    where
      told :
          {b : Bool} {o : Option ℕ}
          → s.handle.session ≡ b
          → s.handle.callbacks.vdsm_end_session ≡ o
          → s.calls
              ++ farewell s.handle.session s.handle.callbacks.vdsm_end_session
                  s.handle.callback_userdata
            ≡ s.calls ++ farewell b o s.handle.callback_userdata
      told {b} {o} e f =
          ap
            (λ b.
              s.calls ++ farewell b s.handle.callbacks.vdsm_end_session s.handle.callback_userdata)
            e
          ∙ ap (λ o. s.calls ++ farewell b o s.handle.callback_userdata) f

      by_session :
          (b : Bool) (o : Option ℕ)
          → s.handle.session ≡ b
          → s.handle.callbacks.vdsm_end_session ≡ o
          → Ends (λ _ t. Ended s t) (end_session env s)
      by_session false o e f = simp e (
          ends (record {
            handle = ap (λ b. record s.handle { session = b }) e;
            locks = refl;
            mem = refl;
            closed = refl;
            calls = sym (
                ap
                  (λ b.
                    s.calls
                    ++ farewell b s.handle.callbacks.vdsm_end_session s.handle.callback_userdata)
                  e
                ∙ append-nil s.calls);
          }))
      by_session true none e f =
          simp (e, f)
            (ends (record {
              handle = refl;
              locks = refl;
              mem = refl;
              closed = refl;
              calls = sym (told e f ∙ append-nil s.calls);
            }))
      by_session true (some g) e f =
          simp (e, f)
            (ends (record {
              handle = modest.handle _ _;
              locks = modest.locks _ _;
              mem = modest.mem _ _;
              closed = modest.closed _ _;
              calls = modest.calls _ _ ∙ sym (told e f);
            }))

  -- After BYE with a dSUID, where the application does not use the library from inside a
  -- callback, there is no connection and no session; the connection was closed once, if there was
  -- one, the application was told once, if there was a session, and the mutex is held as often as
  -- before.
  pub process_bye-Ended :
      (msg : Message) (bye : Addressed) (dsuid : Bytes) (s : State)
      → msg.vdsm_send_bye ≡ some bye
      → bye.dsuid ≡ some dsuid
      → Ends (λ _ t. Left s t) (process_bye env msg s)
  unfolding process_bye
  process_bye-Ended msg bye dsuid s m d =
      subst (λ o. Ends (λ _ t. Left s t) (take_leave env o s)) (sym m)
        (subst (λ o. Ends (λ _ t. Left s t) (leave env o s)) (sym d)
          (Ends-bind (disconnect-Disconnected env (record s { locks = s.locks + 1 })) λ _ t c.
            Ends-bind (end_session-Ended t) λ _ q g. ends (record {
              handle = g.handle ∙ ap ended c.handle;
              locks = omega (arith, g.locks, c.locks);
              mem = g.mem ∙ c.mem;
              closed = g.closed ∙ c.closed;
              calls = g.calls ∙ rw (c.handle, c.calls) refl;
            })))
