-- ===== src/Invariant/Careful.antt =====
-- What a callback of the application may do: use the library, and leave the instance sound.
use libdsvdc.Base.{◌≡◌, refl, sym, ◌∙◌, true, List, [], ◌++◌, append_assoc, is_some}
use libdsvdc.Handle.{Request, Call, State, Env}
use libdsvdc.Invariant.{IsSound, Kept, Kept-trans}
use libdsvdc.Requests.Answers.{IsModest}

-- After a callback: the instance is sound, the mutex is held as often as before, a connection is
-- still there, and all that was done to the requests is that newer ones were put in front.
pub record Attended (s t : State) : Type 0 where
  pub kept : Kept s t
  pub still : is_some s.handle.connected_fd ≡ true → is_some t.handle.connected_fd ≡ true
  pub newer : List Request
  pub requests : t.handle.requests_list ≡ newer ++ s.handle.requests_list

-- An application whose callbacks may announce, answer, push and allocate, but neither take the
-- connection down nor take requests away.
pub record IsCareful (env : Env) : Type 0 where
  pub attends : (c : Call) (s : State) → IsSound s.handle s.mem → Attended s (env.react c s).0

-- An application that does not use the library at all is one.
pub IsModest-IsCareful : {env : Env} → IsModest env → IsCareful env
IsModest-IsCareful modest = record {
  attends = λ c s v. record {
    kept = record { sound = rw (modest.handle c s, modest.mem c s) v; locks = modest.locks c s };
    still = λ e. rw (modest.handle c s) e;
    newer = [];
    requests = rw (modest.handle c s);
  };
}

pub Attended-refl : {s : State} → IsSound s.handle s.mem → Attended s s
Attended-refl v = record {
  kept = record { sound = v; locks = refl };
  still = λ c. c;
  newer = [];
  requests = refl;
}

pub Attended-trans : {s t q : State} → Attended s t → Attended t q → Attended s q
Attended-trans {s} a b = record {
  kept = Kept-trans a.kept b.kept;
  still = λ c. b.still (a.still c);
  newer = b.newer ++ a.newer;
  requests = b.requests ∙ rw a.requests (sym (append_assoc b.newer a.newer s.handle.requests_list));
}
