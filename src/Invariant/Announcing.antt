-- ===== src/Invariant/Announcing.antt =====
-- An announcement keeps an instance sound, and puts at most one request in front of the others.
use libdsvdc.Base.{ℕ, ◌+◌, ◌≤◌, ◌≡◌, ap, some, [], ◌∷◌, Bytes, arith}
use libdsvdc.Codes.{Code}
use libdsvdc.Effects.Ends.{Ends, Ends-map}
use libdsvdc.Handle.{Handle, State, Env}
use libdsvdc.Invariant.{IsSound, IsSound-grown}
use libdsvdc.Invariant.Careful.{Attended}
use libdsvdc.Message.{MessageType, Body}
use libdsvdc.Requests.{announce}
use libdsvdc.Requests.Announce.{
  Announced, numbered, remembered_request, remembered, sent_only, unsent, announce-Announced,
}
use libdsvdc.Requests.Order.{Below-weaken}

module _ (s t : State) (v : IsSound s.handle s.mem) (g : t.mem.grants ≡ s.mem.grants)
    (l : t.locks ≡ s.locks) where
  -- The request was not remembered.
  counted-Attended :
      s.mem.allocs ≤ t.mem.allocs → t.handle ≡ numbered s s.handle.requests_list → Attended s t
  counted-Attended grown h =
      let w = IsSound-grown {n = t.mem} v grown g in
      record {
        kept = record {
          sound = rw h (record {
            ordered = w.ordered;
            answerable = w.answerable;
            connected = w.connected;
            listening = w.listening;
            watched = w.watched;
            plentiful = w.plentiful;
          });
          locks = l;
        };
        still = λ c. rw h c;
        newer = [];
        requests = ap (λ (x : Handle). x.requests_list) h;
      }

  announcement-Attended :
      (packed : Bytes) (arg f : ℕ) (code : Code)
      → Announced packed arg (some f) s t code
      → Attended s t
  announcement-Attended packed arg f code (remembered fd wire h k grown) = record {
    kept = record {
      sound = rw h (record {
        ordered = (
          omega arith,
          Below-weaken (s.mem.allocs + 1) t.mem.allocs s.handle.requests_list (omega arith)
              v.ordered,
        );
        answerable = (λ e. absurd cc, v.answerable);
        connected = v.connected;
        listening = v.listening;
        watched = v.watched;
        plentiful = rw g v.plentiful;
      });
      locks = l;
    };
    still = λ c. rw h c;
    newer = remembered_request s arg (some f) t.mem.allocs ∷ [];
    requests = ap (λ (x : Handle). x.requests_list) h;
  }
  announcement-Attended packed arg f code (sent_only fd wire h k grown) = counted-Attended grown h
  announcement-Attended packed arg f code (unsent fails h k grown) = counted-Attended grown h

pub announce-Attended :
    (env : Env) (type : MessageType) (body : Body) (arg f : ℕ) (s : State)
    → IsSound s.handle s.mem
    → Ends (λ _ t. Attended s t) (announce env type body arg (some f) s)
announce-Attended env type body arg f s v =
    Ends-map (announce-Announced env type body arg (some f) s)
      λ code t (l, g, a). announcement-Attended s t v g l _ arg f code a
