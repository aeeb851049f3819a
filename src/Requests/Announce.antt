-- ===== src/Requests/Announce.antt =====
-- `dsvdc_announce_container` and `dsvdc_announce_device`: what they send and what they remember.
use libdsvdc.Base.{
  ℕ, ◌+◌, ◌%◌, ◌^◌, ◌-◌, ◌<◌, ◌≤◌, ◌≡◌, refl, inl, inr, true, false, Option, List, ◌∷◌, ◌++◌, Bytes,
  arith, Bool-cases, if◌then◌else◌,
}
use libdsvdc.Codes.{Code, dsvdc_ok, err_out_of_memory, is_ok}
use libdsvdc.Effects.{pure}
use libdsvdc.Effects.Ends.{Ends, ends, Ends-map, Ends-bind}
use libdsvdc.Handle.{Request, Handle, State, Env}
use libdsvdc.Memory.{Holding, malloc}
use libdsvdc.Message.{Body, MessageType, Outgoing}
use libdsvdc.Requests.{announce, next_id, remember}
use libdsvdc.Requests.Order.{Below, Below-weaken}
use libdsvdc.Send.Frame.{
  frame, Sent, delivered, no_memory, unconnected, cut_header, cut_body, send_message-Sent,
}

-- The request id after `id`, which is a uint32_t.
abbrev pub id_after : ℕ → ℕ
id_after id = (id + 1) % 2 ^ 32

-- The message of an announcement, with the next request id.
abbrev pub announcement : MessageType → Body → State → Outgoing
announcement type body s = record {
  type = type;
  has_message_id = true;
  message_id = id_after s.handle.request_id;
  body = body;
}

-- The handle after an announcement, with the list of requests given.
abbrev pub numbered : State → List Request → Handle
numbered s rs = record s.handle { request_id = id_after s.handle.request_id; requests_list = rs }

-- The request that an announcement remembers, in a block at `address`.
abbrev pub remembered_request : State → ℕ → Option ℕ → ℕ → Request
remembered_request s arg function address = record {
  address = address;
  message_id = id_after s.handle.request_id;
  timestamp = s.clock s.ticks;
  arg = arg;
  callback = function;
}

-- From `s`: the message went out and its request is the first of the list, in the newest block;
-- or the message went out and there was no memory to remember it; or the announcement failed.
pub data Announced (packed : Bytes) (arg : ℕ) (function : Option ℕ) (s t : State)
    : Code → Type 0 where
  remembered :
      (fd : ℕ)
      → t.wire ≡ s.wire ++ frame fd packed
      → t.handle
        ≡ numbered s (remembered_request s arg function t.mem.allocs ∷ s.handle.requests_list)
      → Holding s.mem t.mem 1
      → s.mem.allocs < t.mem.allocs
      → Announced packed arg function s t dsvdc_ok
  sent_only :
      (fd : ℕ)
      → t.wire ≡ s.wire ++ frame fd packed
      → t.handle ≡ numbered s s.handle.requests_list
      → Holding s.mem t.mem 0
      → s.mem.allocs ≤ t.mem.allocs
      → Announced packed arg function s t err_out_of_memory
  unsent :
      {code : Code}
      → is_ok code ≡ false
      → t.handle ≡ numbered s s.handle.requests_list
      → Holding s.mem t.mem 0
      → s.mem.allocs ≤ t.mem.allocs
      → Announced packed arg function s t code

abbrev pub AnnouncedWithLocks :
    Env → MessageType → Body → ℕ → Option ℕ → State → Code → State → Type 0
AnnouncedWithLocks env type body arg function s code t =
    (t.locks ≡ s.locks)
    × (t.mem.grants ≡ s.mem.grants)
    × Announced (env.pack (announcement type body s)) arg function s t code

module _ (env : Env) (type : MessageType) (body : Body) (arg : ℕ) (function : Option ℕ)
    (s : State) where
  -- The state after the id was taken.
  abbrev counted : State
  counted = record s { handle = numbered s s.handle.requests_list; locks = s.locks + 1 - 1 }

  then_remember :
      (code : Code) (t : State)
      → Sent env (announcement type body s) counted code t
      → Ends (AnnouncedWithLocks env type body arg function s) (
          (if is_ok code then remember (id_after s.handle.request_id) arg function else pure code)
            t)
  unfolding malloc
  then_remember code t (u, delivered fd e a g h w x) =
      elim (Bool-cases (t.mem.grants t.mem.calls)) [
        | inl granted ↦ simp granted (
            ends (
              omega (arith, u.locks),
              u.grants,
              remembered fd w (rw (u.handle, u.clock, u.ticks) refl) (omega (arith, u.blocks))
                  (omega (arith, u.grown)),
            ))
        | inr refused ↦ simp refused (
            ends (
              omega (arith, u.locks),
              u.grants,
              sent_only fd w u.handle (omega (arith, u.blocks)) (omega (arith, u.grown)),
            ))
      ]
  then_remember code t (u, no_memory fd e a w x) = ends (
    omega (arith, u.locks),
    u.grants,
    unsent refl u.handle (omega (arith, u.blocks)) (omega (arith, u.grown)),
  )
  then_remember code t (u, unconnected e w x) = ends (
    omega (arith, u.locks),
    u.grants,
    unsent refl u.handle (omega (arith, u.blocks)) (omega (arith, u.grown)),
  )
  then_remember code t (u, cut_header fd e a h w x) = ends (
    omega (arith, u.locks),
    u.grants,
    unsent refl u.handle (omega (arith, u.blocks)) (omega (arith, u.grown)),
  )
  then_remember code t (u, cut_body fd e a g h w x) = ends (
    omega (arith, u.locks),
    u.grants,
    unsent refl u.handle (omega (arith, u.blocks)) (omega (arith, u.grown)),
  )

  -- Whatever happens, an announcement returns, with the mutex held as often as before and the
  -- next request id taken. It answers DSVDC_OK only when its message went out whole and its
  -- request, under that id, stands in front of the unchanged others, in one new block; in all
  -- other cases the requests are unchanged and no block is kept, though the message may have gone
  -- out.
  pub announce-Announced :
      Ends (AnnouncedWithLocks env type body arg function s) (announce env type body arg function s)
  unfolding announce next_id
  announce-Announced =
      Ends-bind (send_message-Sent env (announcement type body s) counted) then_remember

-- Where the addresses of the waiting requests fall from the newest to the oldest, and none is
-- above the number of allocations so far, an announcement, however it ends, leaves them so.
pub announce-Below :
    (env : Env) (type : MessageType) (body : Body) (arg : ℕ) (function : Option ℕ) (s : State)
    → Below (s.mem.allocs + 1) s.handle.requests_list
    → Ends
        (λ code t. Below (t.mem.allocs + 1) t.handle.requests_list)
        (announce env type body arg function s)
announce-Below env type body arg function s w =
    Ends-map (announce-Announced env type body arg function s) in_order
  where
    in_order :
        (code : Code) (t : State)
        → AnnouncedWithLocks env type body arg function s code t
        → Below (t.mem.allocs + 1) t.handle.requests_list
    in_order code t (l, m, remembered fd wire h k g) = rw h (
      omega arith,
      Below-weaken (s.mem.allocs + 1) t.mem.allocs s.handle.requests_list (omega arith) w,
    )
    in_order code t (l, m, sent_only fd wire h k g) =
        rw h (
          Below-weaken (s.mem.allocs + 1) (t.mem.allocs + 1) s.handle.requests_list (omega arith) w)
    in_order code t (l, m, unsent fails h k g) =
        rw h (
          Below-weaken (s.mem.allocs + 1) (t.mem.allocs + 1) s.handle.requests_list (omega arith) w)
