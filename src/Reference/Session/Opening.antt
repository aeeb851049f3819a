-- ===== src/Reference/Session/Opening.antt =====
-- `new_session_cb`: which announcements go out and which requests wait afterwards.
use libdsvdc.Base.{ℕ, ◌<◌, ◌≡◌, refl, ◌∙◌, true, if◌then◌else◌, some, List, ◌∷◌, ◌++◌, Bytes, arith}
use libdsvdc.Codes.{Code, is_ok}
use libdsvdc.Effects.{skip, ◌>>=◌}
use libdsvdc.Effects.Ends.{Ends, ends, Ends-bind}
use libdsvdc.Handle.{Request, Handle, State, Env}
use libdsvdc.Memory.{Holding}
use libdsvdc.Message.{
  vdc_send_announce_vdc_type, vdc_send_announce_device_type, vdc_send_announce_vdc,
  vdc_send_announce_device,
}
use libdsvdc.Reference.Session.{
  new_session, announce_container_cb, announce_device_cb, vdc_dsuid_address, dev_dsuid_address,
}
use libdsvdc.Reference.Site.{Site, Globals}
use libdsvdc.Requests.{announce_container, announce_device}
use libdsvdc.Requests.Announce.{
  Announced, announcement, id_after, remembered, sent_only, unsent, announce-Announced,
}
use libdsvdc.Send.Frame.{frame}

module _ (env : Env) (g : Globals) (s : State) where
  -- The ids and the packed messages of the two announcements.
  abbrev container_id : ℕ
  container_id = id_after s.handle.request_id

  abbrev device_id : ℕ
  device_id = id_after container_id

  abbrev container_message : Bytes
  container_message = env.pack (record {
    type = vdc_send_announce_vdc_type;
    has_message_id = true;
    message_id = container_id;
    body = vdc_send_announce_vdc (some g.vdc_dsuid);
  })

  abbrev device_message : Bytes
  device_message = env.pack (record {
    type = vdc_send_announce_device_type;
    has_message_id = true;
    message_id = device_id;
    body = vdc_send_announce_device (some g.dev_dsuid) (some g.vdc_dsuid);
  })

  -- The two requests, in blocks at `address`.
  abbrev container_request : ℕ → ℕ → Request
  container_request address now = record {
    address = address;
    message_id = container_id;
    timestamp = now;
    arg = vdc_dsuid_address;
    callback = some announce_container_cb;
  }

  abbrev device_request : ℕ → ℕ → Request
  device_request address now = record {
    address = address;
    message_id = device_id;
    timestamp = now;
    arg = dev_dsuid_address;
    callback = some announce_device_cb;
  }

  -- The handle with the id last given out and the requests that wait.
  abbrev waiting : ℕ → List Request → Handle
  waiting id rs = record s.handle { request_id = id; requests_list = rs }

  -- From `s`: both announcements went out and both requests wait; or the container's request waits
  -- and the device's was not remembered; or no request was added.
  pub data Opened (t : State) : Type 0 where
    both :
        (fd fd' a b now now' : ℕ)
        → a < b
        → t.wire ≡ (s.wire ++ frame fd container_message) ++ frame fd' device_message
        → t.handle
          ≡ waiting device_id
              (device_request b now' ∷ container_request a now ∷ s.handle.requests_list)
        → Holding s.mem t.mem 2
        → Opened t
    container_only :
        (a now : ℕ)
        → t.handle ≡ waiting device_id (container_request a now ∷ s.handle.requests_list)
        → Holding s.mem t.mem 1
        → Opened t
    neither :
        t.handle ≡ waiting container_id s.handle.requests_list → Holding s.mem t.mem 0 → Opened t

  -- The device's announcement, in the state `t` behind that of the container.
  device_announced :
      (fd : ℕ) (t q : State) (code : Code)
      → t.wire ≡ s.wire ++ frame fd container_message
      → t.handle
        ≡ waiting container_id
            (container_request t.mem.allocs (s.clock s.ticks) ∷ s.handle.requests_list)
      → Holding s.mem t.mem 1
      → Announced
          (env.pack (
            announcement vdc_send_announce_device_type
              (vdc_send_announce_device (some g.dev_dsuid) (some g.vdc_dsuid))
              t))
          dev_dsuid_address
          (some announce_device_cb)
          t
          q
          code
      → Opened q
  device_announced fd t q code w h k (remembered fd' wire handle held grown) =
      both fd fd' t.mem.allocs q.mem.allocs (s.clock s.ticks) (t.clock t.ticks) grown
        (rw (wire, w, h) refl) (rw (handle, h) refl) (omega (arith, k, held))
  device_announced fd t q code w h k (sent_only fd' wire handle held grown) =
      container_only t.mem.allocs (s.clock s.ticks) (rw (handle, h) refl) (omega (arith, k, held))
  device_announced fd t q code w h k (unsent fails handle held grown) =
      container_only t.mem.allocs (s.clock s.ticks) (rw (handle, h) refl) (omega (arith, k, held))

module _ (env : Env) (site : Site) (g : Globals) (s : State) where
  -- Whatever happens, `new_session_cb` returns, with the mutex held as often as before. The device
  -- is announced only after the container's announcement was answered with DSVDC_OK. Either both
  -- messages went out, the container's first and under the next two ids, and both requests wait,
  -- the device's in front and behind it the container's; or only the container's request waits,
  -- with both ids taken; or no request was added and one id is taken. For each request that was
  -- added one block is held, and the requests from before are unchanged behind them.
  pub new_session-Opened :
      Ends (λ _ t. (t.locks ≡ s.locks) × Opened env g s t) (new_session env site g s)
  unfolding new_session announce_container announce_device
  new_session-Opened =
      Ends-bind
        (announce-Announced env vdc_send_announce_vdc_type
          (vdc_send_announce_vdc (some g.vdc_dsuid)) vdc_dsuid_address (some announce_container_cb)
          s)
        then_device
    where
      then_device :
          (code : Code) (t : State)
          → (t.locks ≡ s.locks)
            × (t.mem.grants ≡ s.mem.grants)
            × Announced
                (container_message env g s)
                vdc_dsuid_address
                (some announce_container_cb)
                s
                t
                code
          → Ends
              (λ _ q. (q.locks ≡ s.locks) × Opened env g s q)
              ((if is_ok code
                  then (announce_device env
                        (some g.vdc_dsuid)
                        (some g.dev_dsuid)
                        dev_dsuid_address
                        (some announce_device_cb)
                      >>= λ _. skip)
                  else skip)
                t)
      then_device code t (l, m, remembered fd wire h k grown) =
          Ends-bind
            (announce-Announced env vdc_send_announce_device_type
              (vdc_send_announce_device (some g.dev_dsuid) (some g.vdc_dsuid)) dev_dsuid_address
              (some announce_device_cb) t)
            λ code' q (l', m', a). ends (l' ∙ l, device_announced env g s fd t q code' wire h k a)
      then_device code t (l, m, sent_only fd wire h k grown) = ends (l, neither h k)
      then_device code t (l, m, unsent fails h k grown) = simp fails (ends (l, neither h k))
