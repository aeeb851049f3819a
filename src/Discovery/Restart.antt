-- ===== src/Discovery/Restart.antt =====
-- `dsvdc_discovery_work` when the connection to the daemon is lost.
use libdsvdc.Base.{
  ℕ, ◌+◌, ◌-◌, ◌≡◌, refl, ◌∙◌, inl, inr, ◌⊎◌, true, Bool-cases, Option, none, some, Bytes, arith,
}
use libdsvdc.Discovery.{free_temp, copy_name, reinit, discovery_work}
use libdsvdc.Discovery.Up.{IsUp, Kept, IsSettled, Enough}
use libdsvdc.Discovery.Events.{handle_events-Kept}
use libdsvdc.Discovery.World.{live, Daemon, Announcer, undefined, Ends, ends, Ends-bind}
use libdsvdc.Memory.{Mem, malloc, free}
use libdsvdc.Discovery.Init.{
  IsReachable, IsLost, Begun, relocked, discovery_cleanup-Cleared, discovery_init-Begun,
}

module _ (daemon : Daemon) (n : ℕ) (settles : IsSettled daemon n) (fuel l : ℕ) where
  -- The copy of the name takes nothing of discovery.
  copy_name-Kept :
      (name : Bytes) (w : Announcer)
      → IsUp w
      → Ends (λ _ v. Kept w v) (copy_name daemon (some name) w)
  unfolding malloc
  copy_name-Kept name w u = elim (Bool-cases (w.mem.grants w.mem.calls)) [
    | inl granted ↦ simp granted (ends (same _))
    | inr refused ↦ simp refused (ends (same _))
  ]
    where
      same : (m : Mem) → Kept w (record w { mem = m })
      same m = record {
        up = record { poll = u.poll; name = u.name; group = u.group; client = u.client };
        locks = refl;
        asked = omega arith;
      }

  free_temp-Begun :
      (o : Option Bytes) (w : Announcer)
      → Begun daemon l w
      → Ends (λ _ v. Begun daemon l v) (free_temp daemon o w)
  unfolding free
  free_temp-Begun none w b = ends b
  free_temp-Begun (some name) w b = ends (record {
    locks = b.locks;
    outcome = still b.outcome;
    restored = λ r. relocked w.locks (record w.mem { frees = w.mem.frees + 1 }) (b.restored r);
  })
    where
      still :
          IsUp w ⊎ IsLost w
          → IsUp (record w { mem = record w.mem { frees = w.mem.frees + 1 } }) ⊎ IsLost w
      still (inl u) = inl (relocked w.locks (record w.mem { frees = w.mem.frees + 1 }) u)
      still (inr lost) = inr lost

  reinit-Begun :
      (w : Announcer)
      → Enough n fuel w.asked
      → IsUp w
      → w.locks ≡ l
      → Ends (λ _ v. Begun daemon l v) (reinit daemon fuel w)
  reinit-Begun w (pos, lt) u h =
      let (name, e) = u.name in
      simp e (
        Ends-bind (copy_name-Kept name w u) λ temp_name v k.
          Ends-bind (discovery_cleanup-Cleared daemon v k.up) λ _ q c.
            Ends-bind
              (discovery_init-Begun daemon n settles fuel l temp_name q.noauto q
                (pos, omega (arith, c.asked, k.asked)) c.group c.client (c.locks ∙ k.locks ∙ h))
              λ _ r b. free_temp-Begun temp_name r b)

-- Whatever comes, a call on an instance whose poll is not there is undefined.
abbrev pub IsStranded : Daemon → Announcer → Type 0
IsStranded daemon w = (fuel : ℕ) → discovery_work daemon fuel true w ≡ undefined

-- What a turn leaves.
pub record Worked (daemon : Daemon) (w v : Announcer) : Type 0 where
  pub locks : v.locks ≡ w.locks
  pub outcome : IsUp v ⊎ IsStranded daemon v
  pub served : (daemon.iterate w.asked).1 ≡ true → IsUp v
  pub restored : IsReachable daemon → IsUp v

module _ (daemon : Daemon) (n : ℕ) (settles : IsSettled daemon n) where
  lost-IsStranded : (w : Announcer) → IsLost w → IsStranded daemon w
  unfolding discovery_work
  lost-IsStranded w (inl e) fuel = simp e refl
  lost-IsStranded w (inr e) fuel = simp e refl

  -- Where the poll, the client and the name are there, another name is always found after a
  -- collision and collisions stop, and the fuel exceeds the calls of Avahi until then, a call of
  -- `dsvdc_discovery_work` ends with the mutex held as often as before, whatever callbacks it
  -- makes. While the poll works, and when it fails and the connection can be made again, poll and
  -- name are there afterwards and no pointer leads to a freed object. Otherwise it can be that
  -- they are not, and then every later call is undefined.
  pub discovery_work-Worked :
      (fuel : ℕ) (w : Announcer)
      → Enough n fuel w.asked
      → IsUp w
      → Ends (λ _ v. Worked daemon w v) (discovery_work daemon fuel true w)
  unfolding discovery_work
  discovery_work-Worked fuel w (pos, lt) u =
      let start : Announcer = record w {
        avahi_poll = live tt;
        locks = w.locks + 1;
        asked = w.asked + 1;
      } in
      let up : IsUp start = record {
        poll = refl;
        name = u.name;
        group = u.group;
        client = u.client;
      } in
      simp u.poll (
        Ends-bind
          (handle_events-Kept daemon n settles fuel (daemon.iterate w.asked).0 start
            (pos, omega arith) up)
          λ _ v k. elim (Bool-cases (daemon.iterate w.asked).1) [
            | inl fine ↦ simp fine (
                ends (
                  let still = relocked (v.locks - 1) v.mem k.up in
                  record {
                    locks = omega (arith, k.locks);
                    outcome = inl still;
                    served = λ _. still;
                    restored = λ _. still;
                  }))
            | inr broken ↦ simp broken (
                Ends-bind
                  (reinit-Begun daemon n settles fuel v.locks v (pos, omega (arith, k.asked)) k.up
                    refl)
                  λ _ q b. ends (record {
                    locks = omega (arith, k.locks, b.locks);
                    outcome = left_over q b.outcome;
                    served = λ fine. absurd cc;
                    restored = λ r. relocked (q.locks - 1) q.mem (b.restored r);
                  }))
          ])
    where
      left_over :
          (q : Announcer)
          → IsUp q ⊎ IsLost q
          → IsUp (record q { locks = q.locks - 1 })
            ⊎ IsStranded daemon (record q { locks = q.locks - 1 })
      left_over q (inl u') = inl (relocked (q.locks - 1) q.mem u')
      left_over q (inr lost) = inr (lost-IsStranded (record q { locks = q.locks - 1 }) lost)
