-- ===== src/Discovery/Init.antt =====
-- What `dsvdc_discovery_cleanup` and `dsvdc_discovery_init` leave.
use libdsvdc.Base.{
  ℕ, ◌+◌, ◌-◌, ◌≡◌, ◌≢◌, refl, inl, inr, ◌⊎◌, Bool, true, false, Option, none, some, List, Bytes,
  arith,
}
use libdsvdc.Discovery.{
  init_client, init_name, init_poll, name_or_default, discovery_init, discovery_cleanup,
}
use libdsvdc.Discovery.Callbacks.{drop_object}
use libdsvdc.Discovery.Up.{is_freed, IsUp, IsSettled, Enough}
use libdsvdc.Discovery.Events.{handle_states-Kept}
use libdsvdc.Discovery.World.{
  Pointer, null, freed, live, ClientState, Daemon, Announcer, Ends, ends, Ends-bind,
}
use libdsvdc.Memory.{Mem}

-- Nothing is left: what `dsvdc_discovery_cleanup` gives.
pub record Cleared (w v : Announcer) : Type 0 where
  pub group : v.avahi_group ≡ null
  pub client : v.avahi_client ≡ null
  pub poll : v.avahi_poll ≡ null
  pub name : v.avahi_name ≡ null
  pub locks : v.locks ≡ w.locks
  pub asked : v.asked ≡ w.asked

drop_object-ok :
    {A : Type 0} (p : Pointer A) (w : Announcer)
    → is_freed p ≡ false
    → Ends (λ _ v. (j : ℕ) × (v ≡ record w { objects = j })) (drop_object p w)
drop_object-ok null w safe = ends (w.objects, refl)
drop_object-ok freed w safe = absurd cc
drop_object-ok (live _) w safe = ends (w.objects - 1, refl)

pub discovery_cleanup-Cleared :
    (daemon : Daemon) (w : Announcer)
    → IsUp w
    → Ends (λ _ v. Cleared w v) (discovery_cleanup daemon true w)
unfolding discovery_cleanup
discovery_cleanup-Cleared daemon w u =
    Ends-bind (drop_object-ok w.avahi_group (record w { locks = w.locks + 1 }) u.group)
      λ _ a (i, ea). Ends-bind (drop_object-ok w.avahi_client a u.client) λ _ b (j, eb).
        Ends-bind (drop_object-ok w.avahi_poll b (rw u.poll refl)) λ _ c (k, ec).
          Ends-bind (drop_object-ok w.avahi_name c (rw (u.name.1) refl)) λ _ d (l, ed).
            ends (record {
              group = refl;
              client = refl;
              poll = refl;
              name = refl;
              locks = rw (ed, ec, eb, ea) (omega arith);
              asked = rw (ed, ec, eb, ea) refl;
            })

-- The poll is not there, so that the next call uses it in vain.
abbrev pub IsLost : Announcer → Type 0
IsLost w = (w.avahi_poll ≡ null) ⊎ (w.avahi_poll ≡ freed)

-- The daemon can be reached, and memory suffices for what Avahi makes.
pub record IsReachable (daemon : Daemon) : Type 0 where
  pub poll_new : (k : ℕ) → daemon.poll_new k ≡ true
  pub strdup : (k : ℕ) → daemon.strdup k ≡ true
  pub client_new : (k : ℕ) → daemon.client_new k ≢ none

-- The mutex is held `l` times; discovery is up, or its poll is lost.
pub record Begun (daemon : Daemon) (l : ℕ) (v : Announcer) : Type 0 where
  pub locks : v.locks ≡ l
  pub outcome : IsUp v ⊎ IsLost v
  pub restored : IsReachable daemon → IsUp v

pub up-Begun : {daemon : Daemon} {l : ℕ} {v : Announcer} → v.locks ≡ l → IsUp v → Begun daemon l v
up-Begun h u = record { locks = h; outcome = inl u; restored = λ _. u }

-- The mutex and the heap do not matter.
pub relocked : {v : Announcer} (l : ℕ) (m : Mem) → IsUp v → IsUp (record v { locks = l; mem = m })
relocked l m u = record { poll = u.poll; name = u.name; group = u.group; client = u.client }

module _ (daemon : Daemon) (n : ℕ) (settles : IsSettled daemon n) (fuel l : ℕ) where
  init_client-Begun :
      (k : ℕ) (o : Option (List ClientState)) (w : Announcer)
      → daemon.client_new k ≡ o
      → Enough n fuel w.asked
      → IsUp w
      → w.locks ≡ l + 1
      → Ends (λ _ v. Begun daemon l v) (init_client daemon fuel o w)
  init_client-Begun k none w eq e u h = ends (record {
    locks = omega (arith, h);
    outcome = inr (inr refl);
    restored = λ r. absurd (r.client_new k eq);
  })
  init_client-Begun k (some states) w eq e u h =
      Ends-bind
        (handle_states-Kept daemon n settles fuel states (record w { objects = w.objects + 1 }) e
          (record { poll = u.poll; name = u.name; group = u.group; client = u.client }))
        λ _ v kept. ends (
          up-Begun (omega (arith, h, kept.locks)) (record {
            poll = kept.up.poll;
            name = kept.up.name;
            group = kept.up.group;
            client = refl;
          }))

  init_name-Begun :
      (k : ℕ) (name : Bytes) (b : Bool) (w : Announcer)
      → daemon.strdup k ≡ b
      → Enough n fuel w.asked
      → w.avahi_poll ≡ live tt
      → w.avahi_group ≡ null
      → w.avahi_client ≡ null
      → w.locks ≡ l + 1
      → Ends (λ _ v. Begun daemon l v) (init_name daemon fuel name b w)
  init_name-Begun k name false w eq e p g c h = ends (record {
    locks = omega (arith, h);
    outcome = inr (inr refl);
    restored = λ r. let t = r.strdup k in absurd cc;
  })
  init_name-Begun k name true w eq (pos, lt) p g c h =
      init_client-Begun w.asked (daemon.client_new w.asked)
        (record w { avahi_name = live name; objects = w.objects + 1; asked = w.asked + 1 }) refl
        (pos, omega arith)
        (record { poll = p; name = (name, refl); group = rw g refl; client = rw c refl }) h

  init_poll-Begun :
      (k : ℕ) (name : Bytes) (b : Bool) (w : Announcer)
      → daemon.poll_new k ≡ b
      → Enough n fuel w.asked
      → w.avahi_group ≡ null
      → w.avahi_client ≡ null
      → w.locks ≡ l + 1
      → Ends (λ _ v. Begun daemon l v) (init_poll daemon fuel name b w)
  init_poll-Begun k name false w eq e g c h = ends (record {
    locks = omega (arith, h);
    outcome = inr (inl refl);
    restored = λ r. let t = r.poll_new k in absurd cc;
  })
  init_poll-Begun k name true w eq (pos, lt) g c h =
      init_name-Begun w.asked name (daemon.strdup w.asked)
        (record w { avahi_poll = live tt; objects = w.objects + 1; asked = w.asked + 1 }) refl
        (pos, omega arith) refl g c h

  pub discovery_init-Begun :
      (name : Option Bytes) (noauto : Bool) (w : Announcer)
      → Enough n fuel w.asked
      → w.avahi_group ≡ null
      → w.avahi_client ≡ null
      → w.locks ≡ l
      → Ends (λ _ v. Begun daemon l v) (discovery_init daemon fuel true name noauto w)
  unfolding discovery_init
  discovery_init-Begun name noauto w (pos, lt) g c h =
      init_poll-Begun w.asked (name_or_default daemon name) (daemon.poll_new w.asked)
        (record w { locks = w.locks + 1; noauto = noauto; asked = w.asked + 1 }) refl
        (pos, omega arith) g c (omega (arith, h))
