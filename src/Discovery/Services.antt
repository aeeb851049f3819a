-- ===== src/Discovery/Services.antt =====
-- The services of a connected instance: neither a callback nor a collision of names ends in
-- undefined behaviour.
use libdsvdc.Base.{
  ℕ, zero, suc, ◌+◌, ◌-◌, ◌≤◌, ◌<◌, ◌≡◌, refl, ◌∙◌, inl, inr, Bool, true, false, Bool-cases, Option,
  some, ◌∷◌, Bytes, ltb, arith,
}
use libdsvdc.Discovery.Callbacks.{
  open_group, after_adding, add_service, fill_group, create_txt_records, list_noauto,
  create_services,
}
use libdsvdc.Discovery.World.{
  Pointer, null, freed, live, Added, added, added_collision, added_failure, Daemon, Announcer, W,
  Ends, ends, Ends-bind, Ends-map,
}
use libdsvdc.Memory.{Mem, malloc}
use libdsvdc.Discovery.Up.{
  is_freed, IsUp, Kept, Kept-trans, Kept-refl, IsSettled, Enough, quit-Kept, rename-Kept,
}

module _ (daemon : Daemon) (n : ℕ) (settles : IsSettled daemon n) where
  open_group-Kept :
      (w : Announcer) (p : Pointer (Unit {0}))
      → IsUp w
      → w.avahi_group ≡ p
      → is_freed p ≡ false
      → Ends
          (λ opened v. Kept w v × (opened ≡ true → v.avahi_group ≡ live tt))
          (open_group daemon p w)
  open_group-Kept w null u e safe = elim (Bool-cases (daemon.group_new w.asked)) [
    | inl made ↦ simp made (
        ends (
          record {
            up = record { poll = u.poll; name = u.name; group = refl; client = u.client };
            locks = omega arith;
            asked = omega arith;
          },
          λ _. refl,
        ))
    | inr refused ↦ simp refused (
        ends (
          record {
            up = record { poll = u.poll; name = u.name; group = refl; client = u.client };
            locks = omega arith;
            asked = omega arith;
          },
          λ b. absurd cc,
        ))
  ]
  open_group-Kept w freed u e safe = absurd cc
  open_group-Kept w (live tt) u e safe = ends (Kept-refl u, λ _. e)

  -- The text records are made or not; nothing else of the handle changes.
  record Listed (w v : Announcer) : Type 0 where
    group : v.avahi_group ≡ w.avahi_group
    name : v.avahi_name ≡ w.avahi_name
    kept : Kept w v

  listed :
      (w : Announcer) (m : Mem) (a j : ℕ)
      → IsUp w
      → w.asked ≤ a
      → Listed w (record w { mem = m; asked = a; objects = j })
  listed w m a j u h = record {
    group = refl;
    name = refl;
    kept = record {
      up = record { poll = u.poll; name = u.name; group = u.group; client = u.client };
      locks = refl;
      asked = h;
    };
  }

  list_noauto-Listed :
      (b : Bool) (w : Announcer) → IsUp w → Ends (λ _ v. Listed w v) (list_noauto daemon b w)
  list_noauto-Listed false w u = ends (record { group = refl; name = refl; kept = Kept-refl u })
  list_noauto-Listed true w u = ends (listed w w.mem (w.asked + 1) w.objects u (omega arith))

  create_txt_records-Listed :
      (w : Announcer) → IsUp w → Ends (λ _ v. Listed w v) (create_txt_records daemon w)
  unfolding malloc
  create_txt_records-Listed w u = elim (Bool-cases (w.mem.grants w.mem.calls)) [
    | inr refused ↦ simp refused (ends (listed w _ w.asked w.objects u (omega arith)))
    | inl granted ↦ elim (Bool-cases (daemon.list_new w.asked)) [
      | inr missing ↦
          simp (granted, missing) (ends (listed w _ (w.asked + 1) w.objects u (omega arith)))
      | inl there ↦
          let made = listed w _ (w.asked + 1) (w.objects + 1) u (omega arith) in
          simp (granted, there)
            (Ends-map (list_noauto-Listed w.noauto _ made.kept.up) λ _ v l. record {
              group = l.group;
              name = l.name;
              kept = Kept-trans made.kept l.kept;
            })
    ]
  ]

  -- `again` is safe from the state `w` on.
  abbrev SafeFrom : Announcer → W (Unit {0}) → Type 0
  SafeFrom w again = (v : Announcer) → IsUp v → w.asked ≤ v.asked → Ends (λ _ q. Kept v q) (again v)

  after_adding-Kept :
      (again : W (Unit {0})) (w : Announcer) (name : Option Bytes) (r : Added)
      → IsUp w
      → (r ≡ added_collision → SafeFrom w again)
      → Ends (λ _ v. Kept w v) (after_adding daemon again name r w)
  after_adding-Kept again w name added u safe = elim (Bool-cases (daemon.commit w.asked)) [
    | inl committed ↦ simp committed (
        ends (record {
          up = record { poll = u.poll; name = u.name; group = u.group; client = u.client };
          locks = refl;
          asked = omega arith;
        }))
    | inr refused ↦ simp refused (
        Ends-map
          (quit-Kept (record w { published = name ∷ w.published; asked = w.asked + 1 })
            (record { poll = u.poll; name = u.name; group = u.group; client = u.client }))
          λ _ v k. record { up = k.up; locks = k.locks; asked = omega (arith, k.asked) })
  ]
  after_adding-Kept again w name added_collision u safe =
      Ends-bind (rename-Kept daemon n settles w u)
        λ _ v (k, later). Ends-map (safe refl v k.up (omega arith)) λ _ q l. Kept-trans k l
  after_adding-Kept again w name added_failure u safe = quit-Kept w u

  early : (name : Option Bytes) (k : ℕ) → daemon.add_service name k ≡ added_collision → k < n
  early name k e = elim (Bool-cases (ltb k n)) [
    | inl before ↦ ground arith
    | inr settled ↦ absurd (settles.settled name k (ground arith) e)
  ]

  add_service-Kept :
      (again : W (Unit {0})) (b : Bool) (w : Announcer)
      → IsUp w
      → (w.asked < n → SafeFrom (record w { asked = w.asked + 1 }) again)
      → Ends (λ _ v. Kept w v) (add_service daemon again b w)
  add_service-Kept again false w u safe = quit-Kept w u
  add_service-Kept again true w u safe =
      let (name, e) = u.name in
      simp e (
        Ends-map
          (after_adding-Kept again
            (record w { avahi_name = live name; asked = w.asked + 1; objects = w.objects - 1 })
            (some name) (daemon.add_service (some name) w.asked)
            (record { poll = u.poll; name = (name, refl); group = u.group; client = u.client })
            λ c. safe (early (some name) w.asked c))
          λ _ v k. record { up = k.up; locks = k.locks; asked = omega (arith, k.asked) })

  fill_group-Kept :
      (again : W (Unit {0})) (w : Announcer)
      → IsUp w
      → w.avahi_group ≡ live tt
      → ((v : Announcer)
          → w.asked ≤ v.asked
          → v.asked < n
          → SafeFrom (record v { asked = v.asked + 1 }) again)
      → Ends (λ _ v. Kept w v) (fill_group daemon again w)
  fill_group-Kept again w u e safe =
      let asked : Announcer = record w { avahi_group = live tt; asked = w.asked + 1 } in
      let u' : IsUp asked = record {
        poll = u.poll;
        name = u.name;
        group = refl;
        client = u.client;
      } in
      simp e (elim (Bool-cases (daemon.is_empty w.asked)) [
        | inr filled ↦ simp filled (ends (record { up = u'; locks = refl; asked = omega arith }))
        | inl empty ↦ simp empty (
            Ends-bind (create_txt_records-Listed asked u') λ txt v l.
              Ends-map
                (add_service-Kept again txt v l.kept.up (safe v (omega (arith, l.kept.asked))))
                λ _ q k. record {
                  up = k.up;
                  locks = k.locks ∙ l.kept.locks;
                  asked = omega (arith, k.asked, l.kept.asked);
                })
      ])

  -- The services are created, however often the name collides before the daemon settles.
  pub create_services-Kept :
      (fuel : ℕ) (w : Announcer)
      → Enough n fuel w.asked
      → IsUp w
      → Ends (λ _ v. Kept w v) (create_services daemon fuel w)
  unfolding create_services
  create_services-Kept zero w (pos, lt) u = absurd (omega arith)
  create_services-Kept (suc fuel) w (pos, lt) u =
      Ends-bind (open_group-Kept w w.avahi_group u refl u.group) (elim [
        | true ↦ λ v (k, g).
            Ends-map
              (fill_group-Kept (create_services daemon fuel) v k.up (g refl)
                λ x after before q up later.
                  create_services-Kept fuel q (omega (arith, k.asked), omega (arith, k.asked)) up)
              λ _ q l. Kept-trans k l
        | false ↦ λ v (k, g). Ends-map (quit-Kept v k.up) λ _ q l. Kept-trans k l
      ])
