-- ===== src/Discovery/Up.antt =====
-- What holds of discovery while its poll and its name are there.
use libdsvdc.Base.{
  ℕ, ◌+◌, ◌≤◌, ◌<◌, ◌≡◌, ◌≢◌, refl, ◌∙◌, inl, inr, Bool, true, false, Option, none, some,
  Option-cases, Bytes, arith,
}
use libdsvdc.Discovery.Callbacks.{quit, rename}
use libdsvdc.Discovery.World.{
  Pointer, null, freed, live, added_collision, Daemon, Announcer, Ends, ends,
}

abbrev pub is_freed : {A : Type 0} → Pointer A → Bool
is_freed null = false
is_freed freed = true
is_freed (live _) = false

-- The poll and the name are there, and no pointer leads to an object that is gone.
pub record IsUp (w : Announcer) : Type 0 where
  pub poll : w.avahi_poll ≡ live tt
  pub name : (name : Bytes) × (w.avahi_name ≡ live name)
  pub group : is_freed w.avahi_group ≡ false
  pub client : is_freed w.avahi_client ≡ false

-- It stays so, and the mutex is held as often as before.
pub record Kept (w v : Announcer) : Type 0 where
  pub up : IsUp v
  pub locks : v.locks ≡ w.locks
  pub asked : w.asked ≤ v.asked

pub Kept-trans : {u v w : Announcer} → Kept u v → Kept v w → Kept u w
Kept-trans k l = record {
  up = l.up;
  locks = l.locks ∙ k.locks;
  asked = omega (arith, k.asked, l.asked);
}

pub Kept-refl : {w : Announcer} → IsUp w → Kept w w
Kept-refl u = record { up = u; locks = refl; asked = omega arith }

-- From the `n`-th call on, the daemon reports no collision, and another name is always found.
pub record IsSettled (daemon : Daemon) (n : ℕ) : Type 0 where
  pub settled : (name : Option Bytes) (k : ℕ) → n ≤ k → daemon.add_service name k ≢ added_collision
  pub named : (name : Option Bytes) (k : ℕ) → daemon.alternative_name name k ≢ none

-- Fuel for all collisions that can come.
abbrev pub Enough : ℕ → ℕ → ℕ → Type 0
Enough n fuel asked = (0 < fuel) × (n < fuel + asked)

pub quit-Kept : (w : Announcer) → IsUp w → Ends (λ _ v. Kept w v) (quit w)
quit-Kept w u = simp u.poll (
    ends (record {
      up = record { poll = refl; name = u.name; group = u.group; client = u.client };
      locks = refl;
      asked = omega arith;
    }))

module _ (daemon : Daemon) (n : ℕ) (settles : IsSettled daemon n) where
  -- The group is there after a renaming as before it.
  pub rename-Kept :
      (w : Announcer) → IsUp w → Ends (λ _ v. Kept w v × (w.asked < v.asked)) (rename daemon w)
  unfolding rename
  rename-Kept w u =
      let (name, e) = u.name in
      elim (Option-cases (daemon.alternative_name (some name) w.asked)) [
        | inl none' ↦ absurd (settles.named (some name) w.asked none')
        | inr (new, f) ↦
            simp (e, f)
              (ends (
                record {
                  up = record {
                    poll = u.poll;
                    name = (new, refl);
                    group = u.group;
                    client = u.client;
                  };
                  locks = omega arith;
                  asked = omega arith;
                },
                omega arith,
              ))
      ]
