-- ===== src/Discovery/World.antt =====
-- What src/discovery.c works on: the handle's pointers to objects of the Avahi library, and the
-- daemon, whose answers are a parameter.
use libdsvdc.Base.{ℕ, ◌+◌, ◌-◌, Bool, Option, List, Bytes}
use libdsvdc.Memory
use libdsvdc.Memory.{Mem, Cmd}

-- A pointer that this library owns; `freed` is the address of an object that is gone.
pub data Pointer (A : Type 0) : Type 0 where
  null freed : Pointer A
  live : A → Pointer A

-- `AvahiClientState` and `AvahiEntryGroupState`, as far as the callbacks tell them apart.
pub data ClientState : Type 0 where
  client_running client_failure client_collision client_registering client_connecting : ClientState

pub data GroupState : Type 0 where
  group_established group_collision group_failure group_uncommitted group_registering : GroupState

-- A call of a callback, with the handle's own client or group.
pub data Event : Type 0 where
  client_event : ClientState → Event
  group_event : GroupState → Event

-- What `avahi_entry_group_add_service_strlst` returns.
pub data Added : Type 0 where
  added added_collision added_failure : Added

-- The answer to each call of the Avahi library, by the number of calls before it. The callbacks
-- are called from `avahi_client_new` and `avahi_simple_poll_iterate`.
pub record Daemon : Type 0 where
  pub poll_new : ℕ → Bool
  pub strdup : ℕ → Bool
  -- `none` for a failure, which is before any call of the callback
  pub client_new : ℕ → Option (List ClientState)
  -- whether it returns 0
  pub iterate : ℕ → List Event × Bool
  pub group_new : ℕ → Bool
  pub is_empty : ℕ → Bool
  pub list_new : ℕ → Bool
  pub list_add : ℕ → Bool
  pub add_service : Option Bytes → ℕ → Added
  pub commit : ℕ → Bool
  pub alternative_name : Option Bytes → ℕ → Option Bytes

pub record Announcer : Type 0 where
  pub avahi_group : Pointer (Unit {0})
  pub avahi_poll : Pointer (Unit {0})
  pub avahi_client : Pointer (Unit {0})
  pub avahi_name : Pointer Bytes
  pub noauto : Bool
  pub locks : ℕ
  -- calls of the Avahi library, and its objects that were made and not freed
  pub asked : ℕ
  pub objects : ℕ
  -- how often the poll was told to quit
  pub quits : ℕ
  -- the names under which the service was added, the newest first
  pub published : List (Option Bytes)
  pub mem : Mem

pub data Outcome (A : Type 0) : Type 0 where
  ok : A → Announcer → Outcome A
  undefined : Outcome A
  out_of_fuel : Outcome A

abbrev pub W : Type 0 → Type 0
W A = Announcer → Outcome A

module _ {A B : Type 0} where
  abbrev pub and_then : Outcome A → (A → W B) → Outcome B
  and_then (ok a w) k = k a w
  and_then undefined k = undefined
  and_then out_of_fuel k = out_of_fuel

  infixl 5 ◌>>=◌
  abbrev pub ◌>>=◌ : W A → (A → W B) → W B
  ◌>>=◌ c k w = and_then (c w) k

infixl 5 ◌>>◌
abbrev pub ◌>>◌ : {B : Type 0} → W (Unit {0}) → W B → W B
c >> d = c >>= λ _. d

abbrev pub pure : {A : Type 0} → A → W A
pure a w = ok a w

abbrev pub skip : W (Unit {0})
skip w = ok tt w

abbrev pub fault : {A : Type 0} → W A
fault w = undefined

abbrev pub get : W Announcer
get w = ok w w

abbrev pub lock : W (Unit {0})
lock w = ok tt (record w { locks = w.locks + 1 })

abbrev pub unlock : W (Unit {0})
unlock w = ok tt (record w { locks = w.locks - 1 })

-- A call of the Avahi library.
abbrev pub ask : {A : Type 0} → (ℕ → A) → W A
ask f w = ok (f w.asked) (record w { asked = w.asked + 1 })

-- An object of the Avahi library is made, and freed.
abbrev pub made : W (Unit {0})
made w = ok tt (record w { objects = w.objects + 1 })

abbrev pub unmade : W (Unit {0})
unmade w = ok tt (record w { objects = w.objects - 1 })

abbrev returned : {A : Type 0} → Memory.Run A → Announcer → Outcome A
returned (Memory.ok a m) w = ok a (record w { mem = m })
returned Memory.undefined w = undefined

abbrev pub heap : {A : Type 0} → Cmd A → W A
heap c w = returned (c w.mem) w

-- A run that ends, with a postcondition.
pub data Ends {A : Type 0} (P : A → Announcer → Type 0) : Outcome A → Type 0 where
  ends : {a : A} {w : Announcer} → P a w → Ends P (ok a w)

module _ {A : Type 0} {P : A → Announcer → Type 0} where
  pub Ends-bind :
      {B : Type 0} {Q : B → Announcer → Type 0} {r : Outcome A} {f : A → W B}
      → Ends P r
      → ((a : A) (w : Announcer) → P a w → Ends Q (f a w))
      → Ends Q (and_then r f)
  Ends-bind (ends p) next = next _ _ p

  pub Ends-map :
      {Q : A → Announcer → Type 0} {r : Outcome A}
      → Ends P r
      → ((a : A) (w : Announcer) → P a w → Q a w)
      → Ends Q r
  Ends-map (ends p) next = ends (next _ _ p)
