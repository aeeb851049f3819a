-- ===== src/Discovery/Callbacks.antt =====
-- The callbacks of src/discovery.c and `dsvdc_avahi_create_services`.
use libdsvdc.Base.{
  ◌+◌, ℕ, zero, suc, Bool, true, false, Option, none, some, List, [], ◌∷◌, Bytes, codes,
  if◌then◌else◌,
}
use libdsvdc.Discovery.World.{
  Pointer, null, freed, live, ClientState, client_running, client_failure, client_collision,
  client_registering, client_connecting, GroupState, group_collision, group_failure, Event,
  client_event, group_event, Added, added, added_collision, added_failure, Daemon, W, ok,
  out_of_fuel, ◌>>=◌, ◌>>◌, pure, skip, fault, get, lock, unlock, ask, made, unmade, heap,
}
use libdsvdc.Memory.{malloc}

-- DEFAULT_AVAHI_SERVICE_NAME
abbrev pub default_avahi_service_name : Bytes
default_avahi_service_name = codes "digitalSTROM vDC"

-- What a pointer to a name gives to a call; a freed one is not to be read.
abbrev pub with_name : {A : Type 0} → Pointer Bytes → (Option Bytes → W A) → W A
with_name null k = k none
with_name freed k = fault
with_name (live name) k = k (some name)

abbrev pub name_pointer : Option Bytes → Pointer Bytes
name_pointer none = null
name_pointer (some name) = live name

-- A call on an object that must be there.
abbrev pub on_live : {A : Type 0} → Pointer (Unit {0}) → W A → W A
on_live null c = fault
on_live freed c = fault
on_live (live _) c = c

-- `if (p) free(p);` of an object of the Avahi library.
abbrev pub drop_object : {A : Type 0} → Pointer A → W (Unit {0})
drop_object null = skip
drop_object freed = fault
drop_object (live _) = unmade

-- An object that was asked for, or NULL.
abbrev pub object : Bool → Pointer (Unit {0})
object false = null
object true = live tt

abbrev pub made_if : Bool → W (Unit {0})
made_if false = skip
made_if true = made

-- `avahi_simple_poll_quit(handle->avahi_poll)`
abbrev pub quit : W (Unit {0})
quit w = on_live w.avahi_poll (λ v. ok tt (record v { quits = v.quits + 1 })) w

-- `if (handle->avahi_group) avahi_entry_group_reset(handle->avahi_group);`
abbrev pub reset_group : Pointer (Unit {0}) → W (Unit {0})
reset_group null = skip
reset_group freed = fault
reset_group (live _) = skip

-- The handle's new name, which may be NULL.
abbrev pub set_name : Option Bytes → W (Unit {0})
set_name none w = ok tt (record w { avahi_name = null })
set_name (some name) w = ok tt (record w { avahi_name = live name; objects = w.objects + 1 })

module _ (daemon : Daemon) where
  -- `dsvdc_avahi_create_txt_records`; the formatted string is not freed.
  abbrev pub list_noauto : Bool → W Bool
  list_noauto false = pure true
  list_noauto true = ask daemon.list_add

  abbrev pub create_txt_records : W Bool
  create_txt_records = do
    granted ← heap malloc
    if granted
        then (do
          listed ← ask daemon.list_new
          if listed then (do made; w ← get; list_noauto w.noauto) else pure false)
        else pure false

  -- A new name for the service, after a collision.
  unfoldable pub rename : W (Unit {0})
  rename = do
    w ← get
    new_name ← with_name w.avahi_name λ name. ask (daemon.alternative_name name)
    lock
    v ← get
    drop_object v.avahi_name
    set_name new_name
    unlock

  -- The entry group, made if there was none.
  abbrev pub open_group : Pointer (Unit {0}) → W Bool
  open_group null = do
    lock
    new ← ask daemon.group_new
    made_if new
    λ w. ok tt (record w { avahi_group = object new })
    unlock
    pure new
  open_group _ = pure true

  -- What follows the adding of the service; `again` is the call of the function itself.
  abbrev pub after_adding : W (Unit {0}) → Option Bytes → Added → W (Unit {0})
  after_adding again name added = do
    λ w. ok tt (record w { published = name ∷ w.published })
    committed ← ask daemon.commit
    if committed then skip else quit
  after_adding again name added_collision = do rename; again
  after_adding again name added_failure = quit

  -- The service is added to the group, with the text records, which are freed then.
  abbrev pub add_service : W (Unit {0}) → Bool → W (Unit {0})
  add_service again false = quit
  add_service again true = do
    w ← get
    with_name w.avahi_name
        λ name. do result ← ask (daemon.add_service name); unmade; after_adding again name result

  abbrev pub fill_group : W (Unit {0}) → W (Unit {0})
  fill_group again = do
    w ← get
    empty ← on_live w.avahi_group (ask daemon.is_empty)
    if empty then (do txt ← create_txt_records; add_service again txt) else skip

  -- `dsvdc_avahi_create_services`, which calls itself after a collision.
  unfoldable pub create_services : ℕ → W (Unit {0})
  unfolding rename
  create_services zero = λ w. out_of_fuel
  create_services (suc fuel) = do
    w ← get
    opened ← open_group w.avahi_group
    if opened then fill_group (create_services fuel) else quit

  -- `dsvdc_avahi_client_callback`
  abbrev pub client_callback : ℕ → ClientState → W (Unit {0})
  client_callback fuel client_running = create_services fuel
  client_callback fuel client_failure = quit
  client_callback fuel client_collision = λ w. reset_group w.avahi_group w
  client_callback fuel client_registering = λ w. reset_group w.avahi_group w
  client_callback fuel client_connecting = skip

  -- `dsvdc_avahi_entry_group_callback`, for the group that made the call: only that of the handle
  -- counts.
  abbrev pub on_group_state : ℕ → GroupState → W (Unit {0})
  on_group_state fuel group_collision = do rename; create_services fuel
  on_group_state fuel group_failure = quit
  on_group_state fuel _ = skip

  abbrev pub entry_group_callback : ℕ → Pointer (Unit {0}) → GroupState → W (Unit {0})
  entry_group_callback fuel (live _) state = on_group_state fuel state
  entry_group_callback fuel _ state = skip

  abbrev pub handle_event : ℕ → Event → W (Unit {0})
  handle_event fuel (client_event state) = client_callback fuel state
  handle_event fuel (group_event state) = λ w. entry_group_callback fuel w.avahi_group state w

  abbrev pub handle_events : ℕ → List Event → W (Unit {0})
  handle_events fuel [] = skip
  handle_events fuel (e ∷ es) = do handle_event fuel e; handle_events fuel es

  abbrev pub handle_states : ℕ → List ClientState → W (Unit {0})
  handle_states fuel [] = skip
  handle_states fuel (e ∷ es) = do client_callback fuel e; handle_states fuel es
