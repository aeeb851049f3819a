-- ===== src/Discovery.antt =====
-- src/discovery.c: the announcement of the service by Avahi, in the build that has it. Log lines
-- are not there without DEBUG.
pub mod World
pub mod Callbacks
pub mod Up
pub mod Services
pub mod Events
pub mod Init
pub mod Restart
mod Examples
use libdsvdc.Base.{
  ◌+◌, ℕ, zero, suc, Bool, true, false, not, ◌&&◌, Option, none, some, List, [], ◌∷◌, Bytes, codes,
  if◌then◌else◌,
}
use libdsvdc.Codes.{Code, dsvdc_ok, err_out_of_memory, err_param}
use libdsvdc.Discovery.World.{
  Pointer, null, freed, live, ClientState, client_running, client_failure, client_collision,
  client_registering, client_connecting, GroupState, group_established, group_collision,
  group_failure, group_uncommitted, group_registering, Event, client_event, group_event, Added,
  added, added_collision, added_failure, Daemon, Announcer, W, ok, out_of_fuel, ◌>>=◌, ◌>>◌, pure,
  skip, fault, get, lock, unlock, ask, made, unmade, heap,
}
use libdsvdc.Memory.{malloc, free}
use libdsvdc.Discovery.Callbacks.{
  default_avahi_service_name, with_name, name_pointer, on_live, drop_object, object, made_if, quit,
  reset_group, set_name, list_noauto, create_txt_records, rename, open_group, after_adding,
  add_service, fill_group, create_services, client_callback, on_group_state, entry_group_callback,
  handle_event, handle_events, handle_states,
}

module _ (daemon : Daemon) where
  -- The poll is freed, and the handle keeps its address.
  abbrev pub free_poll : W (Unit {0})
  free_poll = do unmade; λ w. ok tt (record w { avahi_poll = freed })

  abbrev pub free_name : W (Unit {0})
  free_name = do unmade; λ w. ok tt (record w { avahi_name = freed })

  -- The client, in whose making its callback is called, is made last.
  abbrev pub init_client : ℕ → Option (List ClientState) → W Code
  init_client fuel none = do
    λ w. ok tt (record w { avahi_client = null })
    free_poll
    free_name
    unlock
    pure err_out_of_memory
  init_client fuel (some states) = do
    made
    handle_states daemon fuel states
    λ w. ok tt (record w { avahi_client = live tt })
    unlock
    pure dsvdc_ok

  abbrev pub init_name : ℕ → Bytes → Bool → W Code
  init_name fuel name false = do
    λ w. ok tt (record w { avahi_name = null })
    free_poll
    unlock
    pure err_out_of_memory
  init_name fuel name true = do
    set_name (some name)
    client ← ask daemon.client_new
    init_client fuel client

  abbrev pub init_poll : ℕ → Bytes → Bool → W Code
  init_poll fuel name false = do
    λ w. ok tt (record w { avahi_poll = null })
    unlock
    pure err_out_of_memory
  init_poll fuel name true = do
    made
    λ w. ok tt (record w { avahi_poll = live tt })
    duplicated ← ask daemon.strdup
    init_name fuel name duplicated

  abbrev pub name_or_default : Option Bytes → Bytes
  name_or_default none = default_avahi_service_name
  name_or_default (some name) = name

  -- `dsvdc_discovery_init`; the flag says whether there is a handle. DSVDC_DISCOVERY_ERR_PARAM
  -- is -1, and so is DSVDC_ERR_OUT_OF_MEMORY.
  unfoldable pub discovery_init : ℕ → Bool → Option Bytes → Bool → W Code
  unfolding create_services
  discovery_init fuel false name noauto = pure err_out_of_memory
  discovery_init fuel true name noauto = do
    lock
    λ w. ok tt (record w { noauto = noauto })
    poll ← ask daemon.poll_new
    init_poll fuel (name_or_default name) poll

  -- `dsvdc_discovery_cleanup`
  unfoldable pub discovery_cleanup : Bool → W (Unit {0})
  discovery_cleanup false = skip
  discovery_cleanup true = do
    lock
    w ← get
    drop_object w.avahi_group
    drop_object w.avahi_client
    drop_object w.avahi_poll
    drop_object w.avahi_name
    λ v.
        ok tt (record v {
          avahi_group = null;
          avahi_client = null;
          avahi_poll = null;
          avahi_name = null;
        })
    unlock

  -- `free(temp_name)`
  abbrev pub free_temp : Option Bytes → W (Unit {0})
  free_temp none = skip
  free_temp (some name) = heap free

  -- The connection to the daemon is made again, under the name that the service had.
  abbrev pub copy_name : Option Bytes → W (Option Bytes)
  copy_name none = fault
  copy_name (some name) = do granted ← heap malloc; pure (if granted then some name else none)

  abbrev pub reinit : ℕ → W (Unit {0})
  reinit fuel = do
    w ← get
    temp_name ← with_name w.avahi_name copy_name
    discovery_cleanup true
    v ← get
    _ ← discovery_init fuel true temp_name v.noauto
    free_temp temp_name

  -- `dsvdc_discovery_work`; the flag says whether there is a handle.
  unfoldable pub discovery_work : ℕ → Bool → W (Unit {0})
  unfolding discovery_init discovery_cleanup
  discovery_work fuel false = skip
  discovery_work fuel true = do
    lock
    w ← get
    (events, fine) ← on_live w.avahi_poll (ask daemon.iterate)
    handle_events daemon fuel events
    if fine then skip else reinit fuel
    unlock
