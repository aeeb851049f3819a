-- ===== src/Reference/Program.antt =====
-- examples/vdc-reference.c: `main` behind the options.
pub mod Settings
use libdsvdc.Base.{
  ℕ, Bool, true, false, Option, none, some, List, [], ◌∷◌, Bytes, codes, if◌then◌else◌,
}
use libdsvdc.Codes.{Code, is_ok}
use libdsvdc.Database.{Gdbm, Database, Opened, opened, database_open, database_close}
use libdsvdc.Effects.{M, pure, ◌>>=◌, ◌>>◌, skip, fault, heap}
use libdsvdc.Handle.{Handle, Env}
use libdsvdc.Instance.{
  Setup, cleanup, set_new_session_callback, set_ping_callback, set_remove_callback,
  set_get_property_callback, set_set_property_callback, set_call_scene_notification_callback,
  set_identify_notification_callback, set_save_scene_notification_callback,
  set_output_channel_value_callback,
}
use libdsvdc.Instance.New.{new}
use libdsvdc.Instance.Port.{Network}
use libdsvdc.Reference.Site.{Globals}
use libdsvdc.Send.{device_vanished}
use libdsvdc.Work.{Poll, work}

-- The addresses of the callbacks.
abbrev pub new_session_cb : ℕ
new_session_cb = 3

abbrev pub ping_cb : ℕ
ping_cb = 4

abbrev pub remove_cb : ℕ
remove_cb = 5

abbrev pub getprop_cb : ℕ
getprop_cb = 6

abbrev pub setprop_cb : ℕ
setprop_cb = 7

abbrev pub callscene_cb : ℕ
callscene_cb = 8

abbrev pub blink_cb : ℕ
blink_cb = 9

abbrev pub savescene_cb : ℕ
savescene_cb = 10

abbrev pub output_channel_value_cb : ℕ
output_channel_value_cb = 11

-- The registration of the callbacks.
unfoldable pub register_callbacks : M (Unit {0})
register_callbacks = do
  set_new_session_callback (some new_session_cb) true
  set_ping_callback (some ping_cb) true
  set_remove_callback (some remove_cb) true
  set_get_property_callback (some getprop_cb) true
  set_set_property_callback (some setprop_cb) true
  set_call_scene_notification_callback (some callscene_cb) true
  set_identify_notification_callback (some blink_cb) true
  set_save_scene_notification_callback (some savescene_cb) true
  set_output_channel_value_callback (some output_channel_value_cb) true

module _ (env : Env) where
  -- The main loop: a turn for each poll, until a signal sets the flag.
  unfoldable pub turns : List Poll → M (Unit {0})
  turns [] = skip
  turns (poll ∷ polls) = do work env poll 2 true; turns polls

  -- What follows `dsvdc_new`.
  unfoldable pub serve : Globals → List Poll → M (Unit {0})
  unfolding register_callbacks turns
  serve g polls = do
    register_callbacks
    turns polls
    _ ← device_vanished env true (some g.dev_dsuid)
    cleanup env true

  module _ (gdbm : Gdbm) (stat : Bytes → ℕ) (setup : Setup) (net : Network) (block : Handle)
      (userdata : ℕ) (g : Globals) (polls : List Poll) where
    abbrev run_new : Option (Database gdbm) → Code × Bool → M Bool
    run_new db (code, made) =
        if is_ok code
        then (do serve g polls; heap (database_close gdbm db); pure true)
        else (do heap (database_close gdbm db); pure false)

    -- An opening that answers DSVDC_OK with a freed database leaves `main` with a pointer to it.
    abbrev run_opened : Code × Opened gdbm → M Bool
    run_opened (code, opened db) =
        if is_ok code
        then (do made ← new setup net block 0 (some g.lib_dsuid) userdata; run_new (some db) made)
        else pure false
    run_opened (code, _) = if is_ok code then fault else pure false

    -- The rest of `main`; the result says whether it ends with EXIT_SUCCESS.
    unfoldable pub run : M Bool
    unfolding serve
    run = do got ← heap (database_open gdbm stat (codes "scenetable.gdbm") true); run_opened got
