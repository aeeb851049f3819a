-- ===== src/Reference/Session.antt =====
-- examples/vdc-reference.c: the callbacks of a session and of a ping, which use the library.
pub mod Opening
pub mod Answering
pub mod Host
use libdsvdc.Base.{ℕ, Bool, true, Option, none, some, Bytes, if◌then◌else◌}
use libdsvdc.Codes.{Code, is_ok}
use libdsvdc.Effects.{M, pure, ◌>>=◌, skip, fault}
use libdsvdc.Handle.{Env}
use libdsvdc.Reference.Dsuid.{dsuid_compare}
use libdsvdc.Reference.Site.{Site, Globals}
use libdsvdc.Requests.{announce_container, announce_device}
use libdsvdc.Send.{send_pong}

-- The addresses of the two callbacks for announcements, and of the two dSUIDs that they get.
abbrev pub announce_container_cb : ℕ
announce_container_cb = 1

abbrev pub announce_device_cb : ℕ
announce_device_cb = 2

abbrev pub vdc_dsuid_address : ℕ
vdc_dsuid_address = 1

abbrev pub dev_dsuid_address : ℕ
dev_dsuid_address = 2

-- `dsuid_compare`, whose read behind a text is undefined.
abbrev pub compared : Option Bool → M Bool
compared none = fault
compared (some b) = pure b

module _ (env : Env) (site : Site) (g : Globals) where
  -- `new_session_cb`
  unfoldable pub new_session : M (Unit {0})
  new_session = do
    ret ← announce_container env (some g.vdc_dsuid) vdc_dsuid_address (some announce_container_cb)
    if is_ok ret
        then (do
          _ ←
              announce_device env (some g.vdc_dsuid) (some g.dev_dsuid) dev_dsuid_address
                (some announce_device_cb)
          skip)
        else skip

  abbrev pub answer_ping : Bytes → M (Unit {0})
  answer_ping dsuid = do _ ← send_pong env true (some dsuid); skip

  -- `ping_cb`
  unfoldable pub ping : Bytes → M (Unit {0})
  unfolding dsuid_compare
  ping dsuid = do
    library ← compared (dsuid_compare site.toupper dsuid g.lib_dsuid)
    if library then answer_ping dsuid else (do
      container ← compared (dsuid_compare site.toupper dsuid g.vdc_dsuid)
      if container then answer_ping dsuid else (do
        device ← compared (dsuid_compare site.toupper dsuid g.dev_dsuid)
        if device then answer_ping dsuid else skip))

  -- `remove_cb` agrees to every removal.
  pub remove : Bytes → M Bool
  remove dsuid = pure true
