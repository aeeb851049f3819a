-- ===== src/Reference/GetProperty.antt =====
-- examples/vdc-reference.c: `getprop_cb`, the answers to requests for properties.
pub mod Reply
pub mod Container
pub mod Device
pub mod Growing
pub mod Answers
pub mod Responses
pub mod Requests
use libdsvdc.Base.{ℕ, zero, suc, ◌+◌, true, Option, none, some, Bytes, if◌then◌else◌}
use libdsvdc.Codes.{Answer, done, error}
use libdsvdc.Effects.{M, ◌>>=◌, skip, heap}
use libdsvdc.Handle.{Env}
use libdsvdc.Memory
use libdsvdc.Memory.{Cmd, free}
use libdsvdc.Property.{Property}
use libdsvdc.Property.Access.{get_num_properties, get_name}
use libdsvdc.Reference.Site.{Site, Globals, strcasecmp_eq}
use libdsvdc.Send.{send_get_property_response}
use Container.{answer_container}
use Device.{answer_device}
use Reply.{Answering, answer_loop}

module _ (env : Env) (site : Site) (g : Globals) (light : ℕ) where
  abbrev pub respond : Answering → Option Property → Option Property → M (Unit {0})
  respond answering query property = do
    property' ← heap (answer_loop answering query (get_num_properties query) 0 property)
    _ ← send_get_property_response env true property'
    skip

  -- `getprop_cb`. For another dSUID it returns with no answer.
  unfoldable pub getprop : Bytes → Option Property → Option Property → M (Unit {0})
  getprop dsuid property query =
      if strcasecmp_eq site g.vdc_dsuid dsuid
      then respond (answer_container site) query property
      else if strcasecmp_eq site g.dev_dsuid dsuid
      then respond (answer_device site g light dsuid) query property
      else skip
