-- ===== src/Reference/SetProperty.antt =====
-- examples/vdc-reference.c: `setprop_cb`, through which the vdSM asks for a button click, and
-- `send_button_click`.
pub mod Examine
pub mod Clicking
pub mod Examined
pub mod Settling
use libdsvdc.Base.{ℕ, zero, suc, ◌+◌, true, Option, none, some, Bytes, if◌then◌else◌}
use libdsvdc.Effects.{M, pure, ◌>>=◌, ◌>>◌, skip, heap}
use libdsvdc.Handle.{Env}
use libdsvdc.Memory.{free}
use libdsvdc.Property.{Property}
use libdsvdc.Property.Access.{get_num_properties}
use libdsvdc.Property.Free.{property_free}
use libdsvdc.Reference.Site.{Site, Globals, strcasecmp_eq}
use libdsvdc.Send.{push_property, send_set_property_response}
use Examine.{
  Setting, nameless, refused, click_with, ignored, not_implemented, not_found, new_click, examine,
}

module _ (env : Env) (site : Site) (g : Globals) where
  -- `send_button_click`
  unfoldable pub send_button_click : ℕ → M (Unit {0})
  send_button_click click = do
    made ← heap (new_click click)
    elim made [
      | none ↦ skip
      | some envelope ↦ (do
        _ ← push_property env true (some g.dev_dsuid) (some envelope)
        heap (property_free (some envelope)))
    ]

  -- `rest` is the loop from the next element on.
  abbrev pub settle : M ℕ → Setting → M ℕ
  settle rest (nameless code) = pure code
  settle rest (refused code) = do heap free; pure code
  settle rest (click_with click) = do send_button_click click; heap free; pure 0
  settle rest ignored = do heap free; rest

  -- The loop of `setprop_cb` from element `i` on, `n` of them to go; it gives the code.
  unfoldable pub set_loop : ℕ → ℕ → Option Property → M ℕ
  unfolding send_button_click
  set_loop zero i properties = pure not_implemented
  set_loop (suc n) i properties = do
    setting ← heap (examine properties i)
    settle (set_loop n (i + 1) properties) setting

  -- `setprop_cb`
  unfoldable pub setprop : Bytes → Option Property → Option Property → M (Unit {0})
  unfolding set_loop
  setprop dsuid property properties = do
    code ←
        (if strcasecmp_eq site g.dev_dsuid dsuid
          then set_loop (get_num_properties properties) 0 properties
          else pure not_found)
    _ ← send_set_property_response env true property code
    skip
