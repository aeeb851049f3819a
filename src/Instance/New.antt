-- ===== src/Instance/New.antt =====
-- `dsvdc_new` of src/dsvdc.c, in the build without Avahi.
use libdsvdc.Base.{ℕ, Bool, true, false, Option, none, some, Bytes, if◌then◌else◌}
use libdsvdc.Codes.{Code, dsvdc_ok, err_out_of_memory, err_param, is_ok}
use libdsvdc.Effects.{M, pure, ◌>>=◌, ◌>>◌, put_handle, heap}
use libdsvdc.Handle.{Handle}
use libdsvdc.Instance.{Setup, setup_handle}
use libdsvdc.Instance.Port.{Network, setup_socket}
use libdsvdc.Memory.{malloc, free}

-- The end of `dsvdc_new`: the instance, or none when its socket could not be set up.
abbrev keep : Code → M (Code × Bool)
keep ret = if is_ok ret then pure (dsvdc_ok, true) else (do heap free; pure (ret, false))

-- What follows `dsvdc_setup_handle`.
abbrev open_socket : Network → Option Handle → M (Code × Bool)
open_socket net none = pure (err_out_of_memory, false)
open_socket net (some handle) = do put_handle handle; ret ← setup_socket net; keep ret

-- `dsvdc_new`: the code, and whether there is an instance. `block` is what the new block holds.
pub new : Setup → Network → Handle → ℕ → Option Bytes → ℕ → M (Code × Bool)
new setup net block port none userdata = pure (err_param, false)
new setup net block port (some dsuid) userdata = do
  granted ← heap malloc
  if granted
      then (do made ← setup_handle setup port dsuid userdata block; open_socket net made)
      else pure (err_out_of_memory, false)
