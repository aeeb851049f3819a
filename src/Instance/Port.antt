-- ===== src/Instance/Port.antt =====
-- `dsvdc_setup_socket` of src/dsvdc.c.
pub mod Search
mod Examples
use libdsvdc.Base.{
  ℕ, zero, suc, ◌+◌, ◌-◌, Bool, true, false, ◌&&◌, Option, none, some, ◌==◌, if◌then◌else◌, ltb,
}
use libdsvdc.Codes.{Code, dsvdc_ok, err_socket}
use libdsvdc.Effects.{M, pure, ◌>>=◌, ◌>>◌, get_handle, put_handle, close, out_of_fuel}
use libdsvdc.Handle.{Handle}

-- `bind` to a port: 0, EADDRINUSE, or another error.
pub data Binding : Type 0 where
  bound in_use refused : Binding

-- What the system calls give.
pub record Network : Type 0 where
  pub socket : Option ℕ
  pub reuse_option : Bool
  pub linger_option : Bool
  pub bind : ℕ → Binding
  pub listen : Bool

-- DEFAULT_VDC_PORT, and USHRT_MAX - 1
abbrev pub default_vdc_port : ℕ
default_vdc_port = 49500

abbrev pub last_port : ℕ
last_port = 65534

-- What a turn of the search does, by the result of `bind`; `rest` is the search from the next
-- port.
abbrev turn : Bool → ℕ → Option (ℕ × Bool) → Binding → Option (ℕ × Bool)
turn portsearch port rest bound = some (port, true)
turn portsearch port rest refused = some (port, false)
turn portsearch port rest in_use =
    if portsearch && ltb port last_port then rest else some (port, false)

-- The search loop: the port, and whether it was bound; `none` when the fuel is used up.
unfoldable pub search_loop : ℕ → (ℕ → Binding) → Bool → ℕ → Option (ℕ × Bool)
search_loop zero bind portsearch port = none
search_loop (suc fuel) bind portsearch port =
    turn portsearch port (search_loop fuel bind portsearch (port + 1)) (bind port)

-- More turns than there are ports above the default one.
abbrev pub search_fuel : ℕ
search_fuel = 65536

-- `close(handle->listen_fd); handle->listen_fd = -1;`
abbrev abandon : ℕ → M Code
abandon fd = do
  close fd
  handle ← get_handle
  put_handle (record handle { listen_fd = none })
  pure err_socket

-- The end of `dsvdc_setup_socket`, once the search is over.
abbrev finish : Network → ℕ → ℕ × Bool → M Code
finish net fd (port, is_bound) = do
  handle ← get_handle
  put_handle (record handle { port = port })
  if is_bound then (if net.listen then pure dsvdc_ok else abandon fd) else abandon fd

abbrev searched : Network → ℕ → Option (ℕ × Bool) → M Code
searched net fd none = λ s. out_of_fuel
searched net fd (some found) = finish net fd found

-- The port where the search starts, and whether it may go on.
abbrev start_port : ℕ → ℕ × Bool
start_port port = if port == 0 then (default_vdc_port, true) else (port, false)

-- `dsvdc_setup_socket`
unfoldable pub setup_socket : Network → M Code
unfolding search_loop
setup_socket net = do
  handle ← get_handle
  put_handle (record handle { listen_fd = net.socket; connected_fd = none })
  elim net.socket [
    | none ↦ pure err_socket
    | some fd ↦
        if net.reuse_option && net.linger_option
        then searched net fd
            (search_loop search_fuel net.bind (start_port handle.port).1 (start_port handle.port).0)
        else abandon fd
  ]
