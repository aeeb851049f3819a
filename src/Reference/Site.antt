-- ===== src/Reference/Site.antt =====
-- examples/vdc-reference.c: the globals and what the connector asks of its surroundings.
use libdsvdc.Base.{
  ◌≡◌, refl, ◌-◌, ℕ, ◌+◌, ◌/◌, ◌%◌, Bool, Option, none, some, List, [], ◌∷◌, ◌++◌, Bytes, ltb,
  if◌then◌else◌, bytes_eq, take, codes,
}

-- An interface: its name, and its hardware address, where `ioctl` gives one.
pub record Interface : Type 0 where
  pub name : Bytes
  pub address : Option Bytes

-- `none` where `socket` fails; the list is `none` where `if_nameindex` fails.
pub record Site : Type 0 where
  pub tolower : ℕ → ℕ
  pub toupper : ℕ → ℕ
  -- VERSION of config.h
  pub version : Bytes
  pub socket : Bool
  pub interfaces : Option (List Interface)

-- The globals. The dSUIDs are C strings; the light is in Scenes.
pub record Globals : Type 0 where
  pub dev_dsuid : Bytes
  pub vdc_dsuid : Bytes
  pub lib_dsuid : Bytes

-- A digit of `%02X`.
hex_digit : ℕ → ℕ
hex_digit n = if ltb n 10 then b'0' + n else b'A' + n - 10

hex : ℕ → Bytes
unfolding hex_digit
hex b = hex_digit (b % 256 / 16) ∷ hex_digit (b % 16) ∷ []

-- `":%02X"` for each byte but the first. The address is printed into 32 bytes, more than its 17
-- characters.
hex_rest : Bytes → Bytes
unfolding hex
hex_rest [] = []
hex_rest (b ∷ bs) = b':' ∷ hex b ++ hex_rest bs

unfoldable pub print_address : Bytes → Bytes
unfolding hex_rest
print_address [] = []
print_address (b ∷ bs) = hex b ++ hex_rest bs

-- The loop of `get_network_interface`: the first interface that is not a loopback and has an
-- address.
unfoldable pub find_address : List Interface → Bytes
unfolding print_address
find_address [] = []
find_address (i ∷ is) =
    let rest = find_address is in
    if bytes_eq (take 2 (take 15 i.name)) (codes "lo")
    then rest
    else elim i.address [ some a ↦ print_address (take 6 a) | none ↦ rest ]

-- `get_network_interface`, called with 32
unfoldable pub get_network_interface : Site → Bytes
unfolding find_address
get_network_interface site =
    if site.socket then elim site.interfaces [ none ↦ [] | some is ↦ find_address is ] else []

a_mac : print_address (0 ∷ 0x1f ∷ 0xa0 ∷ []) ≡ codes "00:1F:A0"
unfolding print_address
a_mac = refl

map_bytes : (ℕ → ℕ) → Bytes → Bytes
map_bytes f [] = []
map_bytes f (b ∷ bs) = f b ∷ map_bytes f bs

-- `strcasecmp(a, b) == 0`
unfoldable pub strcasecmp_eq : Site → Bytes → Bytes → Bool
unfolding map_bytes
strcasecmp_eq site a b = bytes_eq (map_bytes site.tolower a) (map_bytes site.tolower b)
