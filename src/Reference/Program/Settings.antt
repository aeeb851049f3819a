-- ===== src/Reference/Program/Settings.antt =====
-- examples/vdc-reference.c: the dSUIDs that `main` makes and the options that it reads.
use libdsvdc.Base.{
  ℕ, ◌-◌, Bool, true, false, List, [], ◌∷◌, ◌++◌, Bytes, ltb, leb, if◌then◌else◌, take, length,
  codes,
}
use libdsvdc.Reference.Site.{Site, Globals, get_network_interface}

-- libdsuid and the random numbers. `dsuid` is `dsuid_generate_v3_from_namespace` of a text in the
-- namespace DSUID_NS_IEEE_MAC, with `dsuid_to_string`; `digits` are three digits.
pub record Makers : Type 0 where
  pub dsuid : Bytes → Bytes
  pub lib_digits : Bytes
  pub vdc_digits : Bytes
  pub dev_digits : Bytes

-- What `getopt_long` returns: the options with their arguments, and anything else.
pub data Switch : Type 0 where
  random noauto other : Switch
  library_dsuid container_dsuid device_dsuid : Bytes → Switch

pub record Settings : Type 0 where
  pub globals : Globals
  pub random_dsuid : Bool
  pub noauto_flag : Bool

-- The dSUIDs of a host: the address, and with "-0000" and "-1111" behind it.
unfoldable pub host_dsuids : Site → Makers → Globals
host_dsuids site makers =
    let mac = get_network_interface site in
    record {
      vdc_dsuid = makers.dsuid mac;
      dev_dsuid = makers.dsuid (mac ++ codes "-0000");
      lib_dsuid = makers.dsuid (mac ++ codes "-1111");
    }

-- What the reading of the options comes to: the settings, the end of the program with the text
-- on its usage, or a read behind an array.
pub data Parsed : Type 0 where
  parsed : Settings → Parsed
  usage overrun : Parsed

-- `strncpy(g_dsuid, optarg, 35)`. A text of 35 characters or more leaves no NUL in the array, and
-- the string is later read behind it.
abbrev copied : Bytes → (Bytes → Settings) → Parsed
copied text set = if ltb (length text) 35 then parsed (set text) else overrun

-- A case of the `switch`.
abbrev switched : Switch → Settings → Parsed
switched random st = parsed (record st { random_dsuid = true })
switched noauto st = parsed (record st { noauto_flag = true })
switched other st = usage
switched (library_dsuid text) st =
    copied text λ t. record st { globals = record (st.globals) { lib_dsuid = t } }
switched (container_dsuid text) st =
    copied text λ t. record st { globals = record (st.globals) { vdc_dsuid = t } }
switched (device_dsuid text) st =
    copied text λ t. record st { globals = record (st.globals) { dev_dsuid = t } }

-- The `while` loop over the options.
unfoldable pub read_options : List Switch → Settings → Parsed
read_options [] st = parsed st
read_options (o ∷ os) st = elim (switched o st) [
  | parsed st' ↦ read_options os st'
  | usage ↦ usage
  | overrun ↦ overrun
]

-- `snprintf(text + offset, 4, ...)` with three digits. Behind the end of the text it changes
-- nothing of it.
abbrev overwritten : ℕ → Bytes → Bytes → Bytes
overwritten offset digits text =
    if leb offset (length text) then take offset text ++ digits else text

-- The randomized dSUIDs; each offset is counted from the end of the container's dSUID.
unfoldable pub randomize : Makers → Globals → Globals
randomize makers g =
    let offset = length g.vdc_dsuid - 3 in
    record {
      lib_dsuid = overwritten offset makers.lib_digits g.lib_dsuid;
      vdc_dsuid = overwritten offset makers.vdc_digits g.vdc_dsuid;
      dev_dsuid =
          overwritten (length (overwritten offset makers.vdc_digits g.vdc_dsuid) - 3)
            makers.dev_digits g.dev_dsuid;
    }

-- The settings that the program runs with. The offset is behind an array where the container's
-- dSUID has fewer than three characters.
abbrev pub randomized : Makers → Parsed → Parsed
randomized makers (parsed st) =
    if st.random_dsuid
    then (if ltb (length st.globals.vdc_dsuid) 3
        then overrun
        else parsed (record st { globals = randomize makers st.globals }))
    else parsed st
randomized makers usage = usage
randomized makers overrun = overrun

unfoldable pub settings : Site → Makers → List Switch → Parsed
unfolding host_dsuids read_options randomize
settings site makers switches = randomized makers (
    read_options switches
      (record { globals = host_dsuids site makers; random_dsuid = false; noauto_flag = false }))
