-- ===== src/Reference/GetProperty/Device.antt =====
-- examples/vdc-reference.c: the properties of the device.
use libdsvdc.Base.{
  ℕ, true, false, ◌||◌, Option, some, ◌++◌, [], ◌∷◌, Bytes, bytes_eq, if◌then◌else◌, codes, length,
}
use libdsvdc.Memory.{Cmd, pure, ◌>>=◌, ◌>>◌}
use libdsvdc.Property.{Property}
use libdsvdc.Property.Build.{add_bytes}
use libdsvdc.Property.Copy.{property_new}
use libdsvdc.Property.Free.{property_free}
use libdsvdc.Reference.GetProperty.Reply.{
  Answering, set_uint, set_int, set_bool, set_double, set_string, set_property, all_of, reply_with,
  reply_nested,
}
use libdsvdc.Reference.Icon.{device_icon}
use libdsvdc.Reference.Site.{Site, Globals, get_network_interface}

-- "outputDescription"
unfoldable pub output_description : Answering
unfolding reply_with
output_description = reply_with (
    set_string (codes "name") (codes "Reference table light")
    ∷ set_uint (codes "function") 1
    ∷ set_uint (codes "outputUsage") 0
    ∷ set_bool (codes "variableRamp") false
    ∷ set_uint (codes "maxPower") 100
    ∷ set_uint (codes "minDim") 0
    ∷ [])

-- "buttonInputDescriptions"
unfoldable pub button_input_descriptions : Answering
unfolding reply_nested
button_input_descriptions =
    reply_nested (codes "0")
      (set_string (codes "name") (codes "keyboard button")
        ∷ set_bool (codes "supportsLocalKeyMode") true
        ∷ set_uint (codes "buttonType") 1
        ∷ set_uint (codes "buttonElementID") 0
        ∷ [])
      []

-- A sensor; the interval of 300 seconds is a double.
abbrev pub sensor : Bytes → ℕ → Option Property → Cmd (Option Property)
sensor name type = all_of (
    set_string (codes "name") name
    ∷ set_uint (codes "sensorType") type
    ∷ set_uint (codes "sensorUsage") 0
    ∷ set_double (codes "aliveSignInterval") 0x4072c00000000000
    ∷ [])

-- "sensorDescriptions", with the three new properties.
abbrev pub describe_sensors :
    Bytes
    → Option Property
    → Option Property
    → Option Property
    → Option Property
    → Cmd (Option Property)
describe_sensors name property (some reply) (some energy) (some power) = do
  energy' ← sensor (codes "Energy Meter") 16 (some energy)
  reply' ← set_property (codes "0") energy' (some reply)
  power' ← sensor (codes "Power") 14 (some power)
  reply'' ← set_property (codes "1") power' reply'
  set_property name reply'' property
describe_sensors name property reply energy power = do
  property_free reply
  property_free energy
  property_free power
  pure property

unfoldable pub sensor_descriptions : Answering
sensor_descriptions name property = do
  reply ← property_new
  energy ← property_new
  power ← property_new
  describe_sensors name property reply energy power

-- "buttonInputSettings"
unfoldable pub button_input_settings : Answering
unfolding reply_nested
button_input_settings =
    reply_nested (codes "0")
      (set_uint (codes "group") 1
        ∷ set_uint (codes "function") 5
        ∷ set_uint (codes "mode") 0
        ∷ set_bool (codes "setsLocalPriority") true
        ∷ set_bool (codes "callsPresent") true
        ∷ [])
      []

-- "outputSettings"
unfoldable pub output_settings : Answering
unfolding reply_nested
output_settings =
    reply_nested (codes "groups") (set_bool (codes "0") true ∷ set_bool (codes "1") true ∷ [])
      (set_uint (codes "mode") 2 ∷ set_bool (codes "pushChanges") true ∷ [])

-- "modelFeatures"
unfoldable pub model_features : Answering
unfolding reply_with
model_features = reply_with (
    set_bool (codes "dontcare") true
    ∷ set_bool (codes "blink") true
    ∷ set_bool (codes "ledauto") false
    ∷ set_bool (codes "transt") false
    ∷ set_bool (codes "outmode") true
    ∷ set_bool (codes "outvalue8") true
    ∷ set_bool (codes "pushbutton") true
    ∷ set_bool (codes "pushbdevice") true
    ∷ set_bool (codes "pushbarea") true
    ∷ set_bool (codes "pushbadvanced") true
    ∷ [])

-- "channelStates"
unfoldable pub channel_states : ℕ → Answering
unfolding reply_nested
channel_states light =
    reply_nested (codes "0") (set_double (codes "value") light ∷ set_int (codes "age") 1 ∷ []) []

-- "deviceIcon16"
unfoldable pub icon : Bytes → Option Property → Cmd (Option Property)
icon name p = do (_, p') ← add_bytes p (some name) (some device_icon) (length device_icon); pure p'

module _ (site : Site) (g : Globals) (light : ℕ) (dsuid : Bytes) where
  -- The second half of the ladder.
  unfoldable pub answer_model : Answering
  unfolding model_features channel_states icon
  answer_model name =
      if bytes_eq name (codes "modelFeatures")
      then model_features name
      else if bytes_eq name (codes "type")
      then set_string name (codes "vDSD")
      else if bytes_eq name (codes "model")
      then set_string name (codes "libdSvDC reference application")
      else if bytes_eq name (codes "deviceIcon16")
      then icon name
      else if bytes_eq name (codes "configURL")
      then set_string name (codes "/add-ons/libdsvdc")
      else if bytes_eq name (codes "channelStates")
      then channel_states light name
      else pure

  -- The names between.
  unfoldable pub answer_identity : Answering
  unfolding answer_model
  answer_identity name =
      if bytes_eq name (codes "name")
      then set_string name (
          if bytes_eq dsuid g.vdc_dsuid
          then codes "Reference libdSvDC"
          else codes "Reference Light")
      else if bytes_eq name (codes "hardwareGuid")
      then set_string name (codes "macaddress:" ++ get_network_interface site)
      else if bytes_eq name (codes "hardwareModelGuid")
      then set_string name (codes "gs1:0100000")
      else if bytes_eq name (codes "modelUID")
      then set_string name (codes "libdsvdc:reference")
      else if bytes_eq name (codes "modelVersion") || bytes_eq name (codes "hardwareVersion")
      then set_string name site.version
      else answer_model name

  -- The ladder of `getprop_cb` for the device. Nothing is added for "binaryInputDescriptions",
  -- "channelDescriptions" and "scenes".
  unfoldable pub answer_device : Answering
  unfolding answer_identity output_description button_input_descriptions sensor_descriptions
      button_input_settings output_settings
  answer_device name =
      if bytes_eq name (codes "outputDescription")
      then output_description name
      else if bytes_eq name (codes "buttonInputDescriptions")
      then button_input_descriptions name
      else if bytes_eq name (codes "primaryGroup")
      then set_uint (codes "primaryGroup") 1
      else if bytes_eq name (codes "binaryInputDescriptions")
      then pure
      else if bytes_eq name (codes "sensorDescriptions")
      then sensor_descriptions name
      else if bytes_eq name (codes "buttonInputSettings")
      then button_input_settings name
      else if bytes_eq name (codes "outputSettings")
      then output_settings name
      else if bytes_eq name (codes "channelDescriptions")
      then pure
      else answer_identity name
