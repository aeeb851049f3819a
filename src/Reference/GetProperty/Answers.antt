-- ===== src/Reference/GetProperty/Answers.antt =====
-- The answers to all names of `getprop_cb`.
use libdsvdc.Base.{inl, ℕ, ◌+◌, refl, arith, [], ◌∷◌, Bytes, none, codes}
use libdsvdc.Memory.{spend, ends}
use libdsvdc.Property.Build.Grows.{empty, size, extend-Grown}
use libdsvdc.Property.Copy.Plenty.{property_new-Yields}
use libdsvdc.Property.Whole.{blocks, field_blocks, leaf, present, some_bytes}
use libdsvdc.Reference.GetProperty.Reply.{set_string, set_uint, set_double}
use libdsvdc.Reference.Icon.{device_icon-filled}
use libdsvdc.Property.Build.Plenty.{add_bytes-Plenty}
use libdsvdc.Reference.GetProperty.Container.{answer_container}
use libdsvdc.Reference.GetProperty.Device.{
  answer_device, answer_identity, answer_model, output_description, button_input_descriptions,
  sensor_descriptions, button_input_settings, output_settings, model_features, channel_states, icon,
}
use libdsvdc.Reference.GetProperty.Growing.{
  Grows, growing, AllGrow, all_of-Tracked, set_property-Tracked, attached, fresh, Tracked-bind,
}
use libdsvdc.Reference.Site.{Site, Globals}

pub answer_container-Grows : (site : Site) (name : Bytes) → Grows (answer_container site name)
unfolding answer_container
answer_container-Grows site name = search (growing) depth 24

sensor-AllGrow :
    (name : Bytes) (type : ℕ)
    → AllGrow (
        set_string (codes "name") name
        ∷ set_uint (codes "sensorType") type
        ∷ set_uint (codes "sensorUsage") 0
        ∷ set_double (codes "aliveSignInterval") 0x4072c00000000000
        ∷ [])
sensor-AllGrow name type = search (growing) depth 8

sensor_descriptions-Grows : (name : Bytes) → Grows (sensor_descriptions name)
unfolding sensor_descriptions blocks
sensor_descriptions-Grows name = record {
  on = λ p m w h.
      rw
        (
          property_new-Yields m h,
          property_new-Yields (spend m 1) h,
          property_new-Yields (spend (spend m 1) 1) h,
        )
        (Tracked-bind _
          (all_of-Tracked {m = m} {j = 3} _ fresh (spend (spend (spend m 1) 1) 1)
            (sensor-AllGrow (codes "Energy Meter") 16) h (empty none) (omega arith) refl
            (omega arith))
          λ e n we held same more.
            Tracked-bind _
              (set_property-Tracked {m = m} {j = 2} (codes "0") fresh e n h (empty none) we
                (omega (arith, held)) same more)
              λ r n1 wr held1 same1 more1.
                Tracked-bind _
                  (all_of-Tracked {m = m} {j = size r + 2} _ fresh n1
                    (sensor-AllGrow (codes "Power") 14) h (empty none) (omega (arith, held1)) same1
                    more1)
                  λ w' n2 wp held2 same2 more2.
                    Tracked-bind _
                      (set_property-Tracked {m = m} {j = 1} (codes "1") r w' n2 h wr wp
                        (omega (arith, held2)) same2 more2)
                      λ r' n3 wr' held3 same3 more3. attached name n3 w wr' held3 same3 more3 h);
}

output_description-Grows : (name : Bytes) → Grows (output_description name)
unfolding output_description
output_description-Grows name = search (growing) depth 24

button_input_descriptions-Grows : (name : Bytes) → Grows (button_input_descriptions name)
unfolding button_input_descriptions
button_input_descriptions-Grows name = search (growing) depth 24

button_input_settings-Grows : (name : Bytes) → Grows (button_input_settings name)
unfolding button_input_settings
button_input_settings-Grows name = search (growing) depth 24

output_settings-Grows : (name : Bytes) → Grows (output_settings name)
unfolding output_settings
output_settings-Grows name = search (growing) depth 24

model_features-Grows : (name : Bytes) → Grows (model_features name)
unfolding model_features
model_features-Grows name = search (growing) depth 24

channel_states-Grows : (light : ℕ) (name : Bytes) → Grows (channel_states light name)
unfolding channel_states
channel_states-Grows light name = search (growing) depth 24

icon-Grows : (name : Bytes) → Grows (icon name)
unfolding icon field_blocks blocks
icon-Grows name = record {
  on = λ p m w h.
      let (b, bs, e) = device_icon-filled in
      rw (e, add_bytes-Plenty p name m b bs h)
        (ends (
          extend-Grown _ m 4 w
            (leaf (present (record { bytes = some_bytes (b ∷ bs) refl; single = inl refl })))
            (omega arith)));
}

module _ (site : Site) (g : Globals) (light : ℕ) (dsuid : Bytes) where
  answer_model-Grows : (name : Bytes) → Grows (answer_model site g light dsuid name)
  unfolding answer_model
  answer_model-Grows name =
      search (growing, model_features-Grows, channel_states-Grows, icon-Grows) depth 24

  answer_identity-Grows : (name : Bytes) → Grows (answer_identity site g light dsuid name)
  unfolding answer_identity
  answer_identity-Grows name = search (growing, answer_model-Grows) depth 24

  pub answer_device-Grows : (name : Bytes) → Grows (answer_device site g light dsuid name)
  unfolding answer_device
  answer_device-Grows name =
      search
        (
          growing, output_description-Grows, button_input_descriptions-Grows,
          sensor_descriptions-Grows, button_input_settings-Grows, output_settings-Grows,
          answer_identity-Grows,
        )
        depth 24
