-- ===== src/Reference/Scenes.antt =====
-- examples/vdc-reference.c: the scenes of the light. `callscene_cb` recalls a value from the
-- database, `savescene_cb` stores the light's value in it, and `output_channel_value_cb` sets it.
pub mod Key
pub mod Table
pub mod Recall
pub mod Refinement
pub mod Bounds
mod Examples
use libdsvdc.Base.{
  ℕ, zero, suc, ◌^◌, Bool, true, false, ◌&&◌, Option, none, some, List, [], ◌∷◌, Bytes, ◌==◌,
  if◌then◌else◌, ltb, codes,
}
use libdsvdc.Codes.{Code, is_ok, Answer, done, error}
use libdsvdc.Database.{Gdbm, Codec, Database, Loaded, loaded, load_property, save_property}
use libdsvdc.Memory.{Cmd, pure, ◌>>=◌, ◌>>◌, fault}
use libdsvdc.Property.{Property}
use libdsvdc.Property.Access.{get_double}
use libdsvdc.Property.Build.{add_double}
use libdsvdc.Property.Copy.{property_new}
use libdsvdc.Property.Free.{property_free}
use Key.{scene_key}

-- The arithmetic of doubles, over their bit patterns.
pub record Doubles : Type 0 where
  pub plus : ℕ → ℕ → ℕ
  pub minus : ℕ → ℕ → ℕ
  pub less : ℕ → ℕ → Bool

-- `MIN_VALUE`, `MAX_VALUE` and the two steps, as doubles.
abbrev pub min_value : ℕ
min_value = 0

abbrev pub max_value : ℕ
max_value = 0x4059000000000000

abbrev pub light_step : ℕ
light_step = 0x4024000000000000

-- The first dSUID is printed for each dSUID that was announced.
abbrev pub print_dsuids : Option (List Bytes) → ℕ → Cmd (Unit {0})
print_dsuids dsuids zero = pure tt
print_dsuids none (suc n) = fault
print_dsuids (some []) (suc n) = fault
print_dsuids (some (d ∷ ds)) (suc n) = pure tt

-- `scene > 128`, for an int32_t.
abbrev pub is_unknown : ℕ → Bool
is_unknown scene = ltb scene (2 ^ 31) && ltb 128 scene

module _ (doubles : Doubles) where
  -- The cases 11 and 12 of `callscene_cb`.
  unfoldable pub decrement : ℕ → ℕ
  decrement light =
      let lower = doubles.minus light light_step in
      if doubles.less lower min_value then min_value else lower

  unfoldable pub increment : ℕ → ℕ
  increment light =
      let higher = doubles.plus light light_step in
      if doubles.less max_value higher then max_value else higher

  -- The cases 11 to 14, which do not look into the database.
  unfoldable pub adjusted : ℕ → ℕ → Option ℕ
  unfolding decrement increment
  adjusted scene light =
      if scene == 11
      then some (decrement light)
      else if scene == 12
      then some (increment light)
      else if scene == 13
      then some min_value
      else if scene == 14
      then some max_value
      else none

module _ (gdbm : Gdbm) where
  -- The global `g_light_state`, and the database that the callbacks get as their userdata.
  pub record Scenes : Type 0 where
    pub light : ℕ
    pub db : Option (Database gdbm)

  -- `dsvdc_property_get_double` on what was loaded.
  abbrev pub take_light : Scenes → Answer ℕ → Scenes
  take_light st (done value) = record st { light = value }
  take_light st (error code) = st

  abbrev pub use_loaded : Scenes → Code × Loaded → Cmd Scenes
  use_loaded st (code, loaded p) =
      if is_ok code
      then (do value ← get_double (some p) 0; property_free (some p); pure (take_light st value))
      else pure st
  use_loaded st (code, _) = if is_ok code then fault else pure st

  -- What `savescene_cb` does with a new property.
  abbrev pub save_light : Codec → Bytes → Scenes → Option Property → Cmd Scenes
  save_light codec key st none = pure st
  save_light codec key st (some p) = do
    (added, property) ← add_double (some p) (some (codes "value")) st.light
    (code, db) ← save_property gdbm codec st.db (some key) property
    property_free property
    pure (record st { db = db })

  -- The loop of `output_channel_value_cb`.
  abbrev pub set_channel : ℕ → ℕ → ℕ → Scenes → Scenes
  set_channel zero channel value st = st
  set_channel (suc n) channel value st =
      set_channel n channel value (if channel == 0 then record st { light = value } else st)

  -- `output_channel_value_cb`
  unfoldable pub output_channel_value : Option (List Bytes) → ℕ → ℕ → ℕ → Scenes → Cmd Scenes
  output_channel_value dsuids n channel value st = do
    print_dsuids dsuids n
    pure (set_channel n channel value st)

  module _ (doubles : Doubles) (codec : Codec) where
    -- `callscene_cb` behind the `switch`.
    unfoldable pub recall : ℕ → Scenes → Cmd Scenes
    recall scene st =
        if is_unknown scene
        then pure st
        else (do got ← load_property gdbm codec st.db (some (scene_key scene)); use_loaded st got)

    -- `callscene_cb`
    unfoldable pub call_scene : Option (List Bytes) → ℕ → ℕ → Scenes → Cmd Scenes
    unfolding adjusted recall
    call_scene dsuids n scene st = do
      print_dsuids dsuids n
      elim (adjusted doubles scene st.light) [
        | some light ↦ pure (record st { light = light })
        | none ↦ recall scene st
      ]

    -- `savescene_cb`
    unfoldable pub save_scene : Option (List Bytes) → ℕ → ℕ → Scenes → Cmd Scenes
    save_scene dsuids n scene st = do
      print_dsuids dsuids n
      if is_unknown scene
          then pure st
          else (do made ← property_new; save_light codec (scene_key scene) st made)
