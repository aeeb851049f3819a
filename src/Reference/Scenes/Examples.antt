-- ===== src/Reference/Scenes/Examples.antt =====
-- The theorems on scenes: 40 percent is set, saved as scene 5, and called again after the light
-- was switched to the maximum.
use libdsvdc.Base.{ℕ, ◌≡◌, refl, true, ltb, Option, none, some, List, [], ◌∷◌, Bytes, codes, arith}
use libdsvdc.Database.{Codec}
use libdsvdc.Database.SampleFile.{file, file-IsReliable}
use libdsvdc.Memory.{Ends, Balanced}
use libdsvdc.Property.{element, Elements, vector, end, entry}
use libdsvdc.Reference.Scenes.{Doubles, Scenes, adjusted}
use libdsvdc.Reference.Scenes.Bounds.{IsOrdered, InRange, receive_all-InRange}
use libdsvdc.Reference.Scenes.Recall.{Agrees}
use libdsvdc.Reference.Scenes.Refinement.{receive_all, receive_all-Refines}
use libdsvdc.Reference.Scenes.Table.{
  Room, Notification, called, saved_as, channel_set, meanings, light_array,
}
use libdsvdc.Samples.{plenty}

-- A codec for the arrays that hold the light.
abbrev packed : Elements → Bytes
packed (vector (entry (element name (some val) n els) end)) = val.v_double ∷ []
packed _ = []

abbrev unpacked : Bytes → Option (ℕ × Elements)
unpacked (v ∷ []) = some (1, light_array v)
unpacked _ = none

abbrev codec : Codec
codec = record { pack = λ n elements. packed elements; unpack = unpacked }

-- Doubles as numbers: a step down ends at 0, one up at the maximum.
abbrev doubles : Doubles
doubles = record { plus = λ a b. a; minus = λ a b. a; less = λ a b. ltb a b }

doubles-IsOrdered : IsOrdered doubles
doubles-IsOrdered = record {
  min_min = refl;
  max_max = refl;
  max_min = refl;
  lowers = λ x h. h;
  raises = λ x h. h;
}

abbrev scenes : Scenes file
scenes = record { light = 0; db = some (record { dbf = []; rw = true }) }

abbrev room : Room
room = record { light = 0; saved = [] }

scenes-Agrees : Agrees file codec scenes room
scenes-Agrees = record {
  light = refl;
  natural = tt;
  db = record { dbf = []; rw = true };
  open_db = refl;
  holds = record { held = λ key. refl; storable = λ key. tt };
}

abbrev lamp : Option (List Bytes)
lamp = some (codes "00" ∷ [])

abbrev evening : List Notification
evening =
    channel_set lamp 1 0 40
    ∷ saved_as lamp 1 5
    ∷ called lamp 1 14
    ∷ called lamp 1 5
    ∷ called lamp 1 17
    ∷ []

evening_light : (meanings doubles evening room).light ≡ 40
unfolding adjusted
evening_light = refl

receive_all-Refines_example :
    Ends
      (λ st n. Agrees file codec st (meanings doubles evening room) × Balanced plenty n)
      (receive_all file codec doubles evening scenes plenty)
receive_all-Refines_example =
    receive_all-Refines file codec doubles file-IsReliable (λ v. refl) evening scenes room plenty
      scenes-Agrees
      (tt, ((omega arith, tt), ((omega arith, tt), ((omega arith, tt), ((omega arith, tt), tt)))))
      (λ k. refl)

receive_all-InRange_example :
    Ends (λ st n. InRange doubles st.light) (receive_all file codec doubles evening scenes plenty)
receive_all-InRange_example =
    receive_all-InRange doubles doubles-IsOrdered file codec file-IsReliable (λ v. refl) evening
      scenes room plenty scenes-Agrees
      (tt, ((omega arith, tt), ((omega arith, tt), ((omega arith, tt), ((omega arith, tt), tt)))))
      (λ k. refl) ((refl, refl), tt) ((refl, refl), tt)
