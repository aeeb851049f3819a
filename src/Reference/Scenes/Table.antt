-- ===== src/Reference/Scenes/Table.antt =====
-- What the scenes of the reference connector are for: a table of the light's values.
use libdsvdc.Base.{
  ℕ, zero, suc, ◌≡◌, refl, sym, ◌∙◌, true, false, Bool-cases, inl, inr, Option, none, some, List,
  [], ◌∷◌, Bytes, bytes_eq, bytes_eq_refl, eq_of_bytes_eq, ◌==◌, ==_iff, if◌then◌else◌, codes,
}
use mathlib.Core.Path.{subst}
use libdsvdc.Database.Dictionary.{Dictionary, look_up}
use libdsvdc.Memory.{Mem, ok}
use libdsvdc.Property.{init_value, Element, element, Elements, null, vector, entry, end}
use libdsvdc.Property.Whole.{WholeSlots, nil, cons, leaf, present, no_bytes}
use libdsvdc.Reference.Scenes.{Doubles, is_unknown, print_dsuids, adjusted}
use libdsvdc.Reference.Scenes.Key.{scene_key, scene_key-injective, IsNatural}

-- The light, and what was saved for each scene, the newest first.
pub record Room : Type 0 where
  pub light : ℕ
  pub saved : List (ℕ × ℕ)

abbrev pub value_of_scene : List (ℕ × ℕ) → ℕ → Option ℕ
value_of_scene [] scene = none
value_of_scene ((s, v) ∷ rest) scene = if s == scene then some v else value_of_scene rest scene

-- The notifications that the callbacks serve: dSUIDs, their number, and the scene, or the channel
-- and its value.
pub data Notification : Type 0 where
  called saved_as : Option (List Bytes) → ℕ → ℕ → Notification
  channel_set : Option (List Bytes) → ℕ → ℕ → ℕ → Notification

abbrev pub recalled : Room → Option ℕ → Room
recalled r none = r
recalled r (some v) = record r { light = v }

module _ (doubles : Doubles) where
  -- What a notification means for the table.
  abbrev pub meaning : Notification → Room → Room
  meaning (called dsuids n scene) r = elim (adjusted doubles scene r.light) [
    | some light ↦ record r { light = light }
    | none ↦ if is_unknown scene then r else recalled r (value_of_scene r.saved scene)
  ]
  meaning (saved_as dsuids n scene) r =
      if is_unknown scene then r else record r { saved = (scene, r.light) ∷ r.saved }
  meaning (channel_set dsuids n channel value) r =
      if n == 0 then r else if channel == 0 then record r { light = value } else r

  abbrev pub meanings : List Notification → Room → Room
  meanings [] r = r
  meanings (c ∷ cs) r = meanings cs (meaning c r)

-- The array of a property that holds the light's value.
abbrev pub light_element : ℕ → Element
light_element v =
    element (some (codes "value")) (some (record init_value { v_double = v; has_v_double = true }))
      0 null

abbrev pub light_array : ℕ → Elements
light_array v = vector (entry (light_element v) end)

pub light_array-Whole : (v : ℕ) → WholeSlots (entry (light_element v) end) 1
light_array-Whole v =
    cons (leaf (present (record { bytes = no_bytes false; single = inl refl }))) nil

-- What the file holds for a table.
abbrev pub dictionary : List (ℕ × ℕ) → Dictionary
dictionary [] = []
dictionary ((s, v) ∷ rest) = (scene_key s, 1, light_array v) ∷ dictionary rest

-- All scenes are not negative, and there are dSUIDs where their number is not 0.
abbrev pub AreNatural : List (ℕ × ℕ) → Type 0
AreNatural [] = Unit {0}
AreNatural ((s, v) ∷ rest) = IsNatural s × AreNatural rest

abbrev pub Announces : Option (List Bytes) → ℕ → Type 0
Announces dsuids zero = Unit {0}
Announces none (suc n) = ⊥
Announces (some []) (suc n) = ⊥
Announces (some (d ∷ ds)) (suc n) = Unit {0}

pub print_dsuids-ok :
    (dsuids : Option (List Bytes)) (n : ℕ) (m : Mem)
    → Announces dsuids n
    → print_dsuids dsuids n m ≡ ok tt m
print_dsuids-ok dsuids zero m h = refl
print_dsuids-ok none (suc n) m h = absurd h
print_dsuids-ok (some []) (suc n) m h = absurd h
print_dsuids-ok (some (d ∷ ds)) (suc n) m h = refl

abbrev pub IsPlain : Notification → Type 0
IsPlain (called dsuids n scene) = IsNatural scene × Announces dsuids n
IsPlain (saved_as dsuids n scene) = IsNatural scene × Announces dsuids n
IsPlain (channel_set dsuids n channel value) = Announces dsuids n

abbrev pub ArePlain : List Notification → Type 0
ArePlain [] = Unit {0}
ArePlain (c ∷ cs) = IsPlain c × ArePlain cs

abbrev pub found_value : Option ℕ → Option (ℕ × Elements)
found_value none = none
found_value (some v) = some (1, light_array v)

scene_key-same :
    (s t : ℕ) → IsNatural s → IsNatural t → bytes_eq (scene_key s) (scene_key t) ≡ (s == t)
scene_key-same s t hs ht = elim (Bool-cases (bytes_eq (scene_key s) (scene_key t))) [
  | inl same ↦
      same
      ∙ sym (
          (==_iff s t).1
            (scene_key-injective s t hs ht (eq_of_bytes_eq (scene_key s) (scene_key t) same)))
  | inr apart ↦ elim (Bool-cases (s == t)) [
    | inr other ↦ apart ∙ sym other
    | inl equal ↦
        let same : bytes_eq (scene_key s) (scene_key t) ≡ true =
          subst (λ k. bytes_eq (scene_key s) (scene_key k) ≡ true) ((==_iff s t).0 equal)
            (bytes_eq_refl (scene_key s)) in
        cc
  ]
]

-- The file's dictionary answers as the table does.
pub look_up-dictionary :
    (saved : List (ℕ × ℕ)) (scene : ℕ)
    → AreNatural saved
    → IsNatural scene
    → look_up (dictionary saved) (scene_key scene) ≡ found_value (value_of_scene saved scene)
look_up-dictionary [] scene w h = refl
look_up-dictionary ((s, v) ∷ rest) scene (hs, w) h = elim (Bool-cases (s == scene)) [
  | inl same ↦ simp (scene_key-same s scene hs h, same)
  | inr other ↦ simp (scene_key-same s scene hs h, other) (look_up-dictionary rest scene w h)
]
