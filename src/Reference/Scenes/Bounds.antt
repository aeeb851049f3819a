-- ===== src/Reference/Scenes/Bounds.antt =====
-- The light of the reference connector stays between 0 and 100 percent.
use libdsvdc.Base.{
  ℕ, ◌≡◌, false, Bool-cases, Option-cases, inl, inr, Option, some, List, [], ◌∷◌, Bytes, arith,
}
use libdsvdc.Database.{Gdbm, Codec}
use libdsvdc.Database.Dictionary.{IsReliable}
use libdsvdc.Memory.{Mem, Ends, Ends-map, IsPlentiful}
use libdsvdc.Reference.Scenes.{
  Doubles, Scenes, min_value, max_value, light_step, is_unknown, adjusted,
}
use libdsvdc.Reference.Scenes.Recall.{Agrees}
use libdsvdc.Reference.Scenes.Refinement.{receive_all, receive_all-Refines}
use libdsvdc.Reference.Scenes.Table.{
  Room, value_of_scene, Notification, called, saved_as, channel_set, recalled, meaning, meanings,
  light_array, ArePlain,
}

-- Comparing and adding as IEEE 754 has them: a step down is not above, a step up not below.
pub record IsOrdered (doubles : Doubles) : Type 0 where
  pub min_min : doubles.less min_value min_value ≡ false
  pub max_max : doubles.less max_value max_value ≡ false
  pub max_min : doubles.less max_value min_value ≡ false
  pub lowers :
      (x : ℕ)
      → doubles.less max_value x ≡ false
      → doubles.less max_value (doubles.minus x light_step) ≡ false
  pub raises :
      (x : ℕ)
      → doubles.less x min_value ≡ false
      → doubles.less (doubles.plus x light_step) min_value ≡ false

module _ (doubles : Doubles) where
  abbrev pub InRange : ℕ → Type 0
  InRange x = (doubles.less x min_value ≡ false) × (doubles.less max_value x ≡ false)

  abbrev pub AllInRange : List (ℕ × ℕ) → Type 0
  AllInRange [] = Unit {0}
  AllInRange ((s, v) ∷ rest) = InRange v × AllInRange rest

  abbrev pub RoomInRange : Room → Type 0
  RoomInRange r = InRange r.light × AllInRange r.saved

  -- The values that the vdSM sends.
  abbrev pub SentInRange : List Notification → Type 0
  SentInRange [] = Unit {0}
  SentInRange (channel_set dsuids n channel value ∷ cs) = InRange value × SentInRange cs
  SentInRange (called dsuids n scene ∷ cs) = SentInRange cs
  SentInRange (saved_as dsuids n scene ∷ cs) = SentInRange cs

  module _ (ordered : IsOrdered doubles) where
    adjusted-InRange :
        (scene light : ℕ) {v : ℕ}
        → InRange light
        → adjusted doubles scene light ≡ some v
        → InRange v
    unfolding adjusted
    adjusted-InRange scene light h e = ground (
      arith,
      ordered.min_min,
      ordered.max_max,
      ordered.max_min,
      ordered.lowers light,
      ordered.raises light,
    )

    found-InRange :
        (saved : List (ℕ × ℕ)) (scene v : ℕ)
        → AllInRange saved
        → value_of_scene saved scene ≡ some v
        → InRange v
    found-InRange [] scene v h e = absurd (cc)
    found-InRange ((s, w) ∷ rest) scene v (h, hs) e = ground (arith, found-InRange rest scene v hs)

    recalled-InRange :
        (r : Room) (scene : ℕ)
        → RoomInRange r
        → RoomInRange (recalled r (value_of_scene r.saved scene))
    recalled-InRange r scene h = elim (Option-cases (value_of_scene r.saved scene)) [
      | inl missing ↦ rw missing h
      | inr (v, e) ↦ rw e (found-InRange r.saved scene v h.1 e, h.1)
    ]

    called-InRange :
        (dsuids : Option (List Bytes)) (n scene : ℕ) (r : Room)
        → RoomInRange r
        → RoomInRange (meaning doubles (called dsuids n scene) r)
    called-InRange dsuids n scene r h = elim (Option-cases (adjusted doubles scene r.light)) [
      | inr (v, e) ↦ rw (e, meaning) (adjusted-InRange scene r.light h.0 e, h.1)
      | inl other ↦ elim (Bool-cases (is_unknown scene)) [
        | inl unknown ↦ rw (other, unknown, meaning) h
        | inr known ↦ rw (other, known, meaning) (recalled-InRange r scene h)
      ]
    ]

    saved-InRange :
        (dsuids : Option (List Bytes)) (n scene : ℕ) (r : Room)
        → RoomInRange r
        → RoomInRange (meaning doubles (saved_as dsuids n scene) r)
    saved-InRange dsuids n scene r h = elim (Bool-cases (is_unknown scene)) [
      | inl unknown ↦ rw unknown h
      | inr known ↦ rw known (h.0, (h.0, h.1))
    ]

    set-InRange :
        (dsuids : Option (List Bytes)) (n channel value : ℕ) (r : Room)
        → RoomInRange r
        → InRange value
        → RoomInRange (meaning doubles (channel_set dsuids n channel value) r)
    set-InRange dsuids n channel value r h k = ground arith

    meanings-InRange :
        (cs : List Notification) (r : Room)
        → RoomInRange r
        → SentInRange cs
        → RoomInRange (meanings doubles cs r)
    meanings-InRange [] r h k = h
    meanings-InRange (called dsuids n scene ∷ cs) r h k =
        meanings-InRange cs _ (called-InRange dsuids n scene r h) k
    meanings-InRange (saved_as dsuids n scene ∷ cs) r h k =
        meanings-InRange cs _ (saved-InRange dsuids n scene r h) k
    meanings-InRange (channel_set dsuids n channel value ∷ cs) r h (v, k) =
        meanings-InRange cs _ (set-InRange dsuids n channel value r h v) k

    module _ (gdbm : Gdbm) (codec : Codec) (reliable : IsReliable gdbm)
        (faithful : (v : ℕ)
          → codec.unpack (codec.pack 1 (light_array v)) ≡ some (1, light_array v)) where
      -- Where GNU dbm stores what it is given and fetches it, unpacking gives the packed value of
      -- the light back, memory suffices, the connector's database represents a table of scenes,
      -- the scenes are not negative, dSUIDs are there where their number is not 0, the limits 0
      -- and 100 compare as numbers do, a step down leaves a double not above 100 and a step up
      -- leaves one not below 0, the light of the connector is neither below 0 nor above 100 after
      -- any sequence of called and saved scenes and channel values, if it and the saved values
      -- were not before and the channel values are not.
      pub receive_all-InRange :
          (cs : List Notification) (st : Scenes gdbm) (r : Room) (m : Mem)
          → Agrees gdbm codec st r
          → ArePlain cs
          → IsPlentiful m
          → RoomInRange r
          → SentInRange cs
          → Ends (λ st' n. InRange st'.light) (receive_all gdbm codec doubles cs st m)
      receive_all-InRange cs st r m w p plenty h k =
          Ends-map (receive_all-Refines gdbm codec doubles reliable faithful cs st r m w p plenty)
            λ st' n (w', b). rw w'.light ((meanings-InRange cs r h k).0)
