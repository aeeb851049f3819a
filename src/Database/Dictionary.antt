-- ===== src/Database/Dictionary.antt =====
-- A file of properties refines a dictionary: the abstract view forgets the file, the packing and
-- the memory.
use libdsvdc.Base.{
  ℕ, zero, suc, ◌+◌, ◌≡◌, ◌≢◌, Option, none, some, List, [], ◌∷◌, Bytes, bytes_eq, if◌then◌else◌,
}
use libdsvdc.Codes.{Code, dsvdc_ok, err_data_not_found}
use libdsvdc.Database.{Gdbm, Codec, Loaded, not_loaded, loaded}
use libdsvdc.Property.{Elements, null, vector, Slots, Property}
use libdsvdc.Property.Whole.{WholeSlots, blocks}

-- A well-formed array of elements: NULL where it is empty.
pub data WholeArray : ℕ → Elements → Type 0 where
  empty_array : WholeArray zero null
  full_array :
      {n : ℕ} {slots : Slots} → WholeSlots slots (suc n) → WholeArray (suc n) (vector slots)

-- A well-formed array that unpacking gives back when it was packed.
pub record IsStorable (codec : Codec) (n : ℕ) (elements : Elements) : Type 0 where
  pub whole : WholeArray n elements
  pub faithful : codec.unpack (codec.pack n elements) ≡ some (n, elements)

abbrev pub StorableFound : Codec → Option (ℕ × Elements) → Type 0
StorableFound codec none = Unit {0}
StorableFound codec (some (n, elements)) = IsStorable codec n elements

-- The dictionary: the newest entry of a key counts.
abbrev pub Dictionary : Type 0
Dictionary = List (Bytes × ℕ × Elements)

abbrev pub look_up : Dictionary → Bytes → Option (ℕ × Elements)
look_up [] key = none
look_up ((k, n, elements) ∷ d) key = if bytes_eq k key then some (n, elements) else look_up d key

pub data Command : Type 0 where
  save : Bytes → Property → Command
  load : Bytes → Command

-- A dictionary's answers.
abbrev pub property_of : ℕ × Elements → Property
property_of (n, elements) = record { message_id = none; properties = elements; n_properties = n }

abbrev pub answer_to : Option (ℕ × Elements) → Code × Loaded
answer_to none = (err_data_not_found, not_loaded)
answer_to (some found) = (dsvdc_ok, loaded (property_of found))

abbrev pub answers : Dictionary → List Command → List (Code × Loaded)
answers d [] = []
answers d (save key p ∷ cs) =
    (dsvdc_ok, not_loaded) ∷ answers ((key, p.n_properties, p.properties) ∷ d) cs
answers d (load key ∷ cs) = answer_to (look_up d key) ∷ answers d cs

-- The blocks of the properties that were loaded, each with its handle.
abbrev pub cost_of : Option (ℕ × Elements) → ℕ
cost_of none = 0
cost_of (some (n, elements)) = blocks elements + 1

abbrev pub cost : Dictionary → List Command → ℕ
cost d [] = 0
cost d (save key p ∷ cs) = cost ((key, p.n_properties, p.properties) ∷ d) cs
cost d (load key ∷ cs) = cost_of (look_up d key) + cost d cs

-- GNU dbm on a file that it can write: what was stored is fetched, and the other keys keep their
-- data.
pub record IsReliable (gdbm : Gdbm) : Type 0 where
  pub store :
      (f : gdbm.File) (key data' : Bytes) → (g : gdbm.File) × (gdbm.store f key data' ≡ some g)
  pub same :
      {f g : gdbm.File} {key data' : Bytes}
      → gdbm.store f key data' ≡ some g
      → gdbm.fetch g key ≡ some data'
  pub others :
      {f g : gdbm.File} {key data' : Bytes}
      → gdbm.store f key data' ≡ some g
      → (key' : Bytes) → key ≢ key'
      → gdbm.fetch g key' ≡ gdbm.fetch f key'

-- The saved properties are storable.
abbrev pub AreStorable : Codec → List Command → Type 0
AreStorable codec [] = Unit {0}
AreStorable codec (save key p ∷ cs) =
    IsStorable codec p.n_properties p.properties × AreStorable codec cs
AreStorable codec (load key ∷ cs) = AreStorable codec cs
