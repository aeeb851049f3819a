-- ===== src/Database.antt =====
-- src/database.c and src/util.c: properties that are kept in a file, by a key. GNU dbm and
-- protobuf-c are parameters; the blocks of an unpacked message are protobuf-c's own and not
-- counted.
pub mod Opening
pub mod Dictionary
pub mod Refinement
pub mod SampleFile
mod Examples
use libdsvdc.Base.{ℕ, Bool, true, false, not, ◌&&◌, Option, none, some, Bytes, ◌==◌, if◌then◌else◌}
use libdsvdc.Codes.{
  Code, dsvdc_ok, err_out_of_memory, err_param, err_invalid_property, err_file_not_found,
  err_database, err_data_not_found,
}
use libdsvdc.Memory.{Cmd, pure, ◌>>=◌, ◌>>◌, malloc, free}
use libdsvdc.Property.{Elements, null, vector, Property}
use libdsvdc.Property.Copy.{property_new, deep_copy}
use libdsvdc.Property.Free.{property_free}

-- GNU dbm. A file stands for its contents; `none` stands for a failure, and in `fetch` for a key
-- that is not there.
pub record Gdbm : Type 1 where
  pub File : Type 0
  -- by the name, and whether to write
  pub open_file : Bytes → Bool → Option File
  pub fetch : File → Bytes → Option Bytes
  pub store : File → Bytes → Bytes → Option File

-- Packing and unpacking of a `Vdcapi__VdcSendPushProperty`, whose only used field is the array.
pub record Codec : Type 0 where
  pub pack : ℕ → Elements → Bytes
  pub unpack : Bytes → Option (ℕ × Elements)

-- What the out parameter of `dsvdc_database_load_property` holds: NULL, a property, or the
-- address of one that was freed.
pub data Loaded : Type 0 where
  not_loaded freed_property : Loaded
  loaded : Property → Loaded

-- `file_exists`, by what `stat` returns.
unfoldable pub file_exists : (Bytes → ℕ) → Bytes → Bool
file_exists stat name = stat name == 0

module _ (gdbm : Gdbm) where
  -- `struct dsvdc_database`
  pub record Database : Type 0 where
    pub dbf : gdbm.File
    pub rw : Bool

  -- What the out parameter of `dsvdc_database_open` holds.
  pub data Opened : Type 0 where
    not_opened freed_database : Opened
    opened : Database → Opened

  -- The end of `dsvdc_database_open`, which is not left when the file could not be opened.
  abbrev pub keep_open : Bool → Option gdbm.File → Cmd (Code × Opened)
  keep_open rw none = do free; pure (dsvdc_ok, freed_database)
  keep_open rw (some f) = pure (dsvdc_ok, opened (record { dbf = f; rw = rw }))

  -- `dsvdc_database_open`
  unfoldable pub database_open : (Bytes → ℕ) → Bytes → Bool → Cmd (Code × Opened)
  unfolding file_exists
  database_open stat filename rw = do
    granted ← malloc
    if granted
        then (if not rw && not (file_exists stat filename)
            then (do free; pure (err_file_not_found, not_opened))
            else keep_open rw (gdbm.open_file filename rw))
        else pure (err_out_of_memory, not_opened)

  -- `dsvdc_database_close`; what `gdbm_close` frees is not counted.
  pub database_close : Option Database → Cmd (Unit {0})
  database_close none = pure tt
  database_close (some db) = free

  -- `gdbm_fetch` gives a block, or NULL.
  abbrev pub fetched : Option Bytes → Cmd (Option Bytes)
  fetched none = pure none
  fetched (some data') = do granted ← malloc; if granted then pure (some data') else pure none

  module _ (codec : Codec) where
    -- What is done with the copy of the elements.
    abbrev pub filled : Property → ℕ → Elements → Cmd (Code × Loaded)
    filled p n null = do
      property_free (some (record p { properties = null; n_properties = n }))
      pure (err_out_of_memory, freed_property)
    filled p n (vector slots) =
        pure (dsvdc_ok, loaded (record p { properties = vector slots; n_properties = n }))

    -- What is done with the unpacked message.
    abbrev pub fill : Property → Option (ℕ × Elements) → Cmd (Code × Loaded)
    fill p none = do property_free (some p); pure (err_invalid_property, freed_property)
    fill p (some (n, elements)) =
        if n == 0
        then pure (dsvdc_ok, loaded (record p { n_properties = n }))
        else (do copied ← deep_copy elements n; filled p n copied)

    -- What is done with the data and the new property.
    abbrev pub read_data : Bytes → Option Property → Cmd (Code × Loaded)
    read_data data' none = do free; pure (err_out_of_memory, not_loaded)
    read_data data' (some p) = do free; fill p (codec.unpack data')

    -- What is done with the data.
    abbrev pub read_fetched : Option Bytes → Cmd (Code × Loaded)
    read_fetched none = pure (err_data_not_found, not_loaded)
    read_fetched (some data') = do made ← property_new; read_data data' made

    -- `dsvdc_database_load_property`
    unfoldable pub load_property : Option Database → Option Bytes → Cmd (Code × Loaded)
    unfolding property_new property_free deep_copy
    load_property none key = pure (err_param, not_loaded)
    load_property (some db) none = pure (err_param, not_loaded)
    load_property (some db) (some key) = do got ← fetched (gdbm.fetch db.dbf key); read_fetched got

    -- What is made of the result of `gdbm_store`.
    abbrev pub stored : Database → Option gdbm.File → Code × Option Database
    stored db none = (err_database, some db)
    stored db (some f) = (dsvdc_ok, some (record db { dbf = f }))

    -- `dsvdc_database_save_property`, with the database as it is afterwards.
    unfoldable pub save_property :
        Option Database → Option Bytes → Option Property → Cmd (Code × Option Database)
    save_property none key property = pure (err_param, none)
    save_property (some db) none property = pure (err_param, some db)
    save_property (some db) (some key) none = pure (err_param, some db)
    save_property (some db) (some key) (some p) = do
      granted ← malloc
      if granted
          then (do
            free
            pure (stored db (gdbm.store db.dbf key (codec.pack p.n_properties p.properties))))
          else pure (err_out_of_memory, some db)
