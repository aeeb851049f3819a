-- ===== src/Database/Opening.antt =====
-- What `dsvdc_database_open` gives.
use libdsvdc.Base.{
  ℕ, ◌≡◌, ◌≢◌, refl, ◌⊎◌, inl, inr, Bool, true, false, not, ◌&&◌, Bool-cases, Option, none, some,
  Bytes, ◌==◌, arith,
}
use libdsvdc.Codes.{Code, dsvdc_ok, err_out_of_memory, err_file_not_found}
use libdsvdc.Database.{
  Gdbm, Opened, not_opened, freed_database, opened, file_exists, keep_open, database_open,
}
use libdsvdc.Memory.{Mem, Ends, ends, Holding, free, malloc}

-- The code with what the out parameter holds, and how many blocks are held more than before.
pub data Opening (gdbm : Gdbm) (stat : Bytes → ℕ) (filename : Bytes) (rw : Bool) (m n : Mem)
    : Code × Opened gdbm → Type 0 where
  usable :
      (f : gdbm.File)
      → (rw ≡ true) ⊎ (stat filename ≡ 0)
      → gdbm.open_file filename rw ≡ some f
      → Holding m n 1
      → Opening gdbm stat filename rw m n (dsvdc_ok, opened (record { dbf = f; rw = rw }))
  unusable :
      (rw ≡ true) ⊎ (stat filename ≡ 0)
      → gdbm.open_file filename rw ≡ none
      → Holding m n 0
      → Opening gdbm stat filename rw m n (dsvdc_ok, freed_database)
  missing :
      rw ≡ false
      → stat filename ≢ 0
      → Holding m n 0
      → Opening gdbm stat filename rw m n (err_file_not_found, not_opened)
  no_memory :
      m.grants m.calls ≡ false
      → Holding m n 0
      → Opening gdbm stat filename rw m n (err_out_of_memory, not_opened)

module _ (gdbm : Gdbm) (stat : Bytes → ℕ) (filename : Bytes) (rw : Bool) where
  kept_open :
      (m n : Mem) (o : Option gdbm.File)
      → (rw ≡ true) ⊎ (stat filename ≡ 0)
      → gdbm.open_file filename rw ≡ o
      → Holding m n 1
      → Ends (λ r q. Opening gdbm stat filename rw m q r) (keep_open gdbm rw o n)
  unfolding free
  kept_open m n none there e h = ends (unusable there e (omega (arith, h)))
  kept_open m n (some f) there e h = ends (usable f there e h)

  readable :
      (b : Bool) → (not b && not (stat filename == 0)) ≡ false → (b ≡ true) ⊎ (stat filename ≡ 0)
  readable true h = inl refl
  readable false h = inr (ground arith)

  -- Opening a database always returns. Read-only, it answers DSVDC_ERR_FILE_NOT_FOUND where there
  -- is no such file, and without memory DSVDC_ERR_OUT_OF_MEMORY, with no block held. Otherwise it
  -- answers DSVDC_OK: with an instance in one block where GNU dbm opens the file, and where it
  -- does not, with the address of a block that was freed.
  pub database_open-Opening :
      (m : Mem)
      → Ends (λ r n. Opening gdbm stat filename rw m n r) (database_open gdbm stat filename rw m)
  unfolding database_open file_exists free malloc
  database_open-Opening m = elim (Bool-cases (m.grants m.calls)) [
    | inr refused ↦ simp refused (ends (no_memory refused (omega arith)))
    | inl granted ↦ elim (Bool-cases (not rw && not (stat filename == 0))) [
      | inl absent ↦
          simp (granted, absent) (ends (missing (ground arith) (ground arith) (omega arith)))
      | inr there ↦
          simp (granted, there)
            (kept_open m _ (gdbm.open_file filename rw) (readable rw there) refl (omega arith))
    ]
  ]
