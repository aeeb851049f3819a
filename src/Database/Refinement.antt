-- ===== src/Database/Refinement.antt =====
-- The proof that a file refines a dictionary.
use libdsvdc.Base.{
  ℕ, zero, ◌+◌, ◌≡◌, refl, sym, ◌∙◌, inl, inr, true, Bool-cases, Option, none, some, List, [], ◌∷◌,
  Bytes, bytes_eq, bytes_eq_refl, eq_of_bytes_eq, suc-==-zero, arith,
}
use libdsvdc.Codes.{Code, dsvdc_ok}
use libdsvdc.Database.{
  Gdbm, Codec, Database, Loaded, not_loaded, fetched, fill, read_fetched, load_property,
  save_property,
}
use libdsvdc.Memory.{
  Mem, Cmd, pure, ◌>>=◌, Ends, ends, Ends-bind, IsPlentiful, Holding, spend, malloc-ok, free,
}
use libdsvdc.Property.{Elements, null, Property}
use libdsvdc.Property.Copy.Plenty.{deep_copy-Yields, property_new-Yields}
use libdsvdc.Property.Whole.{formed, blocks}
use mathlib.Core.Path.{subst}
use libdsvdc.Database.Dictionary.{
  WholeArray, empty_array, full_array, IsStorable, StorableFound, Dictionary, look_up, Command,
  save, load, property_of, answer_to, answers, cost_of, cost, IsReliable, AreStorable,
}

module _ (gdbm : Gdbm) (codec : Codec) where
  -- The commands on the file, one after another.
  abbrev pub serve : Option (Database gdbm) → List Command → Cmd (List (Code × Loaded))
  serve db [] = pure []
  serve db (save key p ∷ cs) = do
    (code, db') ← save_property gdbm codec db (some key) (some p)
    codes ← serve db' cs
    pure ((code, not_loaded) ∷ codes)
  serve db (load key ∷ cs) = do
    reply ← load_property gdbm codec db (some key)
    replies ← serve db cs
    pure (reply ∷ replies)

  abbrev packed : Option (ℕ × Elements) → Option Bytes
  packed none = none
  packed (some (n, elements)) = some (codec.pack n elements)

  -- The file holds what the dictionary does, packed, and all of that is storable.
  pub record Represents (db : Database gdbm) (d : Dictionary) : Type 0 where
    pub held : (key : Bytes) → gdbm.fetch db.dbf key ≡ packed (look_up d key)
    pub storable : (key : Bytes) → StorableFound codec (look_up d key)

  module _ (reliable : IsReliable gdbm) where
    -- Loading what the dictionary has.
    -- What a fetch of a well-formed array gives.
    fetched-Answers :
        (n : ℕ) (elements : Elements) (m : Mem)
        → IsStorable codec n elements
        → IsPlentiful m
        → Ends
            (λ r q.
              (r ≡ answer_to (some (n, elements)))
              × (q.grants ≡ m.grants)
              × Holding m q (blocks elements + 1))
            ((fetched gdbm (some (codec.pack n elements)) >>= read_fetched gdbm codec) m)
    unfolding free blocks
    fetched-Answers n elements m w plenty =
        simp (malloc-ok m plenty, property_new-Yields (spend m 1) plenty, w.faithful)
          (copied w.whole)
      where
        fresh : Mem
        fresh = record m { calls = m.calls + 1 + 1; allocs = m.allocs + 1 + 1; frees = m.frees + 1 }

        copied :
            {k : ℕ} {els : Elements}
            → WholeArray k els
            → Ends
                (λ r q.
                  (r ≡ answer_to (some (k, els)))
                  × (q.grants ≡ m.grants)
                  × Holding m q (blocks els + 1))
                (fill gdbm codec (property_of (zero, null)) (some (k, els)) fresh)
        copied empty_array = ends (refl, refl, omega arith)
        copied (full_array {n} ws) =
            simp (suc-==-zero n, deep_copy-Yields (formed ws) fresh plenty)
              (ends (refl, refl, omega arith))

    pub load-Answers :
        (db : Database gdbm) (d : Dictionary) (key : Bytes) (m : Mem)
        → Represents db d
        → IsPlentiful m
        → Ends
            (λ r n.
              (r ≡ answer_to (look_up d key))
              × (n.grants ≡ m.grants)
              × Holding m n (cost_of (look_up d key)))
            (load_property gdbm codec (some db) (some key) m)
    unfolding load_property
    load-Answers db d key m r plenty =
        subst
          (λ o.
            Ends
              (λ r n.
                (r ≡ answer_to (look_up d key))
                × (n.grants ≡ m.grants)
                × Holding m n (cost_of (look_up d key)))
              ((fetched gdbm o >>= read_fetched gdbm codec) m))
          (sym (r.held key)) (found (look_up d key) (r.storable key))
      where
        found :
            (o : Option (ℕ × Elements))
            → StorableFound codec o
            → Ends
                (λ r n. (r ≡ answer_to o) × (n.grants ≡ m.grants) × Holding m n (cost_of o))
                ((fetched gdbm (packed o) >>= read_fetched gdbm codec) m)
        found none w = ends (refl, refl, omega arith)
        found (some (n, elements)) w = fetched-Answers n elements m w plenty

    -- The dictionary with what was saved.
    abbrev pub saved : Bytes → Property → Dictionary → Dictionary
    saved key p d = (key, p.n_properties, p.properties) ∷ d

    stored-Represents :
        (db : Database gdbm) (d : Dictionary) (key : Bytes) (p : Property) (f : gdbm.File)
        → Represents db d
        → IsStorable codec p.n_properties p.properties
        → gdbm.store db.dbf key (codec.pack p.n_properties p.properties) ≡ some f
        → Represents (record db { dbf = f }) (saved key p d)
    stored-Represents db d key p f r w e = record {
      held = λ key'. elim (Bool-cases (bytes_eq key key')) [
        | inl same ↦ simp same (
            subst (λ k. gdbm.fetch f k ≡ some (codec.pack p.n_properties p.properties))
              (eq_of_bytes_eq key key' same) (reliable.same e))
        | inr other ↦ simp other (
            reliable.others e key' (λ q.
              let same : bytes_eq key key' ≡ true =
                subst (λ k. bytes_eq key k ≡ true) q (bytes_eq_refl key) in
              cc)
            ∙ r.held key')
      ];
      storable = λ key'. elim (Bool-cases (bytes_eq key key')) [
        | inl same ↦ simp same w
        | inr other ↦ simp other (r.storable key')
      ];
    }

    pub save-Represents :
        (db : Database gdbm) (d : Dictionary) (key : Bytes) (p : Property) (m : Mem)
        → Represents db d
        → IsStorable codec p.n_properties p.properties
        → IsPlentiful m
        → Ends
            (λ (code, o) n.
              (code ≡ dsvdc_ok)
              × ((db' : Database gdbm) × (o ≡ some db') × Represents db' (saved key p d))
              × (n.grants ≡ m.grants)
              × Holding m n 0)
            (save_property gdbm codec (some db) (some key) (some p) m)
    unfolding save_property free
    save-Represents db d key p m r w plenty =
        let (f, e) = reliable.store db.dbf key (codec.pack p.n_properties p.properties) in
        simp (malloc-ok m plenty, e)
          (ends (
            refl,
            (record db { dbf = f }, refl, stored-Represents db d key p f r w e),
            refl,
            omega arith,
          ))

    -- Where GNU dbm stores what it is given and fetches it, the saved properties are well-formed
    -- and unpacking gives them back, and memory suffices, any sequence of saves and loads on a
    -- file that represents a dictionary ends, and each command answers as the dictionary does: a
    -- save succeeds, and a load gives the elements last saved under its key, or
    -- DSVDC_ERR_DATA_NOT_FOUND where there are none. The blocks held afterwards are exactly those
    -- of the loaded properties.
    pub serve-Refines :
        (db : Database gdbm) (d : Dictionary) (cs : List Command) (m : Mem)
        → Represents db d
        → AreStorable codec cs
        → IsPlentiful m
        → Ends (λ rs n. (rs ≡ answers d cs) × Holding m n (cost d cs)) (serve (some db) cs m)
    serve-Refines db d [] m r w plenty = ends (refl, omega arith)
    serve-Refines db d (save key p ∷ cs) m r (wp, w) plenty =
        Ends-bind (save-Represents db d key p m r wp plenty) λ (code, o) n (e, (db', f, r'), g, h).
          subst
            (λ o'.
              Ends
                (λ rs q. (rs ≡ answers d (save key p ∷ cs)) × Holding m q (cost (saved key p d) cs))
                ((serve o' cs >>= λ codes. pure ((code, not_loaded) ∷ codes)) n))
            (sym f)
            (Ends-bind (serve-Refines db' (saved key p d) cs n r' w (rw g plenty))
              λ codes q (es, hs). ends (rw (e, es) refl, omega (arith, h, hs)))
    serve-Refines db d (load key ∷ cs) m r w plenty =
        Ends-bind (load-Answers db d key m r plenty) λ reply n (e, g, h).
          Ends-bind (serve-Refines db d cs n r w (rw g plenty))
            λ replies q (es, hs). ends (rw (e, es) refl, omega (arith, h, hs))
