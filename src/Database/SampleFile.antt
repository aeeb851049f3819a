-- ===== src/Database/SampleFile.antt =====
-- An association list as the file of a database, for the tests.
use libdsvdc.Base.{
  ◌≡◌, refl, inl, inr, Bool-cases, Option, none, some, List, [], ◌∷◌, Bytes, bytes_eq,
  bytes_eq_refl, eq_of_bytes_eq, if◌then◌else◌,
}
use mathlib.Core.Path.{subst}
use libdsvdc.Base.{ap}
use libdsvdc.Database.{Gdbm}
use libdsvdc.Database.Dictionary.{IsReliable}

abbrev pub found : List (Bytes × Bytes) → Bytes → Option Bytes
found [] key = none
found ((k, d) ∷ rest) key = if bytes_eq k key then some d else found rest key

abbrev pub file : Gdbm
file = record {
  File = List (Bytes × Bytes);
  open_file = λ name rw. none;
  fetch = found;
  store = λ f key data'. some ((key, data') ∷ f);
}

pub file-IsReliable : IsReliable file
file-IsReliable = record {
  store = λ f key data'. ((key, data') ∷ f, refl);
  same = λ {f} {g} {key} {data'} e.
      subst (λ h. found h key ≡ some data') (stored_is e) (simp (bytes_eq_refl key) refl);
  others = λ {f} {g} {key} {data'} e key' other.
      subst (λ h. found h key' ≡ found f key') (stored_is e)
        (elim (Bool-cases (bytes_eq key key')) [
          | inl same ↦ absurd (other (eq_of_bytes_eq key key' same))
          | inr apart ↦ simp apart refl
        ]);
}
  where
    file_of : Option (List (Bytes × Bytes)) → List (Bytes × Bytes)
    file_of none = []
    file_of (some f) = f

    stored_is : {f g : List (Bytes × Bytes)} → some f ≡ some g → f ≡ g
    stored_is e = ap file_of e
