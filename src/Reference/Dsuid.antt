-- ===== src/Reference/Dsuid.antt =====
-- examples/vdc-reference.c: `dsuid_compare`.
use libdsvdc.Base.{
  ℕ, zero, suc, ◌<◌, ◌≤◌, ◌≡◌, refl, Bool, true, false, ◌&&◌, Option, none, some, [], ◌∷◌, ◌++◌,
  Bytes, ◌==◌, if◌then◌else◌, bytes_eq, take, length, ==_refl, arith,
}
use mathlib.Core.List.{map}

-- The loop, with `n` characters to go. The first text is a C string with its NUL, and `none` is a
-- read behind that; the second is an array that is filled up with NUL.
compare_chars : (ℕ → ℕ) → ℕ → Bytes → Bytes → Option Bool
compare_chars toupper zero dsuid ref = some true
compare_chars toupper (suc n) [] ref = none
compare_chars toupper (suc n) (c ∷ cs) [] =
    let rest = compare_chars toupper n cs [] in if c == toupper 0 then rest else some false
compare_chars toupper (suc n) (c ∷ cs) (r ∷ ref) =
    let rest = compare_chars toupper n cs ref in if c == toupper r then rest else some false

-- `dsuid_compare`; DSUID_LENGTH is 34.
unfoldable pub dsuid_compare : (ℕ → ℕ) → Bytes → Bytes → Option Bool
unfolding compare_chars
dsuid_compare toupper dsuid ref = compare_chars toupper 34 (dsuid ++ 0 ∷ []) ref

chosen : (a b : Bool) → (if a then some b else some false) ≡ some (a && b)
chosen true b = refl
chosen false b = refl

-- The first `n` characters of an array that is filled up with NUL.
abbrev pub padded : ℕ → Bytes → Bytes
padded zero ref = []
padded (suc n) [] = 0 ∷ padded n []
padded (suc n) (r ∷ ref) = r ∷ padded n ref

compare_chars-padded :
    (toupper : ℕ → ℕ) (n : ℕ) (dsuid ref : Bytes)
    → n ≤ length dsuid
    → compare_chars toupper n (dsuid ++ 0 ∷ []) ref
      ≡ some (bytes_eq (take n dsuid) (map toupper (padded n ref)))
unfolding compare_chars
compare_chars-padded toupper zero dsuid ref h = refl
compare_chars-padded toupper (suc n) [] ref h = absurd (omega arith)
compare_chars-padded toupper (suc n) (c ∷ cs) [] h =
    rw (compare_chars-padded toupper n cs [] (omega arith))
      (chosen (c == toupper 0) (bytes_eq (take n cs) (map toupper (padded n []))))
compare_chars-padded toupper (suc n) (c ∷ cs) (r ∷ ref) h =
    rw (compare_chars-padded toupper n cs ref (omega arith))
      (chosen (c == toupper r) (bytes_eq (take n cs) (map toupper (padded n ref))))

-- To a dSUID of at least 34 characters, `dsuid_compare` is the comparison of the first 34 with
-- those of the other dSUID in upper case.
pub dsuid_compare-padded :
    (toupper : ℕ → ℕ) (dsuid ref : Bytes)
    → 34 ≤ length dsuid
    → dsuid_compare toupper dsuid ref
      ≡ some (bytes_eq (take 34 dsuid) (map toupper (padded 34 ref)))
unfolding dsuid_compare
dsuid_compare-padded toupper dsuid ref h = compare_chars-padded toupper 34 dsuid ref h

compare_chars-overrun :
    (toupper : ℕ → ℕ) (n : ℕ) (ref : Bytes)
    → toupper 0 ≡ 0
    → suc (length ref) < n
    → compare_chars toupper n (map toupper ref ++ 0 ∷ []) ref ≡ none
unfolding compare_chars
compare_chars-overrun toupper zero ref z h = absurd (omega arith)
compare_chars-overrun toupper (suc zero) ref z h = absurd (omega arith)
compare_chars-overrun toupper (suc (suc n)) [] z h = rw z
compare_chars-overrun toupper (suc (suc n)) (r ∷ ref) z h =
    rw (==_refl (toupper r)) (compare_chars-overrun toupper (suc n) ref z (omega arith))

-- Where the other dSUID has fewer than 33 characters, and the first is the same in upper case,
-- `dsuid_compare` reads behind the end of the first.
pub dsuid_compare-overrun :
    (toupper : ℕ → ℕ) (ref : Bytes)
    → toupper 0 ≡ 0
    → length ref < 33
    → dsuid_compare toupper (map toupper ref) ref ≡ none
unfolding dsuid_compare
dsuid_compare-overrun toupper ref z h = compare_chars-overrun toupper 34 ref z (omega arith)
