-- ===== src/Memory.antt =====
-- The C heap as the library uses it: which allocations succeed is the system's choice, and the
-- state counts blocks. `malloc`, `realloc` of NULL and `strdup` each ask for one block.
use libdsvdc.Base.{
  ℕ, ◌+◌, ◌≡◌, refl, ap, ◌∙◌, inl, inr, Bool-cases, Bool, true, false, if◌then◌else◌, arith,
}

pub record Mem : Type 0 where
  -- whether the k-th request is granted
  pub grants : ℕ → Bool
  pub calls : ℕ
  pub allocs : ℕ
  pub frees : ℕ

-- `undefined` is undefined behaviour in the sense of C: a read through NULL, out of bounds or of
-- an indeterminate pointer.
pub data Run {ℓ} (A : Type ℓ) : Type ℓ where
  ok : A → Mem → Run A
  undefined : Run A

abbrev pub Cmd : Type 0 → Type 0
Cmd A = Mem → Run A

abbrev pub pure : {A : Type 0} → A → Cmd A
pure a m = ok a m

module _ {A B : Type 0} where
  abbrev pub and_then : Run A → (A → Cmd B) → Run B
  and_then (ok a m) k = k a m
  and_then undefined k = undefined

  infixl 5 ◌>>=◌
  abbrev pub ◌>>=◌ : Cmd A → (A → Cmd B) → Cmd B
  ◌>>=◌ c k m = and_then (c m) k

infixl 5 ◌>>◌
abbrev pub ◌>>◌ : {B : Type 0} → Cmd (Unit {0}) → Cmd B → Cmd B
c >> d = c >>= λ _. d

abbrev pub fault : {A : Type 0} → Cmd A
fault m = undefined

-- `malloc` and `strdup`: `false` stands for NULL.
unfoldable pub malloc : Cmd Bool
malloc m =
    if m.grants m.calls
    then ok true (record m { calls = m.calls + 1; allocs = m.allocs + 1 })
    else ok false (record m { calls = m.calls + 1 })

unfoldable pub free : Cmd (Unit {0})
free m = ok tt (record m { frees = m.frees + 1 })

-- `k` requests that were granted, and `k` blocks given back.
abbrev pub spend : Mem → ℕ → Mem
spend m k = record m { calls = m.calls + k; allocs = m.allocs + k }

abbrev pub release : Mem → ℕ → Mem
release m k = record m { frees = m.frees + k }

abbrev pub IsPlentiful : Mem → Type 0
IsPlentiful m = (k : ℕ) → m.grants k ≡ true

-- As many blocks are held in `n` as in `m`.
abbrev pub Balanced : Mem → Mem → Type 0
Balanced m n = n.allocs + m.frees ≡ m.allocs + n.frees

pub spend-spend : (m : Mem) (j k : ℕ) → spend (spend m j) k ≡ spend m (j + k)
spend-spend m j k = ground arith

pub release-release : (m : Mem) (j k : ℕ) → release (release m j) k ≡ release m (j + k)
release-release m j k = ground arith

pub malloc-ok : (m : Mem) → IsPlentiful m → malloc m ≡ ok true (spend m 1)
unfolding malloc
malloc-ok m h = rw (h m.calls)

pub free-ok : (m : Mem) → free m ≡ ok tt (release m 1)
unfolding free
free-ok m = refl

-- A run that is not undefined, with a postcondition on its result and the memory after it.
pub data Ends {A : Type 0} (P : A → Mem → Type 0) : Run A → Type 0 where
  ends : {a : A} {m : Mem} → P a m → Ends P (ok a m)

module _ {A : Type 0} {P : A → Mem → Type 0} where
  pub Ends-bind :
      {B : Type 0} {Q : B → Mem → Type 0} {r : Run A} {f : A → Cmd B}
      → Ends P r
      → ((a : A) (m : Mem) → P a m → Ends Q (f a m))
      → Ends Q (and_then r f)
  Ends-bind (ends p) next = next _ _ p

  pub Ends-map :
      {Q : A → Mem → Type 0} {r : Run A} → Ends P r → ((a : A) (m : Mem) → P a m → Q a m) → Ends Q r
  Ends-map (ends p) next = ends (next _ _ p)

-- A step whose result is known.
pub and_then-ok :
    {A B : Type 0} {r : Run A} (f : A → Cmd B) {a : A} {m : Mem} {out : Run B}
    → r ≡ ok a m
    → f a m ≡ out
    → and_then r f ≡ out
and_then-ok f e h = ap (λ r. and_then r f) e ∙ h

-- Between `m` and `n`, `k` blocks more were taken than given back.
abbrev pub Holding : Mem → Mem → ℕ → Type 0
Holding m n k = n.allocs + m.frees ≡ m.allocs + n.frees + k

-- After `malloc`.
abbrev pub Granted : Mem → Bool → Mem → Type 0
Granted m granted n = Holding m n (if granted then 1 else 0)

pub malloc-Ends : (m : Mem) → Ends (Granted m) (malloc m)
unfolding malloc
malloc-Ends m = elim (Bool-cases (m.grants m.calls)) [
  | inl yes' ↦ rw yes' (ends (omega arith))
  | inr no' ↦ rw no' (ends (omega arith))
]
