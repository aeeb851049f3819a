-- ===== src/Reference/Scenes/Key.antt =====
-- examples/vdc-reference.c, lines 865 and 923: the key of a scene in the database, which is
-- printed into a buffer of 11 bytes.
use native.Mathlib.Nat.{pow-suc}
use libdsvdc.Base.{
  ℕ, zero, suc, ◌+◌, ◌-◌, ◌*◌, ◌/◌, ◌%◌, ◌^◌, ◌<◌, ◌≤◌, ◌≡◌, refl, sym, ap, ◌∙◌, [], ◌∷◌, ◌++◌,
  Bytes, ltb, if◌then◌else◌, length, length-append, take, take_all, codes, Bool-cases, inl, inr,
  arith,
}

-- The decimal digits of a number with at most as many digits as the fuel says.
unfoldable pub decimal : ℕ → ℕ → Bytes
decimal zero n = []
decimal (suc fuel) n =
    let front = decimal fuel (n / 10) ++ (b'0' + n % 10) ∷ [] in
    if ltb n 10 then (b'0' + n) ∷ [] else front

-- `%" PRId32 "` of a bit pattern.
unfoldable pub print_int32 : ℕ → Bytes
print_int32 n = if ltb n (2 ^ 31) then decimal 10 n else b'-' ∷ decimal 10 (2 ^ 32 - n)

-- `snprintf(key, sizeof(key), ...)`: ten bytes and the terminating NUL.
unfoldable pub scene_key : ℕ → Bytes
unfolding print_int32
scene_key scene = take 10 (print_int32 scene)

lowest : scene_key (2 ^ 31) ≡ codes "-214748364"
unfolding scene_key decimal
lowest = refl

-- A number that is read from its digits.
read_decimal : ℕ → Bytes → ℕ
read_decimal acc [] = acc
read_decimal acc (c ∷ cs) = read_decimal (10 * acc + (c - b'0')) cs

read_decimal-append :
    (acc : ℕ) (xs : Bytes) (c : ℕ)
    → read_decimal acc (xs ++ c ∷ []) ≡ 10 * read_decimal acc xs + (c - b'0')
unfolding read_decimal
read_decimal-append acc [] c = refl
read_decimal-append acc (x ∷ xs) c = read_decimal-append (10 * acc + (x - b'0')) xs c

read_decimal-decimal : (fuel n : ℕ) → n < 10 ^ suc fuel → read_decimal 0 (decimal (suc fuel) n) ≡ n
unfolding decimal read_decimal
read_decimal-decimal zero n h = ground arith
read_decimal-decimal (suc fuel) n h = elim (Bool-cases (ltb n 10)) [
  | inl short ↦ rw short (omega arith)
  | inr long ↦ rw long (
      read_decimal-append 0 (decimal (suc fuel) (n / 10)) (b'0' + n % 10)
      ∙ omega (arith, pow-suc 10 (suc fuel), read_decimal-decimal fuel (n / 10)))
]

length-decimal : (fuel n : ℕ) → length (decimal fuel n) ≤ fuel
unfolding decimal
length-decimal zero n = omega arith
length-decimal (suc fuel) n = ground (
  arith,
  length-decimal fuel (n / 10),
  length-append (decimal fuel (n / 10)) ((b'0' + n % 10) ∷ []),
)

-- A scene that is not negative.
abbrev pub IsNatural : ℕ → Type 0
IsNatural scene = scene < 2 ^ 31

scene_key-natural : (scene : ℕ) → IsNatural scene → scene_key scene ≡ decimal 10 scene
unfolding scene_key
scene_key-natural scene h = elim (Bool-cases (ltb scene (2 ^ 31))) [
  | inl below ↦ rw below (take_all 10 (decimal 10 scene) (length-decimal 10 scene))
  | inr above ↦ absurd (ground arith)
]

-- Two scenes that are not negative and have the same key are one.
pub scene_key-injective : (s t : ℕ) → IsNatural s → IsNatural t → scene_key s ≡ scene_key t → s ≡ t
scene_key-injective s t hs ht e =
    sym (read_decimal-decimal 9 s (omega arith))
    ∙ ap (read_decimal 0) (sym (scene_key-natural s hs) ∙ e ∙ scene_key-natural t ht)
    ∙ read_decimal-decimal 9 t (omega arith)

-- The ten-digit negatives lose their last digit.
pub scene_key_clash : (k : ℕ) → k < 9 → scene_key (2 ^ 31 + k) ≡ codes "-214748364"
unfolding scene_key decimal
scene_key_clash zero h = refl
scene_key_clash (suc zero) h = refl
scene_key_clash (suc (suc zero)) h = refl
scene_key_clash (suc (suc (suc zero))) h = refl
scene_key_clash (suc (suc (suc (suc zero)))) h = refl
scene_key_clash (suc (suc (suc (suc (suc zero))))) h = refl
scene_key_clash (suc (suc (suc (suc (suc (suc zero)))))) h = refl
scene_key_clash (suc (suc (suc (suc (suc (suc (suc zero))))))) h = refl
scene_key_clash (suc (suc (suc (suc (suc (suc (suc (suc zero)))))))) h = refl
scene_key_clash (suc (suc (suc (suc (suc (suc (suc (suc (suc k))))))))) h = absurd (omega arith)
