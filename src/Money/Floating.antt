-- ===== src/Money/Floating.antt =====
-- money.ts: the division by a power of ten and `toFixed`, in binary floating point of 53 bits. A
-- number m / 2 ^ k is given by m and k.
use native.Mathlib.Nat.{pow-le-pow_right, div-eq_of_lt-le}
use maintain_pro_backend.Shared.{
  ltb, leb, ◌==◌, if◌then◌else◌, ℕ, zero, suc, ◌+◌, ◌*◌, ◌/◌, ◌%◌, ◌^◌, ◌≤◌, ◌<◌, ◌≡◌, refl, false,
  arith,
}

-- The least shift, from a first one, that gives the quotient 53 bits.
unfoldable pub shift_from : ℕ → ℕ → ℕ → ℕ → ℕ
shift_from a s zero k = k
shift_from a s (suc fuel) k =
    let next = shift_from a s fuel (k + 1) in if leb (2 ^ 52 * s) (a * 2 ^ k) then k else next

-- The nearest integer to a quotient, and the even one of two.
abbrev pub round_even : ℕ → ℕ → ℕ
round_even a s =
    let q = a / s in
    let r = a % s in
    if ltb (2 * r) s then q else if ltb s (2 * r) then q + 1 else if q % 2 == 0 then q else q + 1

-- A positive quotient of numbers up to 2 ^ 53 by up to 2 ^ 12 has a shift of at most 64.
abbrev pub shift_fuel : ℕ
shift_fuel = 64

-- `a / s`, of natural numbers that are safe integers.
unfoldable pub divide : ℕ → ℕ → ℕ × ℕ
divide a s = let k = shift_from a s shift_fuel 0 in (round_even (a * 2 ^ k) s, k)

-- The integer of `x.toFixed(d)` without its point: the nearest to x * 10 ^ d, and the larger of two.
unfoldable pub fixed : ℕ → ℕ × ℕ → ℕ
fixed d (m, k) = (2 * m * 10 ^ d + 2 ^ k) / (2 * 2 ^ k)

half_unit :
    (n : ℕ)
    → (2 * (round_even n 100 * 100) ≤ 2 * n + 100) × (2 * n ≤ 2 * (round_even n 100 * 100) + 100)
half_unit n = ((ground arith), (ground arith))

shift_grows : (a s fuel k : ℕ) → k ≤ shift_from a s fuel k
unfolding shift_from
shift_grows a s zero k = omega arith
shift_grows a s (suc fuel) k = ground (arith, shift_grows a s fuel (k + 1))

skip :
    (a fuel k : ℕ)
    → a * 2 ^ k < 2 ^ 52 * 100
    → shift_from a 100 (suc fuel) k ≡ shift_from a 100 fuel (k + 1)
unfolding shift_from
skip a fuel k h = let low : leb (2 ^ 52 * 100) (a * 2 ^ k) ≡ false = ground arith in rw low refl

shift_seven : (a : ℕ) → a < 2 ^ 46 * 100 → 7 ≤ shift_from a 100 shift_fuel 0
shift_seven a h =
    rw
      (
        skip a 63 0 (omega arith),
        skip a 62 1 (omega arith),
        skip a 61 2 (omega arith),
        skip a 60 3 (omega arith),
        skip a 59 4 (omega arith),
        skip a 58 5 (omega arith),
        skip a 57 6 (omega arith),
      )
      (shift_grows a 100 57 7)

long_power : (k : ℕ) → 7 ≤ k → 128 ≤ 2 ^ k
long_power k h = pow-le-pow_right (omega arith) h

-- Within half a unit of a multiple of a large denominator.
near :
    (a p m : ℕ)
    → 128 ≤ p
    → (2 * (m * 100) ≤ 2 * (a * p) + 100) × (2 * (a * p) ≤ 2 * (m * 100) + 100)
    → (2 * m * 10 ^ 2 + p) / (2 * p) ≡ a
near a p m h k = div-eq_of_lt-le (2 * p) (omega (arith, k.0, k.1)) (omega (arith, k.0, k.1))

-- Up to 2 ^ 46 units the division by a hundred loses nothing that `toFixed(2)` shows.
pub fixed-divide : (a : ℕ) → a < 2 ^ 46 * 100 → fixed 2 (divide a 100) ≡ a
unfolding fixed divide
fixed-divide a h =
    let k = shift_from a 100 shift_fuel 0 in
    near a (2 ^ k) (round_even (a * 2 ^ k) 100) (long_power k (shift_seven a h))
      (half_unit (a * 2 ^ k))
