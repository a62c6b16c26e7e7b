-- ===== src/Shared/Decimal.antt =====
-- `String(n)` of a natural number and `Number(s)` of a text of digits.
use Prim.Native.Nat.{ℕ, zero, suc, ◌+◌, ◌-◌, ◌*◌, ◌/◌, ◌%◌, ◌≤◌, ◌<◌}
use mathlib.Core.Path.{◌≡◌, refl}
use mathlib.Core.Logic.{inl, inr}
use mathlib.Core.Bool.{Bool, true, ◌&&◌}
use mathlib.Core.Option.{Option, none, some}
use mathlib.Core.List.{[], ◌∷◌}
use native.Mathlib.Omega.{arith}
use maintain_pro_backend.Shared.Tests.{ltb, leb, if◌then◌else◌, Bool-cases}
use maintain_pro_backend.Shared.Lists.{All}
use maintain_pro_backend.Shared.Texts.{Text}
use maintain_pro_backend.Shared.{◌++◌}

-- The digits of a number before a text, at most as many as the fuel.
unfoldable pub digits : ℕ → ℕ → Text → Text
digits zero n out = out
digits (suc fuel) n out =
    if ltb n 10 then (b'0' + n) ∷ out else digits fuel (n / 10) ((b'0' + n % 10) ∷ out)

-- `String(n)`.
unfoldable pub decimal : ℕ → Text
decimal n = digits (suc n) n []

abbrev pub is_digit : ℕ → Bool
is_digit c = leb b'0' c && leb c b'9'

unfoldable pub scan : Text → ℕ → Option ℕ
scan [] n = some n
scan (c ∷ s) n = let rest = scan s (n * 10 + (c - b'0')) in if is_digit c then rest else none

-- `Number(s)`, and none for NaN.
unfoldable pub number_of : Text → Option ℕ
number_of s = scan s 0

pub scan-digit : (n a : ℕ) (s : Text) → n < 10 → scan ((b'0' + n) ∷ s) a ≡ scan s (a * 10 + n)
unfolding scan
scan-digit n a s h =
    let d : a * 10 + (b'0' + n - b'0') ≡ a * 10 + n = omega arith in
    let t : is_digit (b'0' + n) ≡ true = ground arith in rw (d, t) refl

pub scan-digits : (fuel n : ℕ) (out : Text) → n < fuel → scan (digits fuel n out) 0 ≡ scan out n
unfolding digits
scan-digits zero n out h = absurd (omega arith)
scan-digits (suc fuel) n out h = elim (Bool-cases (ltb n 10)) [
  | inl e ↦
      let none_before : 0 * 10 + n ≡ n = omega arith in
      rw (e, scan-digit n 0 out (ground arith), none_before) refl
  | inr e ↦
      let big : 10 ≤ n = ground arith in
      let back : n / 10 * 10 + n % 10 ≡ n = omega arith in
      rw
        (
          e,
          scan-digits fuel (n / 10) ((b'0' + n % 10) ∷ out) (omega arith),
          scan-digit (n % 10) (n / 10) out (omega arith),
          back,
        )
        refl
]

-- A number that is printed is read back.
pub number_of-decimal : (n : ℕ) → number_of (decimal n) ≡ some n
unfolding number_of decimal scan
number_of-decimal n = scan-digits (suc n) n [] (omega arith)

-- Every code that is printed is a digit.
pub digits-All :
    (fuel n : ℕ) (out : Text)
    → All (λ c. is_digit c ≡ true) out
    → All (λ c. is_digit c ≡ true) (digits fuel n out)
unfolding digits
digits-All zero n out h = h
digits-All (suc fuel) n out h = elim (Bool-cases (ltb n 10)) [
  | inl e ↦ rw e ((ground arith), h)
  | inr e ↦ rw e (digits-All fuel (n / 10) ((b'0' + n % 10) ∷ out) ((ground arith), h))
]

pub digits_append : (fuel n : ℕ) (out s : Text) → digits fuel n out ++ s ≡ digits fuel n (out ++ s)
unfolding digits
digits_append zero n out s = refl
digits_append (suc fuel) n out s = elim (Bool-cases (ltb n 10)) [
  | inl e ↦ rw e refl
  | inr e ↦ rw e (digits_append fuel (n / 10) ((b'0' + n % 10) ∷ out) s)
]

digits_cons : (fuel n c : ℕ) (out : Text) → (d : ℕ) × (s : Text) × (digits fuel n (c ∷ out) ≡ d ∷ s)
unfolding digits
digits_cons zero n c out = (c, out, refl)
digits_cons (suc fuel) n c out = elim (Bool-cases (ltb n 10)) [
  | inl e ↦ (b'0' + n, c ∷ out, rw e refl)
  | inr e ↦
      let rest = digits_cons fuel (n / 10) (b'0' + n % 10) (c ∷ out) in
      (rest.0, rest.1, rw e rest.2)
]

-- A printed number is not empty.
pub decimal_cons : (n : ℕ) → (d : ℕ) × (s : Text) × (decimal n ≡ d ∷ s)
unfolding decimal digits
decimal_cons n = elim (Bool-cases (ltb n 10)) [
  | inl e ↦ (b'0' + n, [], rw e refl)
  | inr e ↦ let rest = digits_cons n (n / 10) (b'0' + n % 10) [] in (rest.0, rest.1, rw e rest.2)
]
