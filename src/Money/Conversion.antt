-- ===== src/Money/Conversion.antt =====
-- money.ts: the conversions. An amount in major units is given as a text; one in minor units is an
-- integer.
use maintain_pro_backend.Shared.{
  leb, ◌==◌, if◌then◌else◌, any, ℤ, pos, negsuc, pos_part, Result, ok, err, ◌>>=◌, ◌>>◌, throw_if,
  ℕ, zero, suc, ◌+◌, ◌-◌, ◌/◌, ◌%◌, ◌^◌, Bool, true, false, not, ◌&&◌, Option, none, some, [], ◌∷◌,
  ◌++◌,
}
use maintain_pro_backend.Shared.Texts.{Text}
use maintain_pro_backend.Shared.Decimal.{decimal, is_digit, number_of}
use maintain_pro_backend.Money.Currency.{
  Currency, MoneyError, not_a_decimal, too_many_places, out_of_range, not_minor_units,
  fraction_digits, trim, currency_metadata,
}
use maintain_pro_backend.Money.Floating.{divide, fixed}

abbrev pub after_point : ℕ → Text × Option Text → Text × Option Text
after_point c (whole, fraction) = (c ∷ whole, fraction)

-- `input.split(".")`, where the text has one point at most.
unfoldable pub split_point : Text → Text × Option Text
split_point [] = ([], none)
split_point (c ∷ s) =
    let rest = split_point s in if c == b'.' then ([], some s) else after_point c rest

abbrev pub all_digits : Text → Bool
all_digits [] = true
all_digits (c ∷ s) = is_digit c && all_digits s

abbrev pub is_number : Text → Bool
is_number [] = false
is_number (c ∷ s) = all_digits (c ∷ s)

-- `/^\d+(?:\.\d+)?$/`.
abbrev pub is_decimal : Text × Option Text → Bool
is_decimal (whole, none) = is_number whole
is_decimal (whole, some fraction) = is_number whole && is_number fraction

abbrev pub fraction_of : Option Text → Text
fraction_of none = []
fraction_of (some f) = f

-- `s.slice(0, n)`.
abbrev pub take : ℕ → Text → Text
take zero s = []
take (suc n) [] = []
take (suc n) (c ∷ s) = c ∷ take n s

-- `s.slice(n)`.
abbrev pub drop : ℕ → Text → Text
drop zero s = s
drop (suc n) [] = []
drop (suc n) (c ∷ s) = drop n s

-- `s.padEnd(n, "0")`.
abbrev pub pad_end : ℕ → Text → Text
pad_end zero s = s
pad_end (suc n) [] = b'0' ∷ pad_end n []
pad_end (suc n) (c ∷ s) = c ∷ pad_end n s

-- `Number.MAX_SAFE_INTEGER`.
abbrev pub max_safe_integer : ℕ
max_safe_integer = 2 ^ 53 - 1

-- A number beyond the safe integers is rounded to one that is not safe either.
abbrev pub safe_integer : Option ℕ → Result MoneyError ℕ
safe_integer none = err out_of_range
safe_integer (some n) = if leb n max_safe_integer then ok n else err out_of_range

-- The rest of `toMinorUnits`, with as many decimal places as the currency has.
unfoldable pub minor_units : ℕ → Text × Option Text → Result MoneyError ℕ
minor_units places (whole, fraction) =
    let allowed = take places (fraction_of fraction) in
    let discarded = drop places (fraction_of fraction) in
    do
      throw_if (not (is_decimal (whole, fraction))) not_a_decimal
      throw_if (any (λ c. not (c == b'0')) discarded) too_many_places
      safe_integer (number_of (whole ++ pad_end places allowed))

unfoldable pub to_minor_units : Text → Text → Result MoneyError ℕ
to_minor_units value currency =
    currency_metadata currency >>= λ c. minor_units (fraction_digits c) (split_point (trim value))

-- The last digits of a number.
abbrev pub last_digits : ℕ → ℕ → Text
last_digits zero n = []
last_digits (suc d) n = last_digits d (n / 10) ++ (b'0' + n % 10) ∷ []

-- `toFixed(d)` of the number that is shown as an integer and a point before its last digits.
abbrev pub with_point : ℕ → ℕ → Text
with_point d n = decimal (n / 10 ^ d) ++ b'.' ∷ last_digits d n

-- `Number.isSafeInteger(amount) && amount >= 0`.
abbrev pub is_minor : ℤ → Bool
is_minor (pos n) = leb n max_safe_integer
is_minor (negsuc n) = false

unfoldable pub major_units : ℕ → ℕ → Text
major_units zero n = decimal n
major_units (suc d) n = with_point (suc d) (fixed (suc d) (divide n (10 ^ suc d)))

unfoldable pub from_minor_units : ℤ → Text → Result MoneyError Text
from_minor_units amount currency = do
  c ← currency_metadata currency
  throw_if (not (is_minor amount)) not_minor_units
  ok (major_units (fraction_digits c) (pos_part amount))

pub record Money : Type 0 where
  pub amount_minor : ℤ
  pub currency : Currency

unfoldable pub money : ℤ → Text → Result MoneyError Money
money amount name = do
  c ← currency_metadata name
  throw_if (not (is_minor amount)) not_minor_units
  ok (record { amount_minor = amount; currency = c })
