-- ===== src/Money/RoundTrip.antt =====
-- money.ts: an amount that is printed is read back.
use maintain_pro_backend.Shared.{
  leb, ◌==◌, if◌then◌else◌, All, pos, ok, ◌>>=◌, ℕ, suc, ◌+◌, ◌*◌, ◌/◌, ◌%◌, ◌^◌, ◌≤◌, ◌<◌, ◌≡◌,
  refl, sym, ap, ◌∙◌, subst, true, false, none, some, [], ◌∷◌, ◌++◌, arith,
}
use maintain_pro_backend.Shared.Texts.{Text}
use maintain_pro_backend.Shared.Decimal.{
  decimal, is_digit, number_of, number_of-decimal, digits-All, decimal_cons, scan, digits_append,
  scan-digits, scan-digit,
}
use maintain_pro_backend.Money.Currency.{
  is_space, drop_blank, trim_end, trim, Currency, fraction_digits, code_of,
  currency_metadata-code_of,
}
use maintain_pro_backend.Money.Conversion.{
  split_point, all_digits, is_number, max_safe_integer, safe_integer, minor_units, with_point,
  major_units, from_minor_units, to_minor_units, is_minor,
}
use maintain_pro_backend.Money.Floating.{fixed, divide, fixed-divide}

abbrev IsDigits : Text → Type 0
IsDigits s = All (λ c. is_digit c ≡ true) s

abbrev IsVisible : Text → Type 0
IsVisible s = All (λ c. is_space c ≡ false) s

keeps : (c : ℕ) (s : Text) → is_space c ≡ false → drop_blank c s ≡ c ∷ s
keeps c [] h = rw h refl
keeps c (d ∷ s) h = refl

end_visible : (s : Text) → IsVisible s → trim_end s ≡ s
end_visible [] h = refl
end_visible (c ∷ s) h = rw (end_visible s h.1) (keeps c s h.0)

trim_visible : (s : Text) → IsVisible s → trim s ≡ s
unfolding trim
trim_visible [] h = refl
trim_visible (c ∷ s) h = rw h.0 (end_visible (c ∷ s) h)

digits-IsVisible : (s : Text) → IsDigits s → IsVisible s
digits-IsVisible [] h = tt
digits-IsVisible (c ∷ s) h = ((let d = h.0 in ground arith), digits-IsVisible s h.1)

IsVisible-append : (s t : Text) → IsVisible s → IsVisible t → IsVisible (s ++ t)
IsVisible-append [] t h k = k
IsVisible-append (c ∷ s) t h k = (h.0, IsVisible-append s t h.1 k)

split_digits : (s : Text) → IsDigits s → split_point s ≡ (s, none)
unfolding split_point
split_digits [] h = refl
split_digits (c ∷ s) h =
    let d = h.0 in let e : (c == b'.') ≡ false = ground arith in rw (e, split_digits s h.1) refl

split_decimal : (s f : Text) → IsDigits s → split_point (s ++ b'.' ∷ f) ≡ (s, some f)
unfolding split_point
split_decimal [] f h = refl
split_decimal (c ∷ s) f h =
    let d = h.0 in let e : (c == b'.') ≡ false = ground arith in rw (e, split_decimal s f h.1) refl

all_digits_lem : (s : Text) → IsDigits s → all_digits s ≡ true
all_digits_lem [] h = refl
all_digits_lem (c ∷ s) h = rw (h.0, all_digits_lem s h.1) refl

decimal-IsDigits : (n : ℕ) → IsDigits (decimal n)
unfolding decimal
decimal-IsDigits n = digits-All (suc n) n [] tt

decimal-is_number : (n : ℕ) → is_number (decimal n) ≡ true
decimal-is_number n =
    let shape = decimal_cons n in
    let ok_digits = all_digits_lem (decimal n) (decimal-IsDigits n) in
    let shown : all_digits (shape.0 ∷ shape.1) ≡ true =
      subst (λ s. all_digits s ≡ true) shape.2 ok_digits in
    subst (λ s. is_number s ≡ true) (sym shape.2) shown

append_nothing : (s : Text) → s ++ [] ≡ s
append_nothing [] = refl
append_nothing (c ∷ s) = ap (λ r. c ∷ r) (append_nothing s)

safe : (a : ℕ) → a < 2 ^ 53 → safe_integer (some a) ≡ ok a
safe a h = let e : leb a max_safe_integer ≡ true = ground arith in rw e refl

-- A whole number of units.
read_whole : (a : ℕ) → a < 2 ^ 53 → minor_units 0 (split_point (trim (decimal a))) ≡ ok a
unfolding minor_units
read_whole a h =
    rw
      (
        trim_visible (decimal a) (digits-IsVisible (decimal a) (decimal-IsDigits a)),
        split_digits (decimal a) (decimal-IsDigits a),
        decimal-is_number a,
        append_nothing (decimal a),
        number_of-decimal a,
      )
      (safe a h)

-- Two decimal places.
read_places :
    (q c d : ℕ)
    → c < 10
    → d < 10
    → number_of (decimal q ++ (b'0' + c) ∷ (b'0' + d) ∷ []) ≡ some ((q * 10 + c) * 10 + d)
unfolding number_of decimal scan
read_places q c d h k =
    rw
      (
        digits_append (suc q) q [] ((b'0' + c) ∷ (b'0' + d) ∷ []),
        scan-digits (suc q) q ((b'0' + c) ∷ (b'0' + d) ∷ []) (omega arith),
        scan-digit c q ((b'0' + d) ∷ []) h,
        scan-digit d (q * 10 + c) [] k,
      )
      refl

a_digit : (d : ℕ) → d < 10 → is_digit (b'0' + d) ≡ true
a_digit d h = ground arith

read_cents_of :
    (q c d : ℕ)
    → c < 10
    → d < 10
    → (q * 10 + c) * 10 + d < 2 ^ 53
    → minor_units 2 (split_point (trim (decimal q ++ b'.' ∷ (b'0' + c) ∷ (b'0' + d) ∷ [])))
      ≡ ok ((q * 10 + c) * 10 + d)
unfolding minor_units
read_cents_of q c d h k l =
    let places = (b'0' + c) ∷ (b'0' + d) ∷ [] in
    let are_digits : IsDigits places = (a_digit c h, (a_digit d k, tt)) in
    let visible =
      IsVisible-append (decimal q) (b'.' ∷ places)
        (digits-IsVisible (decimal q) (decimal-IsDigits q))
        (refl, digits-IsVisible places are_digits) in
    rw
      (
        trim_visible (decimal q ++ b'.' ∷ places) visible,
        split_decimal (decimal q) places (decimal-IsDigits q),
        decimal-is_number q,
        a_digit c h,
        a_digit d k,
        read_places q c d h k,
      )
      (safe ((q * 10 + c) * 10 + d) l)

read_cents : (a : ℕ) → a < 2 ^ 53 → minor_units 2 (split_point (trim (with_point 2 a))) ≡ ok a
read_cents a h =
    let whole : (a / 100 * 10 + a / 10 % 10) * 10 + a % 10 ≡ a = omega arith in
    read_cents_of (a / 100) (a / 10 % 10) (a % 10) (omega arith) (omega arith)
      (omega (arith, h, whole))
    ∙ ap ok whole

-- The amounts that are printed exactly.
abbrev pub exact_bound : Currency → ℕ
exact_bound c = if fraction_digits c == 0 then 2 ^ 53 else 2 ^ 46 * 100

printed_cents :
    (a : ℕ)
    → a < 2 ^ 46 * 100
    → minor_units 2 (split_point (trim (with_point 2 (fixed 2 (divide a 100))))) ≡ ok a
printed_cents a h = rw (fixed-divide a h) (read_cents a (omega arith))

exact_bound_safe : (c : Currency) → exact_bound c ≤ 2 ^ 53
exact_bound_safe Currency.jpy = omega arith
exact_bound_safe Currency.xof = omega arith
exact_bound_safe Currency.ngn = omega arith
exact_bound_safe Currency.usd = omega arith
exact_bound_safe Currency.eur = omega arith
exact_bound_safe Currency.gbp = omega arith
exact_bound_safe Currency.ghs = omega arith
exact_bound_safe Currency.zar = omega arith
exact_bound_safe Currency.kes = omega arith

read_printed :
    (c : Currency) (a : ℕ)
    → a < exact_bound c
    → minor_units (fraction_digits c) (split_point (trim (major_units (fraction_digits c) a)))
      ≡ ok a
unfolding major_units
read_printed Currency.jpy a h = read_whole a h
read_printed Currency.xof a h = read_whole a h
read_printed Currency.ngn a h = printed_cents a h
read_printed Currency.usd a h = printed_cents a h
read_printed Currency.eur a h = printed_cents a h
read_printed Currency.gbp a h = printed_cents a h
read_printed Currency.ghs a h = printed_cents a h
read_printed Currency.zar a h = printed_cents a h
read_printed Currency.kes a h = printed_cents a h

below_safe : (c : Currency) (a : ℕ) → a < exact_bound c → is_minor (pos a) ≡ true
below_safe c a h = ground (arith, exact_bound_safe c)

-- An amount in minor units that is printed in major units is read back as it was, for less than 2
-- ^ 46 * 100 minor units of a currency with cents and less than 2 ^ 53 of one without.
pub to_minor_units-from_minor_units :
    (c : Currency) (a : ℕ)
    → a < exact_bound c
    → (from_minor_units (pos a) (code_of c) >>= λ s. to_minor_units s (code_of c)) ≡ ok a
unfolding from_minor_units to_minor_units
to_minor_units-from_minor_units c a h =
    rw (currency_metadata-code_of c, below_safe c a h) (read_printed c a h)
