-- ===== src/Money/Currency.antt =====
-- money.ts: the currencies that are supported, and texts before they are read.
use maintain_pro_backend.Shared.{
  leb, ◌==◌, if◌then◌else◌, find?, Result, ok, or_throw, ℕ, ◌-◌, ◌≡◌, refl, Bool, ◌&&◌, ◌||◌, List,
  [], ◌∷◌, map,
}
use maintain_pro_backend.Shared.Texts.{Text, codes, same}

pub data Currency : Type 0 where
  ngn usd eur gbp ghs zar kes jpy xof : Currency

pub data MoneyError : Type 0 where
  unsupported_currency : Text → MoneyError
  not_a_decimal too_many_places out_of_range not_minor_units : MoneyError

abbrev pub code_of : Currency → Text
code_of Currency.ngn = codes "NGN"
code_of Currency.usd = codes "USD"
code_of Currency.eur = codes "EUR"
code_of Currency.gbp = codes "GBP"
code_of Currency.ghs = codes "GHS"
code_of Currency.zar = codes "ZAR"
code_of Currency.kes = codes "KES"
code_of Currency.jpy = codes "JPY"
code_of Currency.xof = codes "XOF"

abbrev pub fraction_digits : Currency → ℕ
fraction_digits Currency.jpy = 0
fraction_digits Currency.xof = 0
fraction_digits _ = 2

abbrev pub supported : List Currency
supported = ngn ∷ usd ∷ eur ∷ gbp ∷ ghs ∷ zar ∷ kes ∷ jpy ∷ xof ∷ []

-- The white space of ASCII.
abbrev pub is_space : ℕ → Bool
is_space c = c == 32 || (leb 9 c && leb c 13)

abbrev pub trim_start : Text → Text
trim_start [] = []
trim_start (c ∷ s) = let rest = trim_start s in if is_space c then rest else c ∷ s

abbrev pub drop_blank : ℕ → Text → Text
drop_blank c [] = if is_space c then [] else c ∷ []
drop_blank c (d ∷ s) = c ∷ d ∷ s

abbrev pub trim_end : Text → Text
trim_end [] = []
trim_end (c ∷ s) = drop_blank c (trim_end s)

-- `s.trim()`.
unfoldable pub trim : Text → Text
trim s = trim_end (trim_start s)

abbrev pub to_upper : ℕ → ℕ
to_upper c = if leb b'a' c && leb c b'z' then c - 32 else c

unfoldable pub currency_metadata : Text → Result MoneyError Currency
currency_metadata currency =
    let normalized = map to_upper (trim currency) in
    or_throw (find? (λ c. same (code_of c) normalized) supported) (unsupported_currency currency)

-- The code of a currency names it.
pub currency_metadata-code_of : (c : Currency) → currency_metadata (code_of c) ≡ ok c
unfolding currency_metadata trim
currency_metadata-code_of Currency.ngn = refl
currency_metadata-code_of Currency.usd = refl
currency_metadata-code_of Currency.eur = refl
currency_metadata-code_of Currency.gbp = refl
currency_metadata-code_of Currency.ghs = refl
currency_metadata-code_of Currency.zar = refl
currency_metadata-code_of Currency.kes = refl
currency_metadata-code_of Currency.jpy = refl
currency_metadata-code_of Currency.xof = refl
