-- ===== src/Money/Tests.antt =====
-- Amounts that are read and printed.
use maintain_pro_backend.Shared.Decimal.{number_of, scan}
use maintain_pro_backend.Shared.{pos, ok, err, ◌>>=◌, ◌≡◌, refl, arith}
use maintain_pro_backend.Shared.Texts.{codes}
use maintain_pro_backend.Money.Currency.{
  ngn, too_many_places, code_of, currency_metadata, trim, currency_metadata, trim,
  currency_metadata, trim,
}
use maintain_pro_backend.Money.Floating.{fixed, divide, shift_from}
use maintain_pro_backend.Money.Conversion.{
  to_minor_units, from_minor_units, minor_units, split_point, minor_units, split_point, minor_units,
  split_point,
}
use maintain_pro_backend.Money.RoundTrip.{to_minor_units-from_minor_units}

price : to_minor_units (codes " 12.5 ") (codes "usd ") ≡ ok 1250
unfolding to_minor_units currency_metadata trim minor_units split_point number_of scan
price = refl

too_fine : to_minor_units (codes "12.505") (codes "USD") ≡ err too_many_places
unfolding to_minor_units currency_metadata trim minor_units split_point
too_fine = refl

no_cents : to_minor_units (codes "12.50") (codes "JPY") ≡ err too_many_places
unfolding to_minor_units currency_metadata trim minor_units split_point
no_cents = refl

-- Above 2 ^ 46 units the quotient is not exact to the cent.
lost_cent : fixed 2 (divide 9007199254740093 100) ≡ 9007199254740094
unfolding fixed divide shift_from
lost_cent = refl

to_minor_units-from_minor_units_example :
    (from_minor_units (pos 7036874417766399) (code_of ngn) >>= λ s. to_minor_units s (code_of ngn))
    ≡ ok 7036874417766399
to_minor_units-from_minor_units_example =
    to_minor_units-from_minor_units ngn 7036874417766399 (omega arith)
