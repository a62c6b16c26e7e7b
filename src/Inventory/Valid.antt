-- ===== src/Inventory/Valid.antt =====
-- What holds of the three collections between two operations.
use maintain_pro_backend.Shared.{
  if◌then◌else◌, find?, All, ℤ, pos, ◌≤ℤ◌, total, Distinct, ℕ, ◌≡◌, none, List, [], ◌∷◌,
}
use maintain_pro_backend.Inventory.Model.{StockBalance, InventoryReservation, Store, is_at}
use maintain_pro_backend.Inventory.Ledger.{ledger_delta, open_quantity}

-- The reserved part of a balance is a part of it, and neither is negative.
pub record IsBounded (b : StockBalance) : Type 0 where
  pub reserved_nonneg : pos 0 ≤ℤ b.reserved_quantity
  pub reserved_within : b.reserved_quantity ≤ℤ b.quantity

-- No two balances have one key: the unique index on organization, item and location.
abbrev pub KeysDistinct : List StockBalance → Type 0
KeysDistinct [] = Unit
KeysDistinct (b ∷ bs) =
    (find? (is_at b.organization_id b.item_id b.stock_location_id) bs ≡ none) × KeysDistinct bs

abbrev pub quantity_at : ℕ → ℕ → ℕ → StockBalance → ℤ
quantity_at o i l b = if is_at o i l b then b.quantity else pos 0

abbrev pub reserved_at : ℕ → ℕ → ℕ → StockBalance → ℤ
reserved_at o i l b = if is_at o i l b then b.reserved_quantity else pos 0

abbrev pub balance_id : StockBalance → ℕ
balance_id b = b.id

abbrev pub reservation_id : InventoryReservation → ℕ
reservation_id r = r.id

-- The part of the invariant that is about the balances alone.
pub record HasBalances (bs : List StockBalance) : Type 0 where
  pub ids : Distinct balance_id bs
  pub keys : KeysDistinct bs
  pub bounds : All IsBounded bs

-- The balances of every key agree with the ledger and with the open reservations.
pub record IsValid (s : Store) : Type 0 where
  pub sound : HasBalances s.balances
  pub reservation_ids : Distinct reservation_id s.reservations
  pub ledger :
      (o i l : ℕ) → total (quantity_at o i l) s.balances ≡ total (ledger_delta o i l) s.transactions
  pub held :
      (o i l : ℕ)
      → total (reserved_at o i l) s.balances ≡ total (open_quantity o i l) s.reservations
