-- ===== src/Inventory/Preservation/Deltas.antt =====
-- What a transaction adds to the ledger at a key, next to what the update adds to the balance.
use maintain_pro_backend.Shared.{
  ◌==◌, if◌then◌else◌, Bool-cases, ℤ, pos, ◌+ℤ◌, int_laws, total, ℕ, ◌≡◌, inl, inr, Bool, true,
  false, ◌&&◌, arith,
}
use maintain_pro_backend.Inventory.Model.{StockBalance, is_transfer, InventoryTransaction, is_at}
use maintain_pro_backend.Inventory.Ledger.{signed_quantity, arrivals, deltas, ledger_delta}
use maintain_pro_backend.Inventory.Valid.{quantity_at}

abbrev pub is_key : ℕ → ℕ → ℕ → InventoryTransaction → Bool
is_key o i l t = t.organization_id == o && t.item_id == i && t.stock_location_id == l

sum_one : (x : ℤ) → x +ℤ pos 0 ≡ x
sum_one x = omega int_laws

-- All but a transfer count at their own location alone.
pub ledger_delta_own :
    (o i l : ℕ) (t : InventoryTransaction)
    → is_transfer t.type ≡ false
    → ledger_delta o i l t ≡ (if is_key o i l t then signed_quantity t.type t.quantity else pos 0)
unfolding ledger_delta deltas arrivals total
ledger_delta_own o i l t h =
    rw h (ground (arith, sum_one (signed_quantity t.type t.quantity), sum_one (pos 0)))

-- A balance and a transaction of one key.
pub record SharesKey (b : StockBalance) (t : InventoryTransaction) : Type 0 where
  pub same_organization : b.organization_id ≡ t.organization_id
  pub same_item : b.item_id ≡ t.item_id
  pub same_location : b.stock_location_id ≡ t.stock_location_id

pub is_at-SharesKey :
    (b : StockBalance) (t : InventoryTransaction)
    → is_at t.organization_id t.item_id t.stock_location_id b ≡ true
    → SharesKey b t
is_at-SharesKey b t h = ground arith

is_key-is_at :
    (o i l : ℕ) (b : StockBalance) (t : InventoryTransaction)
    → SharesKey b t
    → is_key o i l t ≡ is_at o i l b
is_key-is_at o i l b t k = rw (k.same_organization, k.same_item, k.same_location)

-- The balance gains what the transaction adds.
pub quantity-ledger_delta :
    (o i l : ℕ) (b : StockBalance) (t : InventoryTransaction) (q : ℤ)
    → SharesKey b t
    → is_transfer t.type ≡ false
    → q ≡ b.quantity +ℤ signed_quantity t.type t.quantity
    → (if is_at o i l b then q else pos 0) ≡ quantity_at o i l b +ℤ ledger_delta o i l t
quantity-ledger_delta o i l b t q k h e =
    rw (ledger_delta_own o i l t h, is_key-is_at o i l b t k)
      (elim (Bool-cases (is_at o i l b)) [
        | inl yes' ↦ rw yes' e
        | inr no' ↦ rw no' (omega int_laws)
      ])
