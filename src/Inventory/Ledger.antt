-- ===== src/Inventory/Ledger.antt =====
-- inventory.repository.ts, `reconcile`: the balances against the sums of the ledger and of the open
-- reservations.
use maintain_pro_backend.Shared.{
  ◌==◌, if◌then◌else◌, same_id, ℤ, pos, ◌-ℤ◌, eq_ℤ, total, ℕ, Bool, ◌&&◌, Option, some, List, [],
  ◌∷◌, map,
}
use maintain_pro_backend.Shared.Mongo.{Mongo}
use maintain_pro_backend.Inventory.Model.{
  StockBalance, is_reserved, InventoryReservation, InventoryTransactionType, is_transfer,
  InventoryTransaction, Store,
}

-- The `$switch` on the type: what a transaction adds at its own location.
unfoldable pub signed_quantity : InventoryTransactionType → ℤ → ℤ
signed_quantity InventoryTransactionType.issue q = pos 0 -ℤ q
signed_quantity InventoryTransactionType.consumption q = pos 0 -ℤ q
signed_quantity InventoryTransactionType.adjustment q = q
signed_quantity InventoryTransactionType.receipt q = q
signed_quantity InventoryTransactionType.return q = q
signed_quantity _ q = pos 0

-- The `$cond` on a transfer: what it adds at its destination.
unfoldable pub arrivals : InventoryTransaction → List (Option ℕ × ℤ)
arrivals t = if is_transfer t.type then (t.destination_location_id, t.quantity) ∷ [] else []

-- `deltas`, after `$project`.
unfoldable pub deltas : InventoryTransaction → List (Option ℕ × ℤ)
deltas t = (some t.stock_location_id, signed_quantity t.type t.quantity) ∷ arrivals t

-- `$unwind` and `$group` for one location.
abbrev pub delta_at : ℕ → Option ℕ × ℤ → ℤ
delta_at l (place, q) = if same_id place (some l) then q else pos 0

unfoldable pub ledger_delta : ℕ → ℕ → ℕ → InventoryTransaction → ℤ
ledger_delta o i l t =
    if t.organization_id == o && t.item_id == i then total (delta_at l) (deltas t) else pos 0

-- The reserved quantity that is still open, after the match on the status.
unfoldable pub open_quantity : ℕ → ℕ → ℕ → InventoryReservation → ℤ
open_quantity o i l r =
    if is_reserved r.status
      && (r.organization_id == o && (r.item_id == i && r.stock_location_id == l))
    then r.quantity -ℤ r.consumed_quantity
    else pos 0

pub record ReconcileEntry : Type 0 where
  pub item_id : ℕ
  pub stock_location_id : ℕ
  pub recorded_quantity : ℤ
  pub expected_quantity : ℤ
  pub quantity_delta : ℤ
  pub recorded_reserved_quantity : ℤ
  pub expected_reserved_quantity : ℤ
  pub reserved_quantity_delta : ℤ
  pub consistent : Bool

unfoldable pub reconcile_balance : Store → StockBalance → ReconcileEntry
reconcile_balance s b =
    let expected =
      total (ledger_delta b.organization_id b.item_id b.stock_location_id) s.transactions in
    let held =
      total (open_quantity b.organization_id b.item_id b.stock_location_id) s.reservations in
    record {
      item_id = b.item_id;
      stock_location_id = b.stock_location_id;
      recorded_quantity = b.quantity;
      expected_quantity = expected;
      quantity_delta = b.quantity -ℤ expected;
      recorded_reserved_quantity = b.reserved_quantity;
      expected_reserved_quantity = held;
      reserved_quantity_delta = b.reserved_quantity -ℤ held;
      consistent = eq_ℤ b.quantity expected && eq_ℤ b.reserved_quantity held;
    }

abbrev pub belongs_to : ℕ → StockBalance → Bool
belongs_to o b = b.organization_id == o

unfoldable pub reconcile : Mongo → ℕ → Store → List ReconcileEntry
reconcile m o s = map (reconcile_balance s) (m.find (belongs_to o) s.balances)
