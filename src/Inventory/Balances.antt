-- ===== src/Inventory/Balances.antt =====
-- inventory.repository.ts: the single-document operations that the atomic ones are made of.
use maintain_pro_backend.Shared.{
  ◌==◌, same_id, ℤ, pos, ◌+ℤ◌, ◌-ℤ◌, leb_ℤ, Result, ok, err, ℕ, String, Bool, true, false, not,
  ◌&&◌, Option, some, List,
}
use maintain_pro_backend.Shared.Mongo.{Mongo, WriteError}
use maintain_pro_backend.Inventory.Model.{
  StockBalance, InventoryReservation, InventoryTransaction, RepositoryError, write, is_at,
  is_return, is_consumption,
}

abbrev pub is_empty : String → Bool
is_empty String.[] = true
is_empty (String.◌∷◌ _ _) = false

abbrev pub has_id : ℕ → StockBalance → Bool
has_id n b = b.id == n

abbrev pub add_quantity : ℤ → StockBalance → StockBalance
add_quantity q b = record b { quantity = b.quantity +ℤ q }

-- `$inc: { quantity: -quantity }`
abbrev pub subtract_quantity : ℤ → StockBalance → StockBalance
subtract_quantity q b = record b { quantity = b.quantity -ℤ q }

abbrev pub add_reserved : ℤ → StockBalance → StockBalance
add_reserved q b = record b { reserved_quantity = b.reserved_quantity +ℤ q }

abbrev pub subtract_reserved : ℤ → StockBalance → StockBalance
subtract_reserved q b = record b { reserved_quantity = b.reserved_quantity -ℤ q }

-- `$expr: { $gte: [{ $subtract: ["$quantity", "$reservedQuantity"] }, quantity] }`
abbrev pub has_available : ℤ → StockBalance → Bool
has_available q b = leb_ℤ q (b.quantity -ℤ b.reserved_quantity)

-- The fields of a filter that stand for a document's identifier and its organization.
abbrev pub is_reservation : ℕ → ℕ → InventoryReservation → Bool
is_reservation n o r = r.id == n && r.organization_id == o

abbrev pub is_transaction : ℕ → ℕ → InventoryTransaction → Bool
is_transaction n o t = t.id == n && t.organization_id == o

-- The unique sparse index on `idempotencyKey`.
abbrev pub same_key : InventoryTransaction → InventoryTransaction → Bool
same_key t u = same_id t.idempotency_key u.idempotency_key

abbrev pub written : {D : Type 0} → Result WriteError D → Result RepositoryError D
written (ok d) = ok d
written (err e) = err (write e)

module _ (m : Mongo) where
  -- The schema requires a unit of measure, and a required text is refused when it is empty.
  unfoldable pub create_transaction :
      InventoryTransaction
      → List InventoryTransaction
      → Result RepositoryError (List InventoryTransaction)
  create_transaction t ts = written (m.create (not (is_empty t.unit_of_measure)) (same_key t) t ts)

  unfoldable pub ensure_balance :
      ℕ → ℕ → ℕ → ℕ → List StockBalance → StockBalance × List StockBalance
  ensure_balance new o i l bs =
      m.find_one_and_upsert (is_at o i l) (λ b. b)
        (record {
          id = new;
          organization_id = o;
          item_id = i;
          stock_location_id = l;
          quantity = pos 0;
          reserved_quantity = pos 0;
        })
        bs

  unfoldable pub increase_balance :
      ℕ → ℤ → List StockBalance → Option StockBalance × List StockBalance
  increase_balance n q bs = m.find_one_and_update (has_id n) (add_quantity q) bs

  unfoldable pub decrease_available :
      ℕ → ℤ → List StockBalance → Option StockBalance × List StockBalance
  decrease_available n q bs =
      m.find_one_and_update (λ b. has_id n b && has_available q b) (subtract_quantity q) bs

  unfoldable pub reserve_balance :
      ℕ → ℤ → List StockBalance → Option StockBalance × List StockBalance
  reserve_balance n q bs =
      m.find_one_and_update (λ b. has_id n b && has_available q b) (add_reserved q) bs

  unfoldable pub release_balance :
      ℕ → ℤ → List StockBalance → Option StockBalance × List StockBalance
  release_balance n q bs =
      m.find_one_and_update (λ b. has_id n b && leb_ℤ q b.reserved_quantity) (subtract_reserved q)
        bs

  unfoldable pub consume_reserved :
      ℕ → ℤ → List StockBalance → Option StockBalance × List StockBalance
  consume_reserved n q bs =
      m.find_one_and_update (λ b. has_id n b && (leb_ℤ q b.quantity && leb_ℤ q b.reserved_quantity))
        (λ b. subtract_reserved q (subtract_quantity q b)) bs

  unfoldable pub find_reservation : ℕ → ℕ → List InventoryReservation → Option InventoryReservation
  find_reservation n o rs = m.find_one (is_reservation n o) rs

  unfoldable pub update_reservation :
      ℕ
      → ℕ
      → (InventoryReservation → InventoryReservation)
      → List InventoryReservation
      → List InventoryReservation
  update_reservation n o f rs = (m.find_one_and_update (is_reservation n o) f rs).1

  unfoldable pub find_transaction : ℕ → ℕ → List InventoryTransaction → Option InventoryTransaction
  find_transaction n o ts = m.find_one (is_transaction n o) ts

  unfoldable pub find_transaction_by_idempotency_key :
      ℕ → ℕ → List InventoryTransaction → Option InventoryTransaction
  find_transaction_by_idempotency_key k o ts =
      m.find_one (λ t. same_id t.idempotency_key (some k) && t.organization_id == o) ts

  -- `findTransactionsBySource(id, organizationId, "consumption")`
  unfoldable pub find_consumptions : ℕ → ℕ → List InventoryTransaction → List InventoryTransaction
  find_consumptions n o ts =
      m.find
        (λ t.
          same_id t.source_transaction_id (some n)
          && (t.organization_id == o && is_consumption t.type))
        ts

  unfoldable pub find_returns : ℕ → ℕ → List InventoryTransaction → List InventoryTransaction
  find_returns n o ts =
      m.find
        (λ t.
          same_id t.related_transaction_id (some n) && (t.organization_id == o && is_return t.type))
        ts
