-- ===== src/Inventory/Tests.antt =====
-- The inventory's operations on small stores, over a database that behaves as documented.
use maintain_pro_backend.Shared.{
  ℤ, pos, ◌+ℤ◌, ◌-ℤ◌, Result, ok, err, total, ◌≡◌, refl, subst, none, some, List, [], ◌∷◌, map,
  arith,
}
use maintain_pro_backend.Shared.Mongo.{documented}
use maintain_pro_backend.Inventory.Valid.{quantity_at, IsValid}
use maintain_pro_backend.Inventory.Atomic.Movements.{
  transfer_atomic, transfer_transaction, receive_atomic,
}
use maintain_pro_backend.Inventory.Transfers.{
  item_quantity, transfer-conserves, transfer-source_gap,
}
use maintain_pro_backend.Inventory.Operations.{
  run, IsReachable, body, IsReachable-IsValid, Operation, step, run-IsValid, no_documents,
  release-no_change, start,
}
use maintain_pro_backend.Inventory.Model.{
  Store, RepositoryError, TransferData, InventoryTransaction, NewIds, StockBalance, StockData,
  InventoryTransactionType,
}
use maintain_pro_backend.Inventory.Preservation.Commits.{IsNew}
use maintain_pro_backend.Inventory.Balances.{
  create_transaction, ensure_balance, increase_balance, find_reservation, update_reservation,
  reserve_balance, consume_reserved,
}
use maintain_pro_backend.Inventory.Ledger.{ledger_delta}
use maintain_pro_backend.Inventory.Atomic.Common.{stock_transaction, balance_of, record_transaction}
use maintain_pro_backend.Inventory.Atomic.Reservations.{reserve_atomic}
use maintain_pro_backend.Inventory.Retries.{repeated-no_change}
use maintain_pro_backend.Inventory.Atomic.Issues.{issue_atomic, withdraw_for_issue, issue_reserved}

abbrev pub delivery : StockData
delivery = record {
  organization_id = 1;
  item_id = 2;
  stock_location_id = 3;
  quantity = pos 10;
  unit_of_measure = "each";
  work_order_id = none;
  reference = none;
  reason = none;
  idempotency_key = some 77;
  performed_by = 9;
}

abbrev holding : StockData
holding = record delivery { quantity = pos 4; idempotency_key = none }

abbrev move : TransferData
move = record {
  organization_id = 1;
  item_id = 2;
  source_location_id = 3;
  destination_location_id = 5;
  quantity = pos 4;
  unit_of_measure = "each";
  reference = none;
  reason = none;
  idempotency_key = none;
  performed_by = 9;
}

abbrev first_ids : NewIds
first_ids = record { balance_id = 1; reservation_id = 1; transaction_id = 1 }

abbrev second_ids : NewIds
second_ids = record { balance_id = 2; reservation_id = 2; transaction_id = 2 }

abbrev receipt_document : InventoryTransaction
receipt_document = stock_transaction 1 delivery InventoryTransactionType.receipt

-- After the delivery.
abbrev pub stocked : Store
stocked = record {
  balances =
      record {
        id = 1;
        organization_id = 1;
        item_id = 2;
        stock_location_id = 3;
        quantity = pos 10;
        reserved_quantity = pos 0;
      }
      ∷ [];
  reservations = [];
  transactions = receipt_document ∷ [];
}

delivered :
    run documented first_ids (Operation.receive delivery) no_documents
    ≡ (ok receipt_document, stocked)
unfolding run body receive_atomic balance_of ensure_balance increase_balance record_transaction
    create_transaction ◌+ℤ◌
delivered = refl

stocked-IsReachable : IsReachable documented stocked
stocked-IsReachable =
    subst (λ (r : Result RepositoryError InventoryTransaction × Store). IsReachable documented r.1)
      delivered
      (step first_ids (Operation.receive delivery) no_documents start
        (record { new_balance = tt; new_reservation = tt }) (omega arith))

pub stocked-IsValid : IsValid stocked
stocked-IsValid = IsReachable-IsValid documented stocked stocked-IsReachable

stocked-IsNew : IsNew second_ids stocked
stocked-IsNew = record { new_balance = (omega arith, tt); new_reservation = tt }

-- Holding four of the ten and issuing them from the reservation.
abbrev held_store : Store
held_store = (run documented second_ids (Operation.reserve holding) stocked).1

-- What is left of the held stock once it is issued.
abbrev issued_quantities : List StockBalance → List (ℤ × ℤ)
issued_quantities bs = map (λ b. (b.quantity, b.reserved_quantity)) bs

issued :
    issued_quantities
      (run documented
        (record second_ids { transaction_id = 3 })
        (Operation.issue InventoryTransactionType.issue (some 2) holding)
        held_store).1.balances
    ≡ (pos 6, pos 0) ∷ []
unfolding run body reserve_atomic issue_atomic withdraw_for_issue issue_reserved find_reservation
    update_reservation balance_of ensure_balance reserve_balance consume_reserved record_transaction
    create_transaction ◌+ℤ◌ ◌-ℤ◌
issued = refl

abbrev transfer_document : InventoryTransaction
transfer_document = transfer_transaction documented second_ids move

abbrev balance_of_ten : StockBalance
balance_of_ten = record {
  id = 1;
  organization_id = 1;
  item_id = 2;
  stock_location_id = 3;
  quantity = pos 6;
  reserved_quantity = pos 0;
}

abbrev after_move : Store
after_move = record {
  balances =
      balance_of_ten
      ∷ record balance_of_ten { id = 2; stock_location_id = 5; quantity = pos 4 }
      ∷ [];
  reservations = [];
  transactions = receipt_document ∷ transfer_document ∷ [];
}

moves : transfer_atomic documented second_ids move stocked ≡ ok (transfer_document, after_move)
unfolding transfer_atomic create_transaction ◌+ℤ◌ ◌-ℤ◌
moves = refl

run-IsValid_example : IsValid (run documented second_ids (Operation.reserve holding) stocked).1
run-IsValid_example =
    run-IsValid documented second_ids stocked stocked-IsValid stocked-IsNew
      (Operation.reserve holding) (omega arith)

transfer-conserves_example :
    total (item_quantity 1 2) after_move.balances ≡ total (item_quantity 1 2) stocked.balances
transfer-conserves_example =
    transfer-conserves documented second_ids move stocked 1 2 (transfer_document, after_move) moves

transfer-source_gap_example :
    total (quantity_at 1 2 3) after_move.balances +ℤ pos 4
    ≡ total (ledger_delta 1 2 3) after_move.transactions
transfer-source_gap_example =
    transfer-source_gap documented second_ids move stocked (omega arith)
      (transfer_document, after_move) stocked-IsValid moves

repeated-no_change_example :
    (e : RepositoryError) × (run documented second_ids (Operation.receive delivery) stocked
      ≡ (err e, stocked))
repeated-no_change_example =
    repeated-no_change documented second_ids (Operation.receive delivery) stocked refl

release-no_change_example :
    (e : RepositoryError) × (run documented second_ids
        (Operation.release (record { organization_id = 1; reservation_id = 2; performed_by = 9 }))
        stocked
      ≡ (err e, stocked))
release-no_change_example =
    release-no_change documented second_ids stocked
      (record { organization_id = 1; reservation_id = 2; performed_by = 9 })
