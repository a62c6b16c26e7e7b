-- ===== src/Inventory/Preservation/Commits.antt =====
-- What a commit has written, when it succeeds.
use maintain_pro_backend.Shared.{
  ok, >>=-eq-ok, Fresh, ◌≡◌, List, [], ◌∷◌, ◌++◌, Bool, not, sym, ok-injective, arith,
}
use maintain_pro_backend.Shared.Mongo.{Mongo, insert_checked}
use maintain_pro_backend.Inventory.Model.{StockBalance, InventoryTransaction, Store, NewIds}
use maintain_pro_backend.Inventory.Balances.{create_transaction, is_empty, written, same_key}
use maintain_pro_backend.Inventory.Atomic.Common.{Recorded, record_transaction}
use maintain_pro_backend.Inventory.Valid.{balance_id, reservation_id}

-- The database gives a new document an identifier that no document has.
pub record IsNew (new : NewIds) (s : Store) : Type 0 where
  pub new_balance : Fresh balance_id new.balance_id s.balances
  pub new_reservation : Fresh reservation_id new.reservation_id s.reservations

-- An accepted write is valid, and is the last document of its collection.
insert-eq-ok :
    {D : Type 0} (valid : Bool) (clashes : D → Bool) (d : D) (ds r : List D)
    → written (insert_checked valid clashes d ds) ≡ ok r
    → r ≡ ds ++ d ∷ []
insert-eq-ok valid clashes d ds r h = ground arith

pub create_transaction-eq-ok :
    (m : Mongo) (t : InventoryTransaction) (ts r : List InventoryTransaction)
    → create_transaction m t ts ≡ ok r
    → r ≡ ts ++ t ∷ []
unfolding create_transaction
create_transaction-eq-ok m t ts r h =
    insert-eq-ok (not (is_empty t.unit_of_measure)) (same_key t) t ts r
      (rw (m.create_lem (not (is_empty t.unit_of_measure)) (same_key t) t ts) at h)

-- What `record_transaction` leaves behind when it accepts the transaction.
pub record_transaction-eq-ok :
    (m : Mongo) (new : NewIds) (u : StockBalance × List StockBalance) (t : InventoryTransaction)
    (s : Store)
    → (r : Recorded × Store) → record_transaction m new u t s ≡ ok r
    → r ≡ ((u.0, t), record s { balances = u.1; transactions = s.transactions ++ t ∷ [] })
unfolding record_transaction
record_transaction-eq-ok m new (b, bs) t s r h =
    let (ts, e, k) = >>=-eq-ok (create_transaction m t s.transactions) _ r h in
    sym (ok-injective _ _ (rw (create_transaction-eq-ok m t s.transactions ts e) at k))
