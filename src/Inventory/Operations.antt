-- ===== src/Inventory/Operations.antt =====
-- inventory.repository.ts: the atomic operations under `session.withTransaction`, one after another.
use maintain_pro_backend.Shared.{
  pos, ◌≤ℤ◌, Result, ok, err, ok-injective, err≢ok, Result-cases, total, ℕ, ◌≡◌, refl, subst, inl,
  inr, Option, [],
}
use maintain_pro_backend.Shared.Mongo.{Mongo, commit}
use maintain_pro_backend.Inventory.Model.{
  NewIds, Store, RepositoryError, StockData, InventoryTransactionType, InventoryTransaction,
  InventoryReservation, ReleaseData, ReturnData, TransferData,
}
use maintain_pro_backend.Inventory.Preservation.Issues.{IsWithdrawal, issue_atomic-IsValid}
use maintain_pro_backend.Inventory.Valid.{IsValid}
use maintain_pro_backend.Inventory.Atomic.Common.{Recorded}
use maintain_pro_backend.Inventory.Preservation.Commits.{IsNew}
use maintain_pro_backend.Inventory.Atomic.Movements.{
  receive_atomic, adjust_atomic, return_atomic, transfer_atomic,
}
use maintain_pro_backend.Inventory.Preservation.Receipts.{
  receive_atomic-IsValid, return_atomic-IsValid,
}
use maintain_pro_backend.Inventory.Atomic.Reservations.{release_atomic, reserve_atomic}
use maintain_pro_backend.Inventory.Releases.{release_atomic-fails}
use maintain_pro_backend.Inventory.Preservation.Withdrawals.{
  adjust_atomic-IsValid, consume_source_atomic-IsValid,
}
use maintain_pro_backend.Inventory.Preservation.Holds.{reserve_atomic-IsValid}
use maintain_pro_backend.Inventory.Atomic.Issues.{issue_atomic, consume_source_atomic}

-- The calls of the repository's atomic methods, with their arguments.
pub data Operation : Type 0 where
  receive adjust reserve : StockData → Operation
  issue : InventoryTransactionType → Option ℕ → StockData → Operation
  consume_source : ℕ → StockData → Operation
  release : ReleaseData → Operation
  return : ReturnData → Operation
  transfer : TransferData → Operation

abbrev pub recorded :
    Result RepositoryError (Recorded × Store)
    → Result RepositoryError (InventoryTransaction × Store)
recorded (ok ((_, t), s)) = ok (t, s)
recorded (err e) = err e

abbrev pub held :
    Result RepositoryError ((InventoryReservation × InventoryTransaction) × Store)
    → Result RepositoryError (InventoryTransaction × Store)
held (ok ((_, t), s)) = ok (t, s)
held (err e) = err e

module _ (m : Mongo) (new : NewIds) where
  -- The body of the transaction, and the transaction document that it returns.
  unfoldable pub body : Operation → Store → Result RepositoryError (InventoryTransaction × Store)
  body (Operation.receive d) s = recorded (receive_atomic m new d s)
  body (Operation.adjust d) s = recorded (adjust_atomic m new d s)
  body (Operation.reserve d) s = held (reserve_atomic m new d s)
  body (Operation.issue type' n d) s = recorded (issue_atomic m new type' n d s)
  body (Operation.consume_source n d) s = recorded (consume_source_atomic m new n d s)
  body (Operation.release d) s = recorded (release_atomic m new d s)
  body (Operation.return d) s = recorded (return_atomic m new d s)
  body (Operation.transfer d) s = transfer_atomic m new d s

  unfoldable pub run : Operation → Store → Result RepositoryError InventoryTransaction × Store
  run op s = m.with_transaction (body op) s

-- The admissible operations: a quantity that is no negative whole number, as in a request for whole
-- quantities, and what `issue` passes as a type; a transfer is apart.
abbrev pub IsAdmissible : Operation → Type 0
IsAdmissible (Operation.receive d) = pos 0 ≤ℤ d.quantity
IsAdmissible (Operation.reserve d) = pos 0 ≤ℤ d.quantity
IsAdmissible (Operation.return d) = pos 0 ≤ℤ d.quantity
IsAdmissible (Operation.issue type' _ _) = IsWithdrawal type'
IsAdmissible (Operation.transfer _) = ⊥
IsAdmissible _ = Unit

-- A property of every store that a body leaves, read off the store that it returns.
recorded-keeps :
    (P : Store → Type 0) (x : Result RepositoryError (Recorded × Store))
    → ((r : Recorded × Store) → x ≡ ok r → P r.1)
    → (r : InventoryTransaction × Store) → recorded x ≡ ok r
    → P r.1
recorded-keeps P (ok ((b, t), s)) k r h =
    subst (λ (y : InventoryTransaction × Store). P y.1) (ok-injective _ _ h) (k ((b, t), s) refl)
recorded-keeps P (err e) k r h = absurd (err≢ok e r h)

held-keeps :
    (P : Store → Type 0)
    → (x : Result RepositoryError ((InventoryReservation × InventoryTransaction) × Store))
    → ((r : (InventoryReservation × InventoryTransaction) × Store) → x ≡ ok r → P r.1)
    → (r : InventoryTransaction × Store) → held x ≡ ok r
    → P r.1
held-keeps P (ok ((b, t), s)) k r h =
    subst (λ (y : InventoryTransaction × Store). P y.1) (ok-injective _ _ h) (k ((b, t), s) refl)
held-keeps P (err e) k r h = absurd (err≢ok e r h)

commit-keeps :
    {A : Type 0} (P : Store → Type 0) (s : Store) (x : Result RepositoryError (A × Store))
    → P s
    → ((r : A × Store) → x ≡ ok r → P r.1)
    → P (commit s x).1
commit-keeps P s (ok r) p k = k r refl
commit-keeps P s (err e) p k = p

-- What a body keeps when it succeeds is kept by its transaction, whatever the outcome.
pub transaction-keeps :
    {A : Type 0} (m : Mongo) (P : Store → Type 0) (f : Store → Result RepositoryError (A × Store))
    (s : Store)
    → P s
    → ((r : A × Store) → f s ≡ ok r → P r.1)
    → P (m.with_transaction f s).1
transaction-keeps m P f s p k = rw (m.with_transaction_lem f s) (commit-keeps P s (f s) p k)

module _ (m : Mongo) (new : NewIds) (s : Store) (v : IsValid s) (n : IsNew new s) where
  body-IsValid :
      (op : Operation) (r : InventoryTransaction × Store)
      → IsAdmissible op
      → body m new op s ≡ ok r
      → IsValid r.1
  unfolding body
  body-IsValid (Operation.receive d) r a h =
      recorded-keeps IsValid _ (λ x. receive_atomic-IsValid m new s v n d x a) r h
  body-IsValid (Operation.adjust d) r a h =
      recorded-keeps IsValid _ (λ x. adjust_atomic-IsValid m new s v n d x) r h
  body-IsValid (Operation.reserve d) r a h =
      held-keeps IsValid _ (λ x. reserve_atomic-IsValid m new s v n d x a) r h
  body-IsValid (Operation.issue type' c d) r a h =
      recorded-keeps IsValid _ (λ x. issue_atomic-IsValid m new s v n type' c d x a) r h
  body-IsValid (Operation.consume_source c d) r a h =
      recorded-keeps IsValid _ (λ x. consume_source_atomic-IsValid m new s v n c d x) r h
  body-IsValid (Operation.release d) r a h =
      recorded-keeps IsValid _ (λ x e. absurd (release_atomic-fails m new d s x e)) r h
  body-IsValid (Operation.return d) r a h =
      recorded-keeps IsValid _ (λ x. return_atomic-IsValid m new s v n d x a) r h
  body-IsValid (Operation.transfer d) r a h = absurd a

  -- An admissible operation (no transfer, and no negative quantity received, reserved or returned) on
  -- whole quantities, given new identifiers, keeps a valid store valid, whether it succeeds or throws:
  -- unique keys, bounded balances, balances equal to the sums of the ledger and of the open
  -- reservations.
  pub run-IsValid : (op : Operation) → IsAdmissible op → IsValid (run m new op s).1
  unfolding run
  run-IsValid op a =
      rw (m.with_transaction_lem (body m new op) s)
        (commit-keeps IsValid s (body m new op s) v (λ r. body-IsValid op r a))

abbrev pub no_documents : Store
no_documents = record { balances = []; reservations = []; transactions = [] }

-- The stores that operations other than transfers lead to from empty collections.
pub data IsReachable (m : Mongo) : Store → Type 0 where
  start : IsReachable m no_documents
  step :
      (new : NewIds) (op : Operation) (s : Store)
      → IsReachable m s
      → IsNew new s
      → IsAdmissible op
      → IsReachable m (run m new op s).1

no_documents-IsValid : IsValid no_documents
unfolding total
no_documents-IsValid = record {
  sound = record { ids = tt; keys = tt; bounds = tt };
  reservation_ids = tt;
  ledger = λ o i l. refl;
  held = λ o i l. refl;
}

pub IsReachable-IsValid : (m : Mongo) (s : Store) → IsReachable m s → IsValid s
IsReachable-IsValid m _ start = no_documents-IsValid
IsReachable-IsValid m _ (step new op s r n a) =
    run-IsValid m new s (IsReachable-IsValid m s r) n op a

module _ (m : Mongo) (new : NewIds) (s : Store) where
  -- A release throws in every store, and leaves it as it was.
  pub release-no_change :
      (d : ReleaseData) → (e : RepositoryError) × (run m new (Operation.release d) s ≡ (err e, s))
  unfolding run body
  release-no_change d =
      rw (m.with_transaction_lem (body m new (Operation.release d)) s)
        (elim (Result-cases (release_atomic m new d s)) [
          | inl (r, h) ↦ absurd (release_atomic-fails m new d s r h)
          | inr (e, h) ↦ (e, rw h refl)
        ])
