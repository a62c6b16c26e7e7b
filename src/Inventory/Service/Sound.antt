-- ===== src/Inventory/Service/Sound.antt =====
-- inventory.service.ts: each method keeps a property of the store that its transaction keeps.
use maintain_pro_backend.Shared.{Result, ℕ, Option, none, some}
use maintain_pro_backend.Shared.Mongo.{Mongo}
use maintain_pro_backend.Inventory.Service.Monad.{◌>>◌}
use maintain_pro_backend.Inventory.Service.Receipts
use maintain_pro_backend.Inventory.Service.Movements
use maintain_pro_backend.Inventory.Model.{Store, NewIds, RepositoryError, StockData}
use maintain_pro_backend.Inventory.Service.Model.{
  InventoryActor, StockRequest, InventoryItem, InventoryEvent, TransferRequest, BalanceResponse,
  ReturnRequest, balance_response,
}
use maintain_pro_backend.Inventory.Service.Receipts.{
  answer_clash, receive_new, refuse_reservation, reserve_new, adjust_new,
}
use maintain_pro_backend.Inventory.Service.Issues.{
  answer_repeated, IssueType, issue_items, warn_low_stock, issue_stock, withdraw, issue_new,
  transaction_type, issue_from_source,
}
use maintain_pro_backend.Inventory.Service.Keeps.{
  Keeps, then-Keeps, reading-Keeps, context-Keeps, answer-Keeps, attempt-Keeps, throw-Keeps,
  settle-Keeps, publish-Keeps, pure-Keeps, if-Keeps, throw_or-Keeps, organization-Keeps,
  reserved-Keeps, require-Keeps, require_work_order-Keeps, require_stock_role-Keeps, listed-Keeps,
}
use maintain_pro_backend.Inventory.Atomic.Movements.{
  receive_atomic, adjust_atomic, transfer_atomic, return_atomic,
}
use maintain_pro_backend.Inventory.Service.Guards.{stock_data}
use maintain_pro_backend.Inventory.Atomic.Reservations.{release_atomic, reserve_atomic}
use maintain_pro_backend.Inventory.Service.Movements.{
  return_stock, transfer_new, return_new, transfer_data, return_data,
}
use maintain_pro_backend.Inventory.Atomic.Issues.{consume_source_atomic, issue_atomic}
use maintain_pro_backend.Inventory.Service.Monad.{publish, pure}

module _ (P : Store → Type 0) (m : Mongo) (fresh : Store → NewIds) (actor : InventoryActor) where
  answer_clash-Keeps :
      (e : RepositoryError) (key : Option ℕ) (o i l : ℕ)
      → Keeps P (answer_clash m fresh e key o i l)
  unfolding answer_clash
  answer_clash-Keeps e key o i l =
      then-Keeps P _ _ (reading-Keeps P _) (λ c. answer-Keeps P _ _ (throw-Keeps P _ _))

  answer_repeated-Keeps :
      (e : RepositoryError) (key : Option ℕ) (o i l : ℕ)
      → Keeps P (answer_repeated m fresh e key o i l)
  unfolding answer_repeated
  answer_repeated-Keeps e key o i l =
      then-Keeps P _ _ (reading-Keeps P _) (λ c. answer-Keeps P _ _ (throw-Keeps P _ _))

  refuse_reservation-Keeps :
      (e : RepositoryError) (key : Option ℕ) (o : ℕ) → Keeps P (refuse_reservation m fresh e key o)
  unfolding refuse_reservation
  refuse_reservation-Keeps e key o =
      if-Keeps P _ _ _ (throw-Keeps P _ _)
        (then-Keeps P _ _ (reading-Keeps P _) (λ c. reserved-Keeps P _ _ (throw-Keeps P _ _)))

  warn_low_stock-Keeps :
      (o : ℕ) (item : InventoryItem) (r : BalanceResponse)
      → Keeps P (warn_low_stock m fresh o item actor r)
  unfolding warn_low_stock
  warn_low_stock-Keeps o item r = if-Keeps P _ _ _ (publish-Keeps P _) (pure-Keeps P _)

  -- The fact that an operation publishes, and its answer.
  told-Keeps : {B : Type 0} (e : InventoryEvent) (b : B) → Keeps P (publish e >> pure b)
  told-Keeps e b = then-Keeps P _ _ (publish-Keeps P e) (λ _. pure-Keeps P b)

  module _ (d : StockRequest) where
    -- What a transaction on the stock of the request has to keep.
    abbrev pub AtomicKeeps :
        {A : Type 0} → (NewIds → StockData → Store → Result RepositoryError (A × Store)) → Type 0
    AtomicKeeps f =
        (o : ℕ) (item : InventoryItem) (s : Store)
        → P s
        → P (m.with_transaction (f (fresh s) (stock_data o item d actor)) s).1

    pub receive-Keeps : AtomicKeeps (receive_atomic m) → Keeps P (Receipts.receive m fresh d actor)
    unfolding Receipts.receive receive_new
    receive-Keeps h = then-Keeps P _ _ (context-Keeps P m _ _ actor) (λ found.
        then-Keeps P _ _ (reading-Keeps P _) (λ repeated. answer-Keeps P _ _ (
          then-Keeps P _ _ (attempt-Keeps P _ (h found.0 found.1.0)) (λ result.
            settle-Keeps P _ _ _ (λ e. answer_clash-Keeps e _ _ _ _) (λ r. told-Keeps _ _)))))

    pub adjust-Keeps : AtomicKeeps (adjust_atomic m) → Keeps P (Receipts.adjust m fresh d actor)
    unfolding Receipts.adjust adjust_new
    adjust-Keeps h = then-Keeps P _ _ (context-Keeps P m _ _ actor) (λ found.
        then-Keeps P _ _ (reading-Keeps P _) (λ repeated. answer-Keeps P _ _ (
          then-Keeps P _ _ (attempt-Keeps P _ (h found.0 found.1.0)) (λ result.
            settle-Keeps P _ _ _
              (λ e. if-Keeps P _ _ _ (throw-Keeps P _ _) (answer_clash-Keeps e _ _ _ _))
              (λ r. told-Keeps _ _)))))

    pub reserve-Keeps : AtomicKeeps (reserve_atomic m) → Keeps P (Receipts.reserve m fresh d actor)
    unfolding Receipts.reserve reserve_new
    reserve-Keeps h = then-Keeps P _ _ (require-Keeps P _ _) (λ _.
        then-Keeps P _ _ (context-Keeps P m _ _ actor) (λ found.
          then-Keeps P _ _ (reading-Keeps P _) (λ repeated. reserved-Keeps P _ _ (
            then-Keeps P _ _ (require_work_order-Keeps P m _ _) (λ _.
              then-Keeps P _ _ (attempt-Keeps P _ (h found.0 found.1.0)) (λ result.
                settle-Keeps P _ _ _ (λ e. refuse_reservation-Keeps e _ _)
                  (λ r. told-Keeps _ _)))))))

    abbrev pub IssueKeeps : IssueType → Type 0
    IssueKeeps type' =
        AtomicKeeps (λ new. issue_atomic m new (transaction_type type') d.reservation_id)

    abbrev pub ConsumeKeeps : Type 0
    ConsumeKeeps = (n : ℕ) → AtomicKeeps (λ new. consume_source_atomic m new n)

    issue_from_source-Keeps :
        (n o : ℕ) (item : InventoryItem)
        → ConsumeKeeps
        → Keeps P (issue_from_source m fresh n o item d actor)
    unfolding issue_from_source
    issue_from_source-Keeps n o item k =
        then-Keeps P _ _ (attempt-Keeps P _ (k n o item)) (λ result.
          settle-Keeps P _ _ _ (λ e. throw_or-Keeps P m fresh _ _ (answer_repeated-Keeps e _ _ _ _))
            (λ r. told-Keeps _ _))

    issue_stock-Keeps :
        (type' : IssueType) (o : ℕ) (item : InventoryItem)
        → IssueKeeps type'
        → Keeps P (issue_stock m fresh type' o item d actor)
    unfolding issue_stock
    issue_stock-Keeps type' o item h = then-Keeps P _ _ (attempt-Keeps P _ (h o item)) (λ result.
        settle-Keeps P _ _ _ (λ e. throw_or-Keeps P m fresh _ _ (answer_repeated-Keeps e _ _ _ _))
          (λ r. then-Keeps P _ _ (publish-Keeps P _) (λ _.
            then-Keeps P _ _ (warn_low_stock-Keeps o item (balance_response r.0))
              (λ _. pure-Keeps P _))))

    withdraw-Keeps :
        (type' : IssueType) (n : Option ℕ) (o : ℕ) (item : InventoryItem)
        → IssueKeeps type'
        → ConsumeKeeps
        → Keeps P (withdraw m fresh type' n o item d actor)
    unfolding withdraw
    withdraw-Keeps IssueType.consumption (some n) o item h k = issue_from_source-Keeps n o item k
    withdraw-Keeps IssueType.consumption none o item h k =
        issue_stock-Keeps IssueType.consumption o item h
    withdraw-Keeps IssueType.issue n o item h k = issue_stock-Keeps IssueType.issue o item h

    pub issue-Keeps :
        (type' : IssueType)
        → IssueKeeps type'
        → ConsumeKeeps
        → Keeps P (issue_items m fresh type' d actor)
    unfolding issue_items issue_new
    issue-Keeps type' h k = then-Keeps P _ _ (require-Keeps P _ _) (λ _.
        then-Keeps P _ _ (context-Keeps P m _ _ actor) (λ found.
          then-Keeps P _ _ (reading-Keeps P _) (λ repeated. answer-Keeps P _ _ (
            then-Keeps P _ _ (require_work_order-Keeps P m _ _) (λ _.
              then-Keeps P _ _ (require-Keeps P _ _) (λ _. withdraw-Keeps type' _ _ _ h k))))))

  pub release-Keeps :
      (n : ℕ)
      → ((o : ℕ) (s : Store)
          → P s
          → P
              (m.with_transaction
                (release_atomic m (fresh s) (record {
                  organization_id = o;
                  reservation_id = n;
                  performed_by = actor.user_id;
                }))
                s).1)
      → Keeps P (Movements.release m fresh n actor)
  unfolding Movements.release
  release-Keeps n h = then-Keeps P _ _ (organization-Keeps P actor) (λ o.
      then-Keeps P _ _ (attempt-Keeps P _ (h o))
        (λ result. settle-Keeps P _ _ _ (λ e. throw-Keeps P _ _) (λ r. told-Keeps _ _)))

  pub transfer-Keeps :
      (d : TransferRequest)
      → ((o : ℕ) (item : InventoryItem) (s : Store)
          → P s
          → P (m.with_transaction (transfer_atomic m (fresh s) (transfer_data o item d actor)) s).1)
      → Keeps P (Movements.transfer m fresh d actor)
  unfolding Movements.transfer transfer_new
  transfer-Keeps d h = then-Keeps P _ _ (require_stock_role-Keeps P actor) (λ o.
      then-Keeps P _ _ (require-Keeps P _ _) (λ _.
        then-Keeps P _ _ (context-Keeps P m _ _ actor) (λ found.
          then-Keeps P _ _ (context-Keeps P m _ _ actor) (λ _.
            then-Keeps P _ _ (reading-Keeps P _) (λ repeated. listed-Keeps P _ _ (
              then-Keeps P _ _ (attempt-Keeps P _ (h o found.1.0)) (λ result.
                settle-Keeps P _ _ _
                  (λ e.
                    then-Keeps P _ _ (reading-Keeps P _)
                      (λ c. listed-Keeps P _ _ (throw-Keeps P _ _)))
                  (λ r. told-Keeps _ _))))))))

  pub return-Keeps :
      (d : ReturnRequest)
      → ((o : ℕ) (s : Store)
          → P s
          → P (m.with_transaction (return_atomic m (fresh s) (return_data o d actor)) s).1)
      → Keeps P (return_stock m fresh d actor)
  unfolding return_stock return_new
  return-Keeps d h = then-Keeps P _ _ (organization-Keeps P actor) (λ o.
      then-Keeps P _ _ (reading-Keeps P _) (λ repeated. answer-Keeps P _ _ (
        then-Keeps P _ _ (attempt-Keeps P _ (h o)) (λ result.
          settle-Keeps P _ _ _
            (λ e.
              throw_or-Keeps P m fresh _ _ (
                then-Keeps P _ _ (reading-Keeps P _) (λ c. answer-Keeps P _ _ (throw-Keeps P _ _))))
            (λ r. told-Keeps _ _)))))
