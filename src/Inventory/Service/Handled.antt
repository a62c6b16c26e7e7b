-- ===== src/Inventory/Service/Handled.antt =====
-- inventory.service.ts: what every request leaves behind.
use maintain_pro_backend.Shared.{Result, ℕ, ◌≡◌, refl, ◌∙◌, true, false, Option, arith}
use maintain_pro_backend.Shared.Mongo.{Mongo}
use maintain_pro_backend.Inventory.Service.Monad.{◌>>◌, Service, pure}
use maintain_pro_backend.Inventory.Service.Receipts
use maintain_pro_backend.Inventory.Service.Movements
use maintain_pro_backend.Inventory.Service.Requests.{
  Request, receive_request, reserve_request, adjust_request, issue_request, release_request,
  transfer_request, return_request,
}
use maintain_pro_backend.Inventory.Model.{Store, NewIds, RepositoryError}
use maintain_pro_backend.Inventory.Service.Model.{InventoryActor, World, StockRequest}
use maintain_pro_backend.Inventory.Service.Requests.{
  handle, Request, request_key, IsWellFormed, is_transfer_request,
}
use maintain_pro_backend.Inventory.Preservation.Commits.{IsNew}
use maintain_pro_backend.Inventory.Retries.{
  is_used, IsErr, transaction-IsErr, stock-IsErr, reserve-IsErr, withdrawn-IsErr, consume-IsErr,
  unused_key, transfer-IsErr, return-IsErr,
}
use maintain_pro_backend.Inventory.Service.Issues.{
  IssueType, transaction_type, withdraws, issue_items,
}
use maintain_pro_backend.Inventory.Service.Keeps.{Keeps, then-Keeps, pure-Keeps}
use maintain_pro_backend.Inventory.Service.Sound.{
  IssueKeeps, receive-Keeps, reserve-Keeps, adjust-Keeps, issue-Keeps, release-Keeps,
  transfer-Keeps, return-Keeps,
}
use maintain_pro_backend.Inventory.Valid.{IsValid}
use maintain_pro_backend.Inventory.Operations.{transaction-keeps}
use maintain_pro_backend.Inventory.Preservation.Issues.{issue_atomic-IsValid}
use maintain_pro_backend.Inventory.Service.Guards.{stock_data}
use maintain_pro_backend.Inventory.Preservation.Receipts.{
  receive_atomic-IsValid, return_atomic-IsValid,
}
use maintain_pro_backend.Inventory.Preservation.Holds.{reserve_atomic-IsValid}
use maintain_pro_backend.Inventory.Preservation.Withdrawals.{
  adjust_atomic-IsValid, consume_source_atomic-IsValid,
}
use maintain_pro_backend.Inventory.Releases.{release_atomic-fails}
use maintain_pro_backend.Inventory.Service.Movements.{return_stock, return_data}

module _ (m : Mongo) (fresh : Store → NewIds) (actor : InventoryActor) where
  forgotten : (P : Store → Type 0) {A : Type 0} (c : Service A) → Keeps P c → Keeps P (c >> pure tt)
  forgotten P c k = then-Keeps P c _ k (λ _. pure-Keeps P tt)

  module _ (n : (s : Store) → IsNew (fresh s) s) where
    IsValid-issue :
        (type' : IssueType) (d : StockRequest) → IssueKeeps IsValid m fresh actor d type'
    IsValid-issue type' d o item s v = transaction-keeps m IsValid _ s v (λ r.
        issue_atomic-IsValid m (fresh s) s v (n s) (transaction_type type') d.reservation_id
          (stock_data o item d actor) r (withdraws type'))

    -- A well-formed request for whole quantities, other than a transfer, by anyone, with new
    -- identifiers from the database, keeps a valid store valid, whatever it answers.
    pub handle-IsValid :
        (r : Request) (w : World)
        → IsWellFormed r
        → is_transfer_request r ≡ false
        → IsValid w.store
        → IsValid (handle m fresh r actor w).1.store
    unfolding handle
    handle-IsValid (receive_request d) w q f =
        forgotten IsValid (Receipts.receive m fresh d actor)
          (receive-Keeps IsValid m fresh actor d (λ o item s v.
            transaction-keeps m IsValid _ s v (λ r.
              receive_atomic-IsValid m (fresh s) s v (n s) (stock_data o item d actor) r
                (omega arith))))
          w
    handle-IsValid (reserve_request d) w q f =
        forgotten IsValid (Receipts.reserve m fresh d actor)
          (reserve-Keeps IsValid m fresh actor d (λ o item s v.
            transaction-keeps m IsValid _ s v (λ r.
              reserve_atomic-IsValid m (fresh s) s v (n s) (stock_data o item d actor) r
                (omega arith))))
          w
    handle-IsValid (adjust_request d) w q f =
        forgotten IsValid (Receipts.adjust m fresh d actor)
          (adjust-Keeps IsValid m fresh actor d (λ o item s v.
            transaction-keeps m IsValid _ s v
              (λ r. adjust_atomic-IsValid m (fresh s) s v (n s) (stock_data o item d actor) r)))
          w
    handle-IsValid (issue_request type' d) w q f =
        forgotten IsValid (issue_items m fresh type' d actor)
          (issue-Keeps IsValid m fresh actor d type' (IsValid-issue type' d) (λ c o item s v.
            transaction-keeps m IsValid _ s v (λ r.
              consume_source_atomic-IsValid m (fresh s) s v (n s) c (stock_data o item d actor) r)))
          w
    handle-IsValid (release_request c) w q f =
        forgotten IsValid (Movements.release m fresh c actor)
          (release-Keeps IsValid m fresh actor c (λ o s v.
            transaction-keeps m IsValid _ s v
              (λ r e. absurd (release_atomic-fails m (fresh s) _ s r e))))
          w
    handle-IsValid (transfer_request d) w q f = absurd cc
    handle-IsValid (return_request d) w q f =
        forgotten IsValid (return_stock m fresh d actor)
          (return-Keeps IsValid m fresh actor d (λ o s v. transaction-keeps m IsValid _ s v (λ r.
            return_atomic-IsValid m (fresh s) s v (n s) (return_data o d actor) r (omega arith))))
          w

  module _ (s0 : Store) where
    abbrev IsSame : Store → Type 0
    IsSame s = s ≡ s0

    used_again :
        (k : Option ℕ) (s : Store)
        → is_used k s0.transactions ≡ true
        → IsSame s
        → is_used k s.transactions ≡ true
    used_again k s u e = rw e u

    IsSame-after :
        {A : Type 0} (f : Store → Result RepositoryError (A × Store)) (s : Store)
        → IsSame s
        → IsErr (f s)
        → IsSame (m.with_transaction f s).1
    IsSame-after f s e h = transaction-IsErr m f s h ∙ e

    repeated-handle :
        (r : Request)
        → is_used (request_key r) s0.transactions ≡ true
        → Keeps IsSame (handle m fresh r actor)
    unfolding handle
    repeated-handle (receive_request d) u = forgotten IsSame (Receipts.receive m fresh d actor) (
        receive-Keeps IsSame m fresh actor d
          (λ o item s e. IsSame-after _ s e (stock-IsErr m (fresh s) _ s (used_again _ s u e)).0))
    repeated-handle (reserve_request d) u = forgotten IsSame (Receipts.reserve m fresh d actor) (
        reserve-Keeps IsSame m fresh actor d
          (λ o item s e. IsSame-after _ s e (reserve-IsErr m (fresh s) _ s (used_again _ s u e))))
    repeated-handle (adjust_request d) u = forgotten IsSame (Receipts.adjust m fresh d actor) (
        adjust-Keeps IsSame m fresh actor d
          (λ o item s e. IsSame-after _ s e (stock-IsErr m (fresh s) _ s (used_again _ s u e)).1))
    repeated-handle (issue_request type' d) u =
        forgotten IsSame (issue_items m fresh type' d actor) (
          issue-Keeps IsSame m fresh actor d type'
            (λ o item s e.
              IsSame-after _ s e (withdrawn-IsErr m (fresh s) _ _ _ s (used_again _ s u e)))
            (λ c o item s e.
              IsSame-after _ s e (consume-IsErr m (fresh s) c _ s (used_again _ s u e))))
    repeated-handle (release_request c) u = absurd (unused_key s0.transactions u)
    repeated-handle (transfer_request d) u = forgotten IsSame (Movements.transfer m fresh d actor) (
        transfer-Keeps IsSame m fresh actor d
          (λ o item s e. IsSame-after _ s e (transfer-IsErr m (fresh s) _ s (used_again _ s u e))))
    repeated-handle (return_request d) u = forgotten IsSame (return_stock m fresh d actor) (
        return-Keeps IsSame m fresh actor d
          (λ o s e. IsSame-after _ s e (return-IsErr m (fresh s) _ s (used_again _ s u e))))

  -- A request whose idempotency key the ledger already bears leaves the store as it was, whatever it answers.
  pub handle-repeated :
      (r : Request) (w : World)
      → is_used (request_key r) w.store.transactions ≡ true
      → (handle m fresh r actor w).1.store ≡ w.store
  handle-repeated r w u = repeated-handle w.store r u w refl
