-- ===== src/Inventory/Transfers.antt =====
-- transferAtomic moves stock, and `reconcile` counts only its arrival.
use maintain_pro_backend.Shared.{
  ◌==◌, if◌then◌else◌, Bool-cases, Option-cases, find?, update_first, ℤ, pos, ◌+ℤ◌, int_laws, ok,
  ◌>>=◌, ok-injective, err≢ok, >>=-eq-ok, find?-holds, total, total-append, total-update_first, ℕ,
  ◌≡◌, refl, sym, ap, ◌∙◌, ◌≢◌, inl, inr, Bool, true, false, ◌&&◌, some, List, [], ◌∷◌, ◌++◌, arith,
}
use maintain_pro_backend.Shared.Mongo.{Mongo, upsert_first}
use mathlib.Core.Option
use maintain_pro_backend.Inventory.Model.{
  StockBalance, NewIds, TransferData, RepositoryError, is_at, Store, InventoryTransaction,
  insufficient_stock,
}
use maintain_pro_backend.Inventory.Balances.{
  subtract_quantity, add_quantity, has_available, create_transaction,
}
use maintain_pro_backend.Inventory.Atomic.Common.{updated_or}
use maintain_pro_backend.Inventory.Atomic.Movements.{
  transfer_atomic, empty_balance, transfer_transaction,
}
use maintain_pro_backend.Inventory.Preservation.Commits.{create_transaction-eq-ok}
use maintain_pro_backend.Inventory.Valid.{quantity_at, IsValid}
use maintain_pro_backend.Inventory.Ledger.{ledger_delta, deltas, arrivals, signed_quantity}

-- A balance's quantity, if it is of the item.
abbrev pub item_quantity : ℕ → ℕ → StockBalance → ℤ
item_quantity o i b = if b.organization_id == o && b.item_id == i then b.quantity else pos 0

found_ok :
    (p : StockBalance → Bool) (f : StockBalance → StockBalance) (bs : List StockBalance)
    (e : RepositoryError)
    → (u : StockBalance × List StockBalance)
    → updated_or e (Option.map f (find? p bs), update_first p f bs) ≡ ok u
    → (b : StockBalance) × (find? p bs ≡ some b) × (u.1 ≡ update_first p f bs)
found_ok p f bs e u h = elim (Option-cases (find? p bs)) [
  | inl k ↦ absurd (err≢ok e u (rw k at h))
  | inr (b, k) ↦ (
    b,
    k,
    ap (λ (x : StockBalance × List StockBalance). x.1) (sym (ok-injective _ _ (rw k at h))),
  )
]

cancel_left : (a b c d e : ℤ) → a +ℤ b ≡ c +ℤ d → d +ℤ e ≡ b → a +ℤ e ≡ c
cancel_left a b c d e h k = grind int_laws

add_up : (a b c d e : ℤ) → a +ℤ b ≡ c +ℤ d → d ≡ b +ℤ e → a ≡ c +ℤ e
add_up a b c d e h k = grind int_laws

module _ (w : StockBalance → ℤ) (q c : ℤ) where
  departed :
      (p : StockBalance → Bool) (bs : List StockBalance) (b : StockBalance)
      → find? p bs ≡ some b
      → w (subtract_quantity q b) +ℤ c ≡ w b
      → total w (update_first p (subtract_quantity q) bs) +ℤ c ≡ total w bs
  departed p bs b h k =
      cancel_left _ _ _ _ _ (total-update_first w p (subtract_quantity q) bs b h) k

  arrived :
      (o i l : ℕ) (new : StockBalance) (bs : List StockBalance)
      → is_at o i l new ≡ true
      → w new ≡ pos 0
      → ((b : StockBalance) → is_at o i l b ≡ true → w (add_quantity q b) ≡ w b +ℤ c)
      → total w (upsert_first (is_at o i l) (add_quantity q) new bs).1 ≡ total w bs +ℤ c
  arrived o i l new bs a z k = elim (Option-cases (find? (is_at o i l) bs)) [
    | inl e ↦
        rw (e, upsert_first, total-append w bs (add_quantity q new), k new a, z) (omega int_laws)
    | inr (b, e) ↦
        rw (e, upsert_first)
          (add_up _ _ _ _ _ (total-update_first w (is_at o i l) (add_quantity q) bs b e)
            (k b (find?-holds (is_at o i l) bs b e)))
  ]

module _ (m : Mongo) (new : NewIds) (d : TransferData) (s : Store) where
  abbrev leaves : StockBalance → Bool
  leaves b = is_at d.organization_id d.item_id d.source_location_id b && has_available d.quantity b

  abbrev arrives : StockBalance → Bool
  arrives = is_at d.organization_id d.item_id d.destination_location_id

  abbrev left_over : List StockBalance
  left_over = update_first leaves (subtract_quantity d.quantity) s.balances

  abbrev blank : StockBalance
  blank = empty_balance m new d.organization_id d.item_id d.destination_location_id

  abbrev after : Store
  after = record s {
    balances = (upsert_first arrives (add_quantity d.quantity) blank left_over).1;
    transactions = s.transactions ++ transfer_transaction m new d ∷ [];
  }

  written_transfer :
      (bs : List StockBalance) (r : InventoryTransaction × Store)
      → bs ≡ left_over
      → (create_transaction m (transfer_transaction m new d) s.transactions >>= (λ ts. ok (
        transfer_transaction m new d,
        record s {
          balances = (m.find_one_and_upsert arrives (add_quantity d.quantity) blank bs).1;
          transactions = ts;
        },
      )))
        ≡ ok r
      → r.1 ≡ after
  written_transfer bs r e h =
      let (ts, k, l) =
        >>=-eq-ok (create_transaction m (transfer_transaction m new d) s.transactions) _ r h in
      let placed : (m.find_one_and_upsert arrives (add_quantity d.quantity) blank bs).1
          ≡ (upsert_first arrives (add_quantity d.quantity) blank left_over).1 =
        rw (m.find_one_and_upsert_lem arrives (add_quantity d.quantity) blank bs, e) in
      let listed = create_transaction-eq-ok m (transfer_transaction m new d) s.transactions ts k in
      sym (ap (λ (x : InventoryTransaction × Store). x.1) (ok-injective _ _ l))
      ∙ rw (placed, listed)

  -- What a transfer that succeeds has written.
  transfer_atomic_lem :
      (r : InventoryTransaction × Store)
      → transfer_atomic m new d s ≡ ok r
      → (b : StockBalance) × (find? leaves s.balances ≡ some b) × (r.1 ≡ after)
  unfolding transfer_atomic
  transfer_atomic_lem r h =
      let (u, j, k) =
        >>=-eq-ok
          (updated_or insufficient_stock
            (m.find_one_and_update leaves (subtract_quantity d.quantity) s.balances))
          _ r h in
      let (b, f, e) =
        found_ok leaves (subtract_quantity d.quantity) s.balances insufficient_stock u
          (rw (m.find_one_and_update_lem leaves (subtract_quantity d.quantity) s.balances) at j) in
      (b, f, written_transfer u.1 r e k)

  abbrev moved_item : ℕ → ℕ → ℤ
  moved_item o i = if d.organization_id == o && d.item_id == i then d.quantity else pos 0

  empty_item : (o i : ℕ) → item_quantity o i blank ≡ pos 0
  empty_item o i = ground arith

  arrives-blank : arrives blank ≡ true
  arrives-blank = ground arith

  leaves-key :
      (b : StockBalance)
      → leaves b ≡ true
      → (b.organization_id ≡ d.organization_id)
        × (b.item_id ≡ d.item_id)
        × (b.stock_location_id ≡ d.source_location_id)
  leaves-key b h = ground arith

  arrives-key :
      (b : StockBalance)
      → arrives b ≡ true
      → (b.organization_id ≡ d.organization_id)
        × (b.item_id ≡ d.item_id)
        × (b.stock_location_id ≡ d.destination_location_id)
  arrives-key b h = ground arith

  item_leaves :
      (o i : ℕ) (b : StockBalance)
      → leaves b ≡ true
      → item_quantity o i (subtract_quantity d.quantity b) +ℤ moved_item o i ≡ item_quantity o i b
  item_leaves o i b h =
      let (e, e', _) = leaves-key b h in
      rw (e, e')
        (elim (Bool-cases (d.organization_id == o && d.item_id == i)) [
          | inl yes' ↦ rw yes' (omega int_laws)
          | inr no' ↦ rw no' (omega int_laws)
        ])

  item_arrives :
      (o i : ℕ) (b : StockBalance)
      → arrives b ≡ true
      → item_quantity o i (add_quantity d.quantity b) ≡ item_quantity o i b +ℤ moved_item o i
  item_arrives o i b h =
      let (e, e', _) = arrives-key b h in
      rw (e, e')
        (elim (Bool-cases (d.organization_id == o && d.item_id == i)) [
          | inl yes' ↦ rw yes' refl
          | inr no' ↦ rw no' (omega int_laws)
        ])

  -- A transfer that succeeds keeps the sum of every item's balances over its locations.
  pub transfer-conserves :
      (o i : ℕ) (r : InventoryTransaction × Store)
      → transfer_atomic m new d s ≡ ok r
      → total (item_quantity o i) r.1.balances ≡ total (item_quantity o i) s.balances
  transfer-conserves o i r h =
      let (b, f, e) = transfer_atomic_lem r h in
      let gone =
        departed (item_quantity o i) d.quantity (moved_item o i) leaves s.balances b f
          (item_leaves o i b (find?-holds leaves s.balances b f)) in
      let come =
        arrived (item_quantity o i) d.quantity (moved_item o i) d.organization_id d.item_id
          d.destination_location_id blank left_over arrives-blank (empty_item o i)
          (item_arrives o i) in
      rw e (come ∙ gone)

  -- The places of one key: what is counted at the source alone.
  at_source : StockBalance → ℤ
  at_source = quantity_at d.organization_id d.item_id d.source_location_id

  source_leaves :
      (b : StockBalance)
      → leaves b ≡ true
      → at_source (subtract_quantity d.quantity b) +ℤ d.quantity ≡ at_source b
  unfolding at_source
  source_leaves b h =
      let (e, e', e'') = leaves-key b h in
      let k : is_at d.organization_id d.item_id d.source_location_id b ≡ true = ground arith in
      rw k (omega int_laws)

  module _ (apart : d.source_location_id ≢ d.destination_location_id) where
    source_stays :
        (b : StockBalance)
        → arrives b ≡ true
        → at_source (add_quantity d.quantity b) ≡ at_source b +ℤ pos 0
    unfolding at_source
    source_stays b h =
        let (e, e', e'') = arrives-key b h in
        let k : is_at d.organization_id d.item_id d.source_location_id b ≡ false = ground arith in
        rw k (omega int_laws)

    source_blank : at_source blank ≡ pos 0
    unfolding at_source
    source_blank = ground arith

    source_ledger :
        ledger_delta d.organization_id d.item_id d.source_location_id (transfer_transaction m new d)
        ≡ pos 0
    unfolding ledger_delta deltas arrivals signed_quantity total ◌+ℤ◌
    source_ledger = ground arith

    -- After a transfer between two locations that succeeds from a valid store, the ledger's sum at the source exceeds the balance there by the quantity that left.
    pub transfer-source_gap :
        (r : InventoryTransaction × Store)
        → IsValid s
        → transfer_atomic m new d s ≡ ok r
        → total (quantity_at d.organization_id d.item_id d.source_location_id) r.1.balances
            +ℤ d.quantity
          ≡ total (ledger_delta d.organization_id d.item_id d.source_location_id) r.1.transactions
    unfolding at_source
    transfer-source_gap r v h =
        let (b, f, e) = transfer_atomic_lem r h in
        let gone =
          departed at_source d.quantity d.quantity leaves s.balances b f
            (source_leaves b (find?-holds leaves s.balances b f)) in
        let come =
          arrived at_source d.quantity (pos 0) d.organization_id d.item_id d.destination_location_id
            blank left_over arrives-blank source_blank source_stays in
        let listed =
          total-append (ledger_delta d.organization_id d.item_id d.source_location_id)
            s.transactions (transfer_transaction m new d) in
        let known = v.ledger d.organization_id d.item_id d.source_location_id in
        rw (e, come, listed, source_ledger, ← known) (grind (int_laws, gone))
