-- ===== src/Inventory/Updates.antt =====
-- What a successful single-document update of a balance has done, and when it keeps the invariant.
use maintain_pro_backend.Shared.{
  Bool-cases, find?, update_first, ℤ, ◌+ℤ◌, int_laws, ok, ok-injective, err≢ok, All-update_first,
  total, total-append, total-update_first, Distinct, update_first-by_id, find?-by_id,
  Distinct-update_first, find?-by_id_and, update_first-by_id_and, ℕ, ◌≡◌, sym, inl, inr, Bool, true,
  ◌&&◌, some, List, [], ◌∷◌, ◌++◌,
}
use maintain_pro_backend.Shared.Mongo.{Mongo}
use maintain_pro_backend.Inventory.Model.{
  StockBalance, InventoryReservation, InventoryTransaction, Store, RepositoryError, is_at,
}
use maintain_pro_backend.Inventory.Balances.{has_id}
use maintain_pro_backend.Inventory.Atomic.Common.{updated_or}
use maintain_pro_backend.Inventory.Steps.{KeepsKey, KeysDistinct-update_first, Extends}
use maintain_pro_backend.Inventory.Valid.{
  IsBounded, quantity_at, reserved_at, balance_id, reservation_id, HasBalances, IsValid,
}
use maintain_pro_backend.Inventory.Ledger.{ledger_delta, open_quantity}

module _ (m : Mongo) (o i l : ℕ) (bs : List StockBalance) (b : StockBalance)
    (u : Distinct balance_id bs) (h : find? (is_at o i l) bs ≡ some b)
    (f : StockBalance → StockBalance) (e : RepositoryError) where
  -- An update by identifier that returned a balance has changed the one of the key.
  pub update_ok :
      (r : StockBalance × List StockBalance)
      → updated_or e (m.find_one_and_update (has_id b.id) f bs) ≡ ok r
      → r ≡ (f b, update_first (is_at o i l) f bs)
  update_ok r k =
      let k' =
        rw
          (
            m.find_one_and_update_lem (has_id b.id) f bs,
            find?-by_id balance_id (is_at o i l) bs b u h,
            update_first-by_id balance_id (is_at o i l) f bs b u h,
          )
          at k in
      sym (ok-injective _ _ k')

  pub guarded_update_ok :
      (c : StockBalance → Bool) (r : StockBalance × List StockBalance)
      → updated_or e (m.find_one_and_update (λ x. has_id b.id x && c x) f bs) ≡ ok r
      → (c b ≡ true) × (r ≡ (f b, update_first (is_at o i l) f bs))
  guarded_update_ok c r k =
      let k' =
        rw
          (
            m.find_one_and_update_lem (λ x. has_id b.id x && c x) f bs,
            find?-by_id_and balance_id (is_at o i l) c bs b u h,
          )
          at k in
      elim (Bool-cases (c b)) [
        | inl yes' ↦
            let k2 =
              rw (yes', update_first-by_id_and balance_id (is_at o i l) c f bs b u h yes') at k' in
            (yes', sym (ok-injective _ _ k2))
        | inr no' ↦ let k2 = rw no' at k' in absurd (err≢ok e r k2)
      ]

-- The change of the recorded totals, when a balance of the key is changed by `f`.
module _ (s : Store) (o i l : ℕ) (b : StockBalance) (bs : List StockBalance)
    (x : Extends s.balances o i l (b, bs)) (f : StockBalance → StockBalance) where
  moved_quantity :
      (o' i' l' : ℕ)
      → total (quantity_at o' i' l') (update_first (is_at o i l) f bs) +ℤ quantity_at o' i' l' b
        ≡ total (quantity_at o' i' l') s.balances +ℤ quantity_at o' i' l' (f b)
  moved_quantity o' i' l' =
      rw (← x.same_quantity o' i' l')
        (total-update_first (quantity_at o' i' l') (is_at o i l) f bs b x.here)

  moved_reserved :
      (o' i' l' : ℕ)
      → total (reserved_at o' i' l') (update_first (is_at o i l) f bs) +ℤ reserved_at o' i' l' b
        ≡ total (reserved_at o' i' l') s.balances +ℤ reserved_at o' i' l' (f b)
  moved_reserved o' i' l' =
      rw (← x.same_reserved o' i' l')
        (total-update_first (reserved_at o' i' l') (is_at o i l) f bs b x.here)

  pub update-HasBalances :
      KeepsKey f → (IsBounded b → IsBounded (f b)) → HasBalances (update_first (is_at o i l) f bs)
  update-HasBalances k g = record {
    ids = Distinct-update_first balance_id (is_at o i l) f bs k.keeps_id x.sound.ids;
    keys = KeysDistinct-update_first (is_at o i l) f k bs x.sound.keys;
    bounds = All-update_first (is_at o i l) IsBounded f bs b x.sound.bounds x.here g;
  }

cancel : (a b c d e : ℤ) → a +ℤ b ≡ c +ℤ (b +ℤ d) → c ≡ e → a ≡ e +ℤ d
cancel a b c d e h k = grind int_laws

cancel_balanced : (a b c d e g : ℤ) → a +ℤ b ≡ c +ℤ d → d +ℤ e ≡ b +ℤ g → c ≡ e → a ≡ g
cancel_balanced a b c d e g h k j = grind int_laws

-- A store whose balance, reservations and ledger change by matching amounts stays valid.
pub record-IsValid :
    (s : Store) (o i l : ℕ) (b : StockBalance) (bs : List StockBalance)
    → (f : StockBalance → StockBalance) (t : InventoryTransaction) (rs : List InventoryReservation)
    → IsValid s
    → Extends s.balances o i l (b, bs)
    → KeepsKey f
    → (IsBounded b → IsBounded (f b))
    → Distinct reservation_id rs
    → ((o' i' l' : ℕ)
        → quantity_at o' i' l' (f b) ≡ quantity_at o' i' l' b +ℤ ledger_delta o' i' l' t)
    → ((o' i' l' : ℕ)
        → reserved_at o' i' l' (f b) +ℤ total (open_quantity o' i' l') s.reservations
          ≡ reserved_at o' i' l' b +ℤ total (open_quantity o' i' l') rs)
    → IsValid (record {
      balances = update_first (is_at o i l) f bs;
      reservations = rs;
      transactions = s.transactions ++ t ∷ [];
    })
record-IsValid s o i l b bs f t rs v x k g d dq dr = record {
  sound = update-HasBalances s o i l b bs x f k g;
  reservation_ids = d;
  ledger = λ o' i' l'.
      let moved = rw (dq o' i' l') at (moved_quantity s o i l b bs x f o' i' l') in
      rw (total-append (ledger_delta o' i' l') s.transactions t)
        (cancel _ _ _ _ _ moved (v.ledger o' i' l'));
  held = λ o' i' l'.
      cancel_balanced _ _ _ _ _ _ (moved_reserved s o i l b bs x f o' i' l') (dr o' i' l')
        (v.held o' i' l');
}
