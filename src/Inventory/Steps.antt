-- ===== src/Inventory/Steps.antt =====
-- The balances under the repository's single-document operations.
use maintain_pro_backend.Shared.{
  Bool-cases, Option-cases, find?, update_first, ℤ, pos, int_laws, find?-append, All-append, total,
  total-append, Fresh, Distinct-append, update_first_same, ℕ, ◌≡◌, refl, inl, inr, Bool, false,
  none, some, List, [], ◌∷◌, ◌++◌, arith,
}
use maintain_pro_backend.Shared.Mongo.{Mongo, upsert_first}
use maintain_pro_backend.Inventory.Model.{StockBalance, is_at}
use maintain_pro_backend.Inventory.Balances.{ensure_balance}
use maintain_pro_backend.Inventory.Valid.{
  IsBounded, KeysDistinct, quantity_at, reserved_at, balance_id, HasBalances,
}

find?-none_tail :
    (o i l : ℕ) (x : StockBalance) (bs : List StockBalance)
    → find? (is_at o i l) (x ∷ bs) ≡ none
    → (is_at o i l x ≡ false) × (find? (is_at o i l) bs ≡ none)
find?-none_tail o i l x bs h = ground arith

find?-append_ne :
    {D : Type 0} (p : D → Bool) (ds : List D) (d : D)
    → find? p ds ≡ none
    → p d ≡ false
    → find? p (ds ++ d ∷ []) ≡ none
find?-append_ne p [] d h k = ground arith
find?-append_ne p (x ∷ ds) d h k = ground (arith, find?-append_ne p ds d)

KeysDistinct-append :
    (bs : List StockBalance) (b : StockBalance)
    → KeysDistinct bs
    → find? (is_at b.organization_id b.item_id b.stock_location_id) bs ≡ none
    → KeysDistinct (bs ++ b ∷ [])
KeysDistinct-append [] b k h = (refl, tt)
KeysDistinct-append (x ∷ bs) b k h =
    let away = find?-none_tail b.organization_id b.item_id b.stock_location_id x bs h in
    (
      find?-append_ne (is_at x.organization_id x.item_id x.stock_location_id) bs b k.0
          (ground (arith, away.0)),
      KeysDistinct-append bs b k.1 away.1,
    )

-- A change that keeps the identifier and the key of a balance.
pub record KeepsKey (f : StockBalance → StockBalance) : Type 0 where
  pub keeps_id : (b : StockBalance) → (f b).id ≡ b.id
  pub keeps_organization : (b : StockBalance) → (f b).organization_id ≡ b.organization_id
  pub keeps_item : (b : StockBalance) → (f b).item_id ≡ b.item_id
  pub keeps_location : (b : StockBalance) → (f b).stock_location_id ≡ b.stock_location_id

module _ (p : StockBalance → Bool) (f : StockBalance → StockBalance) (k : KeepsKey f) where
  is_at_kept : (o i l : ℕ) (b : StockBalance) → is_at o i l (f b) ≡ is_at o i l b
  is_at_kept o i l b = rw (k.keeps_organization b, k.keeps_item b, k.keeps_location b)

  find?-update_key :
      (o i l : ℕ) (bs : List StockBalance)
      → find? (is_at o i l) bs ≡ none
      → find? (is_at o i l) (update_first p f bs) ≡ none
  find?-update_key o i l [] h = refl
  find?-update_key o i l (x ∷ bs) h = ground (arith, is_at_kept o i l x, find?-update_key o i l bs)

  pub KeysDistinct-update_first :
      (bs : List StockBalance) → KeysDistinct bs → KeysDistinct (update_first p f bs)
  KeysDistinct-update_first [] h = tt
  KeysDistinct-update_first (x ∷ bs) h = elim (Bool-cases (p x)) [
    | inl e ↦ rw e (rw (k.keeps_organization x, k.keeps_item x, k.keeps_location x) h.0, h.1)
    | inr e ↦ rw e (
      find?-update_key x.organization_id x.item_id x.stock_location_id bs h.0,
      KeysDistinct-update_first bs h.1,
    )
  ]

-- Every key's balance is found in the second list as in the first, or is new and empty.
pub record Extends (bs : List StockBalance) (o i l : ℕ) (found : StockBalance × List StockBalance)
    : Type 0 where
  pub sound : HasBalances found.1
  pub here : find? (is_at o i l) found.1 ≡ some found.0
  pub same_quantity :
      (o' i' l' : ℕ) → total (quantity_at o' i' l') found.1 ≡ total (quantity_at o' i' l') bs
  pub same_reserved :
      (o' i' l' : ℕ) → total (reserved_at o' i' l') found.1 ≡ total (reserved_at o' i' l') bs

abbrev pub empty_at : ℕ → ℕ → ℕ → ℕ → StockBalance
empty_at n o i l = record {
  id = n;
  organization_id = o;
  item_id = i;
  stock_location_id = l;
  quantity = pos 0;
  reserved_quantity = pos 0;
}

total-append_empty :
    (w : StockBalance → ℤ) (bs : List StockBalance) (b : StockBalance)
    → w b ≡ pos 0
    → total w (bs ++ b ∷ []) ≡ total w bs
total-append_empty w bs b h = rw (total-append w bs b, h) (omega int_laws)

append-Extends :
    (n o i l : ℕ) (bs : List StockBalance)
    → HasBalances bs
    → Fresh balance_id n bs
    → find? (is_at o i l) bs ≡ none
    → Extends bs o i l (empty_at n o i l, bs ++ empty_at n o i l ∷ [])
append-Extends n o i l bs v f h = record {
  sound = record {
    ids = Distinct-append balance_id bs (empty_at n o i l) v.ids f;
    keys = KeysDistinct-append bs (empty_at n o i l) v.keys h;
    bounds = All-append IsBounded bs (empty_at n o i l) v.bounds (omega arith);
  };
  here = find?-append (is_at o i l) bs (empty_at n o i l) h (ground arith);
  same_quantity =
      λ o' i' l'. total-append_empty (quantity_at o' i' l') bs (empty_at n o i l) (ground arith);
  same_reserved =
      λ o' i' l'. total-append_empty (reserved_at o' i' l') bs (empty_at n o i l) (ground arith);
}

upsert-Extends :
    (n o i l : ℕ) (bs : List StockBalance)
    → HasBalances bs
    → Fresh balance_id n bs
    → Extends bs o i l (upsert_first (is_at o i l) (λ b. b) (empty_at n o i l) bs)
upsert-Extends n o i l bs v f = elim (Option-cases (find? (is_at o i l) bs)) [
  | inl h ↦ rw (h, upsert_first) (append-Extends n o i l bs v f h)
  | inr (b, h) ↦
      rw (h, upsert_first, update_first_same (is_at o i l) bs)
        (record {
          sound = v;
          here = h;
          same_quantity = λ o' i' l'. refl;
          same_reserved = λ o' i' l'. refl;
        })
]

module _ (m : Mongo) where
  pub ensure_balance-Extends :
      (n o i l : ℕ) (bs : List StockBalance)
      → HasBalances bs
      → Fresh balance_id n bs
      → Extends bs o i l (ensure_balance m n o i l bs)
  unfolding ensure_balance
  ensure_balance-Extends n o i l bs v f =
      rw (m.find_one_and_upsert_lem (is_at o i l) (λ b. b) (empty_at n o i l) bs)
        (upsert-Extends n o i l bs v f)
