-- ===== src/Inventory/Reconciliation.antt =====
-- What `reconcile` reports of a valid store.
use maintain_pro_backend.Shared.{
  if◌then◌else◌, Bool-cases, find?, select, All, All-map2, All-of_map, All-select, some≢none, ℤ,
  pos, int_laws, eq_ℤ, total, ℕ, ◌≡◌, refl, inl, inr, Bool, true, false, none, List, [], ◌∷◌, arith,
}
use maintain_pro_backend.Shared.Mongo.{Mongo}
use maintain_pro_backend.Inventory.Model.{StockBalance, is_at, Store}
use maintain_pro_backend.Inventory.Valid.{KeysDistinct, IsValid}
use maintain_pro_backend.Inventory.Ledger.{ReconcileEntry, reconcile, reconcile_balance, belongs_to}

abbrev at_key_of : StockBalance → StockBalance → Bool
at_key_of b = is_at b.organization_id b.item_id b.stock_location_id

-- A key that no balance has counts for nothing.
total-absent :
    (f : StockBalance → ℤ) (o i l : ℕ) (bs : List StockBalance)
    → find? (is_at o i l) bs ≡ none
    → total (λ b. if is_at o i l b then f b else pos 0) bs ≡ pos 0
unfolding total
total-absent f o i l [] h = refl
total-absent f o i l (x ∷ bs) h = elim (Bool-cases (is_at o i l x)) [
  | inl yes' ↦ absurd (some≢none x (rw yes' at h))
  | inr no' ↦ rw (no', total-absent f o i l bs (rw no' at h)) (omega int_laws)
]

apart-sym :
    (x : StockBalance) (bs : List StockBalance)
    → find? (at_key_of x) bs ≡ none
    → All (λ b. at_key_of b x ≡ false) bs
apart-sym x [] h = tt
apart-sym x (b ∷ bs) h = (ground arith, apart-sym x bs (ground arith))

at_own_key : (x : StockBalance) → at_key_of x x ≡ true
at_own_key x = ground arith

-- The total at a balance's own key is what that balance records.
total-own :
    (f : StockBalance → ℤ) (bs : List StockBalance)
    → KeysDistinct bs
    → All (λ b. total (λ y. if at_key_of b y then f y else pos 0) bs ≡ f b) bs
unfolding total
total-own f [] k = tt
total-own f (x ∷ bs) k = (
  rw (at_own_key x, total-absent f x.organization_id x.item_id x.stock_location_id bs k.0)
      (omega int_laws),
  All-map2 (λ b. at_key_of b x ≡ false)
      (λ b. total (λ y. if at_key_of b y then f y else pos 0) bs ≡ f b)
      (λ b. total (λ y. if at_key_of b y then f y else pos 0) (x ∷ bs) ≡ f b)
      (λ b a e. rw (a, e) (omega int_laws)) bs (apart-sym x bs k.0) (total-own f bs k.1),
)

eq_ℤ-refl : (a : ℤ) → eq_ℤ a a ≡ true
eq_ℤ-refl a = ground arith

balance_consistent :
    (s : Store)
    → IsValid s
    → (b : StockBalance)
    → total (λ y. if at_key_of b y then y.quantity else pos 0) s.balances ≡ b.quantity
    → total (λ y. if at_key_of b y then y.reserved_quantity else pos 0) s.balances
      ≡ b.reserved_quantity
    → (reconcile_balance s b).consistent ≡ true
unfolding reconcile_balance
balance_consistent s v b e f = rw (
  ← v.ledger b.organization_id b.item_id b.stock_location_id,
  ← v.held b.organization_id b.item_id b.stock_location_id,
  e,
  f,
  eq_ℤ-refl b.quantity,
  eq_ℤ-refl b.reserved_quantity,
)

abbrev pub IsConsistent : ReconcileEntry → Type 0
IsConsistent e = e.consistent ≡ true

-- In a valid store every entry that `reconcile` returns, for every organization, is consistent.
pub reconcile-IsConsistent :
    (m : Mongo) (o : ℕ) (s : Store) → IsValid s → All IsConsistent (reconcile m o s)
unfolding reconcile
reconcile-IsConsistent m o s v = rw (m.find_lem (belongs_to o) s.balances) (
    All-of_map (reconcile_balance s) IsConsistent (select (belongs_to o) s.balances) (
      All-select (belongs_to o) (λ b. IsConsistent (reconcile_balance s b)) s.balances
        (All-map2 _ _ _ (balance_consistent s v) s.balances
          (total-own (λ y. y.quantity) s.balances v.sound.keys)
          (total-own (λ y. y.reserved_quantity) s.balances v.sound.keys))))
