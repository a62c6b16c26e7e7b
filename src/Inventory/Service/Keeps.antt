-- ===== src/Inventory/Service/Keeps.antt =====
-- inventory.service.ts: what the steps of the service keep, when its database transactions do.
use maintain_pro_backend.Shared.{
  if◌then◌else◌, Result, ok, err, Exception, ℕ, Bool, true, false, Option, none, some,
}
use maintain_pro_backend.Shared.Mongo.{Mongo}
use maintain_pro_backend.Inventory.Service.Monad.{
  ◌>>=◌, Service, require, required, and_then, throw, pure, attempt, reading, publish,
}
use maintain_pro_backend.Inventory.Model.{
  Store, InventoryTransaction, RepositoryError, StockBalance, InventoryReservation, NewIds,
}
use maintain_pro_backend.Inventory.Service.Model.{
  ServiceError, World, BalanceResponse, InventoryActor, InventoryEvent,
}
use maintain_pro_backend.Inventory.Service.Guards.{
  context, organization, require_work_order, require_stock_role,
}
use maintain_pro_backend.Inventory.Service.Receipts.{reservation_or, settle, answer_or}
use maintain_pro_backend.Inventory.Service.Movements.{transaction_or}
use maintain_pro_backend.Inventory.Service.Issues.{throw_or}

module _ (P : Store → Type 0) where
  -- A step leaves the store with the property, if it finds it with it.
  abbrev pub Keeps : {A : Type 0} → Service A → Type 0
  Keeps c = (w : World) → P w.store → P (c w).1.store

  and_then-keeps :
      {A B : Type 0} (r : Result ServiceError A × World) (f : A → Service B)
      → ((a : A) → Keeps (f a))
      → P r.1.store
      → P (and_then r f).1.store
  and_then-keeps (ok a, w) f k p = k a w p
  and_then-keeps (err e, w) f k p = p

  pub then-Keeps :
      {A B : Type 0} (c : Service A) (f : A → Service B)
      → Keeps c
      → ((a : A) → Keeps (f a))
      → Keeps (c >>= f)
  unfolding ◌>>=◌
  then-Keeps c f j k w p = and_then-keeps (c w) f k (j w p)

  pub require-Keeps : (b : Bool) (e : Exception) → Keeps (require b e)
  unfolding require
  require-Keeps true e w p = p
  require-Keeps false e w p = p

  pub required-Keeps : {A : Type 0} (o : Option A) (e : Exception) → Keeps (required o e)
  unfolding required
  required-Keeps (some a) e w p = p
  required-Keeps none e w p = p

  pub answer-Keeps :
      (o : Option StockBalance) (c : Service BalanceResponse) → Keeps c → Keeps (answer_or o c)
  unfolding answer_or pure
  answer-Keeps (some b) c k w p = p
  answer-Keeps none c k w p = k w p

  pub reserved-Keeps :
      (o : Option InventoryReservation) (c : Service InventoryReservation)
      → Keeps c
      → Keeps (reservation_or o c)
  unfolding reservation_or pure
  reserved-Keeps (some b) c k w p = p
  reserved-Keeps none c k w p = k w p

  pub listed-Keeps :
      (o : Option InventoryTransaction) (c : Service InventoryTransaction)
      → Keeps c
      → Keeps (transaction_or o c)
  unfolding transaction_or pure
  listed-Keeps (some b) c k w p = p
  listed-Keeps none c k w p = k w p

  pub settle-Keeps :
      {A B : Type 0} (r : Result RepositoryError A)
      → (f : RepositoryError → Service B) (g : A → Service B)
      → ((e : RepositoryError) → Keeps (f e))
      → ((a : A) → Keeps (g a))
      → Keeps (settle r f g)
  unfolding settle
  settle-Keeps (ok a) f g j k = k a
  settle-Keeps (err e) f g j k = j e

  pub if-Keeps :
      {A : Type 0} (b : Bool) (c d : Service A) → Keeps c → Keeps d → Keeps (if b then c else d)
  if-Keeps true c d j k = j
  if-Keeps false c d j k = k

  pub reading-Keeps : {A : Type 0} (f : World → A) → Keeps (reading f)
  unfolding reading
  reading-Keeps f w p = p

  pub pure-Keeps : {A : Type 0} (a : A) → Keeps (pure a)
  unfolding pure
  pure-Keeps a w p = p

  pub throw-Keeps : (A : Type 0) (e : ServiceError) → Keeps {A = A} (throw e)
  unfolding throw
  throw-Keeps A e w p = p

  pub publish-Keeps : (e : InventoryEvent) → Keeps (publish e)
  unfolding publish
  publish-Keeps e w p = p

  pub attempt-Keeps :
      {A : Type 0} (f : Store → Result RepositoryError A × Store)
      → ((s : Store) → P s → P (f s).1)
      → Keeps (attempt f)
  unfolding attempt
  attempt-Keeps f j w p = j w.store p

  pub throw_or-Keeps :
      (m : Mongo) (fresh : Store → NewIds) (o : Option Exception) (c : Service BalanceResponse)
      → Keeps c
      → Keeps (throw_or m fresh o c)
  unfolding throw_or throw
  throw_or-Keeps m fresh (some e) c k w p = p
  throw_or-Keeps m fresh none c k w p = k w p

  pub organization-Keeps : (actor : InventoryActor) → Keeps (organization actor)
  unfolding organization
  organization-Keeps actor = required-Keeps _ _

  pub require_stock_role-Keeps : (actor : InventoryActor) → Keeps (require_stock_role actor)
  unfolding require_stock_role
  require_stock_role-Keeps actor =
      then-Keeps _ _ (require-Keeps _ _) (λ _. organization-Keeps actor)

  pub context-Keeps : (m : Mongo) (i l : ℕ) (actor : InventoryActor) → Keeps (context m i l actor)
  unfolding context
  context-Keeps m i l actor = then-Keeps _ _ (organization-Keeps actor) (λ o.
      then-Keeps _ _ (reading-Keeps _) (λ found. then-Keeps _ _ (reading-Keeps _) (λ place.
        then-Keeps _ _ (required-Keeps _ _) (λ item. then-Keeps _ _ (require-Keeps _ _) (λ _.
          then-Keeps _ _ (required-Keeps _ _) (λ location.
            then-Keeps _ _ (require-Keeps _ _)
              (λ _. then-Keeps _ _ (require-Keeps _ _) (λ _. pure-Keeps _))))))))

  pub require_work_order-Keeps :
      (m : Mongo) (n : Option ℕ) (o : ℕ) → Keeps (require_work_order m n o)
  unfolding require_work_order
  require_work_order-Keeps m none o = pure-Keeps tt
  require_work_order-Keeps m (some n) o =
      then-Keeps _ _ (reading-Keeps _) (λ found. require-Keeps _ _)
