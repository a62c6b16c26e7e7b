-- ===== src/Inventory/Service/Monad.antt =====
-- inventory.service.ts: steps that read and write the world and may throw. What was written before a
-- throw stays written, but for the body of a database transaction.
use maintain_pro_backend.Shared.{
  Result, ok, err, Exception, Bool, true, false, Option, none, some, [], ◌∷◌, ◌++◌,
}
use maintain_pro_backend.Inventory.Service.Model.{InventoryEvent, World, ServiceError, thrown}
use maintain_pro_backend.Inventory.Model.{Store, RepositoryError}

abbrev pub Service : Type 0 → Type 0
Service A = World → Result ServiceError A × World

-- The rest of the steps, unless the first has thrown.
abbrev pub and_then :
    {A B : Type 0} → Result ServiceError A × World → (A → Service B) → Result ServiceError B × World
and_then (ok a, w) f = f a w
and_then (err e, w) f = (err e, w)

infixl 5 ◌>>=◌ ◌>>◌
unfoldable pub ◌>>=◌ : {A B : Type 0} → Service A → (A → Service B) → Service B
(c >>= f) w = and_then (c w) f

abbrev pub ◌>>◌ : {A B : Type 0} → Service A → Service B → Service B
c >> d = c >>= λ _. d

unfoldable pub pure : {A : Type 0} → A → Service A
pure a w = (ok a, w)

unfoldable pub throw : {A : Type 0} → ServiceError → Service A
throw e w = (err e, w)

-- A read of the world.
unfoldable pub reading : {A : Type 0} → (World → A) → Service A
reading f w = (ok (f w), w)

unfoldable pub require : Bool → Exception → Service (Unit {0})
require true e w = (ok tt, w)
require false e w = (err (thrown e), w)

unfoldable pub required : {A : Type 0} → Option A → Exception → Service A
required (some a) e w = (ok a, w)
required none e w = (err (thrown e), w)

unfoldable pub publish : InventoryEvent → Service (Unit {0})
publish e w = (ok tt, record w { events = w.events ++ e ∷ [] })

-- A method of the repository that runs in a transaction, with its outcome as a value.
unfoldable pub attempt :
    {A : Type 0} → (Store → Result RepositoryError A × Store) → Service (Result RepositoryError A)
attempt f w = let (r, s) = f w.store in (ok r, record w { store = s })
