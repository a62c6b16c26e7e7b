-- ===== src/Inventory/Service/Access.antt =====
-- inventory.service.ts: who may do what, by `organization`, `requireRole` and `context`.
use maintain_pro_backend.Shared.{
  ◌==◌, Bool-cases, Result, ok, err, Exception, authorization, ok-injective, find?-holds, ℕ, String,
  ◌≡◌, refl, sym, ap, subst, inl, inr, Bool, true, false, ◌&&◌, Option, none, some, arith,
}
use maintain_pro_backend.Shared.Mongo.{Mongo}
use maintain_pro_backend.Inventory.Service.Monad.{require, required, reading, throw, Service, pure}
use maintain_pro_backend.Inventory.Service.Monad.{◌>>=◌, ◌>>◌}
use maintain_pro_backend.Inventory.Service.Receipts
use maintain_pro_backend.Inventory.Service.Movements
use maintain_pro_backend.Inventory.Service.Requests.{
  Request, receive_request, reserve_request, adjust_request, issue_request, release_request,
  transfer_request, return_request, handle,
}
use maintain_pro_backend.Inventory.Model.{Store, NewIds}
use maintain_pro_backend.Inventory.Service.Guards.{
  find_item, find_location, is_open_to, holds_item, require_stock_role, context, organization,
}
use maintain_pro_backend.Inventory.Service.Model.{
  InventoryItem, InventoryActor, StockLocation, World, is_active, is_stock_role, thrown,
  ServiceError,
}
use maintain_pro_backend.Inventory.Service.Issues.{issue_items}
use maintain_pro_backend.Inventory.Service.Movements.{return_stock}

module _ (m : Mongo) (fresh : Store → NewIds) (actor : InventoryActor) where
  -- A request by an actor without an organization throws an authorization error, and changes nothing.
  pub handle-refuses_stranger :
      (r : Request) (w : World)
      → actor.organization_id ≡ none
      → (e : String) × (handle m fresh r actor w ≡ (err (thrown (authorization e)), w))
  unfolding handle Receipts.receive Receipts.reserve Receipts.adjust issue_items Movements.release
      Movements.transfer return_stock context require_stock_role organization require required ◌>>=◌
  handle-refuses_stranger (receive_request d) w h = ("Organization context is required", rw h refl)
  handle-refuses_stranger (adjust_request d) w h = ("Organization context is required", rw h refl)
  handle-refuses_stranger (release_request c) w h = ("Organization context is required", rw h refl)
  handle-refuses_stranger (return_request d) w h = ("Organization context is required", rw h refl)
  handle-refuses_stranger (reserve_request d) w h = elim (Bool-cases (is_stock_role actor.role)) [
    | inl yes' ↦ ("Organization context is required", rw (yes', h) refl)
    | inr no' ↦ ("Inventory reservation permission required", rw no' refl)
  ]
  handle-refuses_stranger (issue_request type' d) w h =
      elim (Bool-cases (is_stock_role actor.role)) [
        | inl yes' ↦ ("Organization context is required", rw (yes', h) refl)
        | inr no' ↦ ("Inventory issue permission required", rw no' refl)
      ]
  handle-refuses_stranger (transfer_request d) w h = elim (Bool-cases (is_stock_role actor.role)) [
    | inl yes' ↦ ("Organization context is required", rw (yes', h) refl)
    | inr no' ↦ ("Inventory permission required", rw no' refl)
  ]

-- What `context` has checked, when it returns an organization, an item and a location.
pub record IsContext (i l : ℕ) (actor : InventoryActor) (w : World) (o : ℕ) (item : InventoryItem)
    (location : StockLocation) : Type 0 where
  pub of_actor : actor.organization_id ≡ some o
  pub same_item : item.id ≡ i
  pub item_organization : item.organization_id ≡ o
  pub item_active : is_active item.status ≡ true
  pub same_location : location.id ≡ l
  pub location_organization : location.organization_id ≡ o
  pub location_active : is_active location.status ≡ true
  pub location_facility : location.facility_id ≡ some item.facility_id
  pub open_item : (f : ℕ) → actor.facility_id ≡ some f → item.facility_id ≡ f

find_item-holds :
    (m : Mongo) (i o : ℕ) (w : World) (item : InventoryItem)
    → find_item m i o w ≡ some item
    → (item.id ≡ i) × (item.organization_id ≡ o)
unfolding find_item
find_item-holds m i o w item h =
    let k =
      find?-holds (λ x. x.id == i && x.organization_id == o) w.items item
        (rw (m.find_one_lem (λ x. x.id == i && x.organization_id == o) w.items) at h) in
    ground (arith, k)

find_location-holds :
    (m : Mongo) (l o : ℕ) (w : World) (location : StockLocation)
    → find_location m l o w ≡ some location
    → (location.id ≡ l) × (location.organization_id ≡ o)
unfolding find_location
find_location-holds m l o w location h =
    let k =
      find?-holds (λ x. x.id == l && x.organization_id == o) w.locations location
        (rw (m.find_one_lem (λ x. x.id == l && x.organization_id == o) w.locations) at h) in
    ground (arith, k)

holds_item-lem :
    (item : InventoryItem) (location : StockLocation)
    → holds_item item location ≡ true
    → (is_active location.status ≡ true) × (location.facility_id ≡ some item.facility_id)
holds_item-lem item location h = ground arith

is_open_to-lem :
    (actor : InventoryActor) (item : InventoryItem) (f : ℕ)
    → is_open_to actor item ≡ true
    → actor.facility_id ≡ some f
    → item.facility_id ≡ f
is_open_to-lem actor item f h k = ground arith

-- The step returns a value and leaves a world.
abbrev pub Returns : {A : Type 0} → Service A → World → A → World → Type 0
Returns c w a w' = c w ≡ (ok a, w')

throws≢returns :
    {A : Type 0} (e : ServiceError) (a : A) (w w' : World) → ¬ Returns (throw {A = A} e) w a w'
unfolding throw
throws≢returns e a w w' h = cc

required-Returns :
    {A B : Type 0} (o : Option A) (e : Exception) (g : A → Service B) (w w' : World) (b : B)
    → Returns (required o e >>= g) w b w'
    → (a : A) × (o ≡ some a) × Returns (g a) w b w'
unfolding ◌>>=◌ required throw
required-Returns (some a) e g w w' b h = (a, refl, h)
required-Returns none e g w w' b h = absurd (throws≢returns (thrown e) b w w' h)

require-Returns :
    {B : Type 0} (c : Bool) (e : Exception) (d : Service B) (w w' : World) (b : B)
    → Returns (require c e >> d) w b w'
    → (c ≡ true) × Returns d w b w'
unfolding ◌>>=◌ require throw
require-Returns true e d w w' b h = (refl, h)
require-Returns false e d w w' b h = absurd (throws≢returns (thrown e) b w w' h)

reading-Returns :
    {A B : Type 0} (f : World → A) (g : A → Service B) (w w' : World) (b : B)
    → Returns (reading f >>= g) w b w'
    → Returns (g (f w)) w b w'
unfolding ◌>>=◌ reading
reading-Returns f g w w' b h = h

pure-Returns : {A : Type 0} (a b : A) (w w' : World) → Returns (pure a) w b w' → (a ≡ b) × (w ≡ w')
unfolding pure
pure-Returns a b w w' h = (
  ok-injective a b (ap (λ (x : Result ServiceError _ × World). x.0) h),
  ap (λ (x : Result ServiceError _ × World). x.1) h,
)

module _ (m : Mongo) (i l : ℕ) (actor : InventoryActor) (w w' : World) where
  checked :
      (o : ℕ) (item : InventoryItem) (location : StockLocation)
      → actor.organization_id ≡ some o
      → find_item m i o w ≡ some item
      → is_active item.status ≡ true
      → find_location m l o w ≡ some location
      → holds_item item location ≡ true
      → is_open_to actor item ≡ true
      → IsContext i l actor w o item location
  checked o item location e0 e1 e2 e3 e4 e5 =
      let (a, b) = find_item-holds m i o w item e1 in
      let (c, d) = find_location-holds m l o w location e3 in
      let (f, g) = holds_item-lem item location e4 in
      record {
        of_actor = e0;
        same_item = a;
        item_organization = b;
        item_active = e2;
        same_location = c;
        location_organization = d;
        location_active = f;
        location_facility = g;
        open_item = λ n. is_open_to-lem actor item n e5;
      }

  -- What `context` returns is the actor's organization with an active item and an active location of it, at one facility, which is the actor's if the actor has one; nothing is written.
  pub context_lem :
      (o : ℕ) (item : InventoryItem) (location : StockLocation)
      → Returns (context m i l actor) w (o, (item, location)) w'
      → (w' ≡ w) × IsContext i l actor w o item location
  unfolding context organization
  context_lem o item location h =
      let (o', e0, h0) = required-Returns actor.organization_id _ _ w w' _ h in
      let h1 = reading-Returns (find_item m i o') _ w w' _ h0 in
      let h2 = reading-Returns (find_location m l o') _ w w' _ h1 in
      let (item', e1, h3) = required-Returns (find_item m i o' w) _ _ w w' _ h2 in
      let (e2, h4) = require-Returns (is_active item'.status) _ _ w w' _ h3 in
      let (location', e3, h5) = required-Returns (find_location m l o' w) _ _ w w' _ h4 in
      let (e4, h6) = require-Returns (holds_item item' location') _ _ w w' _ h5 in
      let (e5, h7) = require-Returns (is_open_to actor item') _ _ w w' _ h6 in
      let (e6, e7) = pure-Returns (o', (item', location')) (o, (item, location)) w w' h7 in
      (
        sym e7,
        subst (λ (x : ℕ × (InventoryItem × StockLocation)). IsContext i l actor w x.0 x.1.0 x.1.1)
            e6 (checked o' item' location' e0 e1 e2 e3 e4 e5),
      )
