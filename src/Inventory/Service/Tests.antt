-- ===== src/Inventory/Service/Tests.antt =====
-- The service on a small world, over a database that behaves as documented.
use maintain_pro_backend.Shared.{
  pos, err, authorization, Fresh, ℕ, suc, ◌≤◌, max, String, ◌≡◌, refl, none, some, List, [], ◌∷◌,
  arith,
}
use maintain_pro_backend.Shared.Mongo.{documented}
use maintain_pro_backend.Inventory.Service.Requests.{receive_request, reserve_request, handle}
use maintain_pro_backend.Inventory.Tests.{stocked, stocked-IsValid}
use maintain_pro_backend.Inventory.Model.{Store, InventoryTransaction, NewIds}
use maintain_pro_backend.Inventory.Service.Model.{
  InventoryActor, World, InventoryItem, StockRequest, StockLocation, technician, thrown, staff,
  active,
}
use maintain_pro_backend.Inventory.Service.Access.{
  IsContext, context_lem, handle-refuses_stranger, Returns,
}
use maintain_pro_backend.Inventory.Service.Guards.{context, organization, find_item, find_location}
use maintain_pro_backend.Inventory.Valid.{IsValid, balance_id, reservation_id}
use maintain_pro_backend.Inventory.Service.Handled.{handle-IsValid, handle-repeated}
use maintain_pro_backend.Inventory.Preservation.Commits.{IsNew}
use maintain_pro_backend.Inventory.Service.Monad.{◌>>=◌, required, require, reading, pure}

-- An identifier above all that a collection has.
abbrev next_id : {D : Type 0} → (D → ℕ) → List D → ℕ
next_id id [] = 1
next_id id (d ∷ ds) = suc (max (id d) (next_id id ds))

above-Fresh : {D : Type 0} (id : D → ℕ) (ds : List D) (n : ℕ) → next_id id ds ≤ n → Fresh id n ds
above-Fresh id [] n h = tt
above-Fresh id (d ∷ ds) n h = (omega arith, above-Fresh id ds n (omega arith))

abbrev transaction_id : InventoryTransaction → ℕ
transaction_id t = t.id

abbrev next_ids : Store → NewIds
next_ids s = record {
  balance_id = next_id balance_id s.balances;
  reservation_id = next_id reservation_id s.reservations;
  transaction_id = next_id transaction_id s.transactions;
}

next_ids-IsNew : (s : Store) → IsNew (next_ids s) s
next_ids-IsNew s = record {
  new_balance = above-Fresh balance_id s.balances (next_id balance_id s.balances) (omega arith);
  new_reservation =
      above-Fresh reservation_id s.reservations (next_id reservation_id s.reservations)
        (omega arith);
}

abbrev wrench : InventoryItem
wrench = record {
  id = 2;
  organization_id = 1;
  facility_id = 7;
  name = "wrench";
  unit_of_measure = "each";
  status = active;
  reorder_level = pos 3;
}

abbrev shelf : StockLocation
shelf = record { id = 3; organization_id = 1; facility_id = some 7; status = active }

abbrev shop : World
shop = record {
  store = stocked;
  items = wrench ∷ [];
  locations = shelf ∷ [];
  work_orders = [];
  events = [];
}

abbrev mechanic : InventoryActor
mechanic = record { user_id = 9; role = technician; organization_id = some 1; facility_id = some 7 }

abbrev clerk : InventoryActor
clerk = record mechanic { role = staff }

abbrev stranger : InventoryActor
stranger = record mechanic { organization_id = none }

abbrev four : StockRequest
four = record {
  item_id = 2;
  stock_location_id = 3;
  quantity = pos 4;
  work_order_id = none;
  reservation_id = none;
  source_transaction_id = none;
  reference = none;
  reason = none;
  idempotency_key = none;
}

abbrev again : StockRequest
again = record four { quantity = pos 10; idempotency_key = some 77 }

context_of_shop : Returns (context documented 2 3 mechanic) shop (1, (wrench, shelf)) shop
unfolding context organization required require reading pure find_item find_location ◌>>=◌
context_of_shop = refl

handle-IsValid_example :
    IsValid (handle documented next_ids (reserve_request four) mechanic shop).1.store
handle-IsValid_example =
    handle-IsValid documented next_ids mechanic next_ids-IsNew (reserve_request four) shop
      (omega arith) refl stocked-IsValid

handle-repeated_example :
    (handle documented next_ids (receive_request again) mechanic shop).1.store ≡ stocked
handle-repeated_example =
    handle-repeated documented next_ids mechanic (receive_request again) shop refl

handle-refuses_stranger_example :
    (e : String) × (handle documented next_ids (reserve_request four) stranger shop
      ≡ (err (thrown (authorization e)), shop))
handle-refuses_stranger_example =
    handle-refuses_stranger documented next_ids stranger (reserve_request four) shop refl

context_lem_example : (shop ≡ shop) × IsContext 2 3 mechanic shop 1 wrench shelf
context_lem_example = context_lem documented 2 3 mechanic shop shop 1 wrench shelf context_of_shop
