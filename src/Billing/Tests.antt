-- ===== src/Billing/Tests.antt =====
-- A subscription and a payment over a database that behaves as documented.
use maintain_pro_backend.Shared.{find?, ok, ◌≡◌, refl, false, none, some, [], ◌∷◌}
use maintain_pro_backend.Shared.Mongo.{documented}
use maintain_pro_backend.Billing.Model.{starter, SubscriptionStatus, monthly, Subscription}
use maintain_pro_backend.Billing.Service.{
  PaymentStatus, Payment, WebhookEvent, Books, has_subscription_id, Change, change_subscription,
  with_status, handle_webhook,
}
use maintain_pro_backend.Billing.Lifecycle.{handle_webhook-revives}
use maintain_pro_backend.Billing.Webhooks.{handle_webhook-twice}

abbrev bronze : Subscription
bronze = record {
  id = 4;
  owner_id = 1;
  plan = starter;
  billing_cycle = monthly;
  status = SubscriptionStatus.cancelled;
  trial_ends_at = some 1000;
  cancelled_at = some 900;
}

abbrev late_payment : Payment
late_payment = record {
  id = 7;
  subscription_id = 4;
  status = PaymentStatus.pending;
  provider_checkout_id = 70;
  provider_reference = none;
  failure_reason = none;
}

abbrev books : Books
books = record {
  subscriptions = bronze ∷ [];
  payments = late_payment ∷ [];
  events = [];
  outbox = [];
}

abbrev declined : WebhookEvent
declined = record {
  checkout_id = 70;
  is_success = false;
  reference = none;
  reason = some "card declined";
}

handle_webhook-revives_example :
    (find? (has_subscription_id 4) (handle_webhook documented declined books).1.subscriptions
      ≡ some (with_status SubscriptionStatus.past_due bronze))
    × ((change_subscription documented 2000 Change.activate_subscription 4
          (handle_webhook documented declined books).1).0
        ≡ ok (with_status SubscriptionStatus.active bronze))
handle_webhook-revives_example =
    handle_webhook-revives documented 2000 declined late_payment bronze books refl refl refl refl

handle_webhook-twice_example :
    (handle_webhook documented declined (handle_webhook documented declined books).1).1
    ≡ (handle_webhook documented declined books).1
handle_webhook-twice_example = handle_webhook-twice documented declined books (tt, tt)
