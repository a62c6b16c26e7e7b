-- ===== src/Billing/Service.antt =====
-- billing.service.ts: the methods that change a subscription, and the webhook of a payment provider,
-- whose events are given as they were read.
use maintain_pro_backend.Shared.{
  ◌==◌, if◌then◌else◌, Result, ok, err, ◌>>=◌, ◌>>◌, or_throw, Exception, not_found, internal, ℕ,
  String, Bool, true, false, ◌&&◌, Option, none, some, List, [], ◌∷◌, ◌++◌,
}
use maintain_pro_backend.Shared.Mongo.{Mongo}
use maintain_pro_backend.Billing.Model.{
  BillingPlan, SubscriptionStatus, BillingCycle, Subscription, can_activate, can_cancel,
  can_change_plan, can_upgrade, can_downgrade, can_expire_trial,
}

pub data BillingEvent : Type 0 where
  subscription_activated subscription_cancelled subscription_expired : Subscription → BillingEvent
  subscription_upgraded subscription_downgraded : BillingPlan → Subscription → BillingEvent

pub data PaymentStatus : Type 0 where
  pending succeeded failed expired : PaymentStatus

pub record Payment : Type 0 where
  pub id : ℕ
  pub subscription_id : ℕ
  pub status : PaymentStatus
  pub provider_checkout_id : ℕ
  pub provider_reference : Option String
  pub failure_reason : Option String

pub record WebhookEvent : Type 0 where
  pub checkout_id : ℕ
  pub is_success : Bool
  pub reference : Option String
  pub reason : Option String

-- The collections, what was published, and the outbox.
pub record Books : Type 0 where
  pub subscriptions : List Subscription
  pub payments : List Payment
  pub events : List BillingEvent
  pub outbox : List BillingEvent

abbrev pub has_subscription_id : ℕ → Subscription → Bool
has_subscription_id n s = s.id == n

abbrev pub find_subscription : Mongo → ℕ → Books → Result Exception Subscription
find_subscription m n b =
    or_throw (m.find_one (has_subscription_id n) b.subscriptions)
      (not_found "Subscription not found.")

pub data Change : Type 0 where
  activate_subscription cancel_subscription expire_trial : Change
  upgrade_plan downgrade_plan : BillingPlan → Option BillingCycle → Change

-- What the policy says of a change, at a time.
abbrev pub policy : ℕ → Change → Subscription → Result Exception (Unit {0})
policy now Change.activate_subscription s = can_activate s
policy now Change.cancel_subscription s = can_cancel s
policy now Change.expire_trial s = can_expire_trial now s
policy now (Change.upgrade_plan p c) s = can_change_plan s >> can_upgrade s.plan p
policy now (Change.downgrade_plan p c) s = can_change_plan s >> can_downgrade s.plan p

abbrev pub or_cycle : Option BillingCycle → BillingCycle → BillingCycle
or_cycle none c = c
or_cycle (some d) c = d

-- The update that a change writes.
abbrev pub changed : ℕ → Change → Subscription → Subscription
changed now Change.activate_subscription s = record s { status = SubscriptionStatus.active }
changed now Change.cancel_subscription s = record s {
  status = SubscriptionStatus.cancelled;
  cancelled_at = some now;
}
changed now Change.expire_trial s = record s { status = SubscriptionStatus.expired }
changed now (Change.upgrade_plan p c) s = record s {
  plan = p;
  billing_cycle = or_cycle c s.billing_cycle;
}
changed now (Change.downgrade_plan p c) s = record s {
  plan = p;
  billing_cycle = or_cycle c s.billing_cycle;
}

-- The event that is published of the subscription before and after.
abbrev pub event_of : Change → Subscription → Subscription → BillingEvent
event_of Change.activate_subscription s u = subscription_activated u
event_of Change.cancel_subscription s u = subscription_cancelled u
event_of Change.expire_trial s u = subscription_expired u
event_of (Change.upgrade_plan p c) s u = subscription_upgraded s.plan u
event_of (Change.downgrade_plan p c) s u = subscription_downgraded s.plan u

-- After the update: the document is there, as it was found before.
abbrev pub published :
    Change
    → Subscription
    → Option Subscription × List Subscription
    → Books
    → Result Exception Subscription × Books
published c s (none, ss) b = (err (internal "Cannot read properties of null"), b)
published c s (some u, ss) b =
    (ok u, record b { subscriptions = ss; events = b.events ++ event_of c s u ∷ [] })

-- The policy is asked before anything is written.
abbrev pub permitted :
    Mongo
    → ℕ
    → Change
    → ℕ
    → Result Exception Subscription
    → Books
    → Result Exception Subscription × Books
permitted m now c n (err e) b = (err e, b)
permitted m now c n (ok s) b =
    published c s (m.find_one_and_update (has_subscription_id n) (changed now c) b.subscriptions) b

-- activateSubscription, cancelSubscription, upgradePlan, downgradePlan and expireTrial.
unfoldable pub change_subscription :
    Mongo → ℕ → Change → ℕ → Books → Result Exception Subscription × Books
change_subscription m now c n b =
    permitted m now c n (find_subscription m n b >>= λ s. policy now c s >>= λ _. ok s) b

-- An undefined field of an update leaves what the document has.
abbrev pub or_kept : {A : Type 0} → Option A → Option A → Option A
or_kept none old = old
or_kept (some x) old = some x

abbrev pub settled_payment : WebhookEvent → Payment → Payment
settled_payment e p = record p {
  status = if e.is_success then PaymentStatus.succeeded else PaymentStatus.failed;
  provider_reference = or_kept e.reference p.provider_reference;
  failure_reason = or_kept e.reason p.failure_reason;
}

abbrev pub is_pending_payment : ℕ → Payment → Bool
is_pending_payment n p = p.id == n && elim (p.status) [ PaymentStatus.pending ↦ true | _ ↦ false ]

abbrev pub with_status : SubscriptionStatus → Subscription → Subscription
with_status t s = record s { status = t }

abbrev pub announced : Option Subscription → List BillingEvent → List BillingEvent
announced none es = es
announced (some u) es = es ++ subscription_activated u ∷ []

-- What the transaction does to the subscription of a payment that it has claimed.
abbrev pub settle :
    Mongo
    → WebhookEvent
    → Payment
    → Result Exception Subscription
    → Books
    → Result Exception (Unit {0} × Books)
settle m e p (err x) b = err x
settle m e p (ok s) b =
    if e.is_success
    then (can_activate s >>= λ _.
        let (u, ss) =
          m.find_one_and_update (has_subscription_id s.id) (with_status SubscriptionStatus.active)
            b.subscriptions in
        ok (tt, record b { subscriptions = ss; outbox = announced u b.outbox }))
    else (let (u, ss) =
          m.find_one_and_update (has_subscription_id s.id) (with_status SubscriptionStatus.past_due)
            b.subscriptions in
        ok (tt, record b { subscriptions = ss }))

abbrev pub claim_payment :
    Mongo
    → WebhookEvent
    → Payment
    → Option Payment × List Payment
    → Books
    → Result Exception (Unit {0} × Books)
claim_payment m e p (none, ps) b = ok (tt, b)
claim_payment m e p (some q, ps) b =
    settle m e p (find_subscription m p.subscription_id b) (record b { payments = ps })

abbrev pub webhook_body :
    Mongo → WebhookEvent → Payment → Books → Result Exception (Unit {0} × Books)
webhook_body m e p b =
    claim_payment m e p
      (m.find_one_and_update (is_pending_payment p.id) (settled_payment e) b.payments) b

abbrev pub settle_found :
    Mongo → WebhookEvent → Option Payment → Books → Result Exception (Unit {0}) × Books
settle_found m e none b = (ok tt, b)
settle_found m e (some p) b = m.with_transaction (webhook_body m e p) b

unfoldable pub handle_webhook : Mongo → WebhookEvent → Books → Result Exception (Unit {0}) × Books
handle_webhook m e b =
    settle_found m e (m.find_one (λ p. p.provider_checkout_id == e.checkout_id) b.payments) b
