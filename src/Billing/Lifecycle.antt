-- ===== src/Billing/Lifecycle.antt =====
-- billing.service.ts: which changes a subscription goes through.
use maintain_pro_backend.Shared.{
  ltb, leb, ◌==◌, Bool-cases, find?, update_first, Result, ok, err, ◌>>=◌, ◌>>◌, Exception,
  find?-holds, find?-update_first, ℕ, ◌≡◌, refl, ap, subst, inl, inr, Bool, true, false, ◌&&◌,
  Option, none, some, [], ◌∷◌, ◌++◌, arith,
}
use maintain_pro_backend.Shared.Mongo.{Mongo}
use maintain_pro_backend.Billing.Model.{
  SubscriptionStatus, Subscription, plan_rank, can_activate, can_upgrade, BillingPlan, can_cancel,
  can_change_plan, ends_in_past, can_expire_trial, can_downgrade, is_same_plan, is_free,
}
use maintain_pro_backend.Billing.Service.{
  Payment, WebhookEvent, Books, has_subscription_id, Change, policy, changed, event_of, permitted,
  change_subscription, is_pending_payment, with_status, handle_webhook, webhook_body,
  settled_payment,
}

abbrev pub is_live : SubscriptionStatus → Bool
is_live SubscriptionStatus.cancelled = false
is_live SubscriptionStatus.expired = false
is_live _ = true

abbrev pub is_over : ℕ → Option ℕ → Bool
is_over now none = false
is_over now (some end) = leb end now

-- Activation is of a trial or of a subscription that is past due, a trial expires after its end, a
-- live subscription can be cancelled, and its plan changes upward by an upgrade and downward by a
-- downgrade.
abbrev pub is_allowed : ℕ → Change → Subscription → Bool
is_allowed now Change.activate_subscription s = elim (s.status) [
  | SubscriptionStatus.trial ↦ true
  | SubscriptionStatus.past_due ↦ true
  | _ ↦ false
]
is_allowed now Change.cancel_subscription s = is_live s.status
is_allowed now Change.expire_trial s = elim (s.status) [
  | SubscriptionStatus.trial ↦ is_over now s.trial_ends_at
  | _ ↦ false
]
is_allowed now (Change.upgrade_plan p c) s =
    is_live s.status && ltb (plan_rank s.plan) (plan_rank p)
is_allowed now (Change.downgrade_plan p c) s =
    is_live s.status && ltb (plan_rank p) (plan_rank s.plan)

-- The outcome that a test predicts.
abbrev Decided : Result Exception (Unit {0}) → Bool → Type 0
Decided r true = r ≡ ok tt
Decided r false = (e : Exception) × (r ≡ err e)

can_upgrade-Decided :
    (p q : BillingPlan) → Decided (can_upgrade p q) (ltb (plan_rank p) (plan_rank q))
can_upgrade-Decided p q = elim (Bool-cases (is_same_plan p q)) [
  | inl e ↦ let no : ltb (plan_rank p) (plan_rank q) ≡ false = ground arith in rw (e, no) (_, refl)
  | inr e ↦ elim (Bool-cases (leb (plan_rank q) (plan_rank p))) [
    | inl f ↦
        let no : ltb (plan_rank p) (plan_rank q) ≡ false = ground arith in rw (e, f, no) (_, refl)
    | inr f ↦ let yes : ltb (plan_rank p) (plan_rank q) ≡ true = ground arith in rw (e, f, yes) refl
  ]
]

can_downgrade-Decided :
    (p q : BillingPlan) → Decided (can_downgrade p q) (ltb (plan_rank q) (plan_rank p))
can_downgrade-Decided p q = elim (Bool-cases (is_same_plan p q)) [
  | inl e ↦ let no : ltb (plan_rank q) (plan_rank p) ≡ false = ground arith in rw (e, no) (_, refl)
  | inr e ↦ elim (Bool-cases (leb (plan_rank p) (plan_rank q))) [
    | inl f ↦
        let no : ltb (plan_rank q) (plan_rank p) ≡ false = ground arith in rw (e, f, no) (_, refl)
    | inr f ↦
        let yes : ltb (plan_rank q) (plan_rank p) ≡ true = ground arith in
        let above : (is_free q && is_free p) ≡ false = ground arith in rw (e, f, above, yes) refl
  ]
]

-- A check of the status, and then another one.
live-Decided :
    (s : Subscription) (t : SubscriptionStatus) (r : Result Exception (Unit {0})) (b : Bool)
    → s.status ≡ t
    → Decided r b
    → Decided (can_change_plan s >> r) (is_live s.status && b)
live-Decided s SubscriptionStatus.trial r b h d = rw h d
live-Decided s SubscriptionStatus.active r b h d = rw h d
live-Decided s SubscriptionStatus.past_due r b h d = rw h d
live-Decided s SubscriptionStatus.cancelled r b h d = rw h (_, refl)
live-Decided s SubscriptionStatus.expired r b h d = rw h (_, refl)

activate-Decided :
    (now : ℕ) (s : Subscription) (t : SubscriptionStatus)
    → s.status ≡ t
    → Decided (can_activate s) (is_allowed now Change.activate_subscription s)
activate-Decided now s SubscriptionStatus.trial h = rw h refl
activate-Decided now s SubscriptionStatus.active h = rw h (_, refl)
activate-Decided now s SubscriptionStatus.past_due h = rw h refl
activate-Decided now s SubscriptionStatus.cancelled h = rw h (_, refl)
activate-Decided now s SubscriptionStatus.expired h = rw h (_, refl)

cancel-Decided :
    (now : ℕ) (s : Subscription) (t : SubscriptionStatus)
    → s.status ≡ t
    → Decided (can_cancel s) (is_allowed now Change.cancel_subscription s)
cancel-Decided now s SubscriptionStatus.trial h = rw h refl
cancel-Decided now s SubscriptionStatus.active h = rw h refl
cancel-Decided now s SubscriptionStatus.past_due h = rw h refl
cancel-Decided now s SubscriptionStatus.cancelled h = rw h (_, refl)
cancel-Decided now s SubscriptionStatus.expired h = rw h (_, refl)

end-Decided : (now : ℕ) (o : Option ℕ) → Decided (ends_in_past now o) (is_over now o)
end-Decided now none = (_, refl)
end-Decided now (some end) = elim (Bool-cases (ltb now end)) [
  | inl e ↦ let no : leb end now ≡ false = ground arith in rw (e, no) (_, refl)
  | inr e ↦ let yes : leb end now ≡ true = ground arith in rw (e, yes) refl
]

expire-Decided :
    (now : ℕ) (s : Subscription) (t : SubscriptionStatus)
    → s.status ≡ t
    → Decided (can_expire_trial now s) (is_allowed now Change.expire_trial s)
expire-Decided now s SubscriptionStatus.trial h = rw h (end-Decided now s.trial_ends_at)
expire-Decided now s SubscriptionStatus.active h = rw h (_, refl)
expire-Decided now s SubscriptionStatus.past_due h = rw h (_, refl)
expire-Decided now s SubscriptionStatus.cancelled h = rw h (_, refl)
expire-Decided now s SubscriptionStatus.expired h = rw h (_, refl)

policy-Decided :
    (now : ℕ) (c : Change) (s : Subscription) → Decided (policy now c s) (is_allowed now c s)
policy-Decided now Change.activate_subscription s = activate-Decided now s s.status refl
policy-Decided now Change.cancel_subscription s = cancel-Decided now s s.status refl
policy-Decided now Change.expire_trial s = expire-Decided now s s.status refl
policy-Decided now (Change.upgrade_plan p c) s =
    live-Decided s s.status (can_upgrade s.plan p) (ltb (plan_rank s.plan) (plan_rank p)) refl
      (can_upgrade-Decided s.plan p)
policy-Decided now (Change.downgrade_plan p c) s =
    live-Decided s s.status (can_downgrade s.plan p) (ltb (plan_rank p) (plan_rank s.plan)) refl
      (can_downgrade-Decided s.plan p)

-- The books after a change.
abbrev pub after_change : ℕ → Change → ℕ → Subscription → Books → Books
after_change now c n s b = record b {
  subscriptions = update_first (has_subscription_id n) (changed now c) b.subscriptions;
  events = b.events ++ event_of c s (changed now c s) ∷ [];
}

-- What a method answers of a subscription that is there.
abbrev pub Answer :
    Bool → ℕ → Change → ℕ → Subscription → Books → Result Exception Subscription × Books → Type 0
Answer true now c n s b r = r ≡ (ok (changed now c s), after_change now c n s b)
Answer false now c n s b r = (e : Exception) × (r ≡ (err e, b))

module _ (m : Mongo) where
  permitted-Answer :
      (now : ℕ) (c : Change) (n : ℕ) (s : Subscription) (b : Books) (t : Bool)
      → find? (has_subscription_id n) b.subscriptions ≡ some s
      → Decided (policy now c s) t
      → Answer t now c n s b (permitted m now c n (policy now c s >>= λ _. ok s) b)
  permitted-Answer now c n s b true h d =
      rw (d, m.find_one_and_update_lem (has_subscription_id n) (changed now c) b.subscriptions, h)
        refl
  permitted-Answer now c n s b false h d = (d.0, rw d.1 refl)

  pub change_subscription-Answer :
      (now : ℕ) (c : Change) (n : ℕ) (s : Subscription) (b : Books)
      → find? (has_subscription_id n) b.subscriptions ≡ some s
      → Answer (is_allowed now c s) now c n s b (change_subscription m now c n b)
  unfolding change_subscription
  change_subscription-Answer now c n s b h =
      rw (m.find_one_lem (has_subscription_id n) b.subscriptions, h)
        (permitted-Answer now c n s b (is_allowed now c s) h (policy-Decided now c s))

  body_fails :
      (e : WebhookEvent) (p : Payment) (s : Subscription) (b : Books)
      → find? (is_pending_payment p.id) b.payments ≡ some p
      → find? (has_subscription_id p.subscription_id) b.subscriptions ≡ some s
      → e.is_success ≡ false
      → webhook_body m e p b
        ≡ ok (
          tt,
          record b {
            payments = update_first (is_pending_payment p.id) (settled_payment e) b.payments;
            subscriptions =
                update_first
                  (has_subscription_id s.id)
                  (with_status SubscriptionStatus.past_due)
                  b.subscriptions;
          },
        )
  body_fails e p s b k l f =
      rw
        (
          m.find_one_and_update_lem (is_pending_payment p.id) (settled_payment e) b.payments,
          k,
          m.find_one_lem (has_subscription_id p.subscription_id) b.subscriptions,
          l,
          f,
          m.find_one_and_update_lem (has_subscription_id s.id)
              (with_status SubscriptionStatus.past_due) b.subscriptions,
        )
        refl

  -- The event of a failed payment that is pending makes its subscription past due, whatever the
  -- status was, and activating the subscription after it makes it active.
  pub handle_webhook-revives :
      (now : ℕ) (e : WebhookEvent) (p : Payment) (s : Subscription) (b : Books)
      → find? (λ x. x.provider_checkout_id == e.checkout_id) b.payments ≡ some p
      → find? (is_pending_payment p.id) b.payments ≡ some p
      → find? (has_subscription_id p.subscription_id) b.subscriptions ≡ some s
      → e.is_success ≡ false
      → (find? (has_subscription_id s.id) (handle_webhook m e b).1.subscriptions
          ≡ some (with_status SubscriptionStatus.past_due s))
        × ((change_subscription m now Change.activate_subscription s.id (handle_webhook m e b).1).0
            ≡ ok (with_status SubscriptionStatus.active s))
  unfolding handle_webhook
  handle_webhook-revives now e p s b h k l f =
      let holds = find?-holds (has_subscription_id p.subscription_id) b.subscriptions s l in
      let id_s : p.subscription_id ≡ s.id = ground arith in
      let found : find? (has_subscription_id s.id) b.subscriptions ≡ some s =
        subst (λ n. find? (has_subscription_id n) b.subscriptions ≡ some s) id_s l in
      let self : has_subscription_id s.id s ≡ true =
        find?-holds (has_subscription_id s.id) b.subscriptions s found in
      let late : find? (has_subscription_id s.id) (handle_webhook m e b).1.subscriptions
          ≡ some (with_status SubscriptionStatus.past_due s) =
        rw
          (
            m.find_one_lem (λ x. x.provider_checkout_id == e.checkout_id) b.payments,
            h,
            m.with_transaction_lem (webhook_body m e p) b,
            body_fails e p s b k l f,
          )
          (find?-update_first (has_subscription_id s.id) (with_status SubscriptionStatus.past_due)
            b.subscriptions s found self) in
      (
        late,
        ap (λ r. r.0)
            (change_subscription-Answer now Change.activate_subscription s.id
              (with_status SubscriptionStatus.past_due s) (handle_webhook m e b).1 late),
      )
