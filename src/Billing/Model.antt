-- ===== src/Billing/Model.antt =====
-- billing.types.ts and billing.policy.ts: subscriptions, without the fields that no change reads or
-- writes, and which changes of them are allowed. Times
-- are in milliseconds.
use maintain_pro_backend.Shared.{
  ltb, leb, ◌==◌, Result, ok, err, ◌>>◌, throw_if, Exception, business, conflict, ℕ, Bool, ◌&&◌,
  Option, none, some,
}

pub data BillingPlan : Type 0 where
  free starter professional enterprise : BillingPlan

pub data SubscriptionStatus : Type 0 where
  trial active past_due cancelled expired : SubscriptionStatus

pub data BillingCycle : Type 0 where
  monthly annual : BillingCycle

pub record Subscription : Type 0 where
  pub id : ℕ
  pub owner_id : ℕ
  pub plan : BillingPlan
  pub billing_cycle : BillingCycle
  pub status : SubscriptionStatus
  pub trial_ends_at : Option ℕ
  pub cancelled_at : Option ℕ

abbrev pub plan_rank : BillingPlan → ℕ
plan_rank BillingPlan.free = 0
plan_rank BillingPlan.starter = 1
plan_rank BillingPlan.professional = 2
plan_rank BillingPlan.enterprise = 3

-- Messages that name a status or a plan are shortened.
abbrev pub can_activate : Subscription → Result Exception (Unit {0})
can_activate s = elim (s.status) [
  | SubscriptionStatus.active ↦ err (conflict "Subscription is already active.")
  | SubscriptionStatus.cancelled ↦
      err (
        business "A cancelled subscription cannot be activated. Create a new subscription instead.")
  | SubscriptionStatus.expired ↦
      err
        (business "An expired subscription cannot be activated. Create a new subscription instead.")
  | _ ↦ ok tt
]

abbrev pub can_cancel : Subscription → Result Exception (Unit {0})
can_cancel s = elim (s.status) [
  | SubscriptionStatus.cancelled ↦ err (conflict "Subscription is already cancelled.")
  | SubscriptionStatus.expired ↦ err (business "An expired subscription cannot be cancelled.")
  | _ ↦ ok tt
]

abbrev pub can_change_plan : Subscription → Result Exception (Unit {0})
can_change_plan s = elim (s.status) [
  | SubscriptionStatus.cancelled ↦ err (business "Cannot change plan for a cancelled subscription.")
  | SubscriptionStatus.expired ↦ err (business "Cannot change plan for a expired subscription.")
  | _ ↦ ok tt
]

abbrev pub is_same_plan : BillingPlan → BillingPlan → Bool
is_same_plan p q = plan_rank p == plan_rank q

abbrev pub can_upgrade : BillingPlan → BillingPlan → Result Exception (Unit {0})
can_upgrade current new = do
  throw_if (is_same_plan current new) (conflict "Subscription is already on the plan.")
  throw_if (leb (plan_rank new) (plan_rank current)) (business "Cannot upgrade to a lower tier.")

abbrev pub is_free : BillingPlan → Bool
is_free p = plan_rank p == 0

abbrev pub can_downgrade : BillingPlan → BillingPlan → Result Exception (Unit {0})
can_downgrade current new = do
  throw_if (is_same_plan current new) (conflict "Subscription is already on the plan.")
  throw_if (leb (plan_rank current) (plan_rank new)) (business "Cannot downgrade to a higher tier.")
  throw_if (is_free new && is_free current) (business "Cannot downgrade below the free plan.")

abbrev pub ends_in_past : ℕ → Option ℕ → Result Exception (Unit {0})
ends_in_past now none = err (business "Cannot expire trial: subscription has no trial end date.")
ends_in_past now (some end) =
    throw_if (ltb now end) (business "Cannot expire trial: trial period has not ended yet.")

abbrev pub can_expire_trial : ℕ → Subscription → Result Exception (Unit {0})
can_expire_trial now s = elim (s.status) [
  | SubscriptionStatus.trial ↦ ends_in_past now s.trial_ends_at
  | _ ↦ err (business "Cannot expire trial: subscription is not on trial.")
]
