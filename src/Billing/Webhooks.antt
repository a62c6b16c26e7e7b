-- ===== src/Billing/Webhooks.antt =====
-- billing.service.ts: an event of a payment provider that is delivered again.
use maintain_pro_backend.Shared.{
  ◌==◌, Bool-cases, Option-cases, find?, update_first, All, Result, ok, err, ◌>>=◌, Exception,
  Fresh, Distinct, ℕ, ◌≡◌, refl, sym, ap, ◌∙◌, subst, inl, inr, Bool, false, Option, none, some,
  List, [], ◌∷◌, arith,
}
use maintain_pro_backend.Shared.Mongo.{Mongo, commit}
use maintain_pro_backend.Billing.Model.{Subscription, can_activate}
use maintain_pro_backend.Billing.Service.{
  Payment, WebhookEvent, Books, settled_payment, is_pending_payment, settle, webhook_body,
  handle_webhook, find_subscription,
}
use maintain_pro_backend.Shared.Sorted.{find?-none, find?-update_either}

settled_not_pending :
    (n : ℕ) (e : WebhookEvent) (p : Payment) → is_pending_payment n (settled_payment e p) ≡ false
settled_not_pending n e p = elim (Bool-cases e.is_success) [
  | inl h ↦ rw h (ground arith)
  | inr h ↦ rw h (ground arith)
]

others_not_pending :
    (n : ℕ) (ps : List Payment)
    → Fresh Payment.id n ps
    → All (λ x. is_pending_payment n x ≡ false) ps
others_not_pending n [] f = tt
others_not_pending n (p ∷ ps) f = ((let apart = f.0 in ground arith), others_not_pending n ps f.1)

-- A payment is claimed once.
none_pending :
    (n : ℕ) (e : WebhookEvent) (ps : List Payment)
    → Distinct Payment.id ps
    → All
        (λ x. is_pending_payment n x ≡ false)
        (update_first (is_pending_payment n) (settled_payment e) ps)
none_pending n e [] u = tt
none_pending n e (p ∷ ps) u = elim (Bool-cases (is_pending_payment n p)) [
  | inl h ↦
      let here : p.id ≡ n = ground arith in
      rw h (
        settled_not_pending n e p,
        others_not_pending n ps (subst (λ i. Fresh Payment.id i ps) here u.0),
      )
  | inr h ↦ rw h (h, none_pending n e ps u.1)
]

abbrev is_checkout : WebhookEvent → Payment → Bool
is_checkout e p = p.provider_checkout_id == e.checkout_id

-- The books after a transaction that has claimed the payment, or as they were.
abbrev Claimed : Books → List Payment → Result Exception (Unit {0} × Books) → Type 0
Claimed b ps (err x) = Unit
Claimed b ps (ok (x, b')) = b'.payments ≡ ps

module _ (m : Mongo) (e : WebhookEvent) where
  activated_keeps :
      (s : Subscription) (b : Books) (ps : List Payment) (r : Result Exception (Unit {0}))
      → (new : Books) → new.payments ≡ ps
      → Claimed b ps (r >>= λ _. ok (tt, new))
  activated_keeps s b ps (ok x) new h = h
  activated_keeps s b ps (err x) new h = tt

  settle_keeps :
      (p : Payment) (b : Books) (ps : List Payment) (r : Result Exception Subscription) (b' : Books)
      → b'.payments ≡ ps
      → Claimed b ps (settle m e p r b')
  settle_keeps p b ps (err x) b' k = tt
  settle_keeps p b ps (ok s) b' k = elim (Bool-cases e.is_success) [
    | inl h ↦ rw h (activated_keeps s b ps (can_activate s) _ k)
    | inr h ↦ rw h k
  ]

  again :
      (p : Payment) (b : Books)
      → find? (is_checkout e) b.payments ≡ some p
      → find? (is_pending_payment p.id) b.payments ≡ none
      → (handle_webhook m e b).1 ≡ b
  unfolding handle_webhook
  again p b h k =
      rw
        (
          m.find_one_lem (is_checkout e) b.payments,
          h,
          m.with_transaction_lem (webhook_body m e p) b,
          m.find_one_and_update_lem (is_pending_payment p.id) (settled_payment e) b.payments,
          k,
        )
        refl

  -- The second delivery finds the payment settled.
  settled_again :
      (p : Payment) (b b' : Books)
      → Distinct Payment.id b.payments
      → find? (is_checkout e) b.payments ≡ some p
      → b'.payments ≡ update_first (is_pending_payment p.id) (settled_payment e) b.payments
      → (handle_webhook m e b').1 ≡ b'
  settled_again p b b' u h k =
      let after = update_first (is_pending_payment p.id) (settled_payment e) b.payments in
      let none_left : find? (is_pending_payment p.id) b'.payments ≡ none =
        ap (find? (is_pending_payment p.id)) k
        ∙ find?-none (is_pending_payment p.id) after (none_pending p.id e b.payments u) in
      elim (find?-update_either (is_checkout e) (is_pending_payment p.id) (settled_payment e)
        b.payments p (λ d. refl) h) [
          | inl g ↦ again p b' (ap (find? (is_checkout e)) k ∙ g) none_left
          | inr g ↦ again (settled_payment e p) b' (ap (find? (is_checkout e)) k ∙ g) none_left
        ]

  after_commit :
      (p : Payment) (b : Books) (r : Result Exception (Unit {0} × Books))
      → Distinct Payment.id b.payments
      → find? (is_checkout e) b.payments ≡ some p
      → Claimed b (update_first (is_pending_payment p.id) (settled_payment e) b.payments) r
      → (handle_webhook m e b).1 ≡ (commit b r).1
      → (handle_webhook m e (commit b r).1).1 ≡ (commit b r).1
  after_commit p b (err x) u h c k = k
  after_commit p b (ok (x, b')) u h c k = settled_again p b b' u h c

  unknown : (b : Books) → find? (is_checkout e) b.payments ≡ none → (handle_webhook m e b).1 ≡ b
  unfolding handle_webhook
  unknown b h = rw (m.find_one_lem (is_checkout e) b.payments, h) refl

  claimed_first :
      (p q : Payment) (b : Books)
      → find? (is_checkout e) b.payments ≡ some p
      → find? (is_pending_payment p.id) b.payments ≡ some q
      → (handle_webhook m e b).1
        ≡ (commit b (
            settle m e p (find_subscription m p.subscription_id b) (record b {
              payments = update_first (is_pending_payment p.id) (settled_payment e) b.payments;
            }))).1
  unfolding handle_webhook
  claimed_first p q b h k =
      rw
        (
          m.find_one_lem (is_checkout e) b.payments,
          h,
          m.with_transaction_lem (webhook_body m e p) b,
          m.find_one_and_update_lem (is_pending_payment p.id) (settled_payment e) b.payments,
          k,
        )
        refl

  delivered_twice :
      (p : Payment) (b : Books) (o : Option Payment)
      → Distinct Payment.id b.payments
      → find? (is_checkout e) b.payments ≡ some p
      → find? (is_pending_payment p.id) b.payments ≡ o
      → (handle_webhook m e (handle_webhook m e b).1).1 ≡ (handle_webhook m e b).1
  delivered_twice p b none u h k =
      let first = again p b h k in ap (λ x. (handle_webhook m e x).1) first
  delivered_twice p b (some q) u h k =
      let after = update_first (is_pending_payment p.id) (settled_payment e) b.payments in
      let claimed_books : Books = record b { payments = after } in
      let r = settle m e p (find_subscription m p.subscription_id b) claimed_books in
      let first : (handle_webhook m e b).1 ≡ (commit b r).1 = claimed_first p q b h k in
      let second =
        after_commit p b r u h
          (settle_keeps p b after (find_subscription m p.subscription_id b) claimed_books refl)
          first in
      ap (λ x. (handle_webhook m e x).1) first ∙ second ∙ sym first

  -- An event of a payment provider that is delivered a second time leaves the books as the first
  -- delivery left them, where payments have distinct identifiers.
  pub handle_webhook-twice :
      (b : Books)
      → Distinct Payment.id b.payments
      → (handle_webhook m e (handle_webhook m e b).1).1 ≡ (handle_webhook m e b).1
  handle_webhook-twice b u = elim (Option-cases (find? (is_checkout e) b.payments)) [
    | inl h ↦ ap (λ x. (handle_webhook m e x).1) (unknown b h)
    | inr (p, h) ↦ delivered_twice p b (find? (is_pending_payment p.id) b.payments) u h refl
  ]
