-- ===== src/Events/Leases.antt =====
-- outbox-event.repository.ts: what holds of an event over any steps of the relays.
use maintain_pro_backend.Shared.{
  Bool-cases, find?, update_first, All, find?-holds, All-find?, All-append, Distinct,
  Distinct-update_first, Distinct-append, ℕ, ◌+◌, ◌≤◌, ◌≡◌, refl, sym, ap, ◌∙◌, subst, ◌≢◌, inl,
  inr, true, false, ◌&&◌, Option, none, some, List, [], ◌∷◌, arith,
}
use maintain_pro_backend.Shared.Mongo.{Mongo}
use maintain_pro_backend.Shared.Sorted.{
  All-update_passing, All-updated, find?-append_found, find?-update_other,
}
use maintain_pro_backend.Events.Outbox.{
  OutboxEvent, new_event, has_id, is_due, claimed, claim_next, is_processing, published_at,
  failed_at,
}
use maintain_pro_backend.Events.Claims.{
  OutboxStep, Within, Apart, take_step, claims, claim_next-cases, append-cases, mark_published_lem,
  mark_failed_lem, take_all, is_settled,
}

-- Whoever is claimed, it is not the event.
abbrev pub Spares : ℕ → Option OutboxEvent → Type 0
Spares n none = Unit
Spares n (some e) = e.event_id ≢ n

settled_idle : (now : ℕ) (e : OutboxEvent) → is_settled e ≡ true → is_due now e ≡ false
settled_idle now e h = ground arith

settled_passed :
    (k : ℕ) (e : OutboxEvent) → is_settled e ≡ true → (has_id k e && is_processing e) ≡ false
settled_passed k e h = ground arith

module _ (m : Mongo) where
  Distinct-step :
      (now : ℕ) (c : OutboxStep) (es : List OutboxEvent)
      → Distinct OutboxEvent.event_id es
      → Distinct OutboxEvent.event_id (take_step m now c es).1
  unfolding take_step
  Distinct-step now (OutboxStep.append_step input) es u = elim (append-cases m now input es) [
    | inl e ↦ rw e u
    | inr (fresh, e) ↦ rw e (Distinct-append OutboxEvent.event_id es (new_event now input) u fresh)
  ]
  Distinct-step now (OutboxStep.claim_step lease) es u = elim (claim_next-cases m now lease es u) [
    | inl (idle, e) ↦ rw e u
    | inr (d, due, found, e) ↦ rw e (
        Distinct-update_first OutboxEvent.event_id (has_id d.event_id) (claimed now lease) es
          (λ x. refl) u)
  ]
  Distinct-step now (OutboxStep.publish_step n) es u = rw (mark_published_lem m now n es) (
      Distinct-update_first OutboxEvent.event_id (λ e. has_id n e && is_processing e)
        (published_at now) es (λ x. refl) u)
  Distinct-step now (OutboxStep.fail_step n error retry_at dead) es u =
      rw (mark_failed_lem m n error retry_at dead es) (
        Distinct-update_first OutboxEvent.event_id (λ e. has_id n e && is_processing e)
          (failed_at error retry_at dead) es (λ x. refl) u)

  module _ (n end : ℕ) where
    -- An event that is not due before the end of its lease.
    abbrev IsLeased : OutboxEvent → Type 0
    IsLeased e = e.event_id ≡ n → (t : ℕ) → t ≤ end → is_due t e ≡ false

    marks_other :
        (k : ℕ) (f : OutboxEvent → OutboxEvent) (es : List OutboxEvent)
        → k ≢ n
        → ((e : OutboxEvent) → (f e).event_id ≡ e.event_id)
        → All IsLeased es
        → All IsLeased (update_first (λ e. has_id k e && is_processing e) f es)
    marks_other k f es h keeps a =
        All-update_passing IsLeased (λ e. has_id k e && is_processing e) f es
          (λ e g l same_n.
            absurd
              (let other : e.event_id ≡ k = ground arith in h (sym other ∙ sym (keeps e) ∙ same_n)))
          a

    IsLeased-step :
        (now : ℕ) (c : OutboxStep) (es : List OutboxEvent)
        → now ≤ end
        → Apart n c
        → Distinct OutboxEvent.event_id es
        → All IsLeased es
        → Spares n (take_step m now c es).0 × All IsLeased (take_step m now c es).1
    unfolding take_step
    IsLeased-step now (OutboxStep.append_step input) es h apart u a =
        elim (append-cases m now input es) [
          | inl e ↦ rw e (tt, a)
          | inr (fresh, e) ↦
              rw e (tt, All-append IsLeased es (new_event now input) a (λ g. absurd (apart g)))
        ]
    IsLeased-step now (OutboxStep.claim_step lease) es h apart u a =
        elim (claim_next-cases m now lease es u) [
          | inl (idle, e) ↦ rw e (tt, a)
          | inr (d, due, found, e) ↦
              let leased = All-find? (has_id d.event_id) IsLeased es d a found in
              let other : d.event_id ≢ n = λ g. let idle = leased g now h in absurd cc in
              rw e (
                other,
                All-update_passing IsLeased (has_id d.event_id) (claimed now lease) es
                    (λ x g l same_n. absurd (
                      let here : x.event_id ≡ d.event_id = ground arith in
                      other (sym here ∙ same_n)))
                    a,
              )
        ]
    IsLeased-step now (OutboxStep.publish_step k) es h apart u a =
        rw (mark_published_lem m now k es)
          (tt, marks_other k (published_at now) es apart (λ e. refl) a)
    IsLeased-step now (OutboxStep.fail_step k error retry_at dead) es h apart u a =
        rw (mark_failed_lem m k error retry_at dead es)
          (tt, marks_other k (failed_at error retry_at dead) es apart (λ e. refl) a)

    leased_run :
        (cs : List (ℕ × OutboxStep)) (es : List OutboxEvent)
        → Within end cs
        → All (λ c. Apart n c.1) cs
        → Distinct OutboxEvent.event_id es
        → All IsLeased es
        → All (Spares n) (claims m cs es)
    unfolding claims
    leased_run [] es w ap_ u a = tt
    leased_run ((now, c) ∷ cs) es w ap_ u a =
        let step = IsLeased-step now c es w.0 ap_.0 u a in
        (step.0, leased_run cs (take_step m now c es).1 w.1 ap_.1 (Distinct-step now c es u) step.1)

  IsLeased-after :
      (now lease : ℕ) (n : ℕ) (es : List OutboxEvent)
      → Distinct OutboxEvent.event_id es
      → All (IsLeased n (now + lease)) (update_first (has_id n) (claimed now lease) es)
  IsLeased-after now lease n es u =
      All-updated OutboxEvent.event_id (λ x. (t : ℕ) → t ≤ now + lease → is_due t x ≡ false) n
        (claimed now lease) es u (λ x t h. ground arith)

  -- An event that a relay has claimed, among events with distinct identifiers, is not claimed
  -- again up to the end of its lease, whatever steps are taken that do not append, publish or fail
  -- it.
  pub claim_next-exclusive :
      (now lease : ℕ) (es : List OutboxEvent) (e : OutboxEvent) (es' : List OutboxEvent)
      → (cs : List (ℕ × OutboxStep)) → Distinct OutboxEvent.event_id es
      → claim_next m now lease es ≡ (some e, es')
      → Within (now + lease) cs
      → All (λ c. Apart e.event_id c.1) cs
      → All (Spares e.event_id) (claims m cs es')
  claim_next-exclusive now lease es e es' cs u h w apart =
      elim (claim_next-cases m now lease es u) [
        | inl (idle, k) ↦ absurd (let no : none ≡ some e = ap (λ r. r.0) (sym k ∙ h) in cc)
        | inr (d, due, found, k) ↦
            let after = update_first (has_id d.event_id) (claimed now lease) es in
            let both : ◌≡◌ {A = Option OutboxEvent × List OutboxEvent}
                (some (claimed now lease d), after) (some e, es') =
              sym k ∙ h in
            let first : some (claimed now lease d) ≡ some e = ap (λ r. r.0) both in
            let event : claimed now lease d ≡ e = cc in
            let same_n : d.event_id ≡ e.event_id = ap OutboxEvent.event_id event in
            let rest : after ≡ es' = ap (λ r. r.1) both in
            let distinct =
              Distinct-update_first OutboxEvent.event_id (has_id d.event_id) (claimed now lease) es
                (λ x. refl) u in
            let leased =
              subst (λ n. All (IsLeased n (now + lease)) after) same_n
                (IsLeased-after now lease d.event_id es u) in
            leased_run e.event_id (now + lease) cs es' w apart
              (subst (Distinct OutboxEvent.event_id) rest distinct)
              (subst (All (IsLeased e.event_id (now + lease))) rest leased)
      ]

  settled_step :
      (n now : ℕ) (c : OutboxStep) (es : List OutboxEvent) (e : OutboxEvent)
      → Distinct OutboxEvent.event_id es
      → is_settled e ≡ true
      → find? (has_id n) es ≡ some e
      → find? (has_id n) (take_step m now c es).1 ≡ some e
  unfolding take_step
  settled_step n now (OutboxStep.append_step input) es e u s h =
      elim (append-cases m now input es) [
        | inl k ↦ rw k h
        | inr (fresh, k) ↦ rw k (find?-append_found (has_id n) es (new_event now input) e h)
      ]
  settled_step n now (OutboxStep.claim_step lease) es e u s h =
      elim (claim_next-cases m now lease es u) [
        | inl (idle, k) ↦ rw k h
        | inr (d, due, found, k) ↦
            let apart : has_id d.event_id e ≡ false = elim (Bool-cases (has_id d.event_id e)) [
              | inl g ↦
                  let holds = find?-holds (has_id n) es e h in
                  let here : n ≡ d.event_id = ground arith in
                  let both : some e ≡ some d =
                    sym h ∙ subst (λ i. find? (has_id i) es ≡ some d) (sym here) found in
                  let one : e ≡ d = cc in
                  let idle : is_due now d ≡ false =
                    subst (λ x. is_due now x ≡ false) one (settled_idle now e s) in
                  absurd cc
              | inr g ↦ g
            ] in
            rw k (
              find?-update_other (has_id n) (has_id d.event_id) (claimed now lease) es e (λ x. refl)
                apart h)
      ]
  settled_step n now (OutboxStep.publish_step k) es e u s h = rw (mark_published_lem m now k es) (
      find?-update_other (has_id n) (λ x. has_id k x && is_processing x) (published_at now) es e
        (λ x. refl) (settled_passed k e s) h)
  settled_step n now (OutboxStep.fail_step k error retry_at dead) es e u s h =
      rw (mark_failed_lem m k error retry_at dead es) (
        find?-update_other (has_id n) (λ x. has_id k x && is_processing x)
          (failed_at error retry_at dead) es e (λ x. refl) (settled_passed k e s) h)

  -- An event that was published or given up, among events with distinct identifiers, stays as it
  -- is, whatever steps the relays take.
  pub take_all-keeps_settled :
      (n : ℕ) (cs : List (ℕ × OutboxStep)) (es : List OutboxEvent) (e : OutboxEvent)
      → Distinct OutboxEvent.event_id es
      → is_settled e ≡ true
      → find? (has_id n) es ≡ some e
      → find? (has_id n) (take_all m cs es) ≡ some e
  unfolding take_all
  take_all-keeps_settled n [] es e u s h = h
  take_all-keeps_settled n ((now, c) ∷ cs) es e u s h =
      take_all-keeps_settled n cs (take_step m now c es).1 e (Distinct-step now c es u) s
        (settled_step n now c es e u s h)
