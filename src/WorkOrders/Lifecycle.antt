-- ===== src/WorkOrders/Lifecycle.antt =====
-- work-order.service.ts: every action that succeeds is a step of a work order's life.
use maintain_pro_backend.Shared.{
  ◌==◌, Bool-cases, same_id, find?, ok, throw_if, or_throw, authorization, business, not_found,
  internal, ok-injective, err≢ok, >>=-eq-ok, throw_if-eq-ok, or_throw-eq-ok, find?-holds, Distinct,
  find?-by_id, ℕ, String, ◌≡◌, refl, sym, ◌∙◌, subst, ◌⊎◌, inl, inr, Bool, true, false, not, ◌&&◌,
  ◌||◌, Option, none, some, arith,
}
use maintain_pro_backend.Inventory.Service.Model.{Role}
use maintain_pro_backend.Shared.Mongo.{Mongo}
use maintain_pro_backend.WorkOrders.Model.{
  Actor, Office, WorkOrder, FactName, is_pending, is_vendor_role, is_in_progress, is_assigned,
  is_reviewer, FacilityField, facility_reference, BusinessFact, null_field,
}
use maintain_pro_backend.WorkOrders.Stages.{
  Action, archive_action, approve_action, progress_action, transition_action, assign_action,
  reject_action, request_information_action, number, perform, replaced, IsSubmittable, HasStepped,
  is_step, reviewed, assign-fails, allowed_step, archivable, progressing, facility_for,
}
use maintain_pro_backend.WorkOrders.Actions.{
  save_with_outbox, save_body, update_progress, archive, transition, find_reviewed,
  approve_completion, request_information, reject_completion, get, has_number, Progress,
  get_for_vendor, get_for_organization, assert_approval_actor, assert_manager, is_assigned_worker,
  may_transition, allowed, is_to_progress, vendor_of, is_to_completion, fact_of, serialized,
  populated,
}

-- Who reviews is not of a vendor.
reviewer_facility :
    (role : Role) (n : ℕ)
    → not (is_reviewer role) ≡ false
    → facility_reference n ≡ facility_for role n
reviewer_facility role n h = ground arith

-- What `get` returns for a facility: what the fact of the actor has, or null.
abbrev IsGiven : Role → ℕ → FacilityField → Type 0
IsGiven role n facility = (facility ≡ facility_for role n) ⊎ (facility ≡ null_field)

populated-IsGiven :
    (role : Role) (n : ℕ) (o : Option ℕ)
    → is_vendor_role role ≡ true
    → IsGiven role n (populated n o)
populated-IsGiven role n none h = inr refl
populated-IsGiven role n (some k) h = inl (rw h refl)

module _ (m : Mongo) where
  -- A fact that can be written is written.
  pub save_with_outbox_lem :
      (w : WorkOrder) (facility : FacilityField) (name : FactName) (a : ℕ) (s : Office)
      → serialized facility (fact_of name a w facility) ≡ ok (fact_of name a w facility)
      → save_with_outbox m w facility name a s ≡ ok (w, replaced w facility name a s)
  unfolding save_with_outbox save_body
  save_with_outbox_lem w facility name a s h =
      rw
        (
          m.with_transaction_lem (save_body m w facility name a) s,
          h,
          m.find_one_and_update_lem (has_number w.id) (λ _. w) s.work_orders,
        )
        refl

  null_fails :
      (w : WorkOrder) (name : FactName) (a : ℕ) (s : Office) (r : WorkOrder × Office)
      → ¬ (save_with_outbox m w null_field name a s ≡ ok r)
  unfolding save_with_outbox save_body
  null_fails w name a s r h =
      err≢ok (internal "Cannot read properties of null") r
        (rw (m.with_transaction_lem (save_body m w null_field name a) s) at h)

  written :
      (role : Role) (n : ℕ) (fact : BusinessFact) → serialized (facility_for role n) fact ≡ ok fact
  written role n fact = ground arith

  module _ (n : ℕ) (actor : Actor) (s : Office) (u : Distinct number s.work_orders) where
    -- The work order that a filter with the number has found.
    numbered :
        (c : WorkOrder → Bool) (w : WorkOrder)
        → m.find_one (λ x. has_number n x && c x) s.work_orders ≡ some w
        → find? (has_number n) s.work_orders ≡ some w
    numbered c w h =
        let h' = rw (m.find_one_lem (λ x. has_number n x && c x) s.work_orders) at h in
        let holds = find?-holds (λ x. has_number n x && c x) s.work_orders w h' in
        let e : w.id ≡ n = ground (arith, holds) in
        rw (← e) (find?-by_id number (λ x. has_number n x && c x) s.work_orders w u h')

    pub get-eq-ok :
        (r : Actor × WorkOrder × FacilityField)
        → get m n actor s ≡ ok r
        → (find? (has_number n) s.work_orders ≡ some r.1) × IsGiven actor.role r.1.facility_id r.2
    unfolding get get_for_vendor get_for_organization
    get-eq-ok r h = elim (Bool-cases (is_vendor_role actor.role)) [
      | inl yes' ↦
          let (v, _, h1) =
            >>=-eq-ok (or_throw (vendor_of m actor s) (authorization "Vendor context required")) _ r
              (rw yes' at h) in
          let (w, f, h2) = >>=-eq-ok _ _ r h1 in
          let facility = m.find_one (λ x. x == w.facility_id) s.facilities in
          let e = ok-injective (_, w, populated w.facility_id facility) r h2 in
          rw (← e) (
            numbered _ w (or_throw-eq-ok _ _ w f),
            populated-IsGiven actor.role w.facility_id facility yes',
          )
      | inr no' ↦
          let (o, _, h1) =
            >>=-eq-ok
              (or_throw actor.organization_id (authorization "Organization context required")) _ r
              (rw no' at h) in
          let (w, f, h2) = >>=-eq-ok _ _ r h1 in
          let e = ok-injective (actor, w, facility_reference w.facility_id) r h2 in
          rw (← e) (numbered _ w (or_throw-eq-ok _ _ w f), inl (rw no' refl))
    ]

    stepped :
        (before w : WorkOrder) (facility : FacilityField) (name : FactName) (r : WorkOrder × Office)
        → find? (has_number n) s.work_orders ≡ some before
        → w.organization_id ≡ before.organization_id
        → is_step before.status w.status ≡ true
        → IsGiven actor.role w.facility_id facility
        → save_with_outbox m w facility name actor.user_id s ≡ ok r
        → HasStepped n actor s r
    stepped before w facility name r f o k (inr null) h = absurd (
        null_fails w name actor.user_id s r
          (subst (λ x. save_with_outbox m w x name actor.user_id s ≡ ok r) null h))
    stepped before w facility name r f o k (inl g) h =
        let given = facility_for actor.role w.facility_id in
        let fact = fact_of name actor.user_id w given in
        subst (HasStepped n actor s)
          (ok-injective (w, replaced w given name actor.user_id s) r
            (sym (
                save_with_outbox_lem w given name actor.user_id s
                  (written actor.role w.facility_id fact))
              ∙ subst (λ x. save_with_outbox m w x name actor.user_id s ≡ ok r) g h))
          (record {
            before = before;
            name = name;
            found = f;
            same_organization = o;
            stepped = k;
            left = refl;
          })

    archive-HasStepped :
        (r : WorkOrder × Office) → archive m n actor s ≡ ok r → HasStepped n actor s r
    unfolding archive
    archive-HasStepped r h =
        let (_, _, h1) = >>=-eq-ok (assert_manager m actor) _ r h in
        let (g, e, h2) = >>=-eq-ok (get m n actor s) _ r h1 in
        let (x, e', h3) =
          >>=-eq-ok
            (throw_if (is_in_progress g.1.status || is_pending g.1.status)
              (business "Active work orders cannot be archived"))
            _ r h2 in
        stepped g.1 _ _ _ r (get-eq-ok g e).0 refl (archivable g.1.status (throw_if-eq-ok _ _ x e'))
          (get-eq-ok g e).1 h3

    update_progress-HasStepped :
        (p : Progress) (r : WorkOrder × Office)
        → IsSubmittable (progress_action p)
        → update_progress m n p actor s ≡ ok r
        → HasStepped n actor s r
    unfolding update_progress
    update_progress-HasStepped p r a h =
        let (g, e, h1) = >>=-eq-ok (get m n actor s) _ r h in
        let (_, _, h2) =
          >>=-eq-ok
            (throw_if (not (is_assigned_worker g.1 g.0))
              (authorization "Only the assigned worker can update progress"))
            _ r h1 in
        let (x, e', h3) =
          >>=-eq-ok
            (throw_if (is_to_progress p && not (is_assigned g.1.status))
              (business "Work order must be assigned before progress starts"))
            _ r h2 in
        let (y, e'', h4) =
          >>=-eq-ok
            (throw_if (is_to_completion p && not (is_in_progress g.1.status))
              (business "Work order must be in progress before completion review"))
            _ r h3 in
        stepped g.1 _ _ _ r (get-eq-ok g e).0 refl
          (progressing p g.1.status a (throw_if-eq-ok _ _ x e') (throw_if-eq-ok _ _ y e''))
          (get-eq-ok g e).1 h4

    transition-HasStepped :
        (p : Progress) (t : Option String) (r : WorkOrder × Office)
        → transition m n p t actor s ≡ ok r
        → HasStepped n actor s r
    unfolding transition
    transition-HasStepped p t r h =
        let (g, e, h1) = >>=-eq-ok (get m n actor s) _ r h in
        let (_, _, h2) =
          >>=-eq-ok
            (throw_if (not (may_transition m g.1 g.0))
              (authorization "Only the assigned worker can update progress"))
            _ r h1 in
        let (x, e', h3) =
          >>=-eq-ok
            (throw_if (not (allowed g.1.status p))
              (business "Invalid work order status transition"))
            _ r h2 in
        stepped g.1 _ _ _ r (get-eq-ok g e).0 refl
          (allowed_step p g.1.status (throw_if-eq-ok _ _ x e')) (get-eq-ok g e).1 h3

    find_reviewed-eq-ok :
        (refusal : String) (w : WorkOrder)
        → find_reviewed m refusal n actor s ≡ ok w
        → (find? (has_number n) s.work_orders ≡ some w)
          × (is_pending w.status ≡ true)
          × IsGiven actor.role w.facility_id (facility_reference w.facility_id)
    unfolding find_reviewed assert_approval_actor
    find_reviewed-eq-ok refusal w h =
        let (z, a, h1) = >>=-eq-ok (assert_approval_actor m actor) _ w h in
        let (w', e, h2) =
          >>=-eq-ok
            (or_throw (m.find_one (has_number n) s.work_orders) (not_found "Work order not found"))
            _ w h1 in
        let (_, _, h3) =
          >>=-eq-ok
            (throw_if (not (same_id (some w'.organization_id) actor.organization_id))
              (not_found "Work order not found"))
            _ w h2 in
        let (x, e', h4) =
          >>=-eq-ok (throw_if (not (is_pending w'.status)) (business refusal)) _ w h3 in
        let pending : is_pending w'.status ≡ true = ground (arith, throw_if-eq-ok _ _ x e') in
        let same = ok-injective w' w h4 in
        let found = or_throw-eq-ok _ _ w' e in
        rw (← same) (
          rw (m.find_one_lem (has_number n) s.work_orders) at found,
          pending,
          inl (reviewer_facility actor.role w'.facility_id (throw_if-eq-ok _ _ z a)),
        )

    approve-HasStepped :
        (r : WorkOrder × Office) → approve_completion m n actor s ≡ ok r → HasStepped n actor s r
    unfolding approve_completion
    approve-HasStepped r h =
        let (w, e, h1) =
          >>=-eq-ok
            (find_reviewed m "Only pending completion work orders can be approved" n actor s) _ r
            h in
        let (f, k, g) = find_reviewed-eq-ok _ w e in
        stepped w _ _ _ r f refl (reviewed w.status k).0 g h1

    reject-HasStepped :
        (t : String) (r : WorkOrder × Office)
        → reject_completion m n t actor s ≡ ok r
        → HasStepped n actor s r
    unfolding reject_completion
    reject-HasStepped t r h =
        let (w, e, h1) =
          >>=-eq-ok
            (find_reviewed m "Only pending completion work orders can be rejected" n actor s) _ r
            h in
        let (f, k, g) = find_reviewed-eq-ok _ w e in
        let (_, back, _) = reviewed w.status k in stepped w _ _ _ r f refl back g h1

    ask-HasStepped :
        (t : String) (r : WorkOrder × Office)
        → request_information m n t actor s ≡ ok r
        → HasStepped n actor s r
    unfolding request_information
    ask-HasStepped t r h =
        let (w, e, h1) =
          >>=-eq-ok
            (find_reviewed m "Only pending completion work orders can request information" n actor
              s)
            _ r h in
        let (f, k, g) = find_reviewed-eq-ok _ w e in
        let (_, _, stay) = reviewed w.status k in stepped w _ _ _ r f refl stay g h1

    -- An action that succeeds, on work orders with distinct numbers, has made the named work order
    -- take a step of its life within its organization, and has put one fact about it in the
    -- outbox, whose facility is the reference, or the populated document if the actor is of a
    -- vendor.
    pub perform-HasStepped :
        (a : Action) (r : WorkOrder × Office)
        → IsSubmittable a
        → perform m a n actor s ≡ ok r
        → HasStepped n actor s r
    unfolding perform
    perform-HasStepped archive_action r k h = archive-HasStepped r h
    perform-HasStepped approve_action r k h = approve-HasStepped r h
    perform-HasStepped (progress_action p) r k h = update_progress-HasStepped p r k h
    perform-HasStepped (transition_action p t) r k h = transition-HasStepped p t r h
    perform-HasStepped (assign_action t) r k h = absurd (assign-fails m n t actor s r h)
    perform-HasStepped (reject_action t) r k h = reject-HasStepped t r h
    perform-HasStepped (request_information_action t) r k h = ask-HasStepped t r h
