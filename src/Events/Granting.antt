-- ===== src/Events/Granting.antt =====
-- processed-event.repository.ts: when a consumer is granted an event.
use maintain_pro_backend.Shared.{
  ◌==◌, Bool-cases, is_some, find?, update_first, any, All, ok, ok-injective, All-append, ℕ, ◌+◌,
  ◌≤◌, String, ◌≡◌, refl, sym, ap, ◌∙◌, inl, inr, Bool, true, false, ◌&&◌, List, [], ◌∷◌, arith,
}
use mathlib.Core.Option
use maintain_pro_backend.Shared.Mongo.{Mongo}
use maintain_pro_backend.Shared.Texts.{Text, same, same_refl}
use maintain_pro_backend.Events.Claims.{Within}
use maintain_pro_backend.Events.Processed.{
  ProcessedEvent, EventClaim, or_dispatcher, is_of, new_processed, is_claimable, reclaimed, claim,
  completed_at_time, complete, failed_with, fail,
}
use maintain_pro_backend.Shared.Sorted.{
  All-update_passing, any-update_first, any-append, any-none, find?-none, IsSole, sole_updated,
  any-found,
}
use maintain_pro_backend.Events.Handling.{
  HandlingStep, IsNoFailure, is_granted, keys_apart, and_false, one_key, other_key, fresh_lease,
  map_some, key_of, open_to, complete_lem, fail_lem, claim-cases, handle_step, grants,
}

module _ (m : Mongo) where
  module _ (n : ℕ) (consumer : Text) (limit : ℕ) where
    -- The event cannot be claimed up to the limit.
    abbrev IsBlocked : ProcessedEvent → Type 0
    IsBlocked p = (t : ℕ) → t ≤ limit → is_claimable t p ≡ false

    abbrev Blocks : List ProcessedEvent → Type 0
    Blocks ps =
        (any (is_of n consumer) ps ≡ true) × All (λ p. is_of n consumer p ≡ true → IsBlocked p) ps

    marked :
        (p : ProcessedEvent → Bool) (f : ProcessedEvent → ProcessedEvent) (ps : List ProcessedEvent)
        → ((d : ProcessedEvent) → is_of n consumer (f d) ≡ is_of n consumer d)
        → ((d : ProcessedEvent)
            → p d ≡ true
            → (is_of n consumer d ≡ true → IsBlocked d)
            → is_of n consumer (f d) ≡ true
            → IsBlocked (f d))
        → Blocks ps
        → Blocks (update_first p f ps)
    marked p f ps same_key k b = (
      any-update_first (is_of n consumer) p f ps same_key ∙ b.0,
      All-update_passing (λ d. is_of n consumer d ≡ true → IsBlocked d) p f ps k b.1,
    )

    completed-Blocks :
        (now : ℕ) (k : ℕ) (other : Text) (ps : List ProcessedEvent)
        → Blocks ps
        → Blocks (complete m now k other ps)
    completed-Blocks now k other ps b =
        rw (complete_lem m now k other ps)
          (marked (is_of k other) (completed_at_time now) ps (λ d. refl) (λ d g l o t h. refl) b)

    failed-Blocks :
        (k : ℕ) (error : String) (other : Text) (ps : List ProcessedEvent)
        → (k == n && same other consumer) ≡ false
        → Blocks ps
        → Blocks (fail m k error other ps)
    failed-Blocks k error other ps h b = rw (fail_lem m k error other ps) (
        marked (is_of k other) (failed_with error) ps (λ d. refl)
          (λ d g l o. absurd (keys_apart k n other consumer d h g o)) b)

    closed :
        (now : ℕ) (input : EventClaim) (ps : List ProcessedEvent)
        → now ≤ limit
        → All (λ p. is_of n consumer p ≡ true → IsBlocked p) ps
        → (input.id == n && same (or_dispatcher input.consumer) consumer) ≡ true
        → All (λ p. open_to now input p ≡ false) ps
    closed now input [] h a e = tt
    closed now input (p ∷ ps) h a e = (
      elim (Bool-cases (key_of input p)) [
        | inl g ↦
            let idle =
              a.0 (one_key input.id n (or_dispatcher input.consumer) consumer p e g) now h in
            rw (g, idle) refl
        | inr g ↦ rw g refl
      ],
      closed now input ps h a.1 e,
    )

    granted_lem :
        (lease : ℕ) (input : EventClaim) (b : Bool)
        → is_granted n consumer (HandlingStep.claim_handling lease input) (ok b)
          ≡ (b && (input.id == n && same (or_dispatcher input.consumer) consumer))
    granted_lem lease input true = refl
    granted_lem lease input false = refl

    refused :
        (now lease : ℕ) (input : EventClaim) (ps : List ProcessedEvent)
        → now ≤ limit
        → Blocks ps
        → is_granted n consumer
            (HandlingStep.claim_handling lease input)
            (ok (is_some (Option.map (reclaimed now lease input) (find? (open_to now input) ps))))
          ≡ false
    refused now lease input ps h b =
        granted_lem lease input
          (is_some (Option.map (reclaimed now lease input) (find? (open_to now input) ps)))
        ∙ elim (Bool-cases (input.id == n && same (or_dispatcher input.consumer) consumer)) [
          | inl e ↦ rw (find?-none (open_to now input) ps (closed now input ps h b.1 e)) refl
          | inr e ↦ rw e (
              and_false
                (is_some (Option.map (reclaimed now lease input) (find? (open_to now input) ps))))
        ]

    claim-Blocks :
        (now lease : ℕ) (input : EventClaim) (ps : List ProcessedEvent)
        → now ≤ limit
        → Blocks ps
        → (is_granted n consumer
              (HandlingStep.claim_handling lease input)
              (claim m now lease input ps).0
            ≡ false)
          × Blocks (claim m now lease input ps).1
    claim-Blocks now lease input ps h b = elim (claim-cases m now lease input ps) [
      | inl (e, k) ↦
          let apart : (input.id == n && same (or_dispatcher input.consumer) consumer) ≡ false =
            other_key n consumer input ps e b.0 in
          rw (k, apart)
            (
              refl,
              (
                any-append (is_of n consumer) ps (new_processed now lease input) ∙ rw b.0 refl,
                All-append (λ d. is_of n consumer d ≡ true → IsBlocked d) ps
                    (new_processed now lease input) b.1
                    (λ g. absurd (let no : false ≡ true = sym apart ∙ g in cc)),
              ),
            )
      | inr (e, k) ↦ rw k (
        refused now lease input ps h b,
        marked (open_to now input) (reclaimed now lease input) ps (λ d. refl)
            (λ d g l o. absurd (let idle = l o now h in ground arith)) b,
      )
    ]

    Blocks-run :
        (cs : List (ℕ × HandlingStep)) (ps : List ProcessedEvent)
        → Within limit cs
        → All (λ c. IsNoFailure n consumer c.1) cs
        → Blocks ps
        → grants m n consumer cs ps ≡ false
    unfolding grants handle_step
    Blocks-run [] ps w a b = refl
    Blocks-run ((now, HandlingStep.claim_handling lease input) ∷ cs) ps w a b =
        let step = claim-Blocks now lease input ps w.0 b in
        rw step.0 (Blocks-run cs (claim m now lease input ps).1 w.1 a.1 step.1)
    Blocks-run ((now, HandlingStep.complete_handling k other) ∷ cs) ps w a b =
        Blocks-run cs (complete m now k other ps) w.1 a.1 (completed-Blocks now k other ps b)
    Blocks-run ((now, HandlingStep.fail_handling k error other) ∷ cs) ps w a b =
        Blocks-run cs (fail m k error other ps) w.1 a.1 (failed-Blocks k error other ps a.0 b)

  finished :
      (now n limit : ℕ) (consumer : Text) (ps : List ProcessedEvent)
      → IsSole (is_of n consumer) ps
      → any (is_of n consumer) ps ≡ true
      → Blocks n consumer limit (complete m now n consumer ps)
  finished now n limit consumer ps sole there = rw (complete_lem m now n consumer ps) (
    any-update_first (is_of n consumer) (is_of n consumer) (completed_at_time now) ps (λ d. refl)
        ∙ there,
    sole_updated (IsBlocked n consumer limit) (is_of n consumer) (is_of n consumer)
        (completed_at_time now) ps (λ d h. h) (λ d t h. refl) sole
        (any-found (is_of n consumer) ps there),
  )

  absent_blocks :
      (now lease : ℕ) (input : EventClaim) (ps : List ProcessedEvent)
      → All (λ d. key_of input d ≡ false) ps
      → All
          (λ d.
            key_of input d ≡ true
            → IsBlocked input.id (or_dispatcher input.consumer) (now + lease) d)
          ps
  absent_blocks now lease input [] a = tt
  absent_blocks now lease input (p ∷ ps) a = (
    (λ g. absurd (let no : true ≡ false = sym g ∙ a.0 in cc)),
    absent_blocks now lease input ps a.1,
  )

  own_key :
      (now lease : ℕ) (input : EventClaim) → key_of input (new_processed now lease input) ≡ true
  own_key now lease input =
      let consumer_is = same_refl (or_dispatcher input.consumer) in ground (arith, consumer_is)

  leased :
      (now lease : ℕ) (input : EventClaim) (ps : List ProcessedEvent)
      → IsSole (key_of input) ps
      → (claim m now lease input ps).0 ≡ ok true
      → Blocks input.id (or_dispatcher input.consumer) (now + lease) (claim m now lease input ps).1
  leased now lease input ps sole granted = elim (claim-cases m now lease input ps) [
    | inl (e, k) ↦ rw k (
      any-append (key_of input) ps (new_processed now lease input) ∙ rw e (own_key now lease input),
      All-append
          (λ d.
            key_of input d ≡ true
            → IsBlocked input.id (or_dispatcher input.consumer) (now + lease) d)
          ps (new_processed now lease input)
          (absent_blocks now lease input ps (any-none (key_of input) ps e))
          (λ g t h. fresh_lease now lease t h),
    )
    | inr (e, k) ↦
        let answer : ok
              (is_some (Option.map (reclaimed now lease input) (find? (open_to now input) ps)))
            ≡ ok true =
          ap (λ r. r.0) (sym k) ∙ granted in
        let some_open =
          map_some (reclaimed now lease input) (find? (open_to now input) ps)
            (ok-injective _ _ answer) in
        rw k (
          any-update_first (key_of input) (open_to now input) (reclaimed now lease input) ps
                (λ d. refl)
              ∙ e,
          sole_updated (IsBlocked input.id (or_dispatcher input.consumer) (now + lease))
              (key_of input) (open_to now input) (reclaimed now lease input) ps
              (λ d h. ground arith) (λ d t h. fresh_lease now lease t h) sole some_open,
        )
  ]

  -- A consumer that was granted an event, where the collection has one document at most for the
  -- two, is not granted it again up to the end of its lease, whatever steps are taken that do not
  -- store a failure of it.
  pub claim-exclusive :
      (now lease : ℕ) (input : EventClaim) (ps : List ProcessedEvent) (cs : List (ℕ × HandlingStep))
      → IsSole (key_of input) ps
      → (claim m now lease input ps).0 ≡ ok true
      → Within (now + lease) cs
      → All (λ c. IsNoFailure input.id (or_dispatcher input.consumer) c.1) cs
      → grants m input.id (or_dispatcher input.consumer) cs (claim m now lease input ps).1 ≡ false
  claim-exclusive now lease input ps cs sole granted w a =
      Blocks-run input.id (or_dispatcher input.consumer) (now + lease) cs
        (claim m now lease input ps).1 w a (leased now lease input ps sole granted)

  -- An event that a consumer has completed, where the collection has one document for the two, is
  -- never granted to it again by steps that do not store a failure of it.
  pub complete-final :
      (now n limit : ℕ) (consumer : Text) (ps : List ProcessedEvent) (cs : List (ℕ × HandlingStep))
      → IsSole (is_of n consumer) ps
      → any (is_of n consumer) ps ≡ true
      → Within limit cs
      → All (λ c. IsNoFailure n consumer c.1) cs
      → grants m n consumer cs (complete m now n consumer ps) ≡ false
  complete-final now n limit consumer ps cs sole there w a =
      Blocks-run n consumer limit cs (complete m now n consumer ps) w a
        (finished now n limit consumer ps sole there)
