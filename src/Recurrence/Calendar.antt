-- ===== src/Recurrence/Calendar.antt =====
-- pm.recurrence.ts: which days the loop gives.
use maintain_pro_backend.Shared.{
  leb, ◌==◌, Bool-cases, any, All, ℕ, zero, suc, ◌+◌, ◌-◌, ◌≤◌, ◌<◌, min, ◌≡◌, refl, sym, ◌∙◌,
  subst, ◌↔◌, inl, inr, Bool, true, false, ◌&&◌, Option, none, some, List, [], ◌∷◌, arith,
}
use maintain_pro_backend.Recurrence.Schedule.{IsBefore, IsForward, IsOccurrence, is_due_lem}
use maintain_pro_backend.Recurrence.Dates.{
  or_else, Calendar, RecurrenceConfig, is_due, occurrences_from, generate_occurrence_dates,
  last_day,
}

-- Each day is later than the ones before it.
abbrev pub IsIncreasing : List ℕ → Type 0
IsIncreasing [] = Unit
IsIncreasing (x ∷ xs) = All (λ y. x < y) xs × IsIncreasing xs

later-All : (a b : ℕ) (xs : List ℕ) → a ≤ b → All (λ y. b ≤ y) xs → All (λ y. a ≤ y) xs
later-All a b [] h k = tt
later-All a b (x ∷ xs) h k = (omega (arith, h, k.0), later-All a b xs h k.1)

after-All : (a : ℕ) (xs : List ℕ) → All (λ y. a + 1 ≤ y) xs → All (λ y. a < y) xs
after-All a [] k = tt
after-All a (x ∷ xs) k = (omega (arith, k.0), after-All a xs k.1)

module _ (calendar : Calendar) (config : RecurrenceConfig) where
  contains :
      (fuel cursor end d : ℕ)
      → end < cursor + fuel
      → any (λ x. x == d) (occurrences_from calendar config fuel cursor end)
        ≡ (leb cursor d && leb d end && is_due calendar config d)
  unfolding occurrences_from
  contains zero cursor end d h = ground arith
  contains (suc fuel) cursor end d h =
      let rest = contains fuel (cursor + 1) end d (omega arith) in
      let due = occurrences_from calendar config fuel (cursor + 1) end in
      elim (Bool-cases (leb cursor end)) [
        | inr e ↦ rw e (ground arith)
        | inl e ↦ elim (Bool-cases (cursor == d)) [
          | inl g ↦
              let here : cursor ≡ d = ground arith in
              elim (Bool-cases (is_due calendar config cursor)) [
                | inl k ↦
                    let k' : is_due calendar config d ≡ true =
                      subst (λ x. is_due calendar config x ≡ true) here k in
                    rw (e, k, g, k') (ground arith)
                | inr k ↦
                    let k' : is_due calendar config d ≡ false =
                      subst (λ x. is_due calendar config x ≡ false) here k in
                    rw (e, k, rest, k') (ground arith)
              ]
          | inr g ↦ elim (Bool-cases (is_due calendar config cursor)) [
            | inl k ↦ rw (e, k, g, rest) (ground arith)
            | inr k ↦ rw (e, k, rest) (ground arith)
          ]
        ]
      ]

  increasing :
      (fuel cursor end : ℕ)
      → All (λ y. cursor ≤ y) (occurrences_from calendar config fuel cursor end)
        × IsIncreasing (occurrences_from calendar config fuel cursor end)
  unfolding occurrences_from
  increasing zero cursor end = (tt, tt)
  increasing (suc fuel) cursor end =
      let due = occurrences_from calendar config fuel (cursor + 1) end in
      let rest = increasing fuel (cursor + 1) end in
      let after = later-All cursor (cursor + 1) due (omega arith) rest.0 in
      elim (Bool-cases (leb cursor end)) [
        | inr e ↦ rw e (tt, tt)
        | inl e ↦ elim (Bool-cases (is_due calendar config cursor)) [
          | inl k ↦ rw (e, k) (((omega arith), after), (after-All cursor due rest.0, rest.1))
          | inr k ↦ rw (e, k) (after, rest.1)
        ]
      ]

  leb-IsBefore :
      (o : Option ℕ) (horizon d : ℕ)
      → (leb d (min (or_else o horizon) horizon) ≡ true) ↔ ((d ≤ horizon) × IsBefore o d)
  leb-IsBefore none horizon d = ((λ h. ((ground (arith, h)), tt)), (λ h. ground (arith, h.0)))
  leb-IsBefore (some end) horizon d =
      ((λ h. ((ground (arith, h)), (ground (arith, h)))), (λ h. ground (arith, h.0, h.1)))

  conjunction : (a b c : Bool) → (a && b && c) ≡ true → (a ≡ true) × (b ≡ true) × (c ≡ true)
  conjunction a b c h = ground arith

  -- With an interval that is not zero and a calendar whose years and months do not go back after
  -- the start, a day is among the occurrence dates exactly if it is neither before the start nor
  -- after the horizon or the end, and lies a multiple of the interval after the start: in days; in
  -- weeks from the start, on one of the weekdays; in months, on the date of the month; in years,
  -- in the start's month and on the date. The dates increase.
  pub generate_occurrence_dates_lem :
      (horizon d : ℕ)
      → 0 < config.interval
      → IsForward calendar config.start_date
      → ((any (λ x. x == d) (generate_occurrence_dates calendar config horizon) ≡ true)
          ↔ IsOccurrence calendar config horizon d)
        × IsIncreasing (generate_occurrence_dates calendar config horizon)
  unfolding generate_occurrence_dates
  generate_occurrence_dates_lem horizon d positive forward =
      let end = last_day calendar config horizon in
      let found = contains (end + 1 - config.start_date) config.start_date end d (omega arith) in
      let last = leb-IsBefore config.end_date horizon d in
      (
        (
          (λ h.
              let (a, b, c) =
                conjunction (leb config.start_date d) (leb d end) (is_due calendar config d)
                  (sym found ∙ h) in
              let late : config.start_date ≤ d = ground (arith, a) in
              let until = last.0 b in
              (late, until.0, until.1, (is_due_lem calendar config d positive forward late).0 c)),
          (λ (late, h1, h2, step).
              let a : leb config.start_date d ≡ true = ground (arith, late) in
              let b : leb d end ≡ true = last.1 (h1, h2) in
              let c = (is_due_lem calendar config d positive forward late).1 step in
              rw (found, a, b, c) refl),
        ),
        (increasing (end + 1 - config.start_date) config.start_date end).1,
      )
