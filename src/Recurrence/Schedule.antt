-- ===== src/Recurrence/Schedule.antt =====
-- pm.recurrence.ts: what a recurrence asks for, as equations on days, months and years, and that the
-- loop's test decides it.
use maintain_pro_backend.Shared.{
  ◌==◌, Bool-cases, any, ℕ, ◌+◌, ◌-◌, ◌*◌, ◌/◌, ◌%◌, ◌≤◌, ◌<◌, ◌≡◌, refl, ◌↔◌, ◌⊎◌, inl, inr, Bool,
  true, false, ◌&&◌, Option, none, some, List, [], ◌∷◌, arith,
}
use native.Mathlib.Nat.{div-add-mod', mul-mod_left}
use maintain_pro_backend.Recurrence.Dates.{
  Calendar, Frequency, RecurrenceConfig, is_multiple, weekdays_or, or_else, is_due, months_since,
  date_matches,
}

abbrev pub IsAmong : ℕ → List ℕ → Type 0
IsAmong x [] = ⊥
IsAmong x (y ∷ ys) = (y ≡ x) ⊎ IsAmong x ys

-- One of the weekdays, or the given one if there are none.
abbrev pub IsWeekday : List ℕ → ℕ → ℕ → Type 0
IsWeekday [] given x = given ≡ x
IsWeekday (d ∷ ds) given x = IsAmong x (d ∷ ds)

-- The date of the month, or the given one if there is none.
abbrev pub IsDate : Option ℕ → ℕ → ℕ → Type 0
IsDate none given x = x ≡ given
IsDate (some n) given x = x ≡ n

-- Not after the end, if there is one.
abbrev pub IsBefore : Option ℕ → ℕ → Type 0
IsBefore none d = Unit
IsBefore (some end) d = d ≤ end

-- The months of the calendar, counted through the years.
abbrev pub month_index : Calendar → ℕ → ℕ
month_index calendar d = calendar.year d * 12 + calendar.month d

-- From the start on, the years and the months of a calendar do not go back.
abbrev pub IsForward : Calendar → ℕ → Type 0
IsForward calendar start =
    (d : ℕ)
    → start ≤ d
    → (calendar.year start ≤ calendar.year d)
      × (month_index calendar start ≤ month_index calendar d)

module _ (calendar : Calendar) (config : RecurrenceConfig) where
  -- The date in the month of a day is the one that is asked for.
  abbrev pub IsOnDate : ℕ → Type 0
  IsOnDate d = IsDate config.month_day (calendar.date config.start_date) (calendar.date d)

  -- The day is one that the frequency asks for after a number of steps of its period from the start.
  abbrev pub IsAfter : ℕ → ℕ → Type 0
  IsAfter steps d = elim (config.frequency) [
    | Frequency.daily ↦ d ≡ config.start_date + steps
    | Frequency.interval_days ↦ d ≡ config.start_date + steps
    | Frequency.weekly ↦
        (config.start_date + 7 * steps ≤ d)
        × (d < config.start_date + 7 * steps + 7)
        × IsWeekday config.weekdays (calendar.weekday config.start_date) (calendar.weekday d)
    | Frequency.monthly ↦
        (month_index calendar d ≡ month_index calendar config.start_date + steps) × IsOnDate d
    | Frequency.yearly ↦
        (calendar.year d ≡ calendar.year config.start_date + steps)
        × (calendar.month d ≡ calendar.month config.start_date)
        × IsOnDate d
  ]

  -- A day from the start to the horizon and the end, some whole number of intervals after the start.
  abbrev pub IsOccurrence : ℕ → ℕ → Type 0
  IsOccurrence horizon d =
      (config.start_date ≤ d)
      × (d ≤ horizon)
      × IsBefore config.end_date d
      × ((k : ℕ) × IsAfter (k * config.interval) d)

among : (x : ℕ) (ys : List ℕ) → (any (λ y. y == x) ys ≡ true) ↔ IsAmong x ys
among x [] = ((λ h. let no : false ≡ true = h in cc), (λ h. absurd h))
among x (y ∷ ys) = elim (Bool-cases (y == x)) [
  | inl e ↦ rw e ((λ _. inl (ground (arith, e))), (λ _. refl))
  | inr e ↦
      let rest = among x ys in
      rw e (
        (λ h. inr (rest.0 h)),
        (λ h. elim h [ inl g ↦ absurd (ground (arith, e, g)) | inr g ↦ rest.1 g ]),
      )
]

test : (x y : ℕ) → ((x == y) ≡ true) ↔ (x ≡ y)
test x y = ((λ h. ground (arith, h)), (λ h. ground (arith, h)))

any-IsWeekday :
    (ds : List ℕ) (given x : ℕ)
    → (any (λ d. d == x) (weekdays_or ds given) ≡ true) ↔ IsWeekday ds given x
any-IsWeekday [] given x = elim (Bool-cases (given == x)) [
  | inl e ↦ rw e ((λ _. ground (arith, e)), (λ _. refl))
  | inr e ↦ rw e ((λ h. absurd cc), (λ h. absurd (ground (arith, e, h))))
]
any-IsWeekday (d ∷ ds) given x = among x (d ∷ ds)

eq-IsDate : (o : Option ℕ) (given x : ℕ) → ((x == or_else o given) ≡ true) ↔ IsDate o given x
eq-IsDate none given x = test x given
eq-IsDate (some n) given x = test x n

multiple_of : (n i : ℕ) → is_multiple n i ≡ true → n ≡ n / i * i
multiple_of n i h = let e = div-add-mod' n i in ground (arith, e, h)

is_multiple-mul : (n k i : ℕ) → 0 < i → n ≡ k * i → is_multiple n i ≡ true
is_multiple-mul n k i h e =
    let whole : n % i ≡ 0 = rw e (mul-mod_left k i) in rw whole (ground arith)

and_assoc : (a b c : Bool) → (a && b && c) ≡ (a && (b && c))
and_assoc a b c = ground arith

both : (a b : Bool) → (a && b) ≡ true → (a ≡ true) × (b ≡ true)
both a b h = ground arith

module _ (calendar : Calendar) (config : RecurrenceConfig) (d : ℕ) (positive : 0 < config.interval)
    (forward : IsForward calendar config.start_date) (late : config.start_date ≤ d) where
  -- A number of periods that is a multiple of the interval, and what else is asked for.
  multiples :
      (n : ℕ) (more : Bool) (T : ℕ → Type 0) (More : Type 0)
      → (more ≡ true) ↔ More
      → ((k : ℕ) → n ≡ k → More → T k)
      → ((k : ℕ) → T k → (n ≡ k) × More)
      → ((is_multiple n config.interval && more) ≡ true) ↔ ((k : ℕ) × T (k * config.interval))
  multiples n more T More m put take_out = (
    (λ h.
        let (a, b) = both (is_multiple n config.interval) more h in
        (
          n / config.interval,
          put (n / config.interval * config.interval) (multiple_of n config.interval a) (m.0 b),
        )),
    (λ h.
        let (a, b) = take_out (h.0 * config.interval) h.1 in
        rw (is_multiple-mul n h.0 config.interval positive a, m.1 b) refl),
  )

  multiples_only :
      (n : ℕ) (T : ℕ → Type 0)
      → ((k : ℕ) → n ≡ k → T k)
      → ((k : ℕ) → T k → n ≡ k)
      → (is_multiple n config.interval ≡ true) ↔ ((k : ℕ) × T (k * config.interval))
  multiples_only n T put take_out = (
    (λ h. (
      n / config.interval,
      put (n / config.interval * config.interval) (multiple_of n config.interval h),
    )),
    (λ h. is_multiple-mul n h.0 config.interval positive (take_out (h.0 * config.interval) h.1)),
  )

  -- The loop's test of a day decides whether some number of intervals leads to it.
  due_for :
      (t : Frequency)
      → config.frequency ≡ t
      → (is_due calendar config d ≡ true)
        ↔ ((k : ℕ) × IsAfter calendar config (k * config.interval) d)
  unfolding is_due
  due_for Frequency.daily h = rw h (
      multiples_only (d - config.start_date) (λ s. d ≡ config.start_date + s)
        (λ s e. omega (arith, late, e)) (λ s e. omega (arith, late, e)))
  due_for Frequency.interval_days h = rw h (
      multiples_only (d - config.start_date) (λ s. d ≡ config.start_date + s)
        (λ s e. omega (arith, late, e)) (λ s e. omega (arith, late, e)))
  due_for Frequency.weekly h = rw h (
      multiples ((d - config.start_date) / 7)
        (any (λ x. x == calendar.weekday d)
          (weekdays_or config.weekdays (calendar.weekday config.start_date)))
        (λ s.
          (config.start_date + 7 * s ≤ d)
          × (d < config.start_date + 7 * s + 7)
          × IsWeekday config.weekdays (calendar.weekday config.start_date) (calendar.weekday d))
        (IsWeekday config.weekdays (calendar.weekday config.start_date) (calendar.weekday d))
        (any-IsWeekday config.weekdays (calendar.weekday config.start_date) (calendar.weekday d))
        (λ s e w. ((omega (arith, late, e)), (omega (arith, late, e)), w))
        (λ s w. ((omega (arith, late, w.0, w.1)), w.2)))
  due_for Frequency.monthly h =
      let after = forward d late in
      rw h (
        multiples (months_since calendar config d) (date_matches calendar config d)
          (λ s.
            (month_index calendar d ≡ month_index calendar config.start_date + s)
            × IsOnDate calendar config d)
          (IsOnDate calendar config d)
          (eq-IsDate config.month_day (calendar.date config.start_date) (calendar.date d))
          (λ s e w. ((omega (arith, after, e)), w)) (λ s w. ((omega (arith, after, w.0)), w.1)))
  due_for Frequency.yearly h =
      let after = forward d late in
      let month_test = test (calendar.month d) (calendar.month config.start_date) in
      let on_date =
        eq-IsDate config.month_day (calendar.date config.start_date) (calendar.date d) in
      let grouped =
        and_assoc (is_multiple (calendar.year d - calendar.year config.start_date) config.interval)
          (calendar.month d == calendar.month config.start_date) (date_matches calendar config d) in
      rw (h, grouped)
        (multiples (calendar.year d - calendar.year config.start_date)
          ((calendar.month d == calendar.month config.start_date) && date_matches calendar config d)
          (λ s.
            (calendar.year d ≡ calendar.year config.start_date + s)
            × (calendar.month d ≡ calendar.month config.start_date)
            × IsOnDate calendar config d)
          ((calendar.month d ≡ calendar.month config.start_date) × IsOnDate calendar config d)
          (
            (λ g.
                let (a, b) = both _ (date_matches calendar config d) g in
                (month_test.0 a, on_date.0 b)),
            (λ g. rw (month_test.1 g.0, on_date.1 g.1) refl),
          )
          (λ s e w. ((omega (arith, after, e)), w.0, w.1))
          (λ s w. ((omega (arith, after, w.0)), (w.1, w.2))))

  pub is_due_lem :
      (is_due calendar config d ≡ true)
      ↔ ((k : ℕ) × IsAfter calendar config (k * config.interval) d)
  is_due_lem = due_for config.frequency refl
