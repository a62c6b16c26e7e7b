-- ===== src/Recurrence/Dates.antt =====
-- pm.recurrence.ts: a day in UTC is its number since the epoch. What a calendar says of a day is an
-- argument.
use maintain_pro_backend.Shared.{
  leb, ◌==◌, if◌then◌else◌, any, ℕ, zero, suc, ◌+◌, ◌-◌, ◌*◌, ◌/◌, ◌%◌, min, Bool, not, ◌&&◌,
  Option, none, some, List, [], ◌∷◌,
}

-- `getUTCFullYear`, `getUTCMonth`, `getUTCDate` and `getUTCDay`.
pub record Calendar : Type 0 where
  pub year : ℕ → ℕ
  pub month : ℕ → ℕ
  pub date : ℕ → ℕ
  pub weekday : ℕ → ℕ

pub data Frequency : Type 0 where
  daily interval_days weekly monthly yearly : Frequency

pub record RecurrenceConfig : Type 0 where
  pub frequency : Frequency
  pub interval : ℕ
  pub weekdays : List ℕ
  pub month_day : Option ℕ
  pub start_date : ℕ
  pub end_date : Option ℕ

abbrev pub or_else : Option ℕ → ℕ → ℕ
or_else none n = n
or_else (some m) n = m

-- `n % interval === 0`, which no number is of zero.
abbrev pub is_multiple : ℕ → ℕ → Bool
is_multiple n interval = not (interval == 0) && (n % interval == 0)

abbrev pub weekdays_or : List ℕ → ℕ → List ℕ
weekdays_or [] day = day ∷ []
weekdays_or (d ∷ ds) day = d ∷ ds

module _ (calendar : Calendar) (config : RecurrenceConfig) where
  abbrev pub months_since : ℕ → ℕ
  months_since cursor =
      (calendar.year cursor - calendar.year config.start_date) * 12
      + calendar.month cursor
      - calendar.month config.start_date

  abbrev pub weekday_matches : ℕ → Bool
  weekday_matches cursor =
      any (λ d. d == calendar.weekday cursor)
        (weekdays_or config.weekdays (calendar.weekday config.start_date))

  abbrev pub date_matches : ℕ → Bool
  date_matches cursor =
      calendar.date cursor == or_else config.month_day (calendar.date config.start_date)

  unfoldable pub is_due : ℕ → Bool
  is_due cursor =
      let days = cursor - config.start_date in
      elim (config.frequency) [
        | Frequency.daily ↦ is_multiple days config.interval
        | Frequency.interval_days ↦ is_multiple days config.interval
        | Frequency.weekly ↦ is_multiple (days / 7) config.interval && weekday_matches cursor
        | Frequency.monthly ↦
            is_multiple (months_since cursor) config.interval && date_matches cursor
        | Frequency.yearly ↦
            is_multiple (calendar.year cursor - calendar.year config.start_date) config.interval
            && (calendar.month cursor == calendar.month config.start_date)
            && date_matches cursor
      ]

  -- The loop from a day to the end, on fuel.
  unfoldable pub occurrences_from : ℕ → ℕ → ℕ → List ℕ
  occurrences_from zero cursor end = []
  occurrences_from (suc fuel) cursor end =
      let rest = occurrences_from fuel (cursor + 1) end in
      if leb cursor end then if is_due cursor then cursor ∷ rest else rest else []

  abbrev pub last_day : ℕ → ℕ
  last_day horizon = min (or_else config.end_date horizon) horizon

  -- The fuel is one more than the days up to the end.
  unfoldable pub generate_occurrence_dates : ℕ → List ℕ
  generate_occurrence_dates horizon =
      occurrences_from (last_day horizon + 1 - config.start_date) config.start_date
        (last_day horizon)
