-- ===== src/Recurrence/Tests.antt =====
-- A check every second day of a week, in a calendar of weeks.
use maintain_pro_backend.Shared.{
  ◌==◌, any, ◌+◌, ◌/◌, ◌%◌, ◌≡◌, refl, ◌↔◌, true, none, some, [], ◌∷◌, arith,
}
use maintain_pro_backend.Recurrence.Dates.{
  Calendar, Frequency, RecurrenceConfig, is_due, generate_occurrence_dates, occurrences_from,
}
use maintain_pro_backend.Recurrence.Schedule.{IsForward, IsOccurrence}
use maintain_pro_backend.Recurrence.Calendar.{IsIncreasing, generate_occurrence_dates_lem}

-- Months of thirty days and years of twelve months, which begin on a Thursday.
abbrev plain : Calendar
plain = record {
  year = λ d. d / 30 / 12;
  month = λ d. d / 30 % 12;
  date = λ d. d % 30 + 1;
  weekday = λ d. (d + 4) % 7;
}

abbrev every_second : RecurrenceConfig
every_second = record {
  frequency = Frequency.daily;
  interval = 2;
  weekdays = [];
  month_day = none;
  start_date = 100;
  end_date = some 105;
}

second_days : generate_occurrence_dates plain every_second 200 ≡ 100 ∷ 102 ∷ 104 ∷ []
unfolding generate_occurrence_dates occurrences_from is_due
second_days = refl

monthly_days :
    generate_occurrence_dates plain
      (record every_second { frequency = Frequency.monthly; month_day = some 3; end_date = none })
      200
    ≡ 152 ∷ []
unfolding generate_occurrence_dates occurrences_from is_due
monthly_days = refl

weekly_days :
    generate_occurrence_dates plain
      (record every_second { frequency = Frequency.weekly; weekdays = 1 ∷ 5 ∷ []; end_date = none })
      120
    ≡ 102 ∷ 106 ∷ 116 ∷ 120 ∷ []
unfolding generate_occurrence_dates occurrences_from is_due
weekly_days = refl

plain-IsForward : IsForward plain 100
plain-IsForward d h = ((omega (arith, h)), (omega (arith, h)))

generate_occurrence_dates_lem_example :
    ((any (λ x. x == 102) (generate_occurrence_dates plain every_second 200) ≡ true)
      ↔ IsOccurrence plain every_second 200 102)
    × IsIncreasing (generate_occurrence_dates plain every_second 200)
generate_occurrence_dates_lem_example =
    generate_occurrence_dates_lem plain every_second 200 102 (ground arith) plain-IsForward
