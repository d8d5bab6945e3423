-- ===== src/Tests/Calendar.antt =====
-- A toy zone: every month has 31 days and begins on a Sunday, and instants are minutes.
use goloom.Strings.{trim_space}
use goloom.Scheduling.{RecurrenceRule, validate_recurrence_rule}
use goloom.Scheduling.Next.{Zone, next_occurrence}
use goloom.Scheduling.Next.Laws.{IsForward, IsNext, next_occurrence-IsNext}
use goloom.Prelude.Int.{pos}
use goloom.Prelude.Result.{ok}
use goloom.Prelude.{ℕ, ◌+◌, ◌-◌, ◌*◌, ◌/◌, ◌%◌, ◌≡◌, refl, true, [], ◌∷◌, arith}

abbrev minutes_a_day : ℕ
minutes_a_day = 1440

-- The day of the month is counted from 1; there is one month and one year.
abbrev zone : Zone
zone = record {
  local = λ t. record {
    year = 1;
    month = 1;
    day = t / minutes_a_day + 1;
    weekday = (t / minutes_a_day) % 7;
  };
  date = λ year month day hour min. (day - 1) * minutes_a_day + hour * 60 + min;
  add_date = λ t months days. t + days * minutes_a_day;
  add_years = λ t years. t + years * 365 * minutes_a_day;
}

zone-IsForward : IsForward zone
zone-IsForward t years positive = omega arith

-- Mondays and Thursdays at 9:30.
abbrev rule : RecurrenceRule
rule = record {
  kind = "weekly";
  weekdays = pos 1 ∷ pos 4 ∷ [];
  hour = pos 9;
  minute = pos 30;
  timezone = "Europe/Berlin";
  day_of_month = pos 0;
  anchor_day = pos 0;
  offset_days = pos 0;
  occurrences = [];
  ordinal = pos 0;
  ordinals = [];
  ordinal_weekday = pos 0;
}

-- From Monday at 10:00 on, the next one is on Thursday.
thursday : next_occurrence (λ name. true) (λ name. zone) rule 2040 ≡ ok 6330
unfolding next_occurrence validate_recurrence_rule goloom.Scheduling.is_kind trim_space
    goloom.Scheduling.is_outside goloom.Scheduling.check_kind goloom.Scheduling.check_weekdays
    goloom.Scheduling.is_bad_weekday goloom.Scheduling.Next.next_weekly
    goloom.Scheduling.Next.search goloom.Scheduling.Next.weekly_candidate goloom.Scheduling.eq_int
    goloom.Scheduling.Next.if_after goloom.Scheduling.Next.at_time
thursday = refl

next_occurrence-IsNext_example : IsNext zone rule 2040 6330
next_occurrence-IsNext_example =
    next_occurrence-IsNext (λ name. true) (λ name. zone) rule 2040 6330 zone-IsForward thursday
