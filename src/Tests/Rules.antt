-- ===== src/Tests/Rules.antt =====
-- September 2025, which begins on a Monday, and a rule with a pair twice and a bad pair.
use goloom.Scheduling.{
  OrdinalOccurrence, RecurrenceRule, effective_ordinal_occurrences, validate_recurrence_rule,
}
use goloom.Scheduling.Ordinal.{ordinal_weekday_day, IsCalendar}
use goloom.Scheduling.Ordinal.Laws.{Answers, ordinal_weekday_day-Answers}
use goloom.Scheduling.Occurrences.{InRange, DistinctPairs, effective_ordinal_occurrences_iff}
use goloom.Prelude.Int.{ℤ, pos}
use goloom.Prelude.{ℕ, ◌%◌, ◌≡◌, refl, ◌↔◌, true, none, some, [], ◌∷◌, arith, In}

abbrev september : ℕ → ℕ
september day = day % 7

september-IsCalendar : IsCalendar september
september-IsCalendar = record { first = omega arith; follows = λ day. omega arith }

third_monday : ordinal_weekday_day september 30 (pos 3) 1 ≡ some 15
unfolding ordinal_weekday_day
third_monday = refl

fifth_friday : ordinal_weekday_day september 30 (pos 5) 5 ≡ none
unfolding ordinal_weekday_day
fifth_friday = refl

ordinal_weekday_day-Answers_example :
    Answers september september-IsCalendar 1
      (omega arith)
      30
      (pos 3)
      (ordinal_weekday_day september 30 (pos 3) 1)
ordinal_weekday_day-Answers_example =
    ordinal_weekday_day-Answers september september-IsCalendar 1 (omega arith) 30 (pos 3)
      (omega arith)

abbrev pair : ℤ → ℤ → OrdinalOccurrence
pair n wd = record { ordinal = n; weekday = wd }

abbrev rule : RecurrenceRule
rule = record {
  kind = "monthly_ordinal_weekday";
  weekdays = [];
  hour = pos 9;
  minute = pos 30;
  timezone = "Europe/Berlin";
  day_of_month = pos 0;
  anchor_day = pos 0;
  offset_days = pos 0;
  occurrences = pair (pos 3) (pos 1) ∷ pair (pos 9) (pos 1) ∷ pair (pos 3) (pos 1) ∷ [];
  ordinal = pos 0;
  ordinals = [];
  ordinal_weekday = pos 0;
}

effective_ordinal_occurrences_iff_example :
    ((o : OrdinalOccurrence)
      → In o (effective_ordinal_occurrences rule) ↔ (In o rule.occurrences × InRange o))
    × DistinctPairs (effective_ordinal_occurrences rule)
effective_ordinal_occurrences_iff_example = effective_ordinal_occurrences_iff rule refl

-- The bad pair is dropped, not refused.
rule-accepted : validate_recurrence_rule (λ zone. true) rule ≡ none
unfolding validate_recurrence_rule goloom.Scheduling.is_kind goloom.Strings.trim_space
    goloom.Scheduling.is_outside goloom.Scheduling.check_kind effective_ordinal_occurrences
    goloom.Scheduling.distinct_occurrences goloom.Scheduling.is_bad_ordinal
    goloom.Scheduling.is_bad_weekday goloom.Scheduling.check_occurrences
    goloom.Scheduling.same_occurrence goloom.Scheduling.eq_int
rule-accepted = refl
