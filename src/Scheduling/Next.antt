-- ===== src/Scheduling/Next.antt =====
-- `NextOccurrence` and its four searches.
pub mod Laws
use goloom.Prelude.Int.{pos, pos_part, ◌+ℤ◌, ltb_ℤ}
use goloom.Strings.{trim_space}
use goloom.Prelude.Result.{Result, ok, err}
use goloom.Scheduling.{
  effective_ordinal_occurrences, OrdinalOccurrence, RecurrenceRule, RuleError, eq_int,
  validate_recurrence_rule,
}
use goloom.Scheduling.Ordinal.{ordinal_weekday_day}
use goloom.Prelude.{
  ℕ, zero, suc, ◌+◌, ◌%◌, String, Bool, not, ◌&&◌, ◌||◌, Option, none, some, List, [], ◌∷◌, ltb,
  if◌then◌else◌, ◌==◌, eq_nat, eq_text, any, contains,
}

-- What `Date` and `Weekday` of a time are in the zone.
pub record Civil : Type 0 where
  pub year : ℕ
  pub month : ℕ
  pub day : ℕ
  pub weekday : ℕ

-- Package time in one location. `date` takes the year, month, day, hour and minute, and the month
-- and day may lie beyond their range; `add_date` adds months and days; `add_years` works in UTC.
pub record Zone : Type 0 where
  pub local : ℕ → Civil
  pub date : ℕ → ℕ → ℕ → ℕ → ℕ → ℕ
  pub add_date : ℕ → ℕ → ℕ → ℕ
  pub add_years : ℕ → ℕ → ℕ

abbrev is_leap : ℕ → Bool
is_leap year = year % 4 == 0 && (not (year % 100 == 0) || year % 400 == 0)

-- `daysInMonth`, for the months 1 to 12.
unfoldable pub days_in_month : ℕ → ℕ → ℕ
days_in_month year month =
    if month == 2
    then (if is_leap year then 29 else 28)
    else if contains (4 ∷ 6 ∷ 9 ∷ 11 ∷ []) month
    then 30
    else 31

-- `for i := 0; i < limit; i++`: the first candidate, or what follows the loop. The first number
-- counts the rounds that are left.
unfoldable pub search : (ℕ → Option ℕ) → ℕ → ℕ → ℕ → ℕ
search candidate fallback zero i = fallback
search candidate fallback (suc rounds) i = elim (candidate i) [
  | none ↦ search candidate fallback rounds (i + 1)
  | some t ↦ t
]

-- The instant, if it is after `after`.
unfoldable pub if_after : ℕ → ℕ → Option ℕ
if_after after instant = if ltb after instant then some instant else none

-- The earlier instant of the best so far and a new one.
abbrev pub sooner : Option ℕ → Option ℕ → Option ℕ
sooner so_far none = so_far
sooner none (some t) = some t
sooner (some best) (some t) = if ltb t best then some t else some best

module _ (z : Zone) (r : RecurrenceRule) (after : ℕ) where
  -- The rule's hour and minute on a day; the validation has checked their range.
  unfoldable pub at_time : ℕ → ℕ → ℕ → ℕ
  at_time year month day = z.date year month day (pos_part r.hour) (pos_part r.minute)

  -- One round of `nextWeekly`.
  unfoldable pub weekly_candidate : ℕ → Option ℕ
  weekly_candidate d =
      let ref = z.local after in
      let cur = z.local (z.add_date (z.date ref.year ref.month ref.day 0 0) 0 d) in
      if any (λ wd. eq_int wd (pos cur.weekday)) r.weekdays
      then if_after after (at_time cur.year cur.month cur.day)
      else none

  -- The month of a round of the monthly searches.
  unfoldable pub month_of : ℕ → Civil
  month_of i = let ref = z.local after in z.local (z.add_date (z.date ref.year ref.month 1 0 0) i 0)

  -- One round of `nextMonthlyDOM`.
  unfoldable pub dom_candidate : ℕ → Option ℕ
  dom_candidate i =
      let m = month_of i in
      let max_day = days_in_month m.year m.month in
      let dom = pos_part r.day_of_month in
      if_after after (at_time m.year m.month (if ltb max_day dom then max_day else dom))

  -- One round of `nextMonthlyAnchorOffset`.
  unfoldable pub anchor_candidate : ℕ → Option ℕ
  anchor_candidate i =
      let m = month_of i in
      let max_day = days_in_month m.year m.month in
      let raw = r.anchor_day +ℤ r.offset_days in
      let day = if ltb_ℤ raw (pos 1) then 1 else pos_part raw in
      if_after after (at_time m.year m.month (if ltb max_day day then max_day else day))

  abbrev pub day_instant : Civil → Option ℕ → Option ℕ
  day_instant m none = none
  day_instant m (some day) = if_after after (at_time m.year m.month day)

  -- The inner loop of `nextMonthlyOrdinalWeekday`, with the earliest instant so far.
  unfoldable pub earliest : Civil → List OrdinalOccurrence → Option ℕ → Option ℕ
  earliest m [] so_far = so_far
  earliest m (o ∷ os) so_far =
      let weekday_of = λ (day : ℕ). (z.local (z.date m.year m.month day 0 0)).weekday in
      let day =
        ordinal_weekday_day weekday_of (days_in_month m.year m.month) o.ordinal
          (pos_part o.weekday) in
      earliest m os (sooner so_far (day_instant m day))

  -- One round of `nextMonthlyOrdinalWeekday`.
  unfoldable pub ordinal_candidate : ℕ → Option ℕ
  ordinal_candidate i = earliest (month_of i) (effective_ordinal_occurrences r) none

  -- `nextWeekly`.
  unfoldable pub next_weekly : ℕ
  next_weekly = search weekly_candidate (z.add_years after 2) 800 0

  -- `nextMonthlyDOM`.
  unfoldable pub next_monthly_dom : ℕ
  next_monthly_dom = search dom_candidate (z.add_years after 10) 120 0

  -- `nextMonthlyAnchorOffset`.
  unfoldable pub next_monthly_anchor_offset : ℕ
  next_monthly_anchor_offset = search anchor_candidate (z.add_years after 10) 120 0

  -- `nextMonthlyOrdinalWeekday`.
  unfoldable pub next_monthly_ordinal_weekday : ℕ
  next_monthly_ordinal_weekday = search ordinal_candidate (z.add_years after 10) 120 0

-- `NextOccurrence`. `zone` is `time.LoadLocation` where `known_zone` holds.
unfoldable pub next_occurrence :
    (String → Bool) → (String → Zone) → RecurrenceRule → ℕ → Result RuleError ℕ
next_occurrence known_zone zone r after = elim (validate_recurrence_rule known_zone r) [
  | some e ↦ err e
  | none ↦
      let z = zone (trim_space r.timezone) in
      let kind = trim_space r.kind in
      if kind == "weekly"
      then ok (next_weekly z r after)
      else if kind == "monthly_dom"
      then ok (next_monthly_dom z r after)
      else if kind == "monthly_anchor_offset"
      then ok (next_monthly_anchor_offset z r after)
      else ok (next_monthly_ordinal_weekday z r after)
]
