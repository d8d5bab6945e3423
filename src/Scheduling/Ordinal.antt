-- ===== src/Scheduling/Ordinal.antt =====
-- The day of an ordinal weekday in a month (`ordinalWeekdayDay`), such as the third Monday.
-- `weekday_of` is the weekday of the midnight of each day in the rule's zone (package time and its
-- zone database), Sunday being 0; `max_day` is the length of the month.
pub mod Laws
use goloom.Prelude.Int.{ℤ, pos, negsuc}
use goloom.Prelude.{
  ℕ, zero, suc, ◌+◌, ◌-◌, ◌*◌, ◌%◌, ◌≤◌, ◌≡◌, ◌||◌, Option, none, some, ltb, if◌then◌else◌, ◌==◌,
  eq_nat, eq_text,
}

-- The search for the last such day, from `day` down.
unfoldable pub last_weekday_day : (ℕ → ℕ) → ℕ → ℕ → Option ℕ
last_weekday_day weekday_of weekday zero = none
last_weekday_day weekday_of weekday (suc day) =
    if weekday_of (suc day) == weekday
    then some (suc day)
    else last_weekday_day weekday_of weekday day

-- An ordinal below -1 gives a day below 1, which is refused, as is an ordinal of 0.
unfoldable pub ordinal_weekday_day : (ℕ → ℕ) → ℕ → ℤ → ℕ → Option ℕ
ordinal_weekday_day weekday_of max_day (negsuc zero) weekday =
    last_weekday_day weekday_of weekday max_day
ordinal_weekday_day weekday_of max_day (negsuc (suc n)) weekday = none
ordinal_weekday_day weekday_of max_day (pos n) weekday =
    let offset = (weekday + 7 - weekday_of 1) % 7 in
    let day = 1 + offset + (n - 1) * 7 in if n == 0 || ltb max_day day then none else some day

-- How many of the first `day` days of the month have the weekday.
abbrev pub count_weekday : (ℕ → ℕ) → ℕ → ℕ → ℕ
count_weekday weekday_of weekday zero = 0
count_weekday weekday_of weekday (suc day) =
    (if weekday_of (suc day) == weekday then 1 else 0) + count_weekday weekday_of weekday day

-- The weekdays of a month follow each other. It fails where a change of the clock skips midnight.
pub record IsCalendar (weekday_of : ℕ → ℕ) : Type 0 where
  pub first : weekday_of 1 ≤ 6
  pub follows : (day : ℕ) → weekday_of (day + 2) ≡ (weekday_of (day + 1) + 1) % 7
