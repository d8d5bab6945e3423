-- ===== src/Scheduling.antt =====
-- internal/scheduling/recurrence.go: the rules of recurring posts and their validation.
pub mod Ordinal
pub mod Occurrences
pub mod Next
use goloom.Strings.{trim_space}
use goloom.Prelude.Int.{ℤ, pos, negsuc, ltb_ℤ}
use goloom.Prelude.{
  String, Bool, false, not, ◌&&◌, ◌||◌, Option, none, some, List, [], ◌∷◌, if◌then◌else◌, ◌==◌,
  eq_nat, eq_text, is_empty, any, contains,
}

pub record OrdinalOccurrence : Type 0 where
  pub ordinal : ℤ
  pub weekday : ℤ

pub record RecurrenceRule : Type 0 where
  pub kind : String
  pub weekdays : List ℤ
  pub hour : ℤ
  pub minute : ℤ
  pub timezone : String
  pub day_of_month : ℤ
  pub anchor_day : ℤ
  pub offset_days : ℤ
  pub occurrences : List OrdinalOccurrence
  pub ordinal : ℤ
  pub ordinals : List ℤ
  pub ordinal_weekday : ℤ

-- The errors of `ValidateRecurrenceRule`.
pub data RuleError : Type 0 where
  unsupported_kind time_out_of_range timezone_required unknown_timezone : RuleError
  no_weekdays bad_weekday bad_day_of_month bad_anchor_day : RuleError
  no_occurrences bad_ordinal bad_occurrence_weekday : RuleError

-- `x < low || x > high`.
unfoldable pub is_outside : ℤ → ℤ → ℤ → Bool
is_outside low high x = ltb_ℤ x low || ltb_ℤ high x

abbrev is_zero : ℤ → Bool
is_zero (pos n) = n == 0
is_zero (negsuc n) = false

unfoldable pub is_bad_ordinal : ℤ → Bool
is_bad_ordinal n = is_outside (negsuc 0) (pos 5) n || is_zero n

unfoldable pub is_bad_weekday : ℤ → Bool
is_bad_weekday = is_outside (pos 0) (pos 6)

unfoldable pub eq_int : ℤ → ℤ → Bool
eq_int (pos m) (pos n) = m == n
eq_int (negsuc m) (negsuc n) = m == n
eq_int _ _ = false

unfoldable pub is_seen : ℤ → List ℤ → Bool
is_seen n seen = any (eq_int n) seen

-- The loop of `effectiveOrdinals`; `seen` is its set.
unfoldable pub distinct_ordinals : List ℤ → List ℤ → List ℤ
distinct_ordinals seen [] = []
distinct_ordinals seen (n ∷ ns) =
    if is_bad_ordinal n || is_seen n seen
    then distinct_ordinals seen ns
    else n ∷ distinct_ordinals (n ∷ seen) ns

unfoldable pub effective_ordinals : RecurrenceRule → List ℤ
effective_ordinals r =
    if not (is_empty r.ordinals)
    then distinct_ordinals [] r.ordinals
    else if not (is_zero r.ordinal)
    then r.ordinal ∷ []
    else []

unfoldable pub same_occurrence : OrdinalOccurrence → OrdinalOccurrence → Bool
same_occurrence a b = eq_int a.ordinal b.ordinal && eq_int a.weekday b.weekday

-- The loop of `effectiveOrdinalOccurrences`; its key is the pair of the two numbers.
unfoldable pub distinct_occurrences :
    List OrdinalOccurrence → List OrdinalOccurrence → List OrdinalOccurrence
distinct_occurrences seen [] = []
distinct_occurrences seen (o ∷ os) =
    if is_bad_ordinal o.ordinal || is_bad_weekday o.weekday || any (same_occurrence o) seen
    then distinct_occurrences seen os
    else o ∷ distinct_occurrences (o ∷ seen) os

abbrev on_weekday : ℤ → List ℤ → List OrdinalOccurrence
on_weekday weekday [] = []
on_weekday weekday (n ∷ ns) = record { ordinal = n; weekday = weekday } ∷ on_weekday weekday ns

unfoldable pub effective_ordinal_occurrences : RecurrenceRule → List OrdinalOccurrence
effective_ordinal_occurrences r =
    if not (is_empty r.occurrences)
    then distinct_occurrences [] r.occurrences
    else on_weekday r.ordinal_weekday (effective_ordinals r)

unfoldable pub check_weekdays : List ℤ → Option RuleError
check_weekdays [] = none
check_weekdays (wd ∷ wds) = if is_bad_weekday wd then some bad_weekday else check_weekdays wds

unfoldable pub check_occurrences : List OrdinalOccurrence → Option RuleError
check_occurrences [] = none
check_occurrences (o ∷ os) =
    if is_bad_ordinal o.ordinal
    then some bad_ordinal
    else if is_bad_weekday o.weekday
    then some bad_occurrence_weekday
    else check_occurrences os

-- The last switch of `ValidateRecurrenceRule`.
unfoldable pub check_kind : RecurrenceRule → Option RuleError
check_kind r =
    let kind = trim_space r.kind in
    if kind == "weekly"
    then (if is_empty r.weekdays then some no_weekdays else check_weekdays r.weekdays)
    else if kind == "monthly_dom"
    then (if is_outside (pos 1) (pos 31) r.day_of_month then some bad_day_of_month else none)
    else if kind == "monthly_anchor_offset"
    then (if is_outside (pos 1) (pos 31) r.anchor_day then some bad_anchor_day else none)
    else let occurrences = effective_ordinal_occurrences r in
      if is_empty occurrences then some no_occurrences else check_occurrences occurrences

unfoldable pub is_kind : String → Bool
is_kind kind =
    contains ("weekly" ∷ "monthly_dom" ∷ "monthly_anchor_offset" ∷ "monthly_ordinal_weekday" ∷ [])
      kind

-- `ValidateRecurrenceRule`; `none` is no error. `known_zone` is whether `time.LoadLocation` finds
-- the zone.
unfoldable pub validate_recurrence_rule : (String → Bool) → RecurrenceRule → Option RuleError
validate_recurrence_rule known_zone r =
    if not (is_kind (trim_space r.kind))
    then some unsupported_kind
    else if is_outside (pos 0) (pos 23) r.hour || is_outside (pos 0) (pos 59) r.minute
    then some time_out_of_range
    else if trim_space r.timezone == ""
    then some timezone_required
    else if not (known_zone (trim_space r.timezone))
    then some unknown_timezone
    else check_kind r
