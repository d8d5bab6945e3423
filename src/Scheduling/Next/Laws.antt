-- ===== src/Scheduling/Next/Laws.antt =====
-- The next occurrence lies ahead, and is the first that the search meets.
use goloom.Strings.{trim_space}
use goloom.Prelude.Result.{Result, ok}
use goloom.Scheduling.{OrdinalOccurrence, RecurrenceRule, RuleError, validate_recurrence_rule}
use goloom.Scheduling.Next.{
  Civil, Zone, search, if_after, weekly_candidate, dom_candidate, anchor_candidate,
  ordinal_candidate, earliest, day_instant, sooner, next_weekly, next_monthly_dom,
  next_monthly_anchor_offset, next_monthly_ordinal_weekday, next_occurrence,
}
use goloom.Prelude.{
  ℕ, zero, suc, ◌+◌, ◌≤◌, ◌<◌, String, ◌≡◌, refl, sym, ap, subst, ◌∙◌, inl, inr, Bool, true, false,
  Option, none, some, List, [], ◌∷◌, arith, ltb, if◌then◌else◌, ◌==◌, eq_nat, eq_text, Bool-cases,
  Option-cases,
}

-- The instant is that of the first round with a candidate, or there is none in any round.
pub data First (candidate : ℕ → Option ℕ) (fallback rounds i t : ℕ) : Type 0 where
  found :
      (k : ℕ)
      → k < rounds
      → candidate (i + k) ≡ some t
      → ((j : ℕ) → j < k → candidate (i + j) ≡ none)
      → First candidate fallback rounds i t
  exhausted :
      t ≡ fallback
      → ((j : ℕ) → j < rounds → candidate (i + j) ≡ none)
      → First candidate fallback rounds i t

none_from :
    (candidate : ℕ → Option ℕ) (n i : ℕ)
    → candidate i ≡ none
    → ((j : ℕ) → j < n → candidate (i + 1 + j) ≡ none)
    → (j : ℕ) → j < n + 1
    → candidate (i + j) ≡ none
none_from candidate n i here later zero less = ap candidate (omega arith) ∙ here
none_from candidate n i here later (suc j) less = ap candidate (omega arith) ∙ later j (omega arith)

First-later :
    (candidate : ℕ → Option ℕ) (fallback rounds i t : ℕ)
    → candidate i ≡ none
    → First candidate fallback rounds (i + 1) t
    → First candidate fallback (suc rounds) i t
First-later candidate fallback rounds i t here (found k less at before) =
    found (k + 1) (omega arith) (ap candidate (omega arith) ∙ at)
      (none_from candidate k i here before)
First-later candidate fallback rounds i t here (exhausted e before) =
    exhausted e (λ j less. none_from candidate rounds i here before j (omega arith))

search-First :
    (candidate : ℕ → Option ℕ) (fallback rounds i : ℕ)
    → First candidate fallback rounds i (search candidate fallback rounds i)
unfolding search
search-First candidate fallback zero i = exhausted refl (λ j less. absurd (omega arith))
search-First candidate fallback (suc rounds) i = elim (Option-cases (candidate i)) [
  | inl nothing ↦
      rw (nothing, search)
        (First-later candidate fallback rounds i _ nothing
          (search-First candidate fallback rounds (i + 1)))
  | inr (t, here) ↦
      rw (here, search)
        (found 0 (omega arith) (ap candidate (omega arith) ∙ here) (λ j less. absurd (omega arith)))
]

-- Every instant that the option holds lies ahead.
abbrev Ahead : ℕ → Option ℕ → Type 0
Ahead after none = Unit
Ahead after (some t) = after < t

Ahead-sooner :
    (after : ℕ) (a b : Option ℕ) → Ahead after a → Ahead after b → Ahead after (sooner a b)
Ahead-sooner after none none p q = tt
Ahead-sooner after (some a) none p q = p
Ahead-sooner after none (some b) p q = q
Ahead-sooner after (some a) (some b) p q = elim (Bool-cases (ltb b a)) [
  | inl less ↦ rw less q
  | inr other ↦ rw other p
]

Ahead-if_after : (after x : ℕ) → Ahead after (if_after after x)
unfolding if_after
Ahead-if_after after x = ground arith

Ahead-if :
    (after : ℕ) (b : Bool) (o : Option ℕ) → Ahead after o → Ahead after (if b then o else none)
Ahead-if after true o h = h
Ahead-if after false o h = tt

module _ (z : Zone) (r : RecurrenceRule) (after : ℕ) where
  Ahead-weekly_candidate : (d : ℕ) → Ahead after (weekly_candidate z r after d)
  unfolding weekly_candidate
  Ahead-weekly_candidate d = Ahead-if after _ _ (Ahead-if_after after _)

  Ahead-dom_candidate : (i : ℕ) → Ahead after (dom_candidate z r after i)
  unfolding dom_candidate
  Ahead-dom_candidate i = Ahead-if_after after _

  Ahead-anchor_candidate : (i : ℕ) → Ahead after (anchor_candidate z r after i)
  unfolding anchor_candidate
  Ahead-anchor_candidate i = Ahead-if_after after _

  Ahead-day_instant : (m : Civil) (day : Option ℕ) → Ahead after (day_instant z r after m day)
  Ahead-day_instant m none = tt
  Ahead-day_instant m (some day) = Ahead-if_after after _

  Ahead-earliest :
      (m : Civil) (os : List OrdinalOccurrence) (so_far : Option ℕ)
      → Ahead after so_far
      → Ahead after (earliest z r after m os so_far)
  unfolding earliest
  Ahead-earliest m [] so_far h = h
  Ahead-earliest m (o ∷ os) so_far h =
      Ahead-earliest m os _ (Ahead-sooner after so_far _ h (Ahead-day_instant m _))

  Ahead-ordinal_candidate : (i : ℕ) → Ahead after (ordinal_candidate z r after i)
  unfolding ordinal_candidate
  Ahead-ordinal_candidate i = Ahead-earliest _ _ none tt

-- The result of a search all of whose candidates lie ahead lies ahead.
First-Ahead :
    (candidate : ℕ → Option ℕ) (fallback rounds i t after : ℕ)
    → ((k : ℕ) → Ahead after (candidate k))
    → after < fallback
    → First candidate fallback rounds i t
    → after < t
First-Ahead candidate fallback rounds i t after ahead far (found k less at before) =
    subst (Ahead after) at (ahead (i + k))
First-Ahead candidate fallback rounds i t after ahead far (exhausted e before) =
    subst (λ x. after < x) (sym e) far

-- The search of the rule's kind: its rounds, their number, and the years after which it gives up.
abbrev pub candidate_of : Zone → RecurrenceRule → ℕ → ℕ → Option ℕ
candidate_of z r after =
    if trim_space r.kind == "weekly"
    then weekly_candidate z r after
    else if trim_space r.kind == "monthly_dom"
    then dom_candidate z r after
    else if trim_space r.kind == "monthly_anchor_offset"
    then anchor_candidate z r after
    else ordinal_candidate z r after

abbrev pub rounds_of : RecurrenceRule → ℕ
rounds_of r = if trim_space r.kind == "weekly" then 800 else 120

abbrev pub years_of : RecurrenceRule → ℕ
years_of r = if trim_space r.kind == "weekly" then 2 else 10

-- Adding years to an instant gives a later one.
abbrev pub IsForward : Zone → Type 0
IsForward z = (t years : ℕ) → 1 ≤ years → t < z.add_years t years

-- The instant lies ahead, and is the first that the search of the kind meets.
pub record IsNext (z : Zone) (r : RecurrenceRule) (after t : ℕ) : Type 0 where
  pub ahead : after < t
  pub first : First (candidate_of z r after) (z.add_years after (years_of r)) (rounds_of r) 0 t

Ahead-candidate_of :
    (z : Zone) (r : RecurrenceRule) (after i : ℕ) → Ahead after (candidate_of z r after i)
Ahead-candidate_of z r after i = elim (Bool-cases (trim_space r.kind == "weekly")) [
  | inl yes_weekly ↦ rw yes_weekly (Ahead-weekly_candidate z r after i)
  | inr a ↦ elim (Bool-cases (trim_space r.kind == "monthly_dom")) [
    | inl yes_dom ↦ rw (a, yes_dom) (Ahead-dom_candidate z r after i)
    | inr b ↦ elim (Bool-cases (trim_space r.kind == "monthly_anchor_offset")) [
      | inl yes_anchor ↦ rw (a, b, yes_anchor) (Ahead-anchor_candidate z r after i)
      | inr c ↦ rw (a, b, c) (Ahead-ordinal_candidate z r after i)
    ]
  ]
]

-- What `NextOccurrence` computes for a valid rule.
next_of_kind :
    (known_zone : String → Bool) (zone : String → Zone) (r : RecurrenceRule) (after : ℕ)
    → validate_recurrence_rule known_zone r ≡ none
    → let z = zone (trim_space r.timezone) in
      next_occurrence known_zone zone r after
      ≡ ok (search (candidate_of z r after) (z.add_years after (years_of r)) (rounds_of r) 0)
unfolding next_occurrence next_weekly next_monthly_dom next_monthly_anchor_offset
    next_monthly_ordinal_weekday
next_of_kind known_zone zone r after valid = elim (Bool-cases (trim_space r.kind == "weekly")) [
  | inl yes_weekly ↦ rw (valid, yes_weekly, next_occurrence) refl
  | inr a ↦ elim (Bool-cases (trim_space r.kind == "monthly_dom")) [
    | inl yes_dom ↦ rw (valid, a, yes_dom, next_occurrence) refl
    | inr b ↦ elim (Bool-cases (trim_space r.kind == "monthly_anchor_offset")) [
      | inl yes_anchor ↦ rw (valid, a, b, yes_anchor, next_occurrence) refl
      | inr c ↦ rw (valid, a, b, c, next_occurrence) refl
    ]
  ]
]

next_invalid :
    (known_zone : String → Bool) (zone : String → Zone) (r : RecurrenceRule) (after t : ℕ)
    → next_occurrence known_zone zone r after ≡ ok t
    → validate_recurrence_rule known_zone r ≡ none
unfolding next_occurrence
next_invalid known_zone zone r after t h =
    elim (Option-cases (validate_recurrence_rule known_zone r)) [
      | inl valid ↦ valid
      | inr (e, failed) ↦ cc (rw (failed, next_occurrence) at h)
    ]

ok_inj : {a b : ℕ} → ◌≡◌ {A = Result RuleError ℕ} (ok a) (ok b) → a ≡ b
ok_inj h = cc

-- What `NextOccurrence` returns lies strictly after its argument, if adding years leads forward: it
-- is the first candidate of the rule's search (no earlier round has one), or, if no round has one,
-- two or ten years later.
pub next_occurrence-IsNext :
    (known_zone : String → Bool) (zone : String → Zone) (r : RecurrenceRule) (after t : ℕ)
    → IsForward (zone (trim_space r.timezone))
    → next_occurrence known_zone zone r after ≡ ok t
    → IsNext (zone (trim_space r.timezone)) r after t
next_occurrence-IsNext known_zone zone r after t forward h =
    let z = zone (trim_space r.timezone) in
    let valid = next_invalid known_zone zone r after t h in
    let e = ok_inj (sym (next_of_kind known_zone zone r after valid) ∙ h) in
    let first : First (candidate_of z r after) (z.add_years after (years_of r)) (rounds_of r) 0 t =
      subst (λ x. First (candidate_of z r after) (z.add_years after (years_of r)) (rounds_of r) 0 x)
        e
        (search-First (candidate_of z r after) (z.add_years after (years_of r)) (rounds_of r) 0) in
    record {
      ahead =
          First-Ahead (candidate_of z r after) (z.add_years after (years_of r)) (rounds_of r) 0 t
            after (Ahead-candidate_of z r after) (forward after (years_of r) (ground arith)) first;
      first = first;
    }
