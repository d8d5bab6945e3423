-- ===== src/Scheduling/Occurrences.antt =====
-- What `effectiveOrdinalOccurrences` makes of the pairs of a rule.
use goloom.Scheduling.{
  RecurrenceRule, effective_ordinal_occurrences, OrdinalOccurrence, is_bad_ordinal, is_bad_weekday,
  eq_int, same_occurrence, distinct_occurrences,
}
use goloom.Prelude.Int.{ℤ, pos, negsuc}
use goloom.Prelude.{
  ◌≡◌, refl, ap, ap₂, subst, ◌↔◌, ◌⊎◌, inl, inr, Bool, true, false, ◌||◌, List, [], ◌∷◌, arith,
  eq_nat, eq_text, eq_of_beq, beq_self, and_iff, Bool-cases, is_empty, any, keep, In,
}

eq_int_to : (a b : ℤ) → eq_int a b ≡ true → a ≡ b
unfolding eq_int
eq_int_to (pos m) (pos n) h = ap pos (eq_of_beq m n h)
eq_int_to (pos m) (negsuc n) h = cc
eq_int_to (negsuc m) (pos n) h = cc
eq_int_to (negsuc m) (negsuc n) h = ap negsuc (eq_of_beq m n h)

eq_int_self : (a : ℤ) → eq_int a a ≡ true
unfolding eq_int
eq_int_self (pos n) = beq_self n
eq_int_self (negsuc n) = beq_self n

abbrev pair : ℤ → ℤ → OrdinalOccurrence
pair n wd = record { ordinal = n; weekday = wd }

same_to : (a b : OrdinalOccurrence) → same_occurrence a b ≡ true → a ≡ b
unfolding same_occurrence
same_to a b h =
    let both = (and_iff (eq_int a.ordinal b.ordinal) (eq_int a.weekday b.weekday)).0 h in
    ap₂ pair (eq_int_to a.ordinal b.ordinal both.0) (eq_int_to a.weekday b.weekday both.1)

same_self : (a : OrdinalOccurrence) → same_occurrence a a ≡ true
unfolding same_occurrence
same_self a = rw (eq_int_self a.ordinal, eq_int_self a.weekday) refl

-- The pair has an ordinal and a weekday in range.
abbrev pub InRange : OrdinalOccurrence → Type 0
InRange o = (is_bad_ordinal o.ordinal ≡ false) × (is_bad_weekday o.weekday ≡ false)

-- No pair stands there twice.
abbrev pub DistinctPairs : List OrdinalOccurrence → Type 0
DistinctPairs [] = Unit
DistinctPairs (o ∷ os) = ¬ In o os × DistinctPairs os

-- A round of the loop drops the pair if this holds.
abbrev is_dropped : List OrdinalOccurrence → OrdinalOccurrence → Bool
is_dropped seen o =
    is_bad_ordinal o.ordinal || is_bad_weekday o.weekday || any (same_occurrence o) seen

seen_itself :
    (o : OrdinalOccurrence) (seen : List OrdinalOccurrence)
    → any (same_occurrence o) (o ∷ seen) ≡ false
    → ⊥
seen_itself o seen fresh = let h = same_self o in ground arith

distinct_sound :
    (seen os : List OrdinalOccurrence) (o : OrdinalOccurrence)
    → In o (distinct_occurrences seen os)
    → In o os × InRange o × (any (same_occurrence o) seen ≡ false)
unfolding distinct_occurrences
distinct_sound seen [] o mem = elim mem [ ]
distinct_sound seen (p ∷ os) o mem = elim (Bool-cases (is_dropped seen p)) [
  | inl drop ↦
      let (later, range, fresh) =
        distinct_sound seen os o (rw (drop, distinct_occurrences) at mem) in
      (inr later, range, fresh)
  | inr keep ↦
      let split : (o ≡ p) ⊎ In o (distinct_occurrences (p ∷ seen) os) =
        rw (keep, distinct_occurrences) at mem in
      elim split [
        | inl e ↦ rw e (inl refl, (ground arith, ground arith), ground arith)
        | inr later ↦
            let (there, range, fresh) = distinct_sound (p ∷ seen) os o later in
            (inr there, range, ground arith)
      ]
]

distinct_complete :
    (seen os : List OrdinalOccurrence) (o : OrdinalOccurrence)
    → In o os
    → InRange o
    → any (same_occurrence o) seen ≡ false
    → In o (distinct_occurrences seen os)
unfolding distinct_occurrences
distinct_complete seen [] o mem range fresh = elim mem [ ]
distinct_complete seen (p ∷ os) o (inl e) range fresh =
    let keep : is_dropped seen p ≡ false =
      subst (λ x. is_dropped seen x ≡ false) e (ground arith) in
    rw (keep, distinct_occurrences) (inl e)
distinct_complete seen (p ∷ os) o (inr mem) range fresh = elim (Bool-cases (is_dropped seen p)) [
  | inl drop ↦ rw (drop, distinct_occurrences) (distinct_complete seen os o mem range fresh)
  | inr keep ↦ elim (Bool-cases (same_occurrence o p)) [
    | inl same ↦ rw (keep, distinct_occurrences) (inl (same_to o p same))
    | inr other ↦
        rw (keep, distinct_occurrences)
          (inr (distinct_complete (p ∷ seen) os o mem range (rw other fresh)))
  ]
]

distinct_pairs : (seen os : List OrdinalOccurrence) → DistinctPairs (distinct_occurrences seen os)
unfolding distinct_occurrences
distinct_pairs seen [] = tt
distinct_pairs seen (p ∷ os) = elim (Bool-cases (is_dropped seen p)) [
  | inl drop ↦ rw (drop, distinct_occurrences) (distinct_pairs seen os)
  | inr keep ↦
      rw (keep, distinct_occurrences)
        (
          (λ mem.
              let (_, _, fresh) = distinct_sound (p ∷ seen) os p mem in seen_itself p seen fresh),
          distinct_pairs (p ∷ seen) os,
        )
]

-- The pairs that a rule with a list of pairs runs on are those of the list that are in range, each
-- once.
pub effective_ordinal_occurrences_iff :
    (r : RecurrenceRule)
    → is_empty r.occurrences ≡ false
    → ((o : OrdinalOccurrence)
        → In o (effective_ordinal_occurrences r) ↔ (In o r.occurrences × InRange o))
      × DistinctPairs (effective_ordinal_occurrences r)
unfolding effective_ordinal_occurrences
effective_ordinal_occurrences_iff r some_pair = simp some_pair (
  (λ o. (
    (λ mem. let (there, range, _) = distinct_sound [] r.occurrences o mem in (there, range)),
    λ (mem, range). distinct_complete [] r.occurrences o mem range refl,
  )),
  distinct_pairs [] r.occurrences,
)
