-- ===== src/Locks.antt =====
-- The named locks by which the instances of the program take turns: `TryAcquireLock`
-- (internal/store/sqlite/tokens_metrics.go), one statement on the table job_locks.
use goloom.Prelude.{
  ℕ, suc, ◌+◌, ◌≤◌, ◌<◌, String, ◌≡◌, refl, sym, subst, inl, inr, Bool, true, false, List, [], ◌∷◌,
  arith, ltb, if◌then◌else◌, ◌==◌, eq_nat, eq_text, eq_of_beq, beq_self, ne_of_beq, Bool-cases, All,
}

-- A row of job_locks.
pub record Lock : Type 0 where
  pub lock_id : String
  pub locked_at : ℕ
  pub expires_at : ℕ

abbrev pub taken : ℕ → ℕ → String → Lock
taken now duration lock_id = record {
  lock_id = lock_id;
  locked_at = now;
  expires_at = now + duration;
}

abbrev pub after_row : Lock → Bool × List Lock → Bool × List Lock
after_row row (acquired, rows) = (acquired, row ∷ rows)

-- A lock that is free or has expired is taken; the key makes each id appear at most once.
unfoldable pub try_acquire_lock : ℕ → ℕ → String → List Lock → Bool × List Lock
try_acquire_lock now duration lock_id [] = (true, taken now duration lock_id ∷ [])
try_acquire_lock now duration lock_id (row ∷ rows) =
    let rest = try_acquire_lock now duration lock_id rows in
    if row.lock_id == lock_id
    then if ltb row.expires_at now
      then (true, taken now duration lock_id ∷ rows)
      else (false, row ∷ rows)
    else after_row row rest

-- One call of `TryAcquireLock`, and the calls of all instances in the order in which the database
-- serves them; the leases that were granted are collected, the latest first.
pub record Attempt : Type 0 where
  pub now : ℕ
  pub duration : ℕ
  pub lock_id : String

abbrev pub granted : Attempt → Bool → List Lock → List Lock
granted a acquired leases = if acquired then taken a.now a.duration a.lock_id ∷ leases else leases

unfoldable pub attempts : List Attempt → List Lock → List Lock → List Lock
attempts [] rows leases = leases
attempts (a ∷ rest) rows leases =
    let (acquired, rows') = try_acquire_lock a.now a.duration a.lock_id rows in
    attempts rest rows' (granted a acquired leases)

-- The time from which the lock of this id is free, 0 if it was never taken.
abbrev free_from : String → List Lock → ℕ
free_from id [] = 0
free_from id (row ∷ rows) = if row.lock_id == id then suc row.expires_at else free_from id rows

-- A lease that begins after an earlier one of the same lock has ended.
abbrev pub Later : Lock → Lock → Type 0
Later new old = old.lock_id ≡ new.lock_id → old.expires_at < new.locked_at

abbrev pub Disjoint : List Lock → Type 0
Disjoint [] = Unit
Disjoint (lease ∷ leases) = All (Later lease) leases × Disjoint leases

-- The table knows the end of every lease.
abbrev Covered : List Lock → Lock → Type 0
Covered rows lease = lease.expires_at < free_from lease.lock_id rows

try-other :
    (now duration : ℕ) (lock_id other : String) (rows : List Lock)
    → (lock_id == other) ≡ false
    → free_from other (try_acquire_lock now duration lock_id rows).1 ≡ free_from other rows
unfolding try_acquire_lock
try-other now duration lock_id other [] apart = rw apart refl
try-other now duration lock_id other (row ∷ rows) apart =
    grind (arith, eq_of_beq row.lock_id lock_id, try-other now duration lock_id other rows apart)

try-own :
    (now duration : ℕ) (lock_id : String) (rows : List Lock)
    → (try_acquire_lock now duration lock_id rows).0 ≡ true
    → (free_from lock_id rows ≤ now)
      × (free_from lock_id (try_acquire_lock now duration lock_id rows).1 ≡ suc (now + duration))
unfolding try_acquire_lock
try-own now duration lock_id [] won = (omega arith, rw (beq_self lock_id) refl)
try-own now duration lock_id (row ∷ rows) won =
    grind (arith, beq_self lock_id, try-own now duration lock_id rows)

try-lost :
    (now duration : ℕ) (lock_id : String) (rows : List Lock)
    → (try_acquire_lock now duration lock_id rows).0 ≡ false
    → (try_acquire_lock now duration lock_id rows).1 ≡ rows
unfolding try_acquire_lock
try-lost now duration lock_id [] lost = absurd (cc lost)
try-lost now duration lock_id (row ∷ rows) lost = grind (arith, try-lost now duration lock_id rows)

-- A table that covers the leases still does after a lease of this id was added at the end of the last.
Covered-kept :
    (now duration : ℕ) (lock_id : String) (rows : List Lock) (leases : List Lock)
    → (try_acquire_lock now duration lock_id rows).0 ≡ true
    → All (Covered rows) leases
    → All (Covered (try_acquire_lock now duration lock_id rows).1) leases
      × All (Later (taken now duration lock_id)) leases
Covered-kept now duration lock_id rows [] won covered = (tt, tt)
Covered-kept now duration lock_id rows (lease ∷ leases) won covered =
    let (rest, later) = Covered-kept now duration lock_id rows leases won covered.1 in
    let here : lease.expires_at < free_from lease.lock_id rows = covered.0 in
    let (was_free, now_taken) = try-own now duration lock_id rows won in
    elim (Bool-cases (lock_id == lease.lock_id)) [
      | inl own ↦
          let same = eq_of_beq lock_id lease.lock_id own in
          let before : lease.expires_at < free_from lock_id rows =
            subst (λ id. lease.expires_at < free_from id rows) (sym same) here in
          (
            (
              subst
                  (λ id.
                    lease.expires_at < free_from id (try_acquire_lock now duration lock_id rows).1)
                  same (omega arith),
              rest,
            ),
            ((λ _. omega arith), later),
          )
      | inr apart ↦
          let kept = try-other now duration lock_id lease.lock_id rows apart in
          (
            (rw kept here, rest),
            ((λ same. absurd (ne_of_beq lock_id lease.lock_id apart (sym same))), later),
          )
    ]

attempts-Disjoint :
    (calls : List Attempt) (rows leases : List Lock)
    → All (Covered rows) leases
    → Disjoint leases
    → Disjoint (attempts calls rows leases)
unfolding attempts
attempts-Disjoint [] rows leases covered disjoint = disjoint
attempts-Disjoint (a ∷ rest) rows leases covered disjoint =
    elim (Bool-cases (try_acquire_lock a.now a.duration a.lock_id rows).0) [
      | inl won ↦
          let (kept, later) = Covered-kept a.now a.duration a.lock_id rows leases won covered in
          let (_, now_taken) = try-own a.now a.duration a.lock_id rows won in
          rw won (
            attempts-Disjoint rest _ (taken a.now a.duration a.lock_id ∷ leases)
              (rw now_taken (omega arith), kept) (later, disjoint))
      | inr lost ↦ rw lost (
          attempts-Disjoint rest _ leases
            (rw (try-lost a.now a.duration a.lock_id rows lost) covered) disjoint)
    ]

-- Whatever calls of `TryAcquireLock` are made, with whatever clocks, on a table without locks: of two
-- leases of the same lock that were granted, the later begins after the earlier has ended.
pub leases-Disjoint : (calls : List Attempt) → Disjoint (attempts calls [] [])
leases-Disjoint calls = attempts-Disjoint calls [] [] tt tt
