-- ===== src/Jobs/Finality.antt =====
-- A finished job is never touched again.
use goloom.Jobs.{AiJob, is_terminal, has_id, update_where, waits, as_processing}
use goloom.Jobs.Effects.{Payload, JobStore}
use goloom.Jobs.Counts.{finished}
use goloom.Jobs.Completed.{Completed, Completions, here, next}
use goloom.Jobs.Changes.{Step, Change, ended, added, marked, Step-Change}
use goloom.Jobs.Manager.{Manager}
use goloom.Jobs.Sound.{
  IsSound, own-counts, Completions-IsSound, Reaches, Reaches-IsSound, new_manager,
}
use goloom.Prelude.{
  ℕ, ◌≤◌, String, ◌≡◌, sym, subst, inl, inr, Bool, true, false, List, [], ◌∷◌, arith, ◌==◌, eq_nat,
  eq_text, eq_of_beq, beq_self, Bool-cases, In, count, In-append, In-keep,
}

pub In-count :
    (p : AiJob → Bool) (row : AiJob) (jobs : List AiJob)
    → In row jobs
    → p row ≡ true
    → 1 ≤ count p jobs
In-count p row (job ∷ jobs) (inl e) h = rw (sym e) (rw h (omega arith))
In-count p row (job ∷ jobs) (inr i) h = let rest = In-count p row jobs i h in omega arith
In-count p row [] i h = elim i [ ]

module _ (row : AiJob) (over : is_terminal row.status ≡ true) where
  Completed-In :
      (k : String) (s s' : JobStore) → Completed k s s' → IsSound s → In row s.jobs → In row s'.jobs
  Completed-In k s s' done sound i = elim (Bool-cases (k == row.id)) [
    | inl own ↦
        let zero_before = (own-counts k s s' done sound).0 in
        let same = eq_of_beq k row.id own in
        let one_before = In-count (finished k) row s.jobs i (rw same (rw (beq_self row.id) over)) in
        absurd (omega arith)
    | inr apart ↦
        let kept = (In-keep (has_id row.id) row s.jobs).1 (i, beq_self row.id) in
        ((In-keep (has_id row.id) row s'.jobs).0 (rw (done.rows.same_rows row.id apart) kept)).0
  ]

  Completions-In : (s s' : JobStore) → Completions s s' → IsSound s → In row s.jobs → In row s'.jobs
  Completions-In s s' here sound i = i
  Completions-In s s'' (next {s'} k rest done) sound i =
      Completed-In k s' s'' done (Completions-IsSound s s' rest sound)
        (Completions-In s s' rest sound i)

  mark-In :
      (now : ℕ) (id : String) (jobs : List AiJob)
      → In row jobs
      → In row (update_where (waits id) (as_processing now) jobs)
  mark-In now id (job ∷ jobs) (inl e) =
      let job_over : is_terminal job.status ≡ true =
        subst (λ j. is_terminal j.status ≡ true) e over in
      let still : waits id job ≡ false = grind arith in rw still (inl e)
  mark-In now id (job ∷ jobs) (inr i) = inr (mark-In now id jobs i)
  mark-In now id [] i = elim i [ ]

  Change-In : (s s' : JobStore) → Change s s' → IsSound s → In row s.jobs → In row s'.jobs
  Change-In s s' (ended done) sound i = Completions-In s s' done sound i
  Change-In s s' (added job fresh waiting unstamped) sound i =
      (In-append row s.jobs (job ∷ [])).1 (inl i)
  Change-In s s' (marked now id) sound i = mark-In now id s.jobs i

-- In a reachable state, a row that is completed or failed stays as it is, in all its columns, through
-- every step of a goroutine or a handler.
pub finished_row_stays :
    (payload_of : String → Payload) (slots : ℕ) (m m' : Manager) (row : AiJob)
    → Reaches payload_of (new_manager slots) m
    → In row m.store.jobs
    → is_terminal row.status ≡ true
    → Step payload_of m m'
    → In row m'.store.jobs
finished_row_stays payload_of slots m m' row path i over s =
    Change-In row over m.store m'.store (Step-Change payload_of m m' s)
      (Reaches-IsSound payload_of slots m path) i
