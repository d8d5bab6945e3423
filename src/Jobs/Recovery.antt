-- ===== src/Jobs/Recovery.antt =====
-- The sweep that fails the jobs of a process that died (`RecoverInterrupted`,
-- internal/aijobs/manager.go).
use goloom.Jobs.{AiJob, AiJobStatus, is_terminal, is_unfinished, has_id, list_unfinished_ai_jobs}
use goloom.Jobs.Effects.{Payload, JobStore}
use goloom.Jobs.Manager.{
  Manager, Completer, is_lost, fail_interrupted, fail_listed, recover_interrupted,
}
use goloom.Jobs.Counts.{unfinished-finished}
use goloom.Jobs.Completed.{Completions}
use goloom.Jobs.Changes.{finish-Completions, fail_listed-Completions}
use goloom.Jobs.Sound.{IsSound, Completions-IsSound, Reaches, Reaches-IsSound, new_manager}
use goloom.Jobs.Lifecycle.{status_life, life, rows_life-passing}
use goloom.Jobs.Finality.{In-count}
use goloom.Jobs.Closing.{Succeeds, open_rows, Completions-open_rows, finish-closed}
use goloom.Prelude.{
  ℕ, zero, suc, ◌-◌, ◌≤◌, String, ◌≡◌, refl, sym, ap, subst, inl, inr, Bool, true, false, ◌&&◌,
  List, [], ◌∷◌, arith, ltb, eq_nat, eq_text, beq_self, keep, In, count, take, In-keep,
}

take-all : (n : ℕ) (jobs : List AiJob) → count (λ _. true) jobs ≤ n → take n jobs ≡ jobs
take-all zero [] fits = refl
take-all (suc n) [] fits = refl
take-all zero (job ∷ jobs) fits = absurd (omega arith)
take-all (suc n) (job ∷ jobs) fits = ap (λ xs. job ∷ xs) (take-all n jobs (omega arith))

count-keep : (p : AiJob → Bool) (jobs : List AiJob) → count (λ _. true) (keep p jobs) ≡ count p jobs
count-keep p [] = refl
count-keep p (job ∷ jobs) = let rest = count-keep p jobs in grind arith

-- What the sweep of a given time looks for.
abbrev pub is_stale : ℕ → AiJob → Bool
is_stale older_than job = is_unfinished job.status && ltb job.updated_at older_than

list_unfinished_ai_jobs-In :
    (older_than limit : ℕ) (jobs : List AiJob) (row : AiJob)
    → count (is_stale older_than) jobs ≤ limit
    → In row jobs
    → is_stale older_than row ≡ true
    → In row (list_unfinished_ai_jobs older_than limit jobs)
unfolding list_unfinished_ai_jobs
list_unfinished_ai_jobs-In older_than limit jobs row fits i stale =
    let same = count-keep (is_stale older_than) jobs in
    subst (λ xs. In row xs) (sym (take-all limit (keep (is_stale older_than) jobs) (omega arith)))
      ((In-keep (is_stale older_than) row jobs).1 (i, stale))

module _ (payload_of : String → Payload) where
  not_lost :
      (completer : Completer) → Succeeds payload_of completer → is_lost payload_of completer ≡ false
  not_lost (Completer.registered calls) good = refl
  not_lost (Completer.unregistered commits) good = rw good refl

  fail_listed-closed :
      (now : ℕ) (completers : String → Completer) (jobs : List AiJob) (s : JobStore) (row : AiJob)
      → IsSound s
      → ((id : String) → Succeeds payload_of (completers id))
      → In row jobs
      → open_rows row.id (fail_listed payload_of now completers jobs s) ≡ 0
  fail_listed-closed now completers [] s row sound good i = elim i [ ]
  fail_listed-closed now completers (job ∷ jobs) s row sound good i =
      let s' : JobStore = fail_interrupted payload_of now completers job s in
      let done : Completions s s' =
        finish-Completions payload_of now (completers job.id) job.id AiJobStatus.failed "" _ s in
      rw (not_lost (completers job.id) (good job.id)) (elim i [
        | inl e ↦
            let closed : open_rows job.id s' ≡ 0 =
              finish-closed payload_of now (completers job.id) job.id _ s sound (good job.id) in
            let (fewer, same) =
              Completions-open_rows job.id s' _
                (fail_listed-Completions payload_of now completers jobs s') in
            let own : open_rows job.id (fail_listed payload_of now completers jobs s') ≡ 0 =
              omega arith in
            subst (λ j. open_rows j.id (fail_listed payload_of now completers jobs s') ≡ 0) (sym e)
              own
        | inr rest ↦
            fail_listed-closed now completers jobs s' row (Completions-IsSound s s' done sound) good
              rest
      ])

  -- In a reachable state with at most 1000 stale jobs, a sweep of which no transaction fails leaves
  -- each of them finished, as completed or failed.
  pub recover_interrupted-life :
      (slots now stale_after : ℕ) (completers : String → Completer) (m : Manager) (row : AiJob)
      → Reaches payload_of (new_manager slots) m
      → ((id : String) → Succeeds payload_of (completers id))
      → count (is_stale (now - stale_after)) m.store.jobs ≤ 1000
      → In row m.store.jobs
      → is_stale (now - stale_after) row ≡ true
      → (status : AiJobStatus) × (is_terminal status ≡ true)
        × (life row.id (recover_interrupted payload_of now stale_after completers m).store
            ≡ status_life status)
  unfolding recover_interrupted life
  recover_interrupted-life slots now stale_after completers m row path good fits i stale =
      let s : JobStore = m.store in
      let sound : IsSound s = Reaches-IsSound payload_of slots m path in
      let listed : List AiJob = list_unfinished_ai_jobs (now - stale_after) 1000 s.jobs in
      let s' : JobStore = fail_listed payload_of now completers listed s in
      let closed : open_rows row.id s' ≡ 0 =
        fail_listed-closed now completers listed s row sound good
          (list_unfinished_ai_jobs-In (now - stale_after) 1000 s.jobs row fits i stale) in
      let (fewer, same) =
        Completions-open_rows row.id s s'
          (fail_listed-Completions payload_of now completers listed s) in
      let there = In-count (has_id row.id) row s.jobs i (beq_self row.id) in
      let split = unfinished-finished row.id s'.jobs in
      rows_life-passing row.id is_terminal s'.jobs (omega arith) (omega arith)
