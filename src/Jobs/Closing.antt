-- ===== src/Jobs/Closing.antt =====
-- Ending a job whose transaction commits closes its row (`persistCompletion` and
-- `RecoverInterrupted` in internal/aijobs/manager.go, `CompleteAIJob` in api/ai_callback.go).
use goloom.Jobs.{
  AiJob, AiJobStatus, is_unfinished, has_id, unfinished, update_where, as_claimed, find_job,
  get_ai_job_by_id_global, claim_ai_job_completion,
}
use goloom.Jobs.Effects.{Payload, EffectError, Calls, JobStore}
use goloom.Jobs.Completion.{is_lock_failure, is_audit_error, persist_completion, complete_ai_job}
use goloom.Jobs.Manager.{Completer, finish}
use goloom.Jobs.Counts.{
  any-count, not_any-count, unfinished-finished, count-finished-claim, count-has_id-update_where,
}
use goloom.Jobs.Completed.{Completed, Completions, here, next}
use goloom.Jobs.Completed.Transactions.{complete_ai_job-Completions}
use goloom.Jobs.Changes.{finish-Completions}
use goloom.Jobs.Sound.{IsSound, Completions-IsSound}
use goloom.Jobs.Lifecycle.{status_life, rows_life, life, broken}
use goloom.Jobs.Outcome.{effect_error, last_status, given_status, complete_ai_job-life, find_job-id}
use goloom.Prelude.{
  ℕ, ◌≤◌, String, ◌≡◌, refl, ap, subst, ◌∙◌, inl, inr, true, false, Option, some, List, [], ◌∷◌,
  arith, ◌==◌, eq_nat, eq_text, eq_of_beq, Bool-cases, any, keep, count,
}

-- No transaction of the completer fails.
abbrev pub Succeeds : (String → Payload) → Completer → Type 0
Succeeds payload_of (Completer.registered calls) =
    (calls.commits ≡ true)
    × (is_lock_failure calls.lock ≡ false)
    × ((job : AiJob)
        → is_audit_error (effect_error payload_of calls AiJobStatus.failed job) ≡ false)
Succeeds payload_of (Completer.unregistered commits) = commits ≡ true

abbrev pub open_rows : String → JobStore → ℕ
open_rows id s = count (unfinished id) s.jobs

abbrev pub all_rows : String → JobStore → ℕ
all_rows id s = count (has_id id) s.jobs

-- Counting the unfinished rows of an id, and counting them among the rows of the id.
count-kept :
    (id : String) (jobs : List AiJob)
    → count (unfinished id) jobs ≡ count (λ job. is_unfinished job.status) (keep (has_id id) jobs)
count-kept id [] = refl
count-kept id (job ∷ jobs) = let rest = count-kept id jobs in grind arith

-- Ending a job opens none, and no row goes.
Completed-open_rows :
    (k id : String) (s s' : JobStore) → Completed k s s' → open_rows id s' ≤ open_rows id s
Completed-open_rows k id s s' done = elim (Bool-cases (k == id)) [
  | inl own ↦
      let split = unfinished-finished k s'.jobs in
      let same = done.rows.same_ids k in
      let all_over = done.rows.all_finished in
      let none_left : open_rows k s' ≤ open_rows k s = omega arith in
      subst (λ i. open_rows i s' ≤ open_rows i s) (eq_of_beq k id own) none_left
  | inr apart ↦
      let same = ap (count (λ job. is_unfinished job.status)) (done.rows.same_rows id apart) in
      let new = count-kept id s'.jobs in let old = count-kept id s.jobs in omega arith
]

pub Completions-open_rows :
    (id : String) (s s' : JobStore)
    → Completions s s'
    → (open_rows id s' ≤ open_rows id s) × (all_rows id s' ≡ all_rows id s)
Completions-open_rows id s s' here = (omega arith, refl)
Completions-open_rows id s s'' (next {s'} k rest done) =
    let (fewer, same) = Completions-open_rows id s s' rest in
    let last = Completed-open_rows k id s' s'' done in (omega arith, done.rows.same_ids id ∙ same)

find_job-skip :
    (id : String) (row : AiJob) (jobs : List AiJob) (job : AiJob)
    → has_id id row ≡ false
    → find_job (has_id id) jobs ≡ some job
    → find_job (has_id id) (row ∷ jobs) ≡ some job
find_job-skip id row jobs job other found = rw other found

-- The row that a completion loads is the unfinished one.
unfinished-loaded :
    (id : String) (jobs : List AiJob)
    → any (unfinished id) jobs ≡ true
    → count (has_id id) jobs ≤ 1
    → (job : AiJob) × (find_job (has_id id) jobs ≡ some job) × (is_unfinished job.status ≡ true)
unfinished-loaded id [] touched single = absurd (cc touched)
unfinished-loaded id (row ∷ jobs) touched single = elim (Bool-cases (has_id id row)) [
  | inl own ↦ elim (Bool-cases (is_unfinished row.status)) [
    | inl open_row ↦ (row, rw own refl, open_row)
    | inr closed ↦
        let split = unfinished-finished id jobs in
        let more = any-count (unfinished id) jobs (grind arith) in absurd (grind arith)
  ]
  | inr other ↦
      let single' = simp other at single in
      let (job, found, open_before) = unfinished-loaded id jobs (grind arith) (omega arith) in
      (job, find_job-skip id row jobs job other found, open_before)
]

-- Where the only row of an id has failed, none is unfinished.
broken-closed :
    (id : String) (jobs : List AiJob)
    → count (has_id id) jobs ≤ 1
    → rows_life (keep (has_id id) jobs) ≡ broken
    → count (unfinished id) jobs ≡ 0
broken-closed id [] single over = refl
broken-closed id (row ∷ jobs) single over = elim (Bool-cases (has_id id row)) [
  | inl own ↦
      let split = unfinished-finished id jobs in
      let failed : status_life row.status ≡ broken = simp own at over in
      let closed : is_unfinished row.status ≡ false = grind arith in grind arith
  | inr other ↦
      let single' = simp other at single in
      let rest = broken-closed id jobs (omega arith) (simp other at over) in grind arith
]

persist_completion-closed :
    (now : ℕ) (id result message : String) (s : JobStore)
    → any (unfinished id) s.jobs ≡ true
    → open_rows id (persist_completion now true id AiJobStatus.failed result message s) ≡ 0
unfolding persist_completion claim_ai_job_completion
persist_completion-closed now id result message s touched =
    let jobs' : List AiJob =
      update_where (unfinished id) (as_claimed now AiJobStatus.failed result message) s.jobs in
    let split = unfinished-finished id jobs' in
    let over = count-finished-claim now id AiJobStatus.failed result message s.jobs refl in
    let same =
      count-has_id-update_where id (unfinished id)
        (as_claimed now AiJobStatus.failed result message) s.jobs (λ _. refl) in
    rw touched (omega arith)

module _ (payload_of : String → Payload) where
  failed_status :
      (calls : Calls) (job : AiJob) (e : Option EffectError)
      → status_life (last_status e (given_status payload_of calls AiJobStatus.failed job)) ≡ broken
  failed_status calls job e = ground arith

  complete_ai_job-closed :
      (now : ℕ) (calls : Calls) (id message : String) (s : JobStore)
      → IsSound s
      → Succeeds payload_of (Completer.registered calls)
      → any (unfinished id) s.jobs ≡ true
      → open_rows id (complete_ai_job payload_of now calls id AiJobStatus.failed "" message s) ≡ 0
  unfolding life get_ai_job_by_id_global
  complete_ai_job-closed now calls id message s sound (commits, locked, audited) touched =
      let (job, found, open_before) = unfinished-loaded id s.jobs touched (sound.single id) in
      let own : job.id ≡ id = find_job-id id s.jobs job found in
      let s' : JobStore = complete_ai_job payload_of now calls id AiJobStatus.failed "" message s in
      let done : Completions s s' =
        complete_ai_job-Completions payload_of now calls id AiJobStatus.failed "" message s in
      let final : life id s' ≡ broken =
        subst
          (λ i.
            get_ai_job_by_id_global i s.jobs ≡ some job
            → life i (complete_ai_job payload_of now calls i AiJobStatus.failed "" message s)
              ≡ broken)
          own
          (λ found'.
            complete_ai_job-life payload_of calls AiJobStatus.failed job now "" message s refl
              found' open_before commits locked (audited job)
            ∙ failed_status calls job _)
          found in
      broken-closed id s'.jobs ((Completions-IsSound s s' done sound).single id) final

  touched-closed :
      (now : ℕ) (completer : Completer) (id message : String) (s : JobStore)
      → IsSound s
      → Succeeds payload_of completer
      → any (unfinished id) s.jobs ≡ true
      → open_rows id (finish payload_of now completer id AiJobStatus.failed "" message s) ≡ 0
  unfolding finish
  touched-closed now (Completer.registered calls) id message s sound good touched =
      complete_ai_job-closed now calls id message s sound good touched
  touched-closed now (Completer.unregistered commits) id message s sound good touched =
      rw good (persist_completion-closed now id "" message s touched)

  -- An end that no transaction fails leaves no row of the id unfinished.
  pub finish-closed :
      (now : ℕ) (completer : Completer) (id message : String) (s : JobStore)
      → IsSound s
      → Succeeds payload_of completer
      → open_rows id (finish payload_of now completer id AiJobStatus.failed "" message s) ≡ 0
  unfolding finish
  finish-closed now completer id message s sound good =
      elim (Bool-cases (any (unfinished id) s.jobs)) [
        | inl touched ↦ touched-closed now completer id message s sound good touched
        | inr untouched ↦
            let (fewer, same) =
              Completions-open_rows id s _
                (finish-Completions payload_of now completer id AiJobStatus.failed "" message s) in
            let zero_before = not_any-count (unfinished id) s.jobs untouched in omega arith
      ]
