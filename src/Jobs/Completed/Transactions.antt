-- ===== src/Jobs/Completed/Transactions.antt =====
-- Every way to end a job claims its row, writes one event and applies or releases at most once.
use goloom.Jobs.{get_ai_job_by_id_global, claim_ai_job_completion, AiJob, AiJobStatus, is_terminal}
use goloom.Jobs.Effects.{
  is_legacy, is_completed, runs_automation, Outcome, Payload, EffectError, Calls, JobAction,
  JobStore, keeps_rss, apply_effects,
}
use goloom.Jobs.Completion.{
  legacy_status, legacy_message, is_lock_failure, persist_completion, claim_and_conclude,
  complete_loaded, after_claim, committed, concluded, complete_ai_job, is_audit_error,
  conclude_completion, completion_action, log_if, is_release, draft_row, failed_row,
}
use goloom.Jobs.Completed.{is_ending, Completed, Completions, here, one}
use goloom.Jobs.Ends.{claim-won, claim-Ends, Ends, update-Ends}
use goloom.Prelude.{
  ℕ, ◌+◌, ◌≤◌, String, ◌≡◌, refl, Bool, true, false, ◌&&◌, Option, none, some, List, arith,
  if◌then◌else◌, if-both, ◌==◌, eq_nat, eq_text, beq_self, count,
}

completion_action-is_ending :
    (automation : Bool) (status : AiJobStatus) (e : Option EffectError)
    → is_ending (completion_action automation status e) ≡ true
unfolding completion_action
completion_action-is_ending automation status e = ground arith

-- Only an effect that was not committed releases an item.
apply_effects-apart :
    (calls : Calls) (job : AiJob) (payload : Payload) (status : AiJobStatus)
    → (apply_effects calls job payload status).applied
        && is_release (keeps_rss job payload) (apply_effects calls job payload status).error
      ≡ false
unfolding apply_effects
apply_effects-apart calls job payload status = ground arith

log_if-count :
    (a b : Bool) (id other : String) (xs ys : List String)
    → a && b ≡ false
    → (count (λ x. x == other) (log_if a id xs) + count (λ x. x == other) (log_if b id ys))
      ≤ (count (λ x. x == other) xs + count (λ x. x == other) ys + (if id == other then 1 else 0))
log_if-count a b id other xs ys apart = ground arith

log_if-other :
    (a b : Bool) (id other : String) (xs ys : List String)
    → (id == other) ≡ false
    → (count (λ x. x == other) (log_if a id xs) + count (λ x. x == other) (log_if b id ys))
      ≡ (count (λ x. x == other) xs + count (λ x. x == other) ys)
log_if-other a b id other xs ys apart = ground arith

draft_row-Ends :
    (now : ℕ) (id : String) (status : AiJobStatus) (message : String) (draft : Option String)
    (jobs jobs' : List AiJob)
    → is_terminal status ≡ true
    → Ends id jobs jobs'
    → Ends id jobs (draft_row now id status message draft jobs')
draft_row-Ends now id status message none jobs jobs' terminal ends = ends
draft_row-Ends now id status message (some own) jobs jobs' terminal ends =
    update-Ends now id status own message jobs jobs' terminal ends

failed_row-Ends :
    (now : ℕ) (id result : String) (automation : Bool) (e : Option EffectError)
    (jobs jobs' : List AiJob)
    → Ends id jobs jobs'
    → Ends id jobs (failed_row now id result automation e jobs')
failed_row-Ends now id result automation none jobs jobs' ends = ends
failed_row-Ends now id result automation (some e) jobs jobs' ends =
    update-Ends now id AiJobStatus.failed result _ jobs jobs' refl ends

-- The transaction as a whole, whatever it came to.
abbrev OfCommit : (JobStore → Type 0) → Option JobStore → Type 0
OfCommit P none = Unit
OfCommit P (some s) = P s

module _ (now : ℕ) (job : AiJob) (payload : Payload) (status : AiJobStatus)
    (result message : String) where
  concluded-Completed :
      (calls : Calls) (claimed : List AiJob) (s : JobStore)
      → is_terminal status ≡ true
      → Ends job.id s.jobs claimed
      → Completed job.id s (
          concluded now job payload status result message
            (apply_effects calls job payload status)
            claimed
            s)
  unfolding concluded
  concluded-Completed calls claimed s terminal ends =
      let o : Outcome = apply_effects calls job payload status in
      let auto : Bool = runs_automation job payload in
      let freed : Bool = is_release (keeps_rss job payload) o.error in
      let apart : o.applied && freed ≡ false = apply_effects-apart calls job payload status in
      let grown = log_if-count o.applied freed job.id job.id s.applied s.released apart in
      record {
        rows =
            failed_row-Ends now job.id _ auto o.error s.jobs _
              (draft_row-Ends now job.id status message o.draft s.jobs claimed terminal ends);
        action = completion_action auto status o.error;
        ending = completion_action-is_ending auto status o.error;
        event = refl;
        same_effects = λ other. log_if-other o.applied freed job.id other s.applied s.released;
        one_effect = simp (beq_self job.id) at grown;
      }

  conclude_completion-Completions :
      (calls : Calls) (claimed : List AiJob) (s : JobStore)
      → is_terminal status ≡ true
      → Ends job.id s.jobs claimed
      → OfCommit (Completions s) (
          conclude_completion now job payload status result message
            (apply_effects calls job payload status)
            claimed
            s)
  unfolding conclude_completion
  conclude_completion-Completions calls claimed s terminal ends =
      let o : Outcome = apply_effects calls job payload status in
      let s' : JobStore = concluded now job payload status result message o claimed s in
      if-both (OfCommit (Completions s)) (is_audit_error o.error) tt
        (one job.id (concluded-Completed calls claimed s terminal ends))

after_claim-Completions :
    (now : ℕ) (id : String) (status : AiJobStatus) (result message : String) (s : JobStore)
    (next_part : List AiJob → Option JobStore)
    → ((jobs : List AiJob)
        → is_terminal status ≡ true
        → Ends id s.jobs jobs
        → OfCommit (Completions s) (next_part jobs))
    → OfCommit
        (Completions s)
        (after_claim next_part s (claim_ai_job_completion now id status result message s.jobs))
after_claim-Completions now id status result message s next_part good =
    let won = claim-Ends now id status result message s.jobs in
    let terminal = claim-won now id status result message s.jobs in
    elim (claim_ai_job_completion now id status result message s.jobs)
        as (λ c.
          ((jobs : List AiJob)
            → c ≡ some (true, jobs)
            → Ends id s.jobs jobs × (is_terminal status ≡ true))
          → OfCommit (Completions s) (after_claim next_part s c)) [
            | none ↦ λ _. tt
            | some (false, jobs) ↦ λ _. here
            | some (true, jobs) ↦ λ w. good jobs (w jobs refl).1 (w jobs refl).0
          ]
      (λ jobs h. (won jobs h, (terminal jobs h).1))

committed-Completions :
    (commits : Bool) (s : JobStore) (o : Option JobStore)
    → OfCommit (Completions s) o
    → Completions s (committed commits s o)
committed-Completions commits s none done = here
committed-Completions true s (some s') done = done
committed-Completions false s (some s') done = here

module _ (payload_of : String → Payload) where
  claim_and_conclude-Completions :
      (now : ℕ) (calls : Calls) (status : AiJobStatus) (result message : String) (s : JobStore)
      (job : AiJob)
      → OfCommit
          (Completions s)
          (claim_and_conclude payload_of now calls status result message s job)
  claim_and_conclude-Completions now calls status result message s job =
      let payload : Payload = payload_of job.payload in
      let status' : AiJobStatus = legacy_status (is_legacy job payload) status in
      let message' : String = legacy_message (is_legacy job payload) message in
      if-both (OfCommit (Completions s)) (runs_automation job payload && is_lock_failure calls.lock)
        tt
        (after_claim-Completions now job.id status' result message' s _ (λ jobs terminal ends.
          conclude_completion-Completions now job payload status' result message' calls jobs s
            terminal ends))

  complete_loaded-Completions :
      (now : ℕ) (calls : Calls) (status : AiJobStatus) (result message : String) (s : JobStore)
      (loaded : Option AiJob)
      → OfCommit
          (Completions s)
          (complete_loaded payload_of now calls status result message s loaded)
  complete_loaded-Completions now calls status result message s none = tt
  complete_loaded-Completions now calls status result message s (some job) =
      claim_and_conclude-Completions now calls status result message s job

  pub complete_ai_job-Completions :
      (now : ℕ) (calls : Calls) (id : String) (status : AiJobStatus) (result message : String)
      (s : JobStore)
      → Completions s (complete_ai_job payload_of now calls id status result message s)
  unfolding complete_ai_job
  complete_ai_job-Completions now calls id status result message s =
      if-both (Completions s) (is_terminal status)
        (committed-Completions calls.commits s _ (
          complete_loaded-Completions now calls status result message s
            (get_ai_job_by_id_global id s.jobs)))
        here

pub persist_completion-Completions :
    (now : ℕ) (commits : Bool) (id : String) (status : AiJobStatus) (result message : String)
    (s : JobStore)
    → Completions s (persist_completion now commits id status result message s)
unfolding persist_completion
persist_completion-Completions now commits id status result message s =
    committed-Completions commits s _ (
      after_claim-Completions now id status result message s _ (λ jobs terminal ends.
        one id (record {
          rows = ends;
          action = if is_completed status then JobAction.complete else JobAction.fail;
          ending = ground arith;
          event = refl;
          same_effects = λ other apart. refl;
          one_effect = omega arith;
        })))
