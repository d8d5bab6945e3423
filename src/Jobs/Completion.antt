-- ===== src/Jobs/Completion.antt =====
-- The end of an AI job: `CompleteAIJob` (api/ai_callback.go), which claims the row and applies the
-- side effects in one transaction, and `persistCompletion` (internal/aijobs/manager.go), which only
-- claims. One reading of the clock stands for those of a transaction.
use goloom.Jobs.Effects.{
  Payload, EffectError, LockError, Calls, JobAction, JobStore, Outcome, is_completed, is_legacy,
  keeps_rss, runs_automation, apply_effects,
}
use goloom.Jobs.{
  AiJob, AiJobStatus, is_terminal, get_ai_job_by_id_global, update_ai_job_status,
  claim_ai_job_completion,
}
use goloom.Prelude.{
  ℕ, String, Bool, true, false, ◌&&◌, Option, none, some, List, ◌∷◌, if◌then◌else◌,
}

abbrev failure_message : Bool → EffectError → String
failure_message automation EffectError.template_fallback =
    "Automation failed: used template fallback"
failure_message automation _ =
    if automation
    then "Automation failed: post could not be created"
    else "Auto-publish failed: post could not be created"

abbrev draft_result : String → Option String → String
draft_result result none = result
draft_result result (some own) = own

abbrev pub draft_row : ℕ → String → AiJobStatus → String → Option String → List AiJob → List AiJob
draft_row now id status message none jobs = jobs
draft_row now id status message (some own) jobs =
    update_ai_job_status now id status own message jobs

abbrev pub failed_row : ℕ → String → String → Bool → Option EffectError → List AiJob → List AiJob
failed_row now id result automation none jobs = jobs
failed_row now id result automation (some e) jobs =
    update_ai_job_status now id AiJobStatus.failed result (failure_message automation e) jobs

-- The action of the audit event, from whether it ran an automation, the status and the error.
unfoldable pub completion_action : Bool → AiJobStatus → Option EffectError → JobAction
completion_action automation status none =
    if is_completed status
    then JobAction.complete
    else if automation
    then JobAction.fallback
    else JobAction.fail
completion_action automation status (some EffectError.template_fallback) =
    if automation then JobAction.fallback else JobAction.fail
completion_action automation status (some e) = JobAction.fail

abbrev pub is_release : Bool → Option EffectError → Bool
is_release rss (some EffectError.not_created) = rss
is_release rss _ = false

abbrev pub is_audit_error : Option EffectError → Bool
is_audit_error (some EffectError.audit) = true
is_audit_error _ = false

abbrev pub log_if : Bool → String → List String → List String
log_if test id log = if test then id ∷ log else log

abbrev stream : Option AiJob → List AiJob → List AiJob
stream none log = log
stream (some job) log = job ∷ log

-- What the transaction has written at its end.
unfoldable pub concluded :
    ℕ → AiJob → Payload → AiJobStatus → String → String → Outcome → List AiJob → JobStore → JobStore
concluded now job payload status result message outcome claimed s =
    let automation = runs_automation job payload in
    let drafted = draft_row now job.id status message outcome.draft claimed in
    let jobs =
      failed_row now job.id (draft_result result outcome.draft) automation outcome.error drafted in
    record {
      jobs = jobs;
      events =
          record { job_id = job.id; action = completion_action automation status outcome.error }
          ∷ s.events;
      applied = log_if outcome.applied job.id s.applied;
      released = log_if (is_release (keeps_rss job payload) outcome.error) job.id s.released;
      streamed = stream (get_ai_job_by_id_global job.id jobs) s.streamed;
    }

-- The rest of the transaction once the row is claimed; `none` rolls it back.
unfoldable pub conclude_completion :
    ℕ
    → AiJob
    → Payload
    → AiJobStatus
    → String
    → String
    → Outcome
    → List AiJob
    → JobStore
    → Option JobStore
conclude_completion now job payload status result message outcome claimed s =
    if is_audit_error outcome.error
    then none
    else some (concluded now job payload status result message outcome claimed s)

abbrev pub legacy_status : Bool → AiJobStatus → AiJobStatus
legacy_status legacy status = if legacy then AiJobStatus.failed else status

abbrev pub legacy_message : Bool → String → String
legacy_message legacy message =
    if legacy then "Automation job from before upgrade; please re-run" else message

abbrev pub is_lock_failure : Option LockError → Bool
is_lock_failure (some LockError.lock_failed) = true
is_lock_failure _ = false

-- A claim that touched no row ends the transaction; one that is refused rolls it back.
abbrev pub after_claim :
    (List AiJob → Option JobStore) → JobStore → Option (Bool × List AiJob) → Option JobStore
after_claim next s none = none
after_claim next s (some (false, jobs)) = some s
after_claim next s (some (true, jobs)) = next jobs

-- The state after a transaction that may roll back.
abbrev pub committed : Bool → JobStore → Option JobStore → JobStore
committed commits s none = s
committed commits s (some s') = if commits then s' else s

module _ (payload_of : String → Payload) where
  abbrev pub claim_and_conclude :
      ℕ → Calls → AiJobStatus → String → String → JobStore → AiJob → Option JobStore
  claim_and_conclude now calls status result message s job =
      let payload = payload_of job.payload in
      let legacy = is_legacy job payload in
      let status' = legacy_status legacy status in
      let message' = legacy_message legacy message in
      if runs_automation job payload && is_lock_failure calls.lock
      then none
      else after_claim
          (λ jobs.
            conclude_completion now job payload status' result message'
              (apply_effects calls job payload status') jobs s)
          s (claim_ai_job_completion now job.id status' result message' s.jobs)

  abbrev pub complete_loaded :
      ℕ → Calls → AiJobStatus → String → String → JobStore → Option AiJob → Option JobStore
  complete_loaded now calls status result message s none = none
  complete_loaded now calls status result message s (some job) =
      claim_and_conclude now calls status result message s job

  unfoldable pub complete_ai_job :
      ℕ → Calls → String → AiJobStatus → String → String → JobStore → JobStore
  complete_ai_job now calls id status result message s =
      if is_terminal status
      then committed calls.commits s
          (complete_loaded now calls status result message s (get_ai_job_by_id_global id s.jobs))
      else s

-- `persistCompletion`, for a manager without a completer.
unfoldable pub persist_completion :
    ℕ → Bool → String → AiJobStatus → String → String → JobStore → JobStore
persist_completion now commits id status result message s = committed commits s (
    after_claim
      (λ jobs. some (record s {
        jobs = jobs;
        events =
            record {
              job_id = id;
              action = if is_completed status then JobAction.complete else JobAction.fail;
            }
            ∷ s.events;
      }))
      s (claim_ai_job_completion now id status result message s.jobs))
