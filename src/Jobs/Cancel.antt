-- ===== src/Jobs/Cancel.antt =====
-- The cancellation of AI jobs: by a user (`handleCancelAIJob` in api/ai_cancel.go), and by a change of
-- a recurring automation (`cancelPendingRecurringAIJobsMatching` in
-- internal/scheduler/template_regenerate.go).
use goloom.Jobs.{AiJob, AiJobStatus, get_ai_job_by_id, claim_ai_job_completion}
use goloom.Jobs.Effects.{Payload, JobAction, is_automation, is_voice_engine}
use goloom.Jobs.Manager.{Execution, Manager, is_ended}
use goloom.Prelude.{
  ℕ, String, Bool, true, false, not, ◌&&◌, Option, none, some, List, [], ◌∷◌, if◌then◌else◌, ◌==◌,
  eq_nat, eq_text,
}

-- `Cancel` of the manager: the context of every execution that has not ended is cancelled.
abbrev pub cancel_execution : String → List Execution → List Execution
cancel_execution id [] = []
cancel_execution id (e ∷ es) =
    (if e.job_id == id && not (is_ended e.phase) then record e { cancelled = true } else e)
    ∷ cancel_execution id es

pub data CancelResponse : Type 0 where
  job_not_found internal_error not_cancellable : CancelResponse
  shown : AiJob → CancelResponse

abbrev is_failed : AiJobStatus → Bool
is_failed AiJobStatus.failed = true
is_failed _ = false

abbrev pub was_cancelled : AiJob → Bool
was_cancelled job = is_failed job.status && job.error_message == "cancelled"

abbrev shown_or : CancelResponse → Option AiJob → CancelResponse
shown_or missing none = missing
shown_or missing (some job) = shown job

-- The answer to a cancellation that came too late.
abbrev pub late_response : Option AiJob → CancelResponse
late_response none = CancelResponse.internal_error
late_response (some job) = if was_cancelled job then shown job else CancelResponse.not_cancellable

module _ (payload_of : String → Payload) where
  abbrev releases_item : AiJob → Bool
  releases_item job =
      is_automation job.origin && is_voice_engine job.type && (payload_of job.payload).rss

  -- What a won cancellation writes: the row, the event and the release of an RSS item; and the
  -- execution is told.
  abbrev pub cancel_claimed : AiJob → List AiJob → Manager → Manager
  cancel_claimed job jobs m = record m {
    store = record m.store {
      jobs = jobs;
      events = record { job_id = job.id; action = JobAction.cancel } ∷ m.store.events;
      released = if releases_item job then job.id ∷ m.store.released else m.store.released;
    };
    executions = cancel_execution job.id m.executions;
  }

  abbrev pub answer_cancel :
      String → String → AiJob → Manager → Option (Bool × List AiJob) → CancelResponse × Manager
  answer_cancel team_id id job m none = (CancelResponse.internal_error, m)
  answer_cancel team_id id job m (some (false, jobs)) =
      (late_response (get_ai_job_by_id team_id id m.store.jobs), m)
  answer_cancel team_id id job m (some (true, jobs)) = (
    shown_or CancelResponse.internal_error (get_ai_job_by_id team_id id jobs),
    cancel_claimed job jobs m,
  )

  abbrev pub cancel_loaded : ℕ → String → String → Manager → Option AiJob → CancelResponse × Manager
  cancel_loaded now team_id id m none = (CancelResponse.job_not_found, m)
  cancel_loaded now team_id id m (some job) =
      answer_cancel team_id id job m
        (claim_ai_job_completion now job.id AiJobStatus.failed "" "cancelled" m.store.jobs)

  unfoldable pub handle_cancel_ai_job : ℕ → String → String → Manager → CancelResponse × Manager
  handle_cancel_ai_job now team_id id m =
      cancel_loaded now team_id id m (get_ai_job_by_id team_id id m.store.jobs)

abbrev pub recurring_claimed : String → List AiJob → Manager → Manager
recurring_claimed id jobs m = record m {
  store = record m.store {
    jobs = jobs;
    events = record { job_id = id; action = JobAction.cancel } ∷ m.store.events;
  };
  executions = cancel_execution id m.executions;
}

abbrev pub cancel_one : String → Manager → Option (Bool × List AiJob) → Manager
cancel_one id m none = m
cancel_one id m (some (false, jobs)) = m
cancel_one id m (some (true, jobs)) = recurring_claimed id jobs m

-- The jobs that `pendingRecurringAIJobs` selected are cancelled one after the other.
unfoldable pub cancel_pending_recurring_ai_jobs : ℕ → List AiJob → Manager → Manager
cancel_pending_recurring_ai_jobs now [] m = m
cancel_pending_recurring_ai_jobs now (job ∷ jobs) m = cancel_pending_recurring_ai_jobs now jobs (
    cancel_one job.id m
      (claim_ai_job_completion now job.id AiJobStatus.failed "" "cancelled" m.store.jobs))
