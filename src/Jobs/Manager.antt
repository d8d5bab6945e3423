-- ===== src/Jobs/Manager.antt =====
-- The manager of AI jobs (internal/aijobs/manager.go) and the cancellation handler
-- (api/ai_cancel.go): one execution per submitted job, which waits for a slot, marks its row and
-- runs. Each function is what one goroutine does between two points at which others may act.
use goloom.Strings.{is_blank}
use goloom.Jobs.{
  AiJob, AiJobStatus, NewAiJob, create_ai_job, mark_ai_job_processing, list_unfinished_ai_jobs,
}
use goloom.Jobs.Effects.{Payload, Calls, JobAction, JobStore}
use goloom.Jobs.Completion.{complete_ai_job, persist_completion}
use goloom.Prelude.Result.{Result, ok, err}
use goloom.Prelude.{
  ℕ, ◌-◌, String, Bool, true, false, not, ◌&&◌, ◌||◌, Option, none, some, List, [], ◌∷◌, ltb,
  if◌then◌else◌, ◌==◌, eq_nat, eq_text, any, count,
}

pub data Phase : Type 0 where
  waiting holding running ended : Phase

-- A goroutine of `execute`, and whether its context was cancelled.
pub record Execution : Type 0 where
  pub job_id : String
  pub phase : Phase
  pub cancelled : Bool

-- The manager over its store. `runs` lists the calls of the runner by job, the latest first; the
-- theorems speak of it.
pub record Manager : Type 0 where
  pub store : JobStore
  pub executions : List Execution
  pub slots : ℕ
  pub runs : List String

abbrev pub is_waiting : Phase → Bool
is_waiting Phase.waiting = true
is_waiting _ = false

abbrev pub is_holding : Phase → Bool
is_holding Phase.holding = true
is_holding _ = false

abbrev pub is_running : Phase → Bool
is_running Phase.running = true
is_running _ = false

abbrev pub is_ended : Phase → Bool
is_ended Phase.ended = true
is_ended _ = false

-- The execution takes up a place in the `slots` channel.
abbrev pub has_slot : Execution → Bool
has_slot e = is_holding e.phase || is_running e.phase

-- `SetMaxConcurrent`.
unfoldable pub set_max_concurrent : ℕ → Manager → Manager
set_max_concurrent n m = record m { slots = if ltb n 1 then 1 else n }

-- The goroutine that the test finds takes a step.
abbrev pub update_first :
    (Execution → Bool) → (Execution → Execution) → List Execution → List Execution
update_first p f [] = []
update_first p f (e ∷ es) = if p e then f e ∷ es else e ∷ update_first p f es

abbrev pub in_phase : (Phase → Bool) → String → Execution → Bool
in_phase p id e = e.job_id == id && p e.phase

abbrev pub to_phase : Phase → Execution → Execution
to_phase phase e = record e { phase = phase }

pub data SubmitError : Type 0 where
  not_configured config_failed context_failed bad_payload selection_failed : SubmitError
  create_failed : SubmitError

-- What `SubmitJob` loads before it writes: the API key of the service configuration, or whether it
-- is missing; and whether the context is built, the payload decoded and the selection applied.
pub record Loads : Type 0 where
  pub config : Result Bool String
  pub context_built : Bool
  pub payload_decoded : Bool
  pub selection_applied : Bool
  pub commits : Bool

abbrev check_config : Result Bool String → Option SubmitError
check_config (err true) = some SubmitError.not_configured
check_config (err false) = some SubmitError.config_failed
check_config (ok key) = if is_blank key then some SubmitError.not_configured else none

abbrev check_loads : Loads → Option SubmitError → Option SubmitError
check_loads loads (some e) = some e
check_loads loads none =
    if not loads.context_built
    then some SubmitError.context_failed
    else if not loads.payload_decoded
    then some SubmitError.bad_payload
    else if not loads.selection_applied
    then some SubmitError.selection_failed
    else if not loads.commits
    then some SubmitError.create_failed
    else none

abbrev pub with_execution :
    Manager → Option (AiJob × List AiJob) → Result SubmitError (AiJob × Manager)
with_execution m none = err SubmitError.create_failed
with_execution m (some (job, jobs)) = ok (
  job,
  record m {
    store = record m.store {
      jobs = jobs;
      events = record { job_id = job.id; action = JobAction.submit } ∷ m.store.events;
    };
    executions =
        record { job_id = job.id; phase = Phase.waiting; cancelled = false } ∷ m.executions;
  },
)

abbrev pub submit_checked :
    String → ℕ → NewAiJob → Manager → Option SubmitError → Result SubmitError (AiJob × Manager)
submit_checked fresh now input m (some e) = err e
submit_checked fresh now input m none =
    with_execution m
      (create_ai_job fresh now (record input { status = some AiJobStatus.pending }) m.store.jobs)

unfoldable pub submit_job :
    Loads → String → ℕ → NewAiJob → Manager → Result SubmitError (AiJob × Manager)
submit_job loads fresh now input m =
    submit_checked fresh now input m (check_loads loads (check_config loads.config))

-- How `finish` ends a job: by the registered completer, or in the store alone; whether the
-- transaction commits is given with it.
pub data Completer : Type 0 where
  registered : Calls → Completer
  unregistered : Bool → Completer

abbrev pub waits_cancelled : String → Execution → Bool
waits_cancelled id e = in_phase is_waiting id e && e.cancelled

abbrev pub waits_live : String → Execution → Bool
waits_live id e = in_phase is_waiting id e && not e.cancelled

-- A free slot is taken; nothing happens while all are in use.
unfoldable pub take_slot : String → Manager → Manager
take_slot id m =
    if ltb (count has_slot m.executions) m.slots
    then record m {
      executions = update_first (waits_live id) (to_phase Phase.holding) m.executions;
    }
    else m

abbrev pub start_runner : String → Manager → Manager
start_runner id m = record m {
  executions = update_first (in_phase is_holding id) (to_phase Phase.running) m.executions;
  runs = id ∷ m.runs;
}

abbrev pub skip : String → Manager → Manager
skip id m = record m {
  executions = update_first (in_phase is_holding id) (to_phase Phase.ended) m.executions;
}

abbrev pub started : String → Manager → Bool × List AiJob → Manager
started id m (true, jobs) = start_runner id (record m { store = record m.store { jobs = jobs } })
started id m (false, jobs) = skip id m

-- The row is marked and the runner called. The job runs also if the statement fails.
unfoldable pub start : ℕ → Bool → String → Manager → Manager
start now fails id m =
    if any (in_phase is_holding id) m.executions
    then if fails
      then start_runner id m
      else started id m (mark_ai_job_processing now id m.store.jobs)
    else m

module _ (payload_of : String → Payload) where
  unfoldable pub finish :
      ℕ → Completer → String → AiJobStatus → String → String → JobStore → JobStore
  finish now (registered calls) id status result message s =
      complete_ai_job payload_of now calls id status result message s
  finish now (unregistered commits) id status result message s =
      persist_completion now commits id status result message s

  abbrev pub end_cancelled : ℕ → Completer → String → (Execution → Bool) → Manager → Manager
  end_cancelled now completer id who m = record m {
    store = finish now completer id AiJobStatus.failed "" "cancelled" m.store;
    executions = update_first who (to_phase Phase.ended) m.executions;
  }

  -- A cancelled execution ends, whether it came by a slot or not.
  unfoldable pub give_up : ℕ → Completer → String → Manager → Manager
  give_up now completer id m =
      if any (waits_cancelled id) m.executions
      then end_cancelled now completer id (waits_cancelled id) m
      else m

  -- What the runner gave: a result, or the message of an error.
  abbrev pub finish_run : ℕ → Completer → String → Result String String → JobStore → JobStore
  finish_run now completer id (ok result) s =
      finish now completer id AiJobStatus.completed result "" s
  finish_run now completer id (err message) s =
      finish now completer id AiJobStatus.failed "" message s

  -- The runner returns; the row is completed and the slot released.
  unfoldable pub end_run : ℕ → Completer → String → Result String String → Manager → Manager
  end_run now completer id outcome m =
      if any (in_phase is_running id) m.executions
      then record m {
        store = finish_run now completer id outcome m.store;
        executions = update_first (in_phase is_running id) (to_phase Phase.ended) m.executions;
      }
      else m

  -- `RecoverInterrupted` over the jobs that it listed. Without a completer a failed transaction
  -- ends the sweep.
  abbrev pub fail_interrupted : ℕ → (String → Completer) → AiJob → JobStore → JobStore
  fail_interrupted now completers job s =
      finish now (completers job.id) job.id AiJobStatus.failed "" "interrupted by restart" s

  abbrev pub is_lost : Completer → Bool
  is_lost (registered calls) = false
  is_lost (unregistered commits) = not commits

  abbrev pub fail_listed : ℕ → (String → Completer) → List AiJob → JobStore → JobStore
  fail_listed now completers [] s = s
  fail_listed now completers (job ∷ jobs) s =
      let rest = fail_listed now completers jobs (fail_interrupted now completers job s) in
      if is_lost (completers job.id) then s else rest

  unfoldable pub recover_interrupted : ℕ → ℕ → (String → Completer) → Manager → Manager
  recover_interrupted now stale_after completers m = record m {
    store =
        fail_listed now completers (list_unfinished_ai_jobs (now - stale_after) 1000 m.store.jobs)
          m.store;
  }
