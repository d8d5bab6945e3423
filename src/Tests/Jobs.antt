-- ===== src/Tests/Jobs.antt =====
-- The theorems on AI jobs at one job that is submitted, runs and completes.
use goloom.Jobs.{
  is_terminal, update_ai_job_status, get_ai_job_by_id_global, create_ai_job, has_id,
  mark_ai_job_processing, AiJob, AiJobType, AiJobStatus, AiJobOrigin, NewAiJob, new_row,
  claim_ai_job_completion,
}
use goloom.Jobs.Effects.{
  keeps_rss, names_automation, is_legacy, runs_automation, JobAction, apply_effects, Payload,
  AutoPost, Calls, JobStore,
}
use goloom.Jobs.Manager.{
  Phase, finish, recover_interrupted, Manager, Loads, Completer, submit_job, take_slot, start,
  end_run, has_slot,
}
use goloom.Jobs.Changes.{submitted, slot_taken, run_started, run_ended, swept}
use goloom.Jobs.Sound.{Reaches, initially, step, new_manager, empty_store, IsSound, Reaches-IsSound}
use goloom.Jobs.Lifecycle.{Step-life, life, ◌⟶*◌, status_life}
use goloom.Jobs.Finality.{finished_row_stays}
use goloom.Jobs.Closing.{Succeeds}
use goloom.Jobs.Recovery.{recover_interrupted-life}
use goloom.Jobs.Slots.Bounds.{running_fits, runs_once}
use goloom.Jobs.Outcome.{given_status, last_status, effect_error, complete_ai_job-life}
use goloom.Jobs.Postgres.{
  claim_postgres_ai_job_completion, update_postgres_ai_job_status, stores_agree,
}
use goloom.Prelude.Result.{ok, err}
use goloom.Strings.{trim_space}
use goloom.Jobs.Completion.{concluded, conclude_completion, complete_ai_job, is_audit_error}
use goloom.Prelude.{
  ℕ, ◌≤◌, String, ◌≡◌, refl, inl, true, false, Option, none, some, [], ◌∷◌, arith, if◌then◌else◌,
  ◌==◌, eq_nat, eq_text, In, count,
}

abbrev plain : String → Payload
plain payload = record { rss = false; recurring = false; no_publish = false }

abbrev all_load : Loads
all_load = record {
  config = ok "key";
  context_built = true;
  payload_decoded = true;
  selection_applied = true;
  commits = true;
}

abbrev request : NewAiJob
request = record {
  origin = none;
  id = "";
  team_id = "t";
  author_user_id = "u";
  type = AiJobType.voice_engine;
  status = none;
  payload = "";
}

-- The team publishes results, and the post that the job creates is refused.
abbrev refused_post : Calls
refused_post = record {
  commits = true;
  lock = none;
  perform = λ e. none;
  auto_post = err goloom.Jobs.Effects.other;
  auto_publish_enabled = true;
  draft_status_fails = false;
}

abbrev scheduled_post : Calls
scheduled_post = record refused_post { auto_post = ok AutoPost.scheduled }

abbrev row : AiJobStatus → ℕ → AiJob
row status now = record {
  origin = AiJobOrigin.user;
  id = "j";
  team_id = "t";
  author_user_id = "u";
  type = AiJobType.voice_engine;
  status = status;
  payload = "{}";
  result = "";
  error_message = "";
  created_at = 5;
  updated_at = now;
  completed_at = none;
}

abbrev queued_manager : Manager
queued_manager = record (new_manager 2) {
  store = record empty_store {
    jobs = row AiJobStatus.pending 5 ∷ [];
    events = record { job_id = "j"; action = JobAction.submit } ∷ [];
  };
  executions = record { job_id = "j"; phase = Phase.waiting; cancelled = false } ∷ [];
}

request-queued :
    submit_job all_load "j" 5 request (new_manager 2)
    ≡ ok (row AiJobStatus.pending 5, queued_manager)
unfolding submit_job create_ai_job new_row goloom.Strings.is_blank
request-queued = refl

abbrev completer : Completer
completer = Completer.registered scheduled_post

abbrev running_manager : Manager
running_manager = start 6 false "j" (take_slot "j" queued_manager)

abbrev ended_manager : Manager
ended_manager = end_run plain 7 completer "j" (ok "text") running_manager

abbrev running-Reaches : Reaches plain (new_manager 2) running_manager
running-Reaches =
    step (step (step initially (submitted all_load "j" 5 request request-queued)) (slot_taken "j"))
      (run_started 6 false "j")

abbrev ended-Reaches : Reaches plain (new_manager 2) ended_manager
ended-Reaches = step running-Reaches (run_ended 7 completer "j" (ok "text"))

abbrev last_row : AiJob
last_row = record (row AiJobStatus.completed 7) { result = "text"; completed_at = some 7 }

ended-rows : ended_manager.store.jobs ≡ last_row ∷ []
unfolding take_slot start end_run mark_ai_job_processing finish complete_ai_job
    get_ai_job_by_id_global claim_ai_job_completion conclude_completion concluded apply_effects
    names_automation is_legacy keeps_rss runs_automation goloom.Strings.trim_space
ended-rows = refl

running-rows : running_manager.store.jobs ≡ row AiJobStatus.processing 6 ∷ []
unfolding take_slot start mark_ai_job_processing
running-rows = refl

completer-Succeeds : Succeeds plain completer
unfolding apply_effects runs_automation is_legacy names_automation
completer-Succeeds = (refl, refl, λ job. ground arith)

Reaches-IsSound_example : IsSound ended_manager.store
Reaches-IsSound_example = Reaches-IsSound plain 2 ended_manager ended-Reaches

finished_row_stays_example :
    In last_row (recover_interrupted plain 9000 720 (λ id. completer) ended_manager).store.jobs
finished_row_stays_example =
    finished_row_stays plain 2 ended_manager
      (recover_interrupted plain 9000 720 (λ id. completer) ended_manager) last_row ended-Reaches
      (rw ended-rows (inl refl)) refl (swept 9000 720 (λ id. completer))

-- The process dies while the job runs; the sweep after a restart fails the job.
recover_interrupted-life_example :
    (status : AiJobStatus) × (is_terminal status ≡ true)
    × (life "j" (recover_interrupted plain 9000 720 (λ id. completer) running_manager).store
        ≡ status_life status)
recover_interrupted-life_example =
    recover_interrupted-life plain 2 9000 720 (λ id. completer) running_manager
      (row AiJobStatus.processing 6) running-Reaches (λ id. completer-Succeeds)
      (rw running-rows (omega arith)) (rw running-rows (inl refl)) refl

Step-life_example : life "j" running_manager.store ⟶* life "j" ended_manager.store
Step-life_example =
    Step-life plain 2 running_manager ended_manager running-Reaches
      (run_ended 7 completer "j" (ok "text")) "j"

running_fits_example : count has_slot running_manager.executions ≤ 2
running_fits_example = running_fits plain 2 running_manager running-Reaches

runs_once_example :
    (count (λ x. x == "j") ended_manager.runs ≤ 1)
    × (count (λ x. x == "j") ended_manager.runs ≤ count (has_id "j") ended_manager.store.jobs)
runs_once_example = runs_once plain 2 ended_manager "j" ended-Reaches

abbrev processing_store : JobStore
processing_store = record empty_store { jobs = row AiJobStatus.processing 6 ∷ [] }

row-found : get_ai_job_by_id_global "j" processing_store.jobs ≡ some (row AiJobStatus.processing 6)
unfolding get_ai_job_by_id_global
row-found = refl

effects-refused :
    is_audit_error
      (effect_error plain refused_post AiJobStatus.completed (row AiJobStatus.processing 6))
    ≡ false
unfolding apply_effects runs_automation is_legacy names_automation
effects-refused = refl

complete_ai_job-life_example :
    life "j"
      (complete_ai_job plain 7 refused_post "j" AiJobStatus.completed "text" "" processing_store)
    ≡ status_life (
        last_status
          (effect_error plain refused_post AiJobStatus.completed (row AiJobStatus.processing 6))
          (given_status plain refused_post AiJobStatus.completed (row AiJobStatus.processing 6)))
complete_ai_job-life_example =
    complete_ai_job-life plain refused_post AiJobStatus.completed (row AiJobStatus.processing 6) 7
      "text" "" processing_store refl row-found refl refl refl effects-refused

cancelled-trimmed : trim_space "cancelled" ≡ "cancelled"
unfolding trim_space
cancelled-trimmed = refl

empty-trimmed : trim_space "" ≡ ""
unfolding trim_space
empty-trimmed = refl

-- The column prints an array with a space after each comma.
abbrev to_jsonb : String → Option String
to_jsonb text = if text == "[1,2]" then some "[1, 2]" else none

abbrev printed_row : AiJob
printed_row = record (row AiJobStatus.completed 7) { result = "[1, 2]"; completed_at = some 7 }

row-claimed :
    claim_ai_job_completion 7 "j" AiJobStatus.completed "[1, 2]" "" processing_store.jobs
    ≡ some (true, printed_row ∷ [])
unfolding claim_ai_job_completion goloom.Strings.trim_space
row-claimed = refl

stores_agree_example :
    (claim_postgres_ai_job_completion to_jsonb 7 "j" AiJobStatus.completed "[1,2]" ""
        processing_store.jobs
      ≡ some (true, printed_row ∷ []))
    × (update_postgres_ai_job_status to_jsonb 7 "j" AiJobStatus.failed "[1,2]" "cancelled"
          (printed_row ∷ [])
        ≡ some
            (update_ai_job_status 7 "j" AiJobStatus.failed "[1, 2]" "cancelled" (printed_row ∷ [])))
stores_agree_example =
    stores_agree to_jsonb 7 "j" AiJobStatus.completed AiJobStatus.failed "[1,2]" "[1, 2]" "[1,2]"
      "[1, 2]" "" "cancelled" processing_store.jobs (printed_row ∷ []) refl refl (omega arith)
      row-claimed refl empty-trimmed cancelled-trimmed (λ h. h)
