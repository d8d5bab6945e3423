-- ===== src/Jobs.antt =====
-- AI jobs: the rows of the store (internal/store/sqlite/ai.go and, where it differs,
-- internal/store/postgres/ai.go) and their updates. Each SQL statement is one function on the
-- table; a time is a number, and a null text is "".
pub mod Effects
pub mod Completion
pub mod Manager
pub mod Cancel
pub mod Counts
pub mod Ends
pub mod Completed
pub mod Changes
pub mod Sound
pub mod Lifecycle
pub mod Finality
pub mod Slots
pub mod Outcome
pub mod Closing
pub mod Recovery
pub mod Postgres
use goloom.Strings.{trim_space}
use goloom.Prelude.{
  ℕ, String, Bool, true, false, ◌&&◌, Option, none, some, List, [], ◌∷◌, ◌++◌, ltb, if◌then◌else◌,
  ◌==◌, eq_nat, eq_text, any, keep, take,
}

pub data AiJobType : Type 0 where
  voice_engine campaign_autopilot proactive_trigger profile_analysis : AiJobType
  vibe_preview profile_assistant : AiJobType

pub data AiJobStatus : Type 0 where
  pending processing completed failed : AiJobStatus

pub data AiJobOrigin : Type 0 where
  user automation preview : AiJobOrigin

pub record AiJob : Type 0 where
  pub origin : AiJobOrigin
  pub id : String
  pub team_id : String
  pub author_user_id : String
  pub type : AiJobType
  pub status : AiJobStatus
  pub payload : String
  pub result : String
  pub error_message : String
  pub created_at : ℕ
  pub updated_at : ℕ
  pub completed_at : Option ℕ

-- `status in ('pending','processing')`.
abbrev pub is_unfinished : AiJobStatus → Bool
is_unfinished AiJobStatus.pending = true
is_unfinished AiJobStatus.processing = true
is_unfinished _ = false

abbrev pub is_terminal : AiJobStatus → Bool
is_terminal AiJobStatus.completed = true
is_terminal AiJobStatus.failed = true
is_terminal _ = false

abbrev pub is_pending : AiJobStatus → Bool
is_pending AiJobStatus.pending = true
is_pending _ = false

-- `where id = ?`.
abbrev pub has_id : String → AiJob → Bool
has_id id job = job.id == id

abbrev pub waits : String → AiJob → Bool
waits id job = has_id id job && is_pending job.status

abbrev pub unfinished : String → AiJob → Bool
unfinished id job = has_id id job && is_unfinished job.status

-- `update ai_jobs set … where …`.
abbrev pub update_where : (AiJob → Bool) → (AiJob → AiJob) → List AiJob → List AiJob
update_where p f [] = []
update_where p f (job ∷ jobs) = (if p job then f job else job) ∷ update_where p f jobs

abbrev or_default : String → String → String
or_default default text = if text == "" then default else text

-- What `CreateAIJob` is given: an empty id, origin or status stands for the default.
pub record NewAiJob : Type 0 where
  pub origin : Option AiJobOrigin
  pub id : String
  pub team_id : String
  pub author_user_id : String
  pub type : AiJobType
  pub status : Option AiJobStatus
  pub payload : String

abbrev or_user : Option AiJobOrigin → AiJobOrigin
or_user none = AiJobOrigin.user
or_user (some origin) = origin

abbrev or_pending : Option AiJobStatus → AiJobStatus
or_pending none = AiJobStatus.pending
or_pending (some status) = status

unfoldable pub new_row : String → ℕ → NewAiJob → AiJob
new_row fresh now input = record {
  origin = or_user input.origin;
  id = or_default fresh input.id;
  team_id = input.team_id;
  author_user_id = input.author_user_id;
  type = input.type;
  status = or_pending input.status;
  payload = or_default "{}" input.payload;
  result = "";
  error_message = "";
  created_at = now;
  updated_at = now;
  completed_at = none;
}

-- The primary key refuses an id that is taken.
unfoldable pub create_ai_job : String → ℕ → NewAiJob → List AiJob → Option (AiJob × List AiJob)
create_ai_job fresh now input jobs =
    let job = new_row fresh now input in
    if any (has_id job.id) jobs then none else some (job, jobs ++ job ∷ [])

abbrev pub find_job : (AiJob → Bool) → List AiJob → Option AiJob
find_job p [] = none
find_job p (job ∷ jobs) = if p job then some job else find_job p jobs

unfoldable pub get_ai_job_by_id_global : String → List AiJob → Option AiJob
get_ai_job_by_id_global id jobs = find_job (has_id id) jobs

unfoldable pub get_ai_job_by_id : String → String → List AiJob → Option AiJob
get_ai_job_by_id team_id id jobs = find_job (λ job. job.team_id == team_id && has_id id job) jobs

abbrev completion_time : AiJobStatus → ℕ → Option ℕ
completion_time status now = if is_terminal status then some now else none

abbrev pub with_status : ℕ → AiJobStatus → String → String → AiJob → AiJob
with_status now status result error_message job = record job {
  status = status;
  result = result;
  error_message = trim_space error_message;
  updated_at = now;
  completed_at = completion_time status now;
}

unfoldable pub update_ai_job_status :
    ℕ → String → AiJobStatus → String → String → List AiJob → List AiJob
update_ai_job_status now id status result error_message jobs =
    update_where (has_id id) (with_status now status result error_message) jobs

abbrev pub as_processing : ℕ → AiJob → AiJob
as_processing now job = record job { status = AiJobStatus.processing; updated_at = now }

-- Whether a row was touched, and the table.
unfoldable pub mark_ai_job_processing : ℕ → String → List AiJob → Bool × List AiJob
mark_ai_job_processing now id jobs =
    (any (waits id) jobs, update_where (waits id) (as_processing now) jobs)

-- A new row stands last, so the order of the table is that of the creation.
unfoldable pub list_unfinished_ai_jobs : ℕ → ℕ → List AiJob → List AiJob
list_unfinished_ai_jobs older_than limit jobs =
    take limit (keep (λ job. is_unfinished job.status && ltb job.updated_at older_than) jobs)

abbrev pub as_claimed : ℕ → AiJobStatus → String → String → AiJob → AiJob
as_claimed now status result error_message job = record job {
  status = status;
  result = result;
  error_message = trim_space error_message;
  updated_at = now;
  completed_at = some now;
}

-- A status that is not terminal is an error; otherwise whether a row was touched, and the table.
unfoldable pub claim_ai_job_completion :
    ℕ → String → AiJobStatus → String → String → List AiJob → Option (Bool × List AiJob)
claim_ai_job_completion now id status result error_message jobs =
    if is_terminal status
    then some (
      any (unfinished id) jobs,
      update_where (unfinished id) (as_claimed now status result error_message) jobs,
    )
    else none
