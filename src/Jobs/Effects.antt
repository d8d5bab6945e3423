-- ===== src/Jobs/Effects.antt =====
-- The side effects of a finished AI job (api/ai_callback.go). They are calls into other parts: what
-- each came to is given.
use goloom.Jobs.{AiJob, AiJobType, AiJobStatus, AiJobOrigin}
use goloom.Prelude.Result.{Result, ok, err}
use goloom.Prelude.{
  String, Bool, true, false, not, ◌&&◌, ◌||◌, Option, none, some, List, if◌then◌else◌,
}

-- A call that a completion makes to create a post.
pub data Effect : Type 0 where
  rss_from_ai rss_fallback recurring_from_ai recurring_fallback auto_create : Effect

-- What a job's payload says to the completion: which automation it belongs to, and whether its
-- result may be published (`parseRSSAutomationMeta`, `parseRecurringAutomationMeta`,
-- `noPublishFromJobPayload`).
pub record Payload : Type 0 where
  pub rss : Bool
  pub recurring : Bool
  pub no_publish : Bool

pub data EffectError : Type 0 where
  audit template_fallback not_created other : EffectError

pub data LockError : Type 0 where
  not_found lock_failed : LockError

-- What `autoCreatePostFromCallbackResult` came to: a result without content, a scheduled post, or
-- a draft with the result that says so.
pub data AutoPost : Type 0 where
  nothing scheduled : AutoPost
  saved_draft : String → AutoPost

-- What the calls of one completion come to. `commits` is false if a statement fails that has no
-- other way out than to roll the transaction back, or if the context has ended.
pub record Calls : Type 0 where
  pub commits : Bool
  pub lock : Option LockError
  pub perform : Effect → Option EffectError
  pub auto_post : Result EffectError AutoPost
  pub auto_publish_enabled : Bool
  pub draft_status_fails : Bool

pub data JobAction : Type 0 where
  submit complete fail fallback cancel : JobAction

-- An audit event of a job, by its action.
pub record JobEvent : Type 0 where
  pub job_id : String
  pub action : JobAction

-- The rows and events of the jobs; the effects that were committed, the releases of an RSS item
-- (`ReleaseRSSItemAttempt`) and the events that went to the hub, each by the job's id, the latest
-- first. The three logs are no state of the program: the theorems speak of them.
pub record JobStore : Type 0 where
  pub jobs : List AiJob
  pub events : List JobEvent
  pub applied : List String
  pub released : List String
  pub streamed : List AiJob

abbrev pub is_automation : AiJobOrigin → Bool
is_automation AiJobOrigin.automation = true
is_automation _ = false

abbrev pub is_preview : AiJobOrigin → Bool
is_preview AiJobOrigin.preview = true
is_preview _ = false

abbrev pub is_voice_engine : AiJobType → Bool
is_voice_engine AiJobType.voice_engine = true
is_voice_engine _ = false

abbrev pub is_completed : AiJobStatus → Bool
is_completed AiJobStatus.completed = true
is_completed _ = false

-- A preview's payload names no automation.
unfoldable pub names_automation : AiJob → Payload → Bool
names_automation job payload = not (is_preview job.origin) && (payload.rss || payload.recurring)

-- Automation metadata that the server did not write.
unfoldable pub is_legacy : AiJob → Payload → Bool
is_legacy job payload = not (is_automation job.origin) && names_automation job payload

unfoldable pub keeps_rss : AiJob → Payload → Bool
keeps_rss job payload = payload.rss && not (is_preview job.origin) && not (is_legacy job payload)

unfoldable pub runs_automation : AiJob → Payload → Bool
runs_automation job payload =
    is_voice_engine job.type && names_automation job payload && not (is_legacy job payload)

-- What the effects came to: their error, whether they were committed, and the result of a draft.
pub record Outcome : Type 0 where
  pub error : Option EffectError
  pub applied : Bool
  pub draft : Option String

abbrev no_effect : Outcome
no_effect = record { error = none; applied = false; draft = none }

abbrev failed_effect : EffectError → Outcome
failed_effect e = record { error = some e; applied = false; draft = none }

-- The nested transaction keeps what a fallback wrote, and rolls back after any other error.
abbrev performed : Option EffectError → Outcome
performed none = record { error = none; applied = true; draft = none }
performed (some EffectError.template_fallback) = record {
  error = some EffectError.template_fallback;
  applied = true;
  draft = none;
}
performed (some e) = failed_effect e

abbrev auto_performed : Bool → Result EffectError AutoPost → Outcome
auto_performed status_fails (err e) = failed_effect e
auto_performed status_fails (ok AutoPost.nothing) = no_effect
auto_performed status_fails (ok AutoPost.scheduled) = record {
  error = none;
  applied = true;
  draft = none;
}
auto_performed true (ok (AutoPost.saved_draft result)) = failed_effect EffectError.other
auto_performed false (ok (AutoPost.saved_draft result)) = record {
  error = none;
  applied = true;
  draft = some result;
}

abbrev automation_effect : Payload → AiJobStatus → Effect
automation_effect payload status =
    if payload.rss
    then if is_completed status then Effect.rss_from_ai else Effect.rss_fallback
    else if is_completed status
    then Effect.recurring_from_ai
    else Effect.recurring_fallback

abbrev locked_effect : Calls → Payload → AiJobStatus → Option LockError → Outcome
locked_effect calls payload status (some e) = failed_effect EffectError.other
locked_effect calls payload status none =
    performed (calls.perform (automation_effect payload status))

-- The switch of `CompleteAIJob`.
unfoldable pub apply_effects : Calls → AiJob → Payload → AiJobStatus → Outcome
apply_effects calls job payload status =
    if runs_automation job payload
    then locked_effect calls payload status calls.lock
    else if is_preview job.origin
    then no_effect
    else if is_completed status && not payload.no_publish && calls.auto_publish_enabled
    then auto_performed calls.draft_status_fails calls.auto_post
    else no_effect
