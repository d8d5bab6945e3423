-- ===== src/Jobs/Changes.antt =====
-- The steps of the manager's goroutines and of the handlers, in any order, and what each does to
-- the store.
use goloom.Jobs.{
  claim_ai_job_completion, mark_ai_job_processing, AiJob, AiJobStatus, NewAiJob, new_row,
  create_ai_job, waits, has_id, update_where, as_processing,
}
use goloom.Jobs.Effects.{Payload, JobAction, JobStore}
use goloom.Jobs.Manager.{
  started, finish_run, submit_checked, SubmitError, with_execution, Manager, Loads, submit_job,
  Completer, finish, take_slot, give_up, start, end_run, fail_listed, recover_interrupted,
}
use goloom.Jobs.Cancel.{
  cancel_claimed, answer_cancel, cancel_loaded, cancel_one, handle_cancel_ai_job,
  cancel_pending_recurring_ai_jobs,
}
use goloom.Jobs.Completed.{Completed, one, Completions, Completions-append, here}
use goloom.Jobs.Completed.Transactions.{complete_ai_job-Completions, persist_completion-Completions}
use goloom.Jobs.Ends.{Ends, claim-Ends}
use goloom.Prelude.Result.{err, Result, ok}
use goloom.Prelude.{
  ℕ, String, ◌≡◌, refl, subst, inl, inr, Bool, true, false, Option, none, some, List, [], ◌∷◌, ◌++◌,
  arith, if-both, eq_nat, eq_text, beq_self, Bool-cases, any,
}

-- One step of the program: a submission, a goroutine of `execute`, a sweep or a cancellation.
pub data Step (payload_of : String → Payload) (m : Manager) : Manager → Type 0 where
  submitted :
      {job : AiJob} {m' : Manager} (loads : Loads) (fresh : String) (now : ℕ) (input : NewAiJob)
      → submit_job loads fresh now input m ≡ ok (job, m')
      → Step payload_of m m'
  slot_taken : (id : String) → Step payload_of m (take_slot id m)
  gave_up :
      (now : ℕ) (completer : Completer) (id : String)
      → Step payload_of m (give_up payload_of now completer id m)
  run_started : (now : ℕ) (fails : Bool) (id : String) → Step payload_of m (start now fails id m)
  run_ended :
      (now : ℕ) (completer : Completer) (id : String) (outcome : Result String String)
      → Step payload_of m (end_run payload_of now completer id outcome m)
  swept :
      (now stale_after : ℕ) (completers : String → Completer)
      → Step payload_of m (recover_interrupted payload_of now stale_after completers m)
  cancelled :
      (now : ℕ) (team_id id : String)
      → Step payload_of m (handle_cancel_ai_job payload_of now team_id id m).1
  rescheduled :
      (now : ℕ) (jobs : List AiJob)
      → Step payload_of m (cancel_pending_recurring_ai_jobs now jobs m)

-- What a step does to the store: it ends jobs, adds one that waits, or marks one.
pub data Change (s : JobStore) : JobStore → Type 0 where
  ended : {s' : JobStore} → Completions s s' → Change s s'
  added :
      (job : AiJob)
      → any (has_id job.id) s.jobs ≡ false
      → job.status ≡ AiJobStatus.pending
      → job.completed_at ≡ none
      → Change s (record s {
        jobs = s.jobs ++ job ∷ [];
        events = record { job_id = job.id; action = JobAction.submit } ∷ s.events;
      })
  marked :
      (now : ℕ) (id : String)
      → Change s (record s { jobs = update_where (waits id) (as_processing now) s.jobs })

abbrev Changes : Manager → Manager → Type 0
Changes m m' = Change m.store m'.store

unchanged : {s : JobStore} → Change s s
unchanged = ended here

module _ (payload_of : String → Payload) where
  pub finish-Completions :
      (now : ℕ) (completer : Completer) (id : String) (status : AiJobStatus)
      (result message : String) (s : JobStore)
      → Completions s (finish payload_of now completer id status result message s)
  unfolding finish
  finish-Completions now (Completer.registered calls) id status result message s =
      complete_ai_job-Completions payload_of now calls id status result message s
  finish-Completions now (Completer.unregistered commits) id status result message s =
      persist_completion-Completions now commits id status result message s

  pub fail_listed-Completions :
      (now : ℕ) (completers : String → Completer) (jobs : List AiJob) (s : JobStore)
      → Completions s (fail_listed payload_of now completers jobs s)
  fail_listed-Completions now completers [] s = here
  fail_listed-Completions now completers (job ∷ jobs) s = if-both (Completions s) _ here (
      Completions-append
        (finish-Completions now (completers job.id) job.id AiJobStatus.failed "" _ s)
        (fail_listed-Completions now completers jobs _))

abbrev pub OfSubmit : (Manager → Type 0) → Result SubmitError (AiJob × Manager) → Type 0
OfSubmit P (err e) = Unit
OfSubmit P (ok (job, m)) = P m

with_execution-Change :
    (fresh : String) (now : ℕ) (input : NewAiJob) (m : Manager)
    → input.status ≡ some AiJobStatus.pending
    → OfSubmit (Changes m) (with_execution m (create_ai_job fresh now input m.store.jobs))
unfolding create_ai_job new_row
with_execution-Change fresh now input m waiting =
    elim (Bool-cases (any (has_id (new_row fresh now input).id) m.store.jobs)) [
      | inl taken ↦ rw taken tt
      | inr fresh_id ↦ rw fresh_id (added (new_row fresh now input) fresh_id (rw waiting refl) refl)
    ]

submit_checked-Change :
    (fresh : String) (now : ℕ) (input : NewAiJob) (m : Manager) (e : Option SubmitError)
    → OfSubmit (Changes m) (submit_checked fresh now input m e)
submit_checked-Change fresh now input m (some e) = tt
submit_checked-Change fresh now input m none = with_execution-Change fresh now _ m refl

started-Change :
    (now : ℕ) (id : String) (m : Manager) (touched : Bool)
    → Change m.store
        (started id m (touched, update_where (waits id) (as_processing now) m.store.jobs)).store
started-Change now id m true = marked now id
started-Change now id m false = unchanged

start-Change :
    (now : ℕ) (fails : Bool) (id : String) (m : Manager)
    → Change m.store (start now fails id m).store
unfolding start mark_ai_job_processing
start-Change now fails id m =
    if-both (Changes m) _ (if-both (Changes m) fails unchanged (started-Change now id m _))
      unchanged

-- A lost claim changes nothing, and a won one ends the job.
on_claim :
    (now : ℕ) (id : String) (s : JobStore) (P : Option (Bool × List AiJob) → Type 0)
    → P none
    → ((jobs : List AiJob) → P (some (false, jobs)))
    → ((jobs : List AiJob) → Ends id s.jobs jobs → P (some (true, jobs)))
    → P (claim_ai_job_completion now id AiJobStatus.failed "" "cancelled" s.jobs)
on_claim now id s P refused lost won =
    let ends = claim-Ends now id AiJobStatus.failed "" "cancelled" s.jobs in
    elim (claim_ai_job_completion now id AiJobStatus.failed "" "cancelled" s.jobs)
        as (λ c. ((jobs : List AiJob) → c ≡ some (true, jobs) → Ends id s.jobs jobs) → P c) [
          | none ↦ λ _. refused
          | some (false, jobs) ↦ λ _. lost jobs
          | some (true, jobs) ↦ λ w. won jobs (w jobs refl)
        ]
      ends

cancel_one-Completions :
    (now : ℕ) (id : String) (m : Manager)
    → Completions m.store
        (cancel_one id m
          (claim_ai_job_completion now id AiJobStatus.failed "" "cancelled" m.store.jobs)).store
cancel_one-Completions now id m =
    on_claim now id m.store (λ c. Completions m.store (cancel_one id m c).store) here (λ _. here)
      (λ jobs ends. one id (record {
        rows = ends;
        action = JobAction.cancel;
        ending = refl;
        event = refl;
        same_effects = λ other apart. refl;
        one_effect = omega arith;
      }))

recurring-Completions :
    (now : ℕ) (jobs : List AiJob) (m : Manager)
    → Completions m.store (cancel_pending_recurring_ai_jobs now jobs m).store
unfolding cancel_pending_recurring_ai_jobs
recurring-Completions now [] m = here
recurring-Completions now (job ∷ jobs) m =
    Completions-append (cancel_one-Completions now job.id m) (recurring-Completions now jobs _)

module _ (payload_of : String → Payload) where
  cancel_claimed-Completed :
      (job : AiJob) (jobs : List AiJob) (m : Manager)
      → Ends job.id m.store.jobs jobs
      → Completed job.id m.store (cancel_claimed payload_of job jobs m).store
  cancel_claimed-Completed job jobs m ends = record {
    rows = ends;
    action = JobAction.cancel;
    ending = refl;
    event = refl;
    same_effects = λ other apart. grind (arith, apart);
    one_effect = grind (arith, beq_self job.id);
  }

  cancel_loaded-Completions :
      (now : ℕ) (team_id id : String) (m : Manager) (loaded : Option AiJob)
      → Completions m.store (cancel_loaded payload_of now team_id id m loaded).1.store
  cancel_loaded-Completions now team_id id m none = here
  cancel_loaded-Completions now team_id id m (some job) =
      on_claim now job.id m.store
        (λ c. Completions m.store (answer_cancel payload_of team_id id job m c).1.store) here
        (λ _. here) (λ jobs ends. one job.id (cancel_claimed-Completed job jobs m ends))

  end_run-Completions :
      (now : ℕ) (completer : Completer) (id : String) (outcome : Result String String)
      (s : JobStore)
      → Completions s (finish_run payload_of now completer id outcome s)
  end_run-Completions now completer id (ok result) s =
      finish-Completions payload_of now completer id AiJobStatus.completed result "" s
  end_run-Completions now completer id (err message) s =
      finish-Completions payload_of now completer id AiJobStatus.failed "" message s

  pub Step-Change : (m m' : Manager) → Step payload_of m m' → Change m.store m'.store
  unfolding submit_job take_slot give_up end_run recover_interrupted handle_cancel_ai_job
  Step-Change m m' (submitted loads fresh now input h) =
      subst (OfSubmit (Changes m)) h (submit_checked-Change fresh now input m _)
  Step-Change m m' (slot_taken id) = if-both (Changes m) _ unchanged unchanged
  Step-Change m m' (gave_up now completer id) =
      if-both (Changes m) _
        (ended (
          finish-Completions payload_of now completer id AiJobStatus.failed "" "cancelled" m.store))
        unchanged
  Step-Change m m' (run_started now fails id) = start-Change now fails id m
  Step-Change m m' (run_ended now completer id outcome) =
      if-both (Changes m) _ (ended (end_run-Completions now completer id outcome m.store)) unchanged
  Step-Change m m' (swept now stale_after completers) =
      ended (fail_listed-Completions payload_of now completers _ m.store)
  Step-Change m m' (cancelled now team_id id) = ended (cancel_loaded-Completions now team_id id m _)
  Step-Change m m' (rescheduled now jobs) = ended (recurring-Completions now jobs m)
