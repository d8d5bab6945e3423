-- ===== src/Jobs/Slots/Bounds.antt =====
-- How many executions run at once, and how often a job runs.
use goloom.Jobs.{waits, AiJob, ℕ, has_id, as_processing, NewAiJob, new_row, create_ai_job}
use goloom.Jobs.Manager.{
  is_running, waits_cancelled, Loads, submit_job, Completer, recover_interrupted, end_run, give_up,
  submit_checked, with_execution, SubmitError, in_phase, Phase, Manager, has_slot,
}
use goloom.Jobs.Effects.{Payload, JobStore}
use goloom.Jobs.Cancel.{handle_cancel_ai_job}
use goloom.Jobs.Counts.{count-has_id-update_where}
use goloom.Jobs.Completed.{Completions, here, next}
use goloom.Prelude.Result.{Result}
use goloom.Jobs.Sound.{Reaches, Reaches-IsSound, initially, step, new_manager}
use goloom.Prelude.{
  ℕ, ◌≤◌, String, ◌≡◌, refl, subst, ◌∙◌, inl, inr, false, Option, none, some, [], ◌∷◌, ◌++◌, arith,
  if-both, ◌==◌, eq_nat, eq_text, Bool-cases, any, count, count-append,
}
use goloom.Jobs.Slots.{IsOrderly}
use goloom.Jobs.Changes.{
  OfSubmit, Step, Step-Change, Change, ended, added, marked, submitted, slot_taken, gave_up,
  run_started, run_ended, swept, cancelled, rescheduled,
}
use goloom.Jobs.Slots.Keeps.{
  Keeps, Keeps-same, moved, unchanged, take_slot-Keeps, start-Keeps, recurring-Keeps,
  cancel_loaded-Keeps,
}

Completions-rows :
    (id : String) (s s' : JobStore)
    → Completions s s'
    → count (has_id id) s'.jobs ≡ count (has_id id) s.jobs
Completions-rows id s s' here = refl
Completions-rows id s s'' (next {s'} k rest over) =
    over.rows.same_ids id ∙ Completions-rows id s s' rest

-- A step never takes away a row.
Change-rows :
    (id : String) (s s' : JobStore)
    → Change s s'
    → count (has_id id) s.jobs ≤ count (has_id id) s'.jobs
Change-rows id s s' (ended done) = rw (Completions-rows id s s' done) (omega arith)
Change-rows id s s' (added job fresh waiting unstamped) =
    let sum = count-append (has_id id) s.jobs (job ∷ []) in omega arith
Change-rows id s s' (marked now k) =
    let same = count-has_id-update_where id (waits k) (as_processing now) s.jobs (λ _. refl) in
    omega arith

IsOrderly-Keeps :
    (slots : ℕ) (m m' : Manager)
    → Keeps m m'
    → ((id : String) → count (has_id id) m.store.jobs ≤ count (has_id id) m'.store.jobs)
    → IsOrderly slots m
    → IsOrderly slots m'
IsOrderly-Keeps slots m m' keeps more orderly = record {
  total = keeps.same_slots ∙ orderly.total;
  fits = rw (keeps.same_slots) (keeps.still_fits orderly.fits);
  one_run = λ id.
      let runs = keeps.same_runs id in
      let rows = more id in let limit = orderly.one_run id in omega arith;
}

-- A submission brings a row and the execution for it.
added-IsOrderly :
    (slots : ℕ) (m : Manager) (job : AiJob) (s : JobStore)
    → s.jobs ≡ m.store.jobs ++ job ∷ []
    → IsOrderly slots m
    → IsOrderly slots (record m {
      store = s;
      executions =
          record { job_id = job.id; phase = Phase.waiting; cancelled = false } ∷ m.executions;
    })
added-IsOrderly slots m job s jobs orderly = record {
  total = orderly.total;
  fits = let fits = orderly.fits in omega arith;
  one_run = λ id.
      let sum = count-append (has_id id) m.store.jobs (job ∷ []) in
      let limit = orderly.one_run id in rw jobs (grind arith);
}

with_execution-IsOrderly :
    (slots : ℕ) (fresh : String) (now : ℕ) (input : NewAiJob) (m : Manager)
    → IsOrderly slots m
    → OfSubmit (IsOrderly slots) (with_execution m (create_ai_job fresh now input m.store.jobs))
unfolding create_ai_job
with_execution-IsOrderly slots fresh now input m orderly =
    elim (Bool-cases (any (has_id (new_row fresh now input).id) m.store.jobs)) [
      | inl taken ↦ rw taken tt
      | inr fresh_id ↦
          rw fresh_id (added-IsOrderly slots m (new_row fresh now input) _ refl orderly)
    ]

submit_checked-IsOrderly :
    (slots : ℕ) (fresh : String) (now : ℕ) (input : NewAiJob) (m : Manager) (e : Option SubmitError)
    → IsOrderly slots m
    → OfSubmit (IsOrderly slots) (submit_checked fresh now input m e)
submit_checked-IsOrderly slots fresh now input m (some e) orderly = tt
submit_checked-IsOrderly slots fresh now input m none orderly =
    with_execution-IsOrderly slots fresh now _ m orderly

submit_job-IsOrderly :
    (slots : ℕ) (loads : Loads) (fresh : String) (now : ℕ) (input : NewAiJob) (m : Manager)
    → IsOrderly slots m
    → OfSubmit (IsOrderly slots) (submit_job loads fresh now input m)
unfolding submit_job
submit_job-IsOrderly slots loads fresh now input m orderly =
    submit_checked-IsOrderly slots fresh now input m _ orderly

module _ (payload_of : String → Payload) where
  give_up-Keeps :
      (now : ℕ) (completer : Completer) (id : String) (m : Manager)
      → Keeps m (give_up payload_of now completer id m)
  unfolding give_up
  give_up-Keeps now completer id m =
      if-both (Keeps m) (any (waits_cancelled id) m.executions)
        (moved m _ (waits_cancelled id) Phase.ended (λ e waiting slot. ground arith)
          (λ other e waiting run. ground arith))
        (unchanged m)

  end_run-Keeps :
      (now : ℕ) (completer : Completer) (id : String) (outcome : Result String String) (m : Manager)
      → Keeps m (end_run payload_of now completer id outcome m)
  unfolding end_run
  end_run-Keeps now completer id outcome m =
      if-both (Keeps m) (any (in_phase is_running id) m.executions)
        (moved m _ (in_phase is_running id) Phase.ended (λ e running slot. ground arith)
          (λ other e running run. ground arith))
        (unchanged m)

  by_Keeps :
      (slots : ℕ) (m m' : Manager)
      → Step payload_of m m'
      → Keeps m m'
      → IsOrderly slots m
      → IsOrderly slots m'
  by_Keeps slots m m' s keeps orderly =
      IsOrderly-Keeps slots m m' keeps
        (λ id. Change-rows id m.store m'.store (Step-Change payload_of m m' s)) orderly

  Step-IsOrderly :
      (slots : ℕ) (m m' : Manager) → Step payload_of m m' → IsOrderly slots m → IsOrderly slots m'
  unfolding recover_interrupted handle_cancel_ai_job
  Step-IsOrderly slots m m' (submitted loads fresh now input h) orderly =
      subst (OfSubmit (IsOrderly slots)) h
        (submit_job-IsOrderly slots loads fresh now input m orderly)
  Step-IsOrderly slots m m' (slot_taken id) orderly =
      by_Keeps slots m m' (slot_taken id) (take_slot-Keeps id m) orderly
  Step-IsOrderly slots m m' (gave_up now completer id) orderly =
      by_Keeps slots m m' (gave_up now completer id) (give_up-Keeps now completer id m) orderly
  Step-IsOrderly slots m m' (run_started now fails id) orderly =
      by_Keeps slots m m' (run_started now fails id) (start-Keeps now fails id m) orderly
  Step-IsOrderly slots m m' (run_ended now completer id outcome) orderly =
      by_Keeps slots m m' (run_ended now completer id outcome)
        (end_run-Keeps now completer id outcome m) orderly
  Step-IsOrderly slots m m' (swept now stale_after completers) orderly =
      by_Keeps slots m m' (swept now stale_after completers) (Keeps-same m m' refl refl refl)
        orderly
  Step-IsOrderly slots m m' (cancelled now team_id id) orderly =
      by_Keeps slots m m' (cancelled now team_id id)
        (cancel_loaded-Keeps payload_of now team_id id m _) orderly
  Step-IsOrderly slots m m' (rescheduled now jobs) orderly =
      by_Keeps slots m m' (rescheduled now jobs) (recurring-Keeps now jobs m) orderly

  Reaches-IsOrderly :
      (slots : ℕ) (m : Manager) → Reaches payload_of (new_manager slots) m → IsOrderly slots m
  Reaches-IsOrderly slots m initially = record {
    total = refl;
    fits = omega arith;
    one_run = λ id. omega arith;
  }
  Reaches-IsOrderly slots m (step {m'} path s) =
      Step-IsOrderly slots m' m s (Reaches-IsOrderly slots m' path)

  -- In every reachable state, the executions that hold a slot or run number at most the slots that
  -- the manager was made with.
  pub running_fits :
      (slots : ℕ) (m : Manager)
      → Reaches payload_of (new_manager slots) m
      → count has_slot m.executions ≤ slots
  running_fits slots m path =
      let orderly = Reaches-IsOrderly slots m path in
      let total = orderly.total in let fits = orderly.fits in omega arith

  -- In every reachable state, the runner was called at most once for each id, and only for an id that
  -- has a row.
  pub runs_once :
      (slots : ℕ) (m : Manager) (id : String)
      → Reaches payload_of (new_manager slots) m
      → (count (λ x. x == id) m.runs ≤ 1)
        × (count (λ x. x == id) m.runs ≤ count (has_id id) m.store.jobs)
  runs_once slots m id path =
      let runs = (Reaches-IsOrderly slots m path).one_run id in
      let single = (Reaches-IsSound payload_of slots m path).single id in (omega arith, omega arith)
