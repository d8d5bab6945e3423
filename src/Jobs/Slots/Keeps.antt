-- ===== src/Jobs/Slots/Keeps.antt =====
-- The steps of the executions, one by one.
use goloom.Jobs.{AiJobStatus, mark_ai_job_processing, waits, AiJob, ℕ, claim_ai_job_completion}
use goloom.Jobs.Manager.{
  to_phase, start_runner, started, waits_live, in_phase, Phase, take_slot, start, Execution,
  Manager, has_slot, is_holding, update_first,
}
use goloom.Jobs.Effects.{Payload, JobStore}
use goloom.Jobs.Cancel.{
  cancel_one, answer_cancel, cancel_loaded, cancel_pending_recurring_ai_jobs, cancel_execution,
}
use goloom.Prelude.{
  ℕ, ◌+◌, ◌≤◌, String, ◌≡◌, refl, subst, ◌∙◌, inl, inr, Bool, true, false, Option, none, some, List,
  [], ◌∷◌, arith, ltb, if-both, if-split, ◌==◌, eq_nat, eq_text, eq_of_beq, beq_self, Bool-cases,
  any, count,
}
use goloom.Jobs.Slots.{
  may_run, count-update_first-le, count-update_first-one, count-update_first-drop,
  count-cancel_execution,
}

-- A step keeps the number of slots and takes no more of them than there are; it starts the runner
-- only for an execution that may run.
pub record Keeps (m m' : Manager) : Type 0 where
  pub same_slots : m'.slots ≡ m.slots
  pub still_fits : count has_slot m.executions ≤ m.slots → count has_slot m'.executions ≤ m.slots
  pub same_runs :
      (id : String)
      → count (λ x. x == id) m'.runs + count (may_run id) m'.executions
        ≤ count (λ x. x == id) m.runs + count (may_run id) m.executions

pub Keeps-same :
    (m m' : Manager)
    → m'.slots ≡ m.slots
    → m'.runs ≡ m.runs
    → m'.executions ≡ m.executions
    → Keeps m m'
Keeps-same m m' slots runs executions = record {
  same_slots = slots;
  still_fits = λ fits. rw executions fits;
  same_runs = λ id. rw (runs, executions) (omega arith);
}

-- An execution that steps on without a new slot or a run.
pub moved :
    (m : Manager) (s : JobStore) (p : Execution → Bool) (phase : Phase)
    → ((e : Execution) → p e ≡ true → has_slot (to_phase phase e) ≡ true → has_slot e ≡ true)
    → ((id : String) (e : Execution)
        → p e ≡ true
        → may_run id (to_phase phase e) ≡ true
        → may_run id e ≡ true)
    → Keeps m (record m { store = s; executions = update_first p (to_phase phase) m.executions })
moved m s p phase slot run = record {
  same_slots = refl;
  still_fits = λ fits.
      let less = count-update_first-le has_slot p (to_phase phase) m.executions slot in omega arith;
  same_runs = λ id.
      let less = count-update_first-le (may_run id) p (to_phase phase) m.executions (run id) in
      omega arith;
}

pub unchanged : (m : Manager) → Keeps m m
unchanged m = Keeps-same m m refl refl refl

pub take_slot-Keeps : (id : String) (m : Manager) → Keeps m (take_slot id m)
unfolding take_slot
take_slot-Keeps id m =
    if-split (Keeps m) (ltb (count has_slot m.executions) m.slots)
      (λ free. record {
        same_slots = refl;
        still_fits = λ fits.
            let more =
              count-update_first-one has_slot (waits_live id) (to_phase Phase.holding)
                m.executions in
            let room : count has_slot m.executions + 1 ≤ m.slots = ground arith in omega arith;
        same_runs = λ other.
            let less =
              count-update_first-le (may_run other) (waits_live id) (to_phase Phase.holding)
                m.executions (λ e waiting run. ground arith) in
            omega arith;
      })
      (λ full. unchanged m)

-- The runner is called for an execution that held its slot, and may not run again.
start_runner-Keeps :
    (id : String) (m : Manager) (s : JobStore)
    → any (in_phase is_holding id) m.executions ≡ true
    → Keeps m (start_runner id (record m { store = s }))
start_runner-Keeps id m s holds = record {
  same_slots = refl;
  still_fits = λ fits.
      let less =
        count-update_first-le has_slot (in_phase is_holding id) (to_phase Phase.running)
          m.executions (λ e holding slot. ground arith) in
      omega arith;
  same_runs = λ other. elim (Bool-cases (id == other)) [
    | inl own ↦
        let fewer =
          count-update_first-drop (may_run id) (in_phase is_holding id) (to_phase Phase.running)
            m.executions holds (λ e holding. ground arith) (λ e holding. ground arith) in
        subst
          (λ o.
            count (λ x. x == o) (id ∷ m.runs)
              + count (may_run o)
                  (update_first (in_phase is_holding id) (to_phase Phase.running) m.executions)
            ≤ count (λ x. x == o) m.runs + count (may_run o) m.executions)
          (eq_of_beq id other own) (rw (beq_self id) (omega arith))
    | inr apart ↦
        let less =
          count-update_first-le (may_run other) (in_phase is_holding id) (to_phase Phase.running)
            m.executions (λ e holding run. ground arith) in
        rw apart (omega arith)
  ];
}

started-Keeps :
    (id : String) (m : Manager) (touched : Bool) (jobs : List AiJob)
    → any (in_phase is_holding id) m.executions ≡ true
    → Keeps m (started id m (touched, jobs))
started-Keeps id m true jobs holds = start_runner-Keeps id m _ holds
started-Keeps id m false jobs holds =
    moved m m.store (in_phase is_holding id) Phase.ended (λ e holding slot. ground arith)
      (λ other e holding run. ground arith)

pub start-Keeps :
    (now : ℕ) (fails : Bool) (id : String) (m : Manager) → Keeps m (start now fails id m)
unfolding start mark_ai_job_processing
start-Keeps now fails id m =
    if-split (Keeps m) (any (in_phase is_holding id) m.executions)
      (λ holds.
        if-both (Keeps m) fails (start_runner-Keeps id m m.store holds)
          (started-Keeps id m (any (waits id) m.store.jobs) _ holds))
      (λ none_holds. unchanged m)

cancelled-Keeps :
    (id : String) (m : Manager) (s : JobStore)
    → Keeps m (record m { store = s; executions = cancel_execution id m.executions })
cancelled-Keeps id m s = record {
  same_slots = refl;
  still_fits = λ fits. rw (count-cancel_execution has_slot id m.executions (λ e. refl)) fits;
  same_runs = λ other.
      rw (count-cancel_execution (may_run other) id m.executions (λ e. refl)) (omega arith);
}

Keeps-trans : (m m' m'' : Manager) → Keeps m m' → Keeps m' m'' → Keeps m m''
Keeps-trans m m' m'' first second = record {
  same_slots = second.same_slots ∙ first.same_slots;
  still_fits = λ fits.
      rw⁻¹ (first.same_slots) (second.still_fits (rw (first.same_slots) (first.still_fits fits)));
  same_runs = λ id. let one = first.same_runs id in let two = second.same_runs id in omega arith;
}

cancel_one-Keeps :
    (id : String) (m : Manager) (claim : Option (Bool × List AiJob))
    → Keeps m (cancel_one id m claim)
cancel_one-Keeps id m none = unchanged m
cancel_one-Keeps id m (some (false, jobs)) = unchanged m
cancel_one-Keeps id m (some (true, jobs)) = cancelled-Keeps id m _

pub recurring-Keeps :
    (now : ℕ) (jobs : List AiJob) (m : Manager)
    → Keeps m (cancel_pending_recurring_ai_jobs now jobs m)
unfolding cancel_pending_recurring_ai_jobs
recurring-Keeps now [] m = unchanged m
recurring-Keeps now (job ∷ jobs) m =
    Keeps-trans m _ _
      (cancel_one-Keeps job.id m
        (claim_ai_job_completion now job.id AiJobStatus.failed "" "cancelled" m.store.jobs))
      (recurring-Keeps now jobs _)

module _ (payload_of : String → Payload) where
  answer_cancel-Keeps :
      (team_id id : String) (job : AiJob) (m : Manager) (claim : Option (Bool × List AiJob))
      → Keeps m (answer_cancel payload_of team_id id job m claim).1
  answer_cancel-Keeps team_id id job m none = unchanged m
  answer_cancel-Keeps team_id id job m (some (false, jobs)) = unchanged m
  answer_cancel-Keeps team_id id job m (some (true, jobs)) = cancelled-Keeps job.id m _

  pub cancel_loaded-Keeps :
      (now : ℕ) (team_id id : String) (m : Manager) (loaded : Option AiJob)
      → Keeps m (cancel_loaded payload_of now team_id id m loaded).1
  cancel_loaded-Keeps now team_id id m none = unchanged m
  cancel_loaded-Keeps now team_id id m (some job) =
      answer_cancel-Keeps team_id id job m
        (claim_ai_job_completion now job.id AiJobStatus.failed "" "cancelled" m.store.jobs)
