-- ===== src/Jobs/Outcome.antt =====
-- What `CompleteAIJob` makes of an unfinished job.
use goloom.Jobs.{
  AiJob, AiJobStatus, is_terminal, is_unfinished, has_id, unfinished, update_where, find_job,
  as_claimed, with_status, get_ai_job_by_id_global, claim_ai_job_completion, update_ai_job_status,
}
use goloom.Jobs.Effects.{
  Payload, EffectError, Calls, JobStore, is_legacy, runs_automation, apply_effects,
}
use goloom.Jobs.Completion.{
  legacy_status, legacy_message, is_lock_failure, concluded, conclude_completion, complete_ai_job,
  is_audit_error, draft_row, failed_row, claim_and_conclude,
}
use goloom.Jobs.Lifecycle.{status_life, rows_life, life}
use goloom.Prelude.{
  ℕ, String, ◌≡◌, refl, sym, ap, subst, ◌∙◌, inl, inr, Bool, true, false, ◌&&◌, Option, none, some,
  List, [], ◌∷◌, arith, eq_nat, eq_text, eq_of_beq, Bool-cases, any, keep,
}

-- The first row with the id.
claimed-life :
    (now : ℕ) (id : String) (status : AiJobStatus) (result message : String) (jobs : List AiJob)
    (job : AiJob)
    → find_job (has_id id) jobs ≡ some job
    → is_unfinished job.status ≡ true
    → (any (unfinished id) jobs ≡ true)
      × (rows_life (
            keep
              (has_id id)
              (update_where (unfinished id) (as_claimed now status result message) jobs))
          ≡ status_life status)
claimed-life now id status result message [] job found open_before = absurd (cc found)
claimed-life now id status result message (row ∷ jobs) job found open_before =
    elim (Bool-cases (has_id id row)) [
      | inl own ↦
          let open_row : unfinished id row ≡ true = grind arith in
          (rw open_row refl, rw open_row (rw own refl))
      | inr other ↦
          let closed : unfinished id row ≡ false = rw other refl in
          let (touched, e) =
            claimed-life now id status result message jobs job (simp other at found) open_before in
          (rw closed touched, rw closed (rw other e))
    ]

updated-life :
    (now : ℕ) (id : String) (status : AiJobStatus) (result message : String) (jobs : List AiJob)
    (old : AiJobStatus)
    → rows_life (keep (has_id id) jobs) ≡ status_life old
    → rows_life
        (keep (has_id id) (update_where (has_id id) (with_status now status result message) jobs))
      ≡ status_life status
updated-life now id status result message [] old some_row = absurd (grind arith)
updated-life now id status result message (row ∷ jobs) old some_row =
    elim (Bool-cases (has_id id row)) [
      | inl own ↦ rw own (rw own refl)
      | inr other ↦
          rw other
            (rw other (updated-life now id status result message jobs old (simp other at some_row)))
    ]

drafted-life :
    (now : ℕ) (id : String) (status : AiJobStatus) (message : String) (draft : Option String)
    (jobs : List AiJob)
    → rows_life (keep (has_id id) jobs) ≡ status_life status
    → rows_life (keep (has_id id) (draft_row now id status message draft jobs)) ≡ status_life status
unfolding update_ai_job_status
drafted-life now id status message none jobs e = e
drafted-life now id status message (some own) jobs e =
    updated-life now id status own message jobs status e

-- The status that the transaction leaves.
abbrev pub last_status : Option EffectError → AiJobStatus → AiJobStatus
last_status none status = status
last_status (some e) status = AiJobStatus.failed

failed-life :
    (now : ℕ) (id result : String) (automation : Bool) (error : Option EffectError)
    (status : AiJobStatus) (jobs : List AiJob)
    → rows_life (keep (has_id id) jobs) ≡ status_life status
    → rows_life (keep (has_id id) (failed_row now id result automation error jobs))
      ≡ status_life (last_status error status)
unfolding update_ai_job_status
failed-life now id result automation none status jobs e = e
failed-life now id result automation (some _) status jobs e =
    updated-life now id AiJobStatus.failed result _ jobs status e

some_injective : {x y : AiJob} → some x ≡ some y → x ≡ y
some_injective {x} e = ap (or_else x) e
  where
    or_else : AiJob → Option AiJob → AiJob
    or_else x none = x
    or_else x (some y) = y

pub find_job-id :
    (id : String) (jobs : List AiJob) (job : AiJob)
    → find_job (has_id id) jobs ≡ some job
    → job.id ≡ id
find_job-id id [] job found = absurd (cc found)
find_job-id id (row ∷ jobs) job found = elim (Bool-cases (has_id id row)) [
  | inl own ↦
      let same : row ≡ job = some_injective (sym (rw own refl) ∙ found) in
      subst (λ j. j.id ≡ id) same (eq_of_beq row.id id own)
  | inr other ↦ find_job-id id jobs job (simp other at found)
]

module _ (payload_of : String → Payload) (calls : Calls) (status : AiJobStatus) (job : AiJob) where
  -- The status that the claim writes,
  abbrev pub given_status : AiJobStatus
  given_status = legacy_status (is_legacy job (payload_of job.payload)) status

  -- and the error of the effects that follow.
  abbrev pub effect_error : Option EffectError
  effect_error = (apply_effects calls job (payload_of job.payload) given_status).error

  concluded-life :
      (now : ℕ) (result message : String) (claimed : List AiJob) (s : JobStore)
      → rows_life (keep (has_id job.id) claimed) ≡ status_life given_status
      → life job.id (
          concluded now job
            (payload_of job.payload)
            given_status
            result
            message
            (apply_effects calls job (payload_of job.payload) given_status)
            claimed
            s)
        ≡ status_life (last_status effect_error given_status)
  unfolding life concluded
  concluded-life now result message claimed s e =
      failed-life now job.id _ (runs_automation job (payload_of job.payload)) effect_error
        given_status _ (drafted-life now job.id given_status message _ claimed e)

  claim_and_conclude-life :
      (now : ℕ) (result message : String) (s : JobStore)
      → is_terminal status ≡ true
      → find_job (has_id job.id) s.jobs ≡ some job
      → is_unfinished job.status ≡ true
      → is_lock_failure calls.lock ≡ false
      → is_audit_error effect_error ≡ false
      → (s' : JobStore) × (claim_and_conclude payload_of now calls status result message s job
          ≡ some s')
        × (life job.id s' ≡ status_life (last_status effect_error given_status))
  unfolding claim_ai_job_completion conclude_completion
  claim_and_conclude-life now result message s over found open_before locked no_audit_error =
      let over' : is_terminal given_status ≡ true = ground arith in
      let blocked : runs_automation job (payload_of job.payload) && is_lock_failure calls.lock
          ≡ false =
        ground arith in
      let message' : String = legacy_message (is_legacy job (payload_of job.payload)) message in
      let (touched, e) =
        claimed-life now job.id given_status result message' s.jobs job found open_before in
      (
        _,
        simp (blocked, over', touched, no_audit_error) refl,
        concluded-life now result message' _ s e,
      )

  -- The completion of a job that is unfinished, in a transaction that commits, with the source locked
  -- and no audit error: it leaves the job with the runner's status, unless it is a legacy automation
  -- or one of its effects gave an error, which leave it failed.
  pub complete_ai_job-life :
      (now : ℕ) (result message : String) (s : JobStore)
      → is_terminal status ≡ true
      → get_ai_job_by_id_global job.id s.jobs ≡ some job
      → is_unfinished job.status ≡ true
      → calls.commits ≡ true
      → is_lock_failure calls.lock ≡ false
      → is_audit_error effect_error ≡ false
      → life job.id (complete_ai_job payload_of now calls job.id status result message s)
        ≡ status_life (last_status effect_error given_status)
  unfolding complete_ai_job get_ai_job_by_id_global
  complete_ai_job-life now result message s over found open_before commits locked no_audit_error =
      let (s', e, final) =
        claim_and_conclude-life now result message s over found open_before locked no_audit_error in
      simp (over, found, e, commits) final
