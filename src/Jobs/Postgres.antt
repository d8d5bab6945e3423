-- ===== src/Jobs/Postgres.antt =====
-- The completion of AI jobs in the other store (internal/store/postgres/ai.go): its statements keep
-- the result where none is given, and do not trim the error. The column of the result has the type
-- jsonb: `to_jsonb` is the database's, which gives a text as the column returns it, or refuses it.
use goloom.Strings.{trim_space}
use goloom.Jobs.{
  AiJob, AiJobStatus, is_terminal, has_id, unfinished, update_where, as_claimed, with_status,
  claim_ai_job_completion, update_ai_job_status,
}
use goloom.Jobs.Counts.{unfinished-finished, any-count}
use goloom.Jobs.Ends.{claim-won}
use goloom.Prelude.{
  ℕ, ◌≤◌, String, ◌≡◌, refl, sym, ap, subst, ◌∙◌, inl, inr, Bool, true, Option, none, some, List,
  [], ◌∷◌, arith, if◌then◌else◌, ◌==◌, eq_nat, eq_text, eq_of_beq, Bool-cases, any, In, count,
}

-- What the column holds of a result, where "" is no result; `none` fails the statement.
abbrev pub result_value : (String → Option String) → String → Option String
result_value to_jsonb result = if result == "" then some "" else to_jsonb result

abbrev with_postgres_status : ℕ → AiJobStatus → String → String → String → AiJob → AiJob
with_postgres_status now status result value error_message job = record job {
  status = status;
  result = if result == "" then job.result else value;
  error_message = error_message;
  updated_at = now;
  completed_at = if is_terminal status then some now else job.completed_at;
}

-- `UpdateAIJobStatus`.
unfoldable pub update_postgres_ai_job_status :
    (String → Option String)
    → ℕ
    → String
    → AiJobStatus
    → String
    → String
    → List AiJob
    → Option (List AiJob)
update_postgres_ai_job_status to_jsonb now id status result error_message jobs =
    elim (result_value to_jsonb result) [
      | none ↦ none
      | some value ↦ some (
          update_where (has_id id) (with_postgres_status now status result value error_message)
            jobs)
    ]

abbrev as_postgres_claimed : ℕ → AiJobStatus → String → String → AiJob → AiJob
as_postgres_claimed now status value error_message job = record job {
  status = status;
  result = value;
  error_message = error_message;
  updated_at = now;
  completed_at = some now;
}

-- `ClaimAIJobCompletion`: `none` is an error, for a status that is not terminal or a result that the
-- column refuses; otherwise whether a row was touched, and the table.
unfoldable pub claim_postgres_ai_job_completion :
    (String → Option String)
    → ℕ
    → String
    → AiJobStatus
    → String
    → String
    → List AiJob
    → Option (Bool × List AiJob)
claim_postgres_ai_job_completion to_jsonb now id status result error_message jobs =
    if is_terminal status
    then elim (result_value to_jsonb result) [
      | none ↦ none
      | some value ↦ some (
        any (unfinished id) jobs,
        update_where (unfinished id) (as_postgres_claimed now status value error_message) jobs,
      )
    ]
    else none

update_where-same :
    (p : AiJob → Bool) (f g : AiJob → AiJob) (jobs : List AiJob)
    → ((job : AiJob) → In job jobs → p job ≡ true → f job ≡ g job)
    → update_where p f jobs ≡ update_where p g jobs
update_where-same p f g [] same = refl
update_where-same p f g (job ∷ jobs) same =
    grind (arith, same job (inl refl), update_where-same p f g jobs (λ j i. same j (inr i)))

-- The claims, if the error has no space around it.
claims_agree :
    (to_jsonb : String → Option String) (now : ℕ) (id : String) (status : AiJobStatus)
    (result kept message : String) (jobs : List AiJob)
    → result_value to_jsonb result ≡ some kept
    → trim_space message ≡ message
    → claim_postgres_ai_job_completion to_jsonb now id status result message jobs
      ≡ claim_ai_job_completion now id status kept message jobs
unfolding claim_postgres_ai_job_completion claim_ai_job_completion
claims_agree to_jsonb now id status result kept message jobs value trimmed = rw value (
    ap (λ rows. if is_terminal status then some (any (unfinished id) jobs, rows) else none)
      (update_where-same (unfinished id) (as_postgres_claimed now status kept message)
        (as_claimed now status kept message) jobs (λ job i open_before. simp trimmed refl)))

claimed-result :
    (now : ℕ) (id : String) (status : AiJobStatus) (result message : String) (jobs : List AiJob)
    → count (unfinished id) jobs ≡ count (has_id id) jobs
    → (job : AiJob)
    → In job (update_where (unfinished id) (as_claimed now status result message) jobs)
    → has_id id job ≡ true
    → job.result ≡ result
claimed-result now id status result message [] all_open job i own = absurd i
claimed-result now id status result message (row ∷ jobs) all_open job (inl e) own =
    elim (Bool-cases (unfinished id row)) [
      | inl open_before ↦
          let same : job ≡ as_claimed now status result message row = e ∙ rw open_before refl in
          ap AiJob.result same
      | inr closed ↦
          let same : job ≡ row = e ∙ rw closed refl in
          let here_too : has_id id row ≡ true = subst (λ j. has_id id j ≡ true) same own in
          let split = unfinished-finished id jobs in absurd (grind arith)
    ]
claimed-result now id status result message (row ∷ jobs) all_open job (inr i) own =
    claimed-result now id status result message jobs (grind (arith, unfinished-finished id jobs))
      job i own

-- The two updates of a row, whose result is that of the update if no new one is given.
rows_agree :
    (now : ℕ) (status : AiJobStatus) (result kept message : String) (job : AiJob)
    → is_terminal status ≡ true
    → trim_space message ≡ message
    → (result ≡ "" → job.result ≡ kept)
    → with_postgres_status now status result kept message job
      ≡ with_status now status kept message job
rows_agree now status result kept message job over trimmed same = elim (Bool-cases (result == "")) [
  | inl empty ↦
      simp (over, trimmed, empty)
        (ap
          (λ r. record job {
            status = status;
            result = r;
            error_message = message;
            updated_at = now;
            completed_at = some now;
          })
          (same (eq_of_beq result "" empty)))
  | inr full ↦ simp (over, trimmed, full) refl
]

empty-kept :
    (to_jsonb : String → Option String) (result kept : String)
    → result_value to_jsonb result ≡ some kept
    → result ≡ ""
    → kept ≡ ""
empty-kept to_jsonb result kept value empty = cc (rw empty at value)

-- The final status written over a claim of the only row with the id.
statuses_agree :
    (to_jsonb : String → Option String) (now : ℕ) (id : String) (first second : AiJobStatus)
    (result kept result' kept' message message' : String) (jobs jobs' : List AiJob)
    → result_value to_jsonb result ≡ some kept
    → result_value to_jsonb result' ≡ some kept'
    → count (has_id id) jobs ≤ 1
    → claim_ai_job_completion now id first kept message jobs ≡ some (true, jobs')
    → is_terminal second ≡ true
    → trim_space message' ≡ message'
    → (result' ≡ "" → result ≡ "")
    → update_postgres_ai_job_status to_jsonb now id second result' message' jobs'
      ≡ some (update_ai_job_status now id second kept' message' jobs')
unfolding update_postgres_ai_job_status update_ai_job_status
statuses_agree to_jsonb now id first second result kept result' kept' message message' jobs jobs'
      value value' single won over trimmed stays =
    let (touched, _, e) = claim-won now id first kept message jobs jobs' won in
    let split = unfinished-finished id jobs in
    let some_row = any-count (unfinished id) jobs touched in
    rw (value', update_postgres_ai_job_status)
      (ap some (
        update_where-same (has_id id) (with_postgres_status now second result' kept' message')
          (with_status now second kept' message') jobs'
          (λ job i own. rows_agree now second result' kept' message' job over trimmed (λ empty.
            claimed-result now id first kept message jobs (omega arith) job
              (subst (In job) (sym e) i) own
            ∙ empty-kept to_jsonb result kept value (stays empty)
            ∙ sym (empty-kept to_jsonb result' kept' value' empty)))))

-- If the column of the PostgreSQL store takes both results, and the errors have no space around them,
-- then that store claims a completion of the only row with the id as the SQLite store claims it with
-- the result in the column's form, and both write the same final status over the claim, unless the
-- second result is empty and the first is not.
pub stores_agree :
    (to_jsonb : String → Option String) (now : ℕ) (id : String) (first second : AiJobStatus)
    (result kept result' kept' message message' : String) (jobs jobs' : List AiJob)
    → result_value to_jsonb result ≡ some kept
    → result_value to_jsonb result' ≡ some kept'
    → count (has_id id) jobs ≤ 1
    → claim_ai_job_completion now id first kept message jobs ≡ some (true, jobs')
    → is_terminal second ≡ true
    → trim_space message ≡ message
    → trim_space message' ≡ message'
    → (result' ≡ "" → result ≡ "")
    → (claim_postgres_ai_job_completion to_jsonb now id first result message jobs
        ≡ some (true, jobs'))
      × (update_postgres_ai_job_status to_jsonb now id second result' message' jobs'
          ≡ some (update_ai_job_status now id second kept' message' jobs'))
stores_agree to_jsonb now id first second result kept result' kept' message message' jobs jobs'
      value value' single won over trimmed trimmed' stays =
    (
      claims_agree to_jsonb now id first result kept message jobs value trimmed ∙ won,
      statuses_agree to_jsonb now id first second result kept result' kept' message message' jobs
          jobs' value value' single won over trimmed' stays,
    )
