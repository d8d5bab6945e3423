-- ===== src/Jobs/Ends.antt =====
-- What a claim does to the job table, and the update that may follow it in the transaction.
use goloom.Jobs.{
  AiJob, AiJobStatus, is_terminal, has_id, unfinished, update_where, with_status, as_claimed,
  update_ai_job_status, claim_ai_job_completion,
}
use goloom.Jobs.Counts.{
  finished, any-count, count-has_id-update_where, count-finished-claim, count-finished-other,
  count-finished-update,
}
use goloom.Prelude.{
  ℕ, ◌≤◌, String, ◌≡◌, refl, sym, subst, ◌∙◌, Bool, true, false, Option, none, some, List, [], ◌∷◌,
  arith, if◌then◌else◌, ◌==◌, eq_nat, eq_text, eq_of_beq, any, keep, All, count,
}

-- A row has a completion time exactly if its status is terminal.
abbrev pub is_stamped : Option ℕ → Bool
is_stamped none = false
is_stamped (some t) = true

abbrev pub Stamped : AiJob → Type 0
Stamped job = is_stamped job.completed_at ≡ is_terminal job.status

-- The rows of one id, of which one was unfinished, are finished, and no other row is touched.
pub record Ends (id : String) (jobs jobs' : List AiJob) : Type 0 where
  pub was_unfinished : 1 ≤ count (unfinished id) jobs
  pub same_ids : (other : String) → count (has_id other) jobs' ≡ count (has_id other) jobs
  pub all_finished : count (finished id) jobs' ≡ count (has_id id) jobs
  pub same_finished :
      (other : String)
      → (id == other) ≡ false
      → count (finished other) jobs' ≡ count (finished other) jobs
  pub same_rows :
      (other : String)
      → (id == other) ≡ false
      → keep (has_id other) jobs' ≡ keep (has_id other) jobs
  pub stamped : All Stamped jobs → All Stamped jobs'

keep-other :
    (id other : String) (p : AiJob → Bool) (f : AiJob → AiJob) (jobs : List AiJob)
    → ((job : AiJob) → (f job).id ≡ job.id)
    → ((job : AiJob) → p job ≡ true → job.id ≡ id)
    → (id == other) ≡ false
    → keep (has_id other) (update_where p f jobs) ≡ keep (has_id other) jobs
keep-other id other p f [] keeps own apart = refl
keep-other id other p f (job ∷ jobs) keeps own apart = grind (
  arith,
  keeps job,
  own job,
  eq_of_beq job.id other,
  keep-other id other p f jobs keeps own apart,
)

pub All-update_where :
    (P : AiJob → Type 0) (p : AiJob → Bool) (f : AiJob → AiJob) (jobs : List AiJob)
    → ((job : AiJob) → P (f job))
    → All P jobs
    → All P (update_where p f jobs)
All-update_where P p f [] new old = tt
All-update_where P p f (job ∷ jobs) new old = (
  elim (p job) as (λ t. P (if t then f job else job)) [ true ↦ new job | false ↦ old.0 ],
  All-update_where P p f jobs new old.1,
)

claim-Stamped :
    (now : ℕ) (status : AiJobStatus) (result message : String) (job : AiJob)
    → is_terminal status ≡ true
    → Stamped (as_claimed now status result message job)
claim-Stamped now status result message job terminal = sym terminal

update-Stamped :
    (now : ℕ) (status : AiJobStatus) (result message : String) (job : AiJob)
    → Stamped (with_status now status result message job)
update-Stamped now status result message job = ground arith

unfinished-id : (id : String) (job : AiJob) → unfinished id job ≡ true → job.id ≡ id
unfinished-id id job h = eq_of_beq job.id id (grind arith)

has_id-id : (id : String) (job : AiJob) → has_id id job ≡ true → job.id ≡ id
has_id-id id job h = eq_of_beq job.id id h

-- A claim that touched a row.
pub claim-won :
    (now : ℕ) (id : String) (status : AiJobStatus) (result message : String)
    (jobs jobs' : List AiJob)
    → claim_ai_job_completion now id status result message jobs ≡ some (true, jobs')
    → (any (unfinished id) jobs ≡ true)
      × (is_terminal status ≡ true)
      × (update_where (unfinished id) (as_claimed now status result message) jobs ≡ jobs')
unfolding claim_ai_job_completion
claim-won now id status result message jobs jobs' h = grind arith

claimed-Ends :
    (now : ℕ) (id : String) (status : AiJobStatus) (result message : String) (jobs : List AiJob)
    → any (unfinished id) jobs ≡ true
    → is_terminal status ≡ true
    → Ends id jobs (update_where (unfinished id) (as_claimed now status result message) jobs)
claimed-Ends now id status result message jobs touched terminal =
    let f : AiJob → AiJob = as_claimed now status result message in
    record {
      was_unfinished = any-count (unfinished id) jobs touched;
      same_ids = λ other. count-has_id-update_where other (unfinished id) f jobs (λ _. refl);
      all_finished = count-finished-claim now id status result message jobs terminal;
      same_finished = λ other.
          count-finished-other id other (unfinished id) f jobs (λ _. refl) (unfinished-id id);
      same_rows =
          λ other. keep-other id other (unfinished id) f jobs (λ _. refl) (unfinished-id id);
      stamped =
          All-update_where Stamped (unfinished id) f jobs
            (λ job. claim-Stamped now status result message job terminal);
    }

pub claim-Ends :
    (now : ℕ) (id : String) (status : AiJobStatus) (result message : String)
    (jobs jobs' : List AiJob)
    → claim_ai_job_completion now id status result message jobs ≡ some (true, jobs')
    → Ends id jobs jobs'
claim-Ends now id status result message jobs jobs' h =
    let (touched, terminal, e) = claim-won now id status result message jobs jobs' h in
    subst (Ends id jobs) e (claimed-Ends now id status result message jobs touched terminal)

-- An update of the status within the transaction leaves the rows finished.
pub update-Ends :
    (now : ℕ) (id : String) (status : AiJobStatus) (result message : String)
    (jobs jobs' : List AiJob)
    → is_terminal status ≡ true
    → Ends id jobs jobs'
    → Ends id jobs (update_ai_job_status now id status result message jobs')
unfolding update_ai_job_status
update-Ends now id status result message jobs jobs' terminal ends = record {
  was_unfinished = ends.was_unfinished;
  same_ids = λ other.
      count-has_id-update_where other (has_id id) (with_status now status result message) jobs'
        (λ _. refl)
      ∙ ends.same_ids other;
  all_finished =
      count-finished-update now id status result message jobs' terminal ∙ ends.same_ids id;
  same_finished = λ other apart.
      count-finished-other id other (has_id id) (with_status now status result message) jobs'
        (λ _. refl) (has_id-id id) apart
      ∙ ends.same_finished other apart;
  same_rows = λ other apart.
      keep-other id other (has_id id) (with_status now status result message) jobs' (λ _. refl)
        (has_id-id id) apart
      ∙ ends.same_rows other apart;
  stamped = λ old.
      All-update_where Stamped (has_id id) (with_status now status result message) jobs'
        (update-Stamped now status result message) (ends.stamped old);
}
