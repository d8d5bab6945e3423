-- ===== src/Jobs/Sound.antt =====
-- What holds of the job store in every state that the steps lead to.
use goloom.Jobs.{AiJob, AiJobStatus, has_id, update_where, waits, as_processing}
use goloom.Jobs.Effects.{Payload, JobAction, JobEvent, JobStore}
use goloom.Jobs.Counts.{
  finished, unfinished-finished, not_any-count, count-finished-mark, count-has_id-update_where,
}
use goloom.Jobs.Ends.{Stamped}
use goloom.Jobs.Completed.{is_ending, effects, Completed, Completions, here, next}
use goloom.Jobs.Changes.{Step, Change, ended, added, marked, Step-Change}
use goloom.Jobs.Manager.{Manager}
use goloom.Prelude.{
  ℕ, ◌+◌, ◌≤◌, String, ◌≡◌, refl, sym, subst, ◌∙◌, inl, inr, Bool, false, ◌&&◌, none, List, [], ◌∷◌,
  ◌++◌, arith, if◌then◌else◌, ◌==◌, eq_nat, eq_text, eq_of_beq, beq_self, Bool-cases, any, All,
  count, count-append,
}

-- An event that says that the job of this id is over.
abbrev pub ends_job : String → JobEvent → Bool
ends_job id e = e.job_id == id && is_ending e.action

-- For each id there is at most one row; it is finished exactly if one event says so; only then its
-- effects were committed or its item released, at most once; and only then it has a completion time.
pub record IsSound (s : JobStore) : Type 0 where
  pub single : (id : String) → count (has_id id) s.jobs ≤ 1
  pub one_end : (id : String) → count (ends_job id) s.events ≡ count (finished id) s.jobs
  pub one_effect : (id : String) → effects id s ≤ count (finished id) s.jobs
  pub stamped : All Stamped s.jobs

event-count :
    (k : String) (s s' : JobStore) (id : String)
    → Completed k s s'
    → count (ends_job id) s'.events ≡ (if k == id then 1 else 0) + count (ends_job id) s.events
event-count k s s' id done = rw (done.event) (simp (done.ending) (ground arith))

-- The counts of the ended job go from zero to one,
pub own-counts :
    (k : String) (s s' : JobStore)
    → Completed k s s'
    → IsSound s
    → (count (finished k) s.jobs ≡ 0) × (count (finished k) s'.jobs ≡ 1)
own-counts k s s' done sound =
    let rows = done.rows in
    let single = sound.single k in
    let split = unfinished-finished k s.jobs in
    let was = rows.was_unfinished in let now = rows.all_finished in (omega arith, omega arith)

own-end :
    (k : String) (s s' : JobStore)
    → Completed k s s'
    → IsSound s
    → (count (ends_job k) s'.events ≡ count (finished k) s'.jobs)
      × (effects k s' ≤ count (finished k) s'.jobs)
own-end k s s' done sound =
    let events = simp (beq_self k) at (event-count k s s' k done) in
    let ends = sound.one_end k in
    let limit = sound.one_effect k in
    let (before, after) = own-counts k s s' done sound in
    let grown = done.one_effect in (omega arith, omega arith)

-- and those of another id stay.
Completed-counts :
    (k : String) (s s' : JobStore)
    → Completed k s s'
    → IsSound s
    → (id : String)
    → (count (ends_job id) s'.events ≡ count (finished id) s'.jobs)
      × (effects id s' ≤ count (finished id) s'.jobs)
Completed-counts k s s' done sound id =
    let ends = sound.one_end id in
    let limit = sound.one_effect id in
    elim (Bool-cases (k == id)) [
      | inl own ↦ rw (sym (eq_of_beq k id own)) (own-end k s s' done sound)
      | inr apart ↦
          let events = simp apart at (event-count k s s' id done) in
          let kept = done.rows.same_finished id apart in
          let same = done.same_effects id apart in (omega arith, omega arith)
    ]

Completed-IsSound : (k : String) (s s' : JobStore) → Completed k s s' → IsSound s → IsSound s'
Completed-IsSound k s s' done sound = record {
  single = λ id. simp (done.rows.same_ids id) (sound.single id);
  one_end = λ id. (Completed-counts k s s' done sound id).0;
  one_effect = λ id. (Completed-counts k s s' done sound id).1;
  stamped = done.rows.stamped sound.stamped;
}

pub Completions-IsSound : (s s' : JobStore) → Completions s s' → IsSound s → IsSound s'
Completions-IsSound s s' here sound = sound
Completions-IsSound s s'' (next {s'} k rest done) sound =
    Completed-IsSound k s' s'' done (Completions-IsSound s s' rest sound)

Stamped-append :
    (xs : List AiJob) (x : AiJob) → All Stamped xs → Stamped x → All Stamped (xs ++ x ∷ [])
Stamped-append [] x old new = (new, tt)
Stamped-append (y ∷ xs) x old new = (old.0, Stamped-append xs x old.1 new)

single-added :
    (jobs : List AiJob) (job : AiJob) (id : String)
    → any (has_id job.id) jobs ≡ false
    → count (has_id id) jobs ≤ 1
    → count (has_id id) (jobs ++ job ∷ []) ≤ 1
single-added jobs job id fresh limit =
    let none_yet = not_any-count (has_id job.id) jobs fresh in
    rw (count-append (has_id id) jobs (job ∷ [])) (elim (Bool-cases (job.id == id)) [
      | inl own ↦
          let none_here : count (has_id id) jobs ≡ 0 =
            subst (λ k. count (has_id k) jobs ≡ 0) (eq_of_beq job.id id own) none_yet in
          rw own (omega arith)
      | inr apart ↦ rw apart (omega arith)
    ])

finished-added :
    (jobs : List AiJob) (job : AiJob) (id : String)
    → job.status ≡ AiJobStatus.pending
    → count (finished id) (jobs ++ job ∷ []) ≡ count (finished id) jobs
finished-added jobs job id waiting =
    let sum = count-append (finished id) jobs (job ∷ []) in grind (arith, sum)

marked-Stamped :
    (now : ℕ) (id : String) (jobs : List AiJob)
    → All Stamped jobs
    → All Stamped (update_where (waits id) (as_processing now) jobs)
marked-Stamped now id [] old = tt
marked-Stamped now id (job ∷ jobs) old =
    let here_ok : Stamped job = old.0 in (grind arith, marked-Stamped now id jobs old.1)

-- A new row waits, under an id that no row has.
added-IsSound :
    (s : JobStore) (job : AiJob)
    → any (has_id job.id) s.jobs ≡ false
    → job.status ≡ AiJobStatus.pending
    → job.completed_at ≡ none
    → IsSound s
    → IsSound (record s {
      jobs = s.jobs ++ job ∷ [];
      events = record { job_id = job.id; action = JobAction.submit } ∷ s.events;
    })
added-IsSound s job fresh waiting unstamped sound = record {
  single = λ id. single-added s.jobs job id fresh (sound.single id);
  one_end = λ id.
      let same = finished-added s.jobs job id waiting in let ends = sound.one_end id in grind arith;
  one_effect = λ id.
      let same = finished-added s.jobs job id waiting in
      let limit = sound.one_effect id in omega arith;
  stamped = Stamped-append s.jobs job sound.stamped (rw (waiting, unstamped) refl);
}

marked-IsSound :
    (s : JobStore) (now : ℕ) (id : String)
    → IsSound s
    → IsSound (record s { jobs = update_where (waits id) (as_processing now) s.jobs })
marked-IsSound s now id sound = record {
  single = λ other.
      let same =
        count-has_id-update_where other (waits id) (as_processing now) s.jobs (λ _. refl) in
      let limit = sound.single other in omega arith;
  one_end = λ other. sound.one_end other ∙ sym (count-finished-mark now id other s.jobs);
  one_effect = λ other. rw (count-finished-mark now id other s.jobs) (sound.one_effect other);
  stamped = marked-Stamped now id s.jobs sound.stamped;
}

pub Change-IsSound : (s s' : JobStore) → Change s s' → IsSound s → IsSound s'
Change-IsSound s s' (ended done) sound = Completions-IsSound s s' done sound
Change-IsSound s s' (added job fresh waiting unstamped) sound =
    added-IsSound s job fresh waiting unstamped sound
Change-IsSound s s' (marked now id) sound = marked-IsSound s now id sound

-- The manager before the first submission.
abbrev pub empty_store : JobStore
empty_store = record { jobs = []; events = []; applied = []; released = []; streamed = [] }

abbrev pub new_manager : ℕ → Manager
new_manager slots = record { store = empty_store; executions = []; slots = slots; runs = [] }

module _ (payload_of : String → Payload) where
  pub data Reaches (m : Manager) : Manager → Type 0 where
    initially : Reaches m m
    step : {m' m'' : Manager} → Reaches m m' → Step payload_of m' m'' → Reaches m m''

  -- In every state that submissions, executions, sweeps and cancellations lead to, in whatever order
  -- they interleave, each id has at most one row; that row is finished exactly if one audit event
  -- says so; effects were committed or an item released for it at most once, and only if it is
  -- finished; and it has a completion time exactly if it is finished.
  pub Reaches-IsSound : (slots : ℕ) (m : Manager) → Reaches (new_manager slots) m → IsSound m.store
  Reaches-IsSound slots m initially = record {
    single = λ id. omega arith;
    one_end = λ id. refl;
    one_effect = λ id. omega arith;
    stamped = tt;
  }
  Reaches-IsSound slots m (step {m'} path s) =
      Change-IsSound m'.store m.store (Step-Change payload_of m' m s)
        (Reaches-IsSound slots m' path)
