-- ===== src/Jobs/Lifecycle.antt =====
-- The life of one job as its clients see it, and that the store and the manager implement it.
use goloom.Jobs.{
  as_processing, waits, update_where, AiJob, AiJobStatus, is_terminal, is_unfinished, has_id,
}
use goloom.Jobs.Effects.{Payload, JobStore}
use goloom.Jobs.Counts.{unfinished-finished}
use goloom.Jobs.Ends.{Ends}
use goloom.Jobs.Completed.{Completed, Completions, here, next}
use goloom.Jobs.Changes.{Step, Change, ended, added, marked, Step-Change}
use goloom.Jobs.Manager.{Manager}
use goloom.Jobs.Sound.{IsSound, Completions-IsSound, Reaches, Reaches-IsSound, new_manager}
use goloom.Prelude.{
  ℕ, ◌≤◌, String, ◌≡◌, refl, ap, subst, ◌∙◌, inl, inr, Bool, true, false, ◌&&◌, List, [], ◌∷◌, ◌++◌,
  arith, ◌==◌, eq_nat, eq_text, eq_of_beq, Bool-cases, any, keep, count,
}

-- Unknown, queued, busy, or over with its last status.
pub data Life : Type 0 where
  unknown queued busy succeeded broken : Life

infix 40 ◌⟶◌ ◌⟶*◌
pub data ◌⟶◌ : Life → Life → Type 0 where
  arrive : unknown ⟶ queued
  begin : queued ⟶ busy
  succeed : busy ⟶ succeeded
  fail : busy ⟶ broken
  -- a queued job is over at once if it is cancelled, or if its mark was lost
  skip : queued ⟶ succeeded
  drop : queued ⟶ broken

pub data ◌⟶*◌ (l : Life) : Life → Type 0 where
  stay : l ⟶* l
  go : {m n : Life} → l ⟶* m → m ⟶ n → l ⟶* n

⟶*-append : {l m n : Life} → l ⟶* m → m ⟶* n → l ⟶* n
⟶*-append first stay = first
⟶*-append first (go rest edge) = go (⟶*-append first rest) edge

abbrev pub status_life : AiJobStatus → Life
status_life AiJobStatus.pending = queued
status_life AiJobStatus.processing = busy
status_life AiJobStatus.completed = succeeded
status_life AiJobStatus.failed = broken

abbrev pub rows_life : List AiJob → Life
rows_life [] = unknown
rows_life (job ∷ jobs) = status_life job.status

-- The status of the row with this id.
unfoldable pub life : String → JobStore → Life
life id s = rows_life (keep (has_id id) s.jobs)

ruleset edges = (arrive, begin, succeed, fail, skip, drop)

over-status :
    (from to : AiJobStatus)
    → is_unfinished from ≡ true
    → is_terminal to ≡ true
    → status_life from ⟶ status_life to
over-status from to open_before over = grind (arith, edges)

count-le :
    (p q : AiJob → Bool) (jobs : List AiJob) → count (λ job. p job && q job) jobs ≤ count p jobs
count-le p q [] = omega arith
count-le p q (job ∷ jobs) = grind (arith, count-le p q jobs)

keep-skip :
    (id : String) (job : AiJob) (jobs : List AiJob)
    → has_id id job ≡ false
    → keep (has_id id) (job ∷ jobs) ≡ keep (has_id id) jobs
keep-skip id job jobs other = rw other refl

-- Where every row of an id passes a test and there is one, the job's life is that of such a row.
pub rows_life-passing :
    (id : String) (p : AiJobStatus → Bool) (jobs : List AiJob)
    → count (λ job. has_id id job && p job.status) jobs ≡ count (has_id id) jobs
    → 1 ≤ count (has_id id) jobs
    → (status : AiJobStatus) × (p status ≡ true)
      × (rows_life (keep (has_id id) jobs) ≡ status_life status)
rows_life-passing id p [] same some_row = absurd (omega arith)
rows_life-passing id p (job ∷ jobs) same some_row =
    let rest = count-le (has_id id) (λ j. p j.status) jobs in
    elim (Bool-cases (has_id id job)) [
      | inl own ↦ (job.status, grind arith, rw own refl)
      | inr other ↦
          let (status, passes, e) =
            let same' = simp other at same in
            let some' = simp other at some_row in
            rows_life-passing id p jobs (omega arith) (omega arith) in
          (status, passes, ap rows_life (keep-skip id job jobs other) ∙ e)
    ]

Ends-life :
    (id : String) (s s' : JobStore)
    → Ends id s.jobs s'.jobs
    → count (has_id id) s.jobs ≤ 1
    → life id s ⟶ life id s'
unfolding life
Ends-life id s s' ends single =
    let split = unfinished-finished id s.jobs in
    let was = ends.was_unfinished in
    let same = ends.same_ids id in
    let all_over = ends.all_finished in
    let (from, open_before, e) =
      rows_life-passing id is_unfinished s.jobs (omega arith) (omega arith) in
    let (to, over, e') = rows_life-passing id is_terminal s'.jobs (omega arith) (omega arith) in
    rw (e, e') (over-status from to open_before over)

Completed-life :
    (k id : String) (s s' : JobStore) → Completed k s s' → IsSound s → life id s ⟶* life id s'
unfolding life
Completed-life k id s s' done sound = elim (Bool-cases (k == id)) [
  | inl own ↦
      subst (λ i. life i s ⟶* life i s') (eq_of_beq k id own)
        (go stay (Ends-life k s s' done.rows (sound.single k)))
  | inr apart ↦ rw (done.rows.same_rows id apart) stay
]

mark-life :
    (now : ℕ) (id other : String) (jobs : List AiJob)
    → rows_life (keep (has_id other) jobs)
      ⟶* rows_life (keep (has_id other) (update_where (waits id) (as_processing now) jobs))
mark-life now id other [] = stay
mark-life now id other (job ∷ jobs) = elim (Bool-cases (job.id == other)) [
  | inl own ↦ elim (Bool-cases (waits id job)) [
    | inl waiting ↦
        let queued_before : job.status ≡ AiJobStatus.pending = grind arith in
        rw waiting (rw own (rw queued_before (go stay begin)))
    | inr still ↦ rw still (rw own stay)
  ]
  | inr apart ↦ elim (Bool-cases (waits id job)) [
    | inl waiting ↦ rw waiting (rw apart (mark-life now id other jobs))
    | inr still ↦ rw still (rw apart (mark-life now id other jobs))
  ]
]

add-life :
    (id : String) (jobs : List AiJob) (job : AiJob)
    → any (has_id job.id) jobs ≡ false
    → job.status ≡ AiJobStatus.pending
    → rows_life (keep (has_id id) jobs) ⟶* rows_life (keep (has_id id) (jobs ++ job ∷ []))
add-life id [] job fresh waiting = elim (Bool-cases (job.id == id)) [
  | inl own ↦ rw own (rw waiting (go stay arrive))
  | inr apart ↦ rw apart stay
]
add-life id (row ∷ jobs) job fresh waiting = elim (Bool-cases (row.id == id)) [
  | inl own ↦ rw own stay
  | inr apart ↦ rw apart (add-life id jobs job (grind arith) waiting)
]

Completions-life :
    (id : String) (s s' : JobStore) → Completions s s' → IsSound s → life id s ⟶* life id s'
Completions-life id s s' here sound = stay
Completions-life id s s'' (next {s'} k rest done) sound =
    ⟶*-append (Completions-life id s s' rest sound)
      (Completed-life k id s' s'' done (Completions-IsSound s s' rest sound))

Change-life : (id : String) (s s' : JobStore) → Change s s' → IsSound s → life id s ⟶* life id s'
unfolding life
Change-life id s s' (ended done) sound = Completions-life id s s' done sound
Change-life id s s' (added job fresh waiting unstamped) sound = add-life id s.jobs job fresh waiting
Change-life id s s' (marked now k) sound = mark-life now k id s.jobs

module _ (payload_of : String → Payload) where
  -- The manager implements the life of a job: in a reachable state, a step of any goroutine or
  -- handler leads the status of each id along the edges from unknown over queued and busy to succeeded or
  -- broken, or leaves it.
  pub Step-life :
      (slots : ℕ) (m m' : Manager)
      → Reaches payload_of (new_manager slots) m
      → Step payload_of m m'
      → (id : String) → life id m.store ⟶* life id m'.store
  Step-life slots m m' path s id =
      Change-life id m.store m'.store (Step-Change payload_of m m' s)
        (Reaches-IsSound payload_of slots m path)
