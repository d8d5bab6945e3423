-- ===== src/Jobs/Counts.antt =====
-- What the updates of the job table do to the number of rows of an id.
use goloom.Jobs.{
  as_processing, waits, AiJob, AiJobStatus, is_terminal, has_id, unfinished, update_where,
  with_status, as_claimed,
}
use goloom.Prelude.{
  ℕ, ◌+◌, ◌≤◌, String, ◌≡◌, refl, Bool, true, false, ◌&&◌, List, [], ◌∷◌, arith, ◌==◌, eq_nat,
  eq_text, eq_of_beq, any, count,
}

abbrev pub finished : String → AiJob → Bool
finished id job = has_id id job && is_terminal job.status

pub unfinished-finished :
    (id : String) (jobs : List AiJob)
    → count (unfinished id) jobs + count (finished id) jobs ≡ count (has_id id) jobs
unfinished-finished id [] = omega arith
unfinished-finished id (job ∷ jobs) = grind (arith, unfinished-finished id jobs)

pub any-count : {A : Type 0} (p : A → Bool) (xs : List A) → any p xs ≡ true → 1 ≤ count p xs
any-count p [] h = absurd (cc h)
any-count p (x ∷ xs) h = grind (arith, any-count p xs)

-- An update that keeps the ids keeps the number of rows of each.
pub count-has_id-update_where :
    (id : String) (p : AiJob → Bool) (f : AiJob → AiJob) (jobs : List AiJob)
    → ((job : AiJob) → (f job).id ≡ job.id)
    → count (has_id id) (update_where p f jobs) ≡ count (has_id id) jobs
count-has_id-update_where id p f [] keeps = refl
count-has_id-update_where id p f (job ∷ jobs) keeps =
    grind (arith, keeps job, count-has_id-update_where id p f jobs keeps)

-- A claim finishes the unfinished rows of its id
pub count-finished-claim :
    (now : ℕ) (id : String) (status : AiJobStatus) (result message : String) (jobs : List AiJob)
    → is_terminal status ≡ true
    → count (finished id) (update_where (unfinished id) (as_claimed now status result message) jobs)
      ≡ count (has_id id) jobs
count-finished-claim now id status result message [] terminal = refl
count-finished-claim now id status result message (job ∷ jobs) terminal =
    grind (arith, count-finished-claim now id status result message jobs terminal)

-- and no other.
pub count-finished-other :
    (id other : String) (p : AiJob → Bool) (f : AiJob → AiJob) (jobs : List AiJob)
    → ((job : AiJob) → (f job).id ≡ job.id)
    → ((job : AiJob) → p job ≡ true → job.id ≡ id)
    → (id == other) ≡ false
    → count (finished other) (update_where p f jobs) ≡ count (finished other) jobs
count-finished-other id other p f [] keeps own apart = refl
count-finished-other id other p f (job ∷ jobs) keeps own apart = grind (
  arith,
  keeps job,
  own job,
  eq_of_beq job.id other,
  count-finished-other id other p f jobs keeps own apart,
)

-- An update of the status to a terminal one finishes all rows of its id.
pub count-finished-update :
    (now : ℕ) (id : String) (status : AiJobStatus) (result message : String) (jobs : List AiJob)
    → is_terminal status ≡ true
    → count (finished id) (update_where (has_id id) (with_status now status result message) jobs)
      ≡ count (has_id id) jobs
count-finished-update now id status result message [] terminal = refl
count-finished-update now id status result message (job ∷ jobs) terminal =
    grind (arith, count-finished-update now id status result message jobs terminal)

pub not_any-count : {A : Type 0} (p : A → Bool) (xs : List A) → any p xs ≡ false → count p xs ≡ 0
not_any-count p [] h = refl
not_any-count p (x ∷ xs) h = grind (arith, not_any-count p xs)

-- Marking finishes no row.
pub count-finished-mark :
    (now : ℕ) (id other : String) (jobs : List AiJob)
    → count (finished other) (update_where (waits id) (as_processing now) jobs)
      ≡ count (finished other) jobs
count-finished-mark now id other [] = refl
count-finished-mark now id other (job ∷ jobs) = grind (arith, count-finished-mark now id other jobs)
