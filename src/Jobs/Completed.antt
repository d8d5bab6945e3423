-- ===== src/Jobs/Completed.antt =====
-- What it is to end a job, once and in a sequence.
pub mod Transactions
use goloom.Jobs.Effects.{JobAction, JobStore}
use goloom.Jobs.Ends.{Ends}
use goloom.Prelude.{ℕ, ◌+◌, ◌≤◌, String, ◌≡◌, Bool, true, false, ◌∷◌, ◌==◌, eq_nat, eq_text, count}

abbrev pub is_ending : JobAction → Bool
is_ending JobAction.submit = false
is_ending _ = true

-- The committed effects and the releases of a job.
abbrev pub effects : String → JobStore → ℕ
effects id s = count (λ x. x == id) s.applied + count (λ x. x == id) s.released

-- One job was ended.
pub record Completed (id : String) (s s' : JobStore) : Type 0 where
  pub rows : Ends id s.jobs s'.jobs
  pub action : JobAction
  pub ending : is_ending action ≡ true
  pub event : s'.events ≡ record { job_id = id; action = action } ∷ s.events
  pub same_effects : (other : String) → (id == other) ≡ false → effects other s' ≡ effects other s
  pub one_effect : effects id s' ≤ effects id s + 1

pub data Completions (s : JobStore) : JobStore → Type 0 where
  here : Completions s s
  next :
      {s' s'' : JobStore} (id : String) → Completions s s' → Completed id s' s'' → Completions s s''

pub one : {s s' : JobStore} (id : String) → Completed id s s' → Completions s s'
one id done = next id here done

pub Completions-append :
    {s s' s'' : JobStore} → Completions s s' → Completions s' s'' → Completions s s''
Completions-append first here = first
Completions-append first (next id rest done) = next id (Completions-append first rest) done
