-- ===== src/Jobs/Slots.antt =====
-- The slots of the manager and the calls of its runner, and what the updates of the executions do
-- to their numbers.
pub mod Keeps
pub mod Bounds
use goloom.Jobs.{ℕ, has_id}
use goloom.Jobs.Manager.{Execution, Manager, has_slot, is_waiting, is_holding, update_first}
use goloom.Jobs.Cancel.{cancel_execution}
use goloom.Prelude.{
  ◌+◌, ◌≤◌, String, ◌≡◌, refl, Bool, true, false, ◌&&◌, ◌||◌, List, [], ◌∷◌, arith, ◌==◌, eq_nat,
  eq_text, any, count,
}

-- The execution may still call the runner.
abbrev pub may_run : String → Execution → Bool
may_run id e = e.job_id == id && (is_waiting e.phase || is_holding e.phase)

-- The executions that hold a slot fit; and each row allows one call of the runner.
pub record IsOrderly (slots : ℕ) (m : Manager) : Type 0 where
  pub total : m.slots ≡ slots
  pub fits : count has_slot m.executions ≤ m.slots
  pub one_run :
      (id : String)
      → count (λ x. x == id) m.runs + count (may_run id) m.executions
        ≤ count (has_id id) m.store.jobs

pub count-update_first-le :
    (q p : Execution → Bool) (f : Execution → Execution) (es : List Execution)
    → ((e : Execution) → p e ≡ true → q (f e) ≡ true → q e ≡ true)
    → count q (update_first p f es) ≤ count q es
count-update_first-le q p f [] keeps = omega arith
count-update_first-le q p f (e ∷ es) keeps =
    grind (arith, keeps e, count-update_first-le q p f es keeps)

pub count-update_first-one :
    (q p : Execution → Bool) (f : Execution → Execution) (es : List Execution)
    → count q (update_first p f es) ≤ count q es + 1
count-update_first-one q p f [] = omega arith
count-update_first-one q p f (e ∷ es) = grind (arith, count-update_first-one q p f es)

-- The first that passes leaves the count.
pub count-update_first-drop :
    (q p : Execution → Bool) (f : Execution → Execution) (es : List Execution)
    → any p es ≡ true
    → ((e : Execution) → p e ≡ true → q e ≡ true)
    → ((e : Execution) → p e ≡ true → q (f e) ≡ false)
    → count q (update_first p f es) + 1 ≡ count q es
count-update_first-drop q p f [] some_e from to = absurd (cc some_e)
count-update_first-drop q p f (e ∷ es) some_e from to =
    grind (arith, from e, to e, count-update_first-drop q p f es)

pub count-cancel_execution :
    (q : Execution → Bool) (id : String) (es : List Execution)
    → ((e : Execution) → q (record e { cancelled = true }) ≡ q e)
    → count q (cancel_execution id es) ≡ count q es
count-cancel_execution q id [] blind = refl
count-cancel_execution q id (e ∷ es) blind =
    grind (arith, blind e, count-cancel_execution q id es blind)
