-- ===== src/Publish/Safety/Reachable.antt =====
-- The life of one post: polls of the workers, one run after the other, and the actions of users
-- and operators between them. A patch that replaces the target accounts is left out: it resets the
-- rows of the targets and so forgets what was published. So are a cancellation during a run and
-- the edits of an imported post.
use goloom.Domain.Post.{PostStatus, PostSource}
use goloom.Domain.Post.Patch.{UpdatePostPatch}
use goloom.Publish.{
  repair_future_posted_post, Target, PostState, admin_retry_failed_post,
  admin_acknowledge_failed_post, cancel_scheduled_post,
}
use goloom.Publish.Edit.{patch_scheduled_post}
use goloom.Publish.Provider.{World, IsWorld}
use goloom.Publish.Worker.Run.{poll}
use goloom.Publish.Invariant.{landed, TargetOk, IsQuiet, Inv, is_held}
use goloom.Publish.Safety.Runs.{poll-Inv}
use goloom.Publish.Safety.Actions.{
  repair_future_posted_post-Inv, OfOption, admin_retry_failed_post-Inv,
  admin_acknowledge_failed_post-Inv, cancel_scheduled_post-Inv, patch_scheduled_post-Inv,
}
use goloom.Prelude.{
  ℕ, ◌≤◌, String, ◌≡◌, refl, subst, ◌≢◌, Bool, true, none, some, List, [], ◌∷◌, arith, All,
}

pub data Step (s : PostState) : PostState → Type 0 where
  polled : (w : World) (now : ℕ) → IsWorld w → Step s (poll w now s)
  retried : {s' : PostState} (now : ℕ) → admin_retry_failed_post now s ≡ some s' → Step s s'
  acknowledged :
      {s' : PostState} (now : ℕ) → admin_acknowledge_failed_post now s ≡ some s' → Step s s'
  cancelled : (now : ℕ) → Step s (cancel_scheduled_post now s)
  repaired : (now : ℕ) → Step s (repair_future_posted_post now s)
  edited :
      {s' : PostState} (commits : Bool) (now : ℕ) (patch : UpdatePostPatch)
      → patch.target_accounts ≡ none
      → s.post.source ≢ PostSource.imported
      → patch_scheduled_post commits now patch s ≡ some s'
      → Step s s'

-- The states that a post can come to.
pub data Reaches (s : PostState) : PostState → Type 0 where
  start : Reaches s s
  next : {s' s'' : PostState} → Reaches s s' → Step s' s'' → Reaches s s''

abbrev pub IsPending : Target → Type 0
IsPending t = t.status ≡ PostStatus.pending

-- A post that was just stored: nothing was sent, and every target waits.
pub record IsNew (s : PostState) : Type 0 where
  pub unsent : s.sent ≡ []
  pub waiting : All IsPending s.targets

Step-Inv : (s s' : PostState) → Inv s → Step s s' → Inv s'
Step-Inv s _ inv (polled w now known) = poll-Inv w now s known inv
Step-Inv s _ inv (retried now e) =
    subst (λ x. OfOption Inv x) e (admin_retry_failed_post-Inv now s inv)
Step-Inv s _ inv (acknowledged now e) =
    subst (λ x. OfOption Inv x) e (admin_acknowledge_failed_post-Inv now s inv)
Step-Inv s _ inv (cancelled now) = cancel_scheduled_post-Inv now s inv
Step-Inv s _ inv (repaired now) = repair_future_posted_post-Inv now s inv
Step-Inv s _ inv (edited commits now patch omitted own e) =
    subst (λ x. OfOption Inv x) e (patch_scheduled_post-Inv commits now patch s omitted own inv)

pending_rows : (ts : List Target) → All IsPending ts → All (TargetOk []) ts × All IsQuiet ts
pending_rows [] waiting = (tt, tt)
pending_rows (t ∷ ts) waiting =
    let (rows, calm) = pending_rows ts waiting.1 in
    (((rw (waiting.0) refl, λ l. absurd (omega arith)), rows), (rw (waiting.0) refl, calm))

IsNew-Inv : (s : PostState) → IsNew s → Inv s
IsNew-Inv s new =
    let (rows, calm) = pending_rows s.targets new.waiting in
    record {
      safe = record { once = λ a. rw (new.unsent) (omega arith); rows = rw (new.unsent) rows };
      quiet = λ _. calm;
    }

-- What `Inv` says holds in every state that a stored post can come to.
pub Reaches-Inv : (s s' : PostState) → IsNew s → Reaches s s' → Inv s'
Reaches-Inv s _ new start = IsNew-Inv s new
Reaches-Inv s s'' new (next {s'} path step) = Step-Inv s' s'' (Reaches-Inv s s' new path) step

-- However often a newly stored post is polled, retried, acknowledged, cancelled, repaired and
-- edited, one after the other and without an edit of its targets or of an imported post, at most
-- one call of `Publish` per account may have put it on the network.
pub publish_at_most_once :
    (s s' : PostState) (account_id : String)
    → IsNew s
    → Reaches s s'
    → landed account_id s'.sent ≤ 1
publish_at_most_once s s' account_id new path = (Reaches-Inv s s' new path).safe.once account_id

-- In every state that a newly stored post can reach, a target whose account may have received the
-- post is posted or processing, never pending or failed, which would be published again.
pub Reaches-is_held :
    (s s' : PostState)
    → IsNew s
    → Reaches s s'
    → All (λ t. 1 ≤ landed t.account_id s'.sent → is_held t.status ≡ true) s'.targets
Reaches-is_held s s' new path = held s'.targets (Reaches-Inv s s' new path).safe.rows
  where
    held :
        (ts : List Target)
        → All (TargetOk s'.sent) ts
        → All (λ t. 1 ≤ landed t.account_id s'.sent → is_held t.status ≡ true) ts
    held [] rows = tt
    held (t ∷ ts) rows = (rows.0.1, held ts rows.1)
