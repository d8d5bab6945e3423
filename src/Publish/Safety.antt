-- ===== src/Publish/Safety.antt =====
-- A run of a worker keeps the invariant.
pub mod Rounds
pub mod Runs
pub mod Actions
pub mod Reachable
use goloom.Domain.Post.{ScheduledPost}
use goloom.Publish.{
  PublishOutcome, published, rejected, rate_limited, unclear, PostState, mark_post_target_result,
}
use goloom.Publish.Provider.{World}
use goloom.Publish.Invariant.{
  landed, may_have_landed, is_target_status, is_held, is_processing, IsQuiet, IsSafe, InFlight,
  outcome_ok, outcome-IsQuiet, InFlight-ok,
}
use goloom.Publish.Worker.{
  TargetOutcome, failure, uncertain, success, persist_target_outcome, Verdict, go_on, leave,
  claim_unavailable, after_persist, settle,
}
use goloom.Prelude.{
  ◌≤◌, String, ◌≡◌, refl, inl, inr, true, false, Option, none, some, arith, Bool-cases, All,
}

-- The state while the target of account `id` is being published.
pub record InRun (id : String) (s : PostState) : Type 0 where
  pub once : (a : String) → landed a s.sent ≤ 1
  pub rows : All (InFlight id s.sent) s.targets

abbrev pub QuietUnlessLeft : Verdict → PostState → Type 0
QuietUnlessLeft leave s = Unit
QuietUnlessLeft (go_on _) s = All IsQuiet s.targets
QuietUnlessLeft claim_unavailable s = All IsQuiet s.targets

-- What one round leaves behind.
pub record Kept (s : PostState) (r : PostState × Verdict) : Type 0 where
  pub safe : IsSafe r.0
  pub same_post : r.0.post ≡ s.post
  pub quiet : QuietUnlessLeft r.1 r.0

pub InRun-IsSafe : (id : String) (s : PostState) → InRun id s → IsSafe s
InRun-IsSafe id s run = record { once = run.once; rows = InFlight-ok id s.sent s.targets run.rows }

-- An outcome may be written if it is open or posted whenever the account may have the post.
pub record MayWrite (id : String) (s : PostState) (o : TargetOutcome) : Type 0 where
  pub known : is_target_status o.status ≡ true
  pub marks : 1 ≤ landed id s.sent → is_held o.status ≡ true

module _ (w : World) (post : ScheduledPost) (id : String) where
  pub persist-IsSafe :
      (o : TargetOutcome) (s : PostState)
      → InRun id s
      → MayWrite id s o
      → IsSafe (persist_target_outcome w post id o s).0
  unfolding persist_target_outcome mark_post_target_result
  persist-IsSafe o s run may = elim (Bool-cases (w.outcome_commits id)) [
    | inl yes_commit ↦ rw yes_commit (record {
      once = run.once;
      rows =
          outcome_ok id s.sent _ o.status (λ t. (refl, refl)) may.known may.marks s.targets
            run.rows;
    })
    | inr lost ↦ rw lost (InRun-IsSafe id s run)
  ]

  pub persist_post :
      (o : TargetOutcome) (s : PostState) → (persist_target_outcome w post id o s).0.post ≡ s.post
  unfolding persist_target_outcome mark_post_target_result
  persist_post o s = elim (Bool-cases (w.outcome_commits id)) [
    | inl yes_commit ↦ rw yes_commit
    | inr lost ↦ rw lost
  ]

  pub refused :
      (s : PostState) (e code : String) → landed id s.sent ≡ 0 → MayWrite id s (failure e code)
  refused s e code zero_so_far = record { known = refl; marks = λ l. absurd (ground arith) }

  pub after_persist-Kept :
      (o : TargetOutcome) (error : Option String) (s : PostState)
      → InRun id s
      → MayWrite id s o
      → is_processing o.status ≡ false
      → Kept s (after_persist error (persist_target_outcome w post id o s))
  unfolding persist_target_outcome mark_post_target_result
  after_persist-Kept o error s run may closed = elim (Bool-cases (w.outcome_commits id)) [
    | inl yes_commit ↦ rw yes_commit (record {
      safe = record {
        once = run.once;
        rows =
            outcome_ok id s.sent _ o.status (λ t. (refl, refl)) may.known may.marks s.targets
              run.rows;
      };
      same_post = refl;
      quiet =
          outcome-IsQuiet id s.sent _ o.status (λ t. (refl, refl)) may.known may.marks closed
            s.targets run.rows;
    })
    | inr lost ↦ rw lost (record { safe = InRun-IsSafe id s run; same_post = refl; quiet = tt })
  ]

  pub uncertain-Kept :
      (s : PostState)
      → InRun id s
      → MayWrite id s uncertain
      → Kept s ((persist_target_outcome w post id uncertain s).0, leave)
  uncertain-Kept s run may = record {
    safe = persist-IsSafe uncertain s run may;
    same_post = persist_post uncertain s;
    quiet = tt;
  }

  pub settle-Kept :
      (outcome : PublishOutcome) (s : PostState)
      → InRun id s
      → (may_have_landed outcome ≡ false → landed id s.sent ≡ 0)
      → Kept s (settle w post id outcome s)
  unfolding settle
  settle-Kept (published url metadata remote_id) s run h =
      after_persist-Kept (success url metadata remote_id) none s run
        (record { known = refl; marks = λ _. refl }) refl
  settle-Kept (rejected e) s run h =
      after_persist-Kept (failure e "provider_rejected") (some e) s run
        (refused s e "provider_rejected" (h refl)) refl
  settle-Kept (rate_limited e) s run h =
      after_persist-Kept (failure e "provider_rejected") (some e) s run
        (refused s e "provider_rejected" (h refl)) refl
  settle-Kept (unclear e) s run h =
      uncertain-Kept s run (record { known = refl; marks = λ _. refl })
