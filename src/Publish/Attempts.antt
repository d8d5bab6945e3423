-- ===== src/Publish/Attempts.antt =====
-- Attempts and back-off: how a run of a worker leaves the post's row, and how often a post is run.
use goloom.Domain.Post.{PostStatus, ScheduledPost}
use goloom.Publish.{
  PostState, is_claimable, is_due, mark_post_processing, mark_post_result, load_post_targets,
}
use goloom.Publish.Provider.{World}
use goloom.Publish.Frame.{publish_accounts-Framed}
use goloom.Publish.Safety.Runs.{process_post-cases}
use goloom.Publish.Worker.{minute, fail_post}
use goloom.Publish.Worker.Run.{
  poll, version_contents, process_post, conclude, Ending, through, left, no_claim,
}
use goloom.Prelude.{
  ℕ, ◌+◌, ◌-◌, ◌*◌, ◌≤◌, ◌<◌, String, ◌≡◌, refl, ap, subst, ◌∙◌, inl, inr, true, false, none, some,
  List, [], ◌∷◌, arith, leb, if◌then◌else◌, Bool-cases,
}

-- How a run that began at `now` leaves the post's row.
pub data Ends (now : ℕ) (before after : ScheduledPost) : Type 0 where
  posted :
      after.status ≡ PostStatus.posted
      → after.attempt_count ≡ before.attempt_count + 1
      → Ends now before after
  again :
      after.status ≡ PostStatus.failed
      → after.attempt_count ≡ before.attempt_count + 1
      → after.attempt_count ≤ 4
      → after.scheduled_at ≡ now + after.attempt_count * after.attempt_count * minute
      → Ends now before after
  gave_up :
      after.status ≡ PostStatus.failed
      → after.attempt_count ≡ before.attempt_count + 1
      → 5 ≤ after.attempt_count
      → Ends now before after
  unresolved :
      after.status ≡ PostStatus.processing
      → after.attempt_count ≡ before.attempt_count
      → Ends now before after

-- The row as a worker claimed it.
abbrev in_process : ℕ → ScheduledPost → ScheduledPost
in_process now post = record post { status = PostStatus.processing; updated_at = now }

stays : (now : ℕ) (post after : ScheduledPost) → after ≡ in_process now post → Ends now post after
stays now post after e =
    unresolved (ap (λ (p : ScheduledPost). p.status) e)
      (ap (λ (p : ScheduledPost). p.attempt_count) e)

fail_post-Ends :
    (w : World) (now : ℕ) (post : ScheduledPost) (error : String) (s : PostState)
    → s.post ≡ in_process now post
    → Ends now post (fail_post w now post error s).post
unfolding fail_post mark_post_result
fail_post-Ends w now post error s e = elim (Bool-cases (w.result_commits)) [
  | inr lost ↦ simp (lost, fail_post) (stays now post s.post e)
  | inl stored ↦ elim (Bool-cases (leb 5 (post.attempt_count + 1))) [
    | inl final ↦ simp (stored, final, fail_post) (gave_up refl refl (ground arith))
    | inr more ↦ simp (stored, more, fail_post) (again refl refl (ground arith) refl)
  ]
]

conclude-Ends :
    (w : World) (now : ℕ) (post : ScheduledPost) (r : PostState × Ending)
    → r.0.post ≡ in_process now post
    → Ends now post (conclude w now post r).post
unfolding mark_post_result
conclude-Ends w now post (s, through none) e = elim (Bool-cases (w.result_commits)) [
  | inr lost ↦ simp lost (stays now post s.post e)
  | inl stored ↦ simp stored (posted refl refl)
]
conclude-Ends w now post (s, through (some error)) e = fail_post-Ends w now post error s e
conclude-Ends w now post (s, no_claim) e =
    fail_post-Ends w now post "publication claim unavailable" s e
conclude-Ends w now post (s, left) e = stays now post s.post e

process_post-Ends :
    (w : World) (now : ℕ) (post : ScheduledPost) (s : PostState)
    → s.post ≡ in_process now post
    → Ends now post (process_post w now post s).post
process_post-Ends w now post s e =
    process_post-cases (λ (x : PostState). Ends now post x.post) w now post s
      (λ error. fail_post-Ends w now post error s e)
      (conclude-Ends w now post _ (
        (publish_accounts-Framed w now post (version_contents s.versions [])
          (load_post_targets w.accounts s.post.team_id s.targets) none s).0
        ∙ e))

-- A run of a due post, whatever fails in it, ends in one of four ways: the post is posted; it has
-- failed for the n-th time, n at most 4, and is due again n² minutes after the run began; it has
-- failed for the fifth time; or it is left in processing, its attempts not counted.
pub poll-Ends :
    (w : World) (now : ℕ) (s : PostState)
    → is_due now s ≡ true
    → Ends now s.post (poll w now s).post
unfolding poll is_due mark_post_processing
poll-Ends w now s due = elim (Bool-cases (is_claimable s.post.status)) [
  | inr lost ↦ absurd (ground arith)
  | inl claimed ↦
      rw (due, claimed, poll, mark_post_processing) (process_post-Ends w now s.post _ refl)
]

poll_not_due : (w : World) (now : ℕ) (s : PostState) → is_due now s ≡ false → poll w now s ≡ s
unfolding poll
poll_not_due w now s rest = rw rest refl

due-parts :
    (now : ℕ) (s : PostState)
    → is_due now s ≡ true
    → (is_claimable s.post.status ≡ true) × (s.post.attempt_count < 5) × (s.post.scheduled_at ≤ now)
unfolding is_due
due-parts now s due = (ground arith, ground arith, ground arith)

Ends-due :
    (now later : ℕ) (p q : ScheduledPost)
    → Ends now p q
    → is_claimable q.status ≡ true
    → q.attempt_count < 5
    → q.scheduled_at ≤ later
    → let n = p.attempt_count + 1 in
      (n ≤ 4) × (q.attempt_count ≡ n) × (now + n * n * minute ≤ later)
Ends-due now later p q (posted status n) claimable few due = absurd (ground arith)
Ends-due now later p q (again status n le at) claimable few due =
    (ground arith, n, subst (λ k. now + k * k * minute ≤ later) n (ground arith))
Ends-due now later p q (gave_up status n le) claimable few due = absurd (ground arith)
Ends-due now later p q (unresolved status n) claimable few due = absurd (ground arith)

-- If a post is due after a run of it, then that run failed and was at most the fourth, and its n²
-- minutes have passed.
pub poll-is_due :
    (w : World) (now later : ℕ) (s : PostState)
    → is_due now s ≡ true
    → is_due later (poll w now s) ≡ true
    → let n = s.post.attempt_count + 1 in
      (n ≤ 4) × ((poll w now s).post.attempt_count ≡ n) × (now + n * n * minute ≤ later)
poll-is_due w now later s due due_again =
    let (claimable, few, passed) = due-parts later (poll w now s) due_again in
    Ends-due now later s.post (poll w now s).post (poll-Ends w now s due) claimable few passed

-- How many runs a post may still have.
abbrev budget : ScheduledPost → ℕ
budget p = if is_claimable p.status then 5 - p.attempt_count else 0

Ends-budget :
    (now : ℕ) (p q : ScheduledPost)
    → Ends now p q
    → is_claimable p.status ≡ true
    → p.attempt_count < 5
    → budget q + 1 ≤ budget p
Ends-budget now p q (posted status n) claimable few = rw (claimable, status) (omega arith)
Ends-budget now p q (again status n le at) claimable few = rw (claimable, status, n) (omega arith)
Ends-budget now p q (gave_up status n le) claimable few = rw (claimable, status, n) (omega arith)
Ends-budget now p q (unresolved status n) claimable few = rw (claimable, status) (omega arith)

run-budget :
    (w : World) (now : ℕ) (s : PostState)
    → is_due now s ≡ true
    → budget (poll w now s).post + 1 ≤ budget s.post
run-budget w now s due =
    let (claimable, few, _) = due-parts now s due in
    Ends-budget now s.post (poll w now s).post (poll-Ends w now s due) claimable few

-- How many of the polls find the post due.
abbrev pub runs : List (World × ℕ) → PostState → ℕ
runs [] s = 0
runs ((w, now) ∷ polls) s = (if is_due now s then 1 else 0) + runs polls (poll w now s)

runs-budget : (polls : List (World × ℕ)) (s : PostState) → runs polls s ≤ budget s.post
runs-budget [] s = omega arith
runs-budget ((w, now) ∷ polls) s =
    let later = runs-budget polls (poll w now s) in
    elim (Bool-cases (is_due now s)) [
      | inl due ↦ let less = run-budget w now s due in rw due (omega arith)
      | inr rest ↦
          let bound : runs polls (poll w now s) ≤ budget s.post =
            subst (λ x. runs polls (poll w now s) ≤ budget x.post) (poll_not_due w now s rest)
              later in
          rw rest (omega arith)
    ]

-- However often a post is polled, whatever fails in its runs, if nothing else changes it between the
-- polls, it is run at most five times.
pub runs_le_five : (polls : List (World × ℕ)) (s : PostState) → runs polls s ≤ 5
runs_le_five polls s = ground (arith, runs-budget polls s)
