-- ===== src/Publish/Team.antt =====
-- What the operations on the rows of a post do to its team, its targets and the calls of `Publish`.
pub mod Edits
use goloom.Domain.Post.{PostStatus, ScheduledPost}
use goloom.Publish.{
  Target, PostState, mark_post_processing, mark_post_result, admin_retry_failed_post,
  load_post_targets, is_claimable, is_failed, is_posted, is_nil, admin_acknowledge_failed_post,
  repair_future_posted_post, reset_target, reset_targets, is_due,
}
use goloom.Publish.Provider.{World, IsWorld}
use goloom.Publish.Worker.{fail_post}
use goloom.Publish.Worker.Run.{
  poll, process_post, version_contents, conclude, Ending, through, left, no_claim,
}
use goloom.Publish.Safety.Actions.{OfOption}
use goloom.Publish.Safety.Runs.{process_post-cases}
use goloom.Publish.Sent.{SentTo, poll-SentTo}
use goloom.Publish.Frame.{row_ids, publish_accounts-Framed}
use goloom.Prelude.{
  ℕ, String, ◌≡◌, refl, ap, inl, inr, not, ◌&&◌, none, some, List, [], ◌∷◌, ltb, if-both,
  Bool-cases, All,
}

-- Every target is an account of the post's team, and every call of `Publish` was for one.
abbrev pub InTeam : (String → String) → PostState → Type 0
InTeam team_of s =
    All (λ id. team_of id ≡ s.post.team_id) (row_ids s.targets)
    × SentTo (λ id. team_of id ≡ s.post.team_id) s

-- The same team, and the same targets.
abbrev Based : PostState → PostState → Type 0
Based s s' = (s'.post.team_id ≡ s.post.team_id) × (row_ids s'.targets ≡ row_ids s.targets)

-- The same team, the same targets, and no new call.
abbrev pub Home : PostState → PostState → Type 0
Home s s' =
    (s'.post.team_id ≡ s.post.team_id)
    × (row_ids s'.targets ≡ row_ids s.targets)
    × (s'.sent ≡ s.sent)

-- The same team, whose accounts the targets and the calls stay with.
abbrev pub Stays : (String → String) → PostState → PostState → Type 0
Stays team_of s s' = (s'.post.team_id ≡ s.post.team_id) × (InTeam team_of s → InTeam team_of s')

pub Home-Stays : (team_of : String → String) (s s' : PostState) → Home s s' → Stays team_of s s'
Home-Stays team_of s s' (team, rows, calls) = (team, λ old. rw (team, rows, calls) old)

fail_post-Based :
    (w : World) (now : ℕ) (post : ScheduledPost) (error : String) (s s' : PostState)
    → Based s s'
    → Based s (fail_post w now post error s')
unfolding fail_post mark_post_result
fail_post-Based w now post error s s' home =
    if-both (Based s) (not w.result_commits) home (if-both (Based s) _ home home)

conclude-Based :
    (w : World) (now : ℕ) (post : ScheduledPost) (s : PostState) (r : PostState × Ending)
    → Based s r.0
    → Based s (conclude w now post r)
unfolding mark_post_result
conclude-Based w now post s (s', through none) home = if-both (Based s) w.result_commits home home
conclude-Based w now post s (s', through (some e)) home = fail_post-Based w now post e s s' home
conclude-Based w now post s (s', no_claim) home = fail_post-Based w now post _ s s' home
conclude-Based w now post s (s', left) home = home

process_post-Based :
    (w : World) (now : ℕ) (post : ScheduledPost) (s : PostState)
    → Based s (process_post w now post s)
process_post-Based w now post s =
    let accounts = load_post_targets w.accounts s.post.team_id s.targets in
    let (same_post, same_rows) =
      publish_accounts-Framed w now post (version_contents s.versions []) accounts none s in
    process_post-cases (Based s) w now post s
      (λ error. fail_post-Based w now post error s s (refl, refl))
      (conclude-Based w now post s _ (ap ScheduledPost.team_id same_post, same_rows))

poll-Based : (w : World) (now : ℕ) (s : PostState) → Based s (poll w now s)
unfolding poll mark_post_processing
poll-Based w now s = elim (Bool-cases (is_due now s)) [
  | inr rest ↦ rw (rest, poll) (refl, refl)
  | inl due ↦ elim (Bool-cases (is_claimable s.post.status)) [
    | inr lost ↦ simp (due, lost, poll, mark_post_processing) (refl, refl)
    | inl claimed ↦
        simp (due, claimed, poll, mark_post_processing)
          (process_post-Based w now s.post (record s {
            post = record s.post { status = PostStatus.processing; updated_at = now };
          }))
  ]
]

pub poll-Stays :
    (team_of : String → String) (w : World) (now : ℕ) (s : PostState)
    → IsWorld w
    → Stays team_of s (poll w now s)
poll-Stays team_of w now s known =
    let (team, rows) = poll-Based w now s in
    let own : String → Type 0 = λ id. team_of id ≡ s.post.team_id in
    (team, λ old. (rw (team, rows) old.0, rw team (poll-SentTo own w now s known old.0 old.1)))

reset_targets-rows : (ts : List Target) → row_ids (reset_targets ts) ≡ row_ids ts
unfolding reset_target
reset_targets-rows [] = refl
reset_targets-rows (t ∷ ts) = elim (Bool-cases (is_posted t.status)) [
  | inl posted ↦ rw (posted, reset_target) (ap (λ xs. t.account_id ∷ xs) (reset_targets-rows ts))
  | inr other ↦ rw (other, reset_target) (ap (λ xs. t.account_id ∷ xs) (reset_targets-rows ts))
]

pub retry-Home : (now : ℕ) (s : PostState) → OfOption (Home s) (admin_retry_failed_post now s)
unfolding admin_retry_failed_post
retry-Home now s = elim (Bool-cases (is_failed s.post.status)) [
  | inl failed ↦ rw (failed, admin_retry_failed_post) (refl, reset_targets-rows s.targets, refl)
  | inr other ↦ rw (other, admin_retry_failed_post) tt
]

pub acknowledge-Home :
    (now : ℕ) (s : PostState) → OfOption (Home s) (admin_acknowledge_failed_post now s)
unfolding admin_acknowledge_failed_post
acknowledge-Home now s = elim (Bool-cases (is_failed s.post.status && is_nil s.acknowledged_at)) [
  | inl failed ↦ rw (failed, admin_acknowledge_failed_post) (refl, refl, refl)
  | inr other ↦ rw (other, admin_acknowledge_failed_post) tt
]

pub repair-Home : (now : ℕ) (s : PostState) → Home s (repair_future_posted_post now s)
unfolding repair_future_posted_post
repair-Home now s = elim (Bool-cases (is_posted s.post.status && ltb now s.post.scheduled_at)) [
  | inl early ↦ rw (early, repair_future_posted_post) (refl, refl, refl)
  | inr other ↦ rw (other, repair_future_posted_post) (refl, refl, refl)
]
