-- ===== src/Publish/Worker/Run.antt =====
-- internal/scheduler: the loop of `processPost` over the accounts, the whole of it, and a poll.
use goloom.Strings.{trim_space, is_blank}
use goloom.Domain.Account.{SocialAccount}
use goloom.Domain.Post.{PostStatus, ScheduledPost, put}
use goloom.Domain.Post.Patch.{PostVersion}
use goloom.Postservice.{resolve_targets, PrepareError}
use goloom.Publish.{PostState, mark_post_processing, mark_post_result, load_post_targets, is_due}
use goloom.Publish.Provider.{World}
use goloom.Prelude.Result.{Result, ok, err}
use goloom.Publish.Worker.{go_on, leave, claim_unavailable, publish_account, fail_post}
use goloom.Prelude.{
  ℕ, ◌+◌, String, Bool, true, false, not, ◌&&◌, Option, none, some, List, [], ◌∷◌, if◌then◌else◌,
  is_empty,
}

-- How the loop ends: through, with the first error, or early.
pub data Ending : Type 0 where
  through : Option String → Ending
  left no_claim : Ending

abbrev pub first_error : Option String → Option String → Option String
first_error none new = new
first_error (some e) new = some e

unfoldable pub publish_accounts :
    World
    → ℕ
    → ScheduledPost
    → List (String × String)
    → List SocialAccount
    → Option String
    → PostState
    → PostState × Ending
publish_accounts w now post versions [] error s = (s, through error)
publish_accounts w now post versions (a ∷ accounts) error s =
    let (s', verdict) = publish_account w now post versions a s in
    elim verdict [
      | go_on new ↦ publish_accounts w now post versions accounts (first_error error new) s'
      | leave ↦ (s', left)
      | claim_unavailable ↦ (s', no_claim)
    ]

-- `versionContentByAccount`: the versions that are not blank, trimmed.
unfoldable pub version_contents : List PostVersion → List (String × String) → List (String × String)
version_contents [] out = out
version_contents (v ∷ versions) out =
    version_contents versions
      (if is_blank v.content then out else put v.account_id (trim_space v.content) out)

abbrev pub conclude : World → ℕ → ScheduledPost → PostState × Ending → PostState
conclude w now post (s, through none) =
    if w.result_commits
    then mark_post_result now (post.attempt_count + 1) PostStatus.posted "" none s
    else s
conclude w now post (s, through (some e)) = fail_post w now post e s
conclude w now post (s, left) = s
conclude w now post (s, no_claim) = fail_post w now post "publication claim unavailable" s

abbrev pub is_error : Result PrepareError (List SocialAccount × String) → Bool
is_error (ok _) = false
is_error (err _) = true

-- `processPost`.
unfoldable pub process_post : World → ℕ → ScheduledPost → PostState → PostState
process_post w now post s =
    if is_error (resolve_targets w.load_accounts post.team_id post.target_accounts [])
    then fail_post w now post "validate targets" s
    else if not w.targets_query
    then fail_post w now post "load targets" s
    else let accounts = load_post_targets w.accounts s.post.team_id s.targets in
      if not (is_empty accounts) && not w.versions_query
      then fail_post w now post "list post versions" s
      else conclude w now post
          (publish_accounts w now post (version_contents s.versions []) accounts none s)

-- A due post of a poll (`ListDuePosts` and `enqueueDuePosts`), and its run.
unfoldable pub poll : World → ℕ → PostState → PostState
poll w now s =
    if is_due now s
    then (elim (mark_post_processing now s) [ none ↦ s | some s' ↦ process_post w now s.post s' ])
    else s
