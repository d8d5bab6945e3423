-- ===== src/Publish.antt =====
-- Publication of due posts: the rows of one post in the store (internal/store/sqlite: store.go,
-- audit_outbox.go, publish_failures.go) and their updates. Each SQL statement is one function; an
-- `update … where` that may touch no row returns an option.
pub mod Provider
pub mod Worker
pub mod Invariant
pub mod Safety
pub mod Frame
pub mod Sent
pub mod Edit
pub mod Create
pub mod Attempts
pub mod Team
pub mod Delivery
use goloom.Domain.Account.{SocialAccount}
use goloom.Domain.Post.{PostStatus, ScheduledPost}
use goloom.Domain.Post.Patch.{PostVersion}
use goloom.Strings.{trim_space}
use goloom.Prelude.{
  ℕ, ◌+◌, String, Bool, true, false, ◌&&◌, Option, none, some, List, [], ◌∷◌, ltb, leb,
  if◌then◌else◌, ◌==◌, eq_nat, eq_text,
}

-- A row of scheduled_post_targets; a null text is "".
pub record Target : Type 0 where
  pub account_id : String
  pub status : PostStatus
  pub published_url : String
  pub last_error : String
  pub publish_metadata : List (String × String)
  pub remote_post_id : String

-- An event that waits for delivery, without the fields that are the same for all (`publicationEvent`).
pub record AuditEvent : Type 0 where
  pub account_id : String
  pub attempt : ℕ
  pub action : String
  pub outcome : String
  pub error_code : String

-- What a provider's `Publish` came to: the `PublishResult`, a definite refusal
-- (`PublicationRejectedError`), a rate limit, or any other error, which leaves the outcome open.
pub data PublishOutcome : Type 0 where
  published : String → List (String × String) → String → PublishOutcome
  rejected rate_limited unclear : String → PublishOutcome

-- One call of a provider's `Publish`.
pub record Publication : Type 0 where
  pub account_id : String
  pub content : String
  pub media_ids : List String
  pub outcome : PublishOutcome

-- The rows of one post, its pending audit events, and the calls of `Publish` made for it so far,
-- the latest first. The calls are no state of the program: the theorems speak of them.
pub record PostState : Type 0 where
  pub post : ScheduledPost
  pub acknowledged_at : Option ℕ
  pub targets : List Target
  pub versions : List PostVersion
  pub outbox : List AuditEvent
  pub sent : List Publication

-- `status in ('pending','failed')`.
abbrev pub is_claimable : PostStatus → Bool
is_claimable PostStatus.pending = true
is_claimable PostStatus.failed = true
is_claimable _ = false

abbrev pub is_posted : PostStatus → Bool
is_posted PostStatus.posted = true
is_posted _ = false

abbrev pub is_failed : PostStatus → Bool
is_failed PostStatus.failed = true
is_failed _ = false

-- The condition of `ListDuePosts`.
unfoldable pub is_due : ℕ → PostState → Bool
is_due now s =
    leb s.post.scheduled_at now && is_claimable s.post.status && ltb s.post.attempt_count 5

-- `MarkPostProcessing`; `none` is a rejected claim.
unfoldable pub mark_post_processing : ℕ → PostState → Option PostState
mark_post_processing now s =
    if is_claimable s.post.status
    then some
        (record s { post = record s.post { status = PostStatus.processing; updated_at = now } })
    else none

abbrev or_old : ℕ → Option ℕ → ℕ
or_old old none = old
or_old old (some t) = t

-- `MarkPostResult`: the schedule moves only if a next attempt is given.
unfoldable pub mark_post_result : ℕ → ℕ → PostStatus → String → Option ℕ → PostState → PostState
mark_post_result now attempts status last_error next_attempt s = record s {
  post = record s.post {
    attempt_count = attempts;
    status = status;
    last_error = trim_space last_error;
    scheduled_at = or_old s.post.scheduled_at next_attempt;
    updated_at = now;
  };
}

-- An update of the rows of one account.
unfoldable pub update_targets : String → (Target → Target) → List Target → List Target
update_targets account_id f [] = []
update_targets account_id f (t ∷ ts) =
    (if t.account_id == account_id then f t else t) ∷ update_targets account_id f ts

-- The number of rows that a claim touches.
unfoldable pub claimable_rows : String → List Target → ℕ
claimable_rows account_id [] = 0
claimable_rows account_id (t ∷ ts) =
    (if t.account_id == account_id && is_claimable t.status then 1 else 0)
    + claimable_rows account_id ts

unfoldable pub claim_target : Target → Target
claim_target t =
    if is_claimable t.status
    then record t { status = PostStatus.processing; last_error = "publication_outcome_unknown" }
    else t

-- `ClaimPostTargetPublication`; `none` if not exactly one row was touched.
unfoldable pub claim_post_target_publication : String → PostState → Option PostState
claim_post_target_publication account_id s =
    if claimable_rows account_id s.targets == 1
    then some (record s { targets = update_targets account_id claim_target s.targets })
    else none

-- `MarkPostTargetResult`.
unfoldable pub mark_post_target_result :
    String → PostStatus → String → String → List (String × String) → String → PostState → PostState
mark_post_target_result account_id status url last_error metadata remote_id s = record s {
  targets =
      update_targets account_id
        (λ t. record t {
          status = status;
          published_url = trim_space url;
          last_error = trim_space last_error;
          publish_metadata = metadata;
          remote_post_id = trim_space remote_id;
        })
        s.targets;
}

unfoldable pub find_in_team : String → String → List SocialAccount → Option SocialAccount
find_in_team id team_id [] = none
find_in_team id team_id (a ∷ accounts) =
    if a.id == id && a.team_id == team_id then some a else find_in_team id team_id accounts

-- `LoadPostTargets`: the accounts of the targets that are not posted, those of another team left
-- out. `accounts` is the table social_accounts.
unfoldable pub load_post_targets : List SocialAccount → String → List Target → List SocialAccount
unfolding find_in_team
load_post_targets accounts team_id [] = []
load_post_targets accounts team_id (t ∷ ts) = elim (find_in_team t.account_id team_id accounts) [
  | none ↦ load_post_targets accounts team_id ts
  | some a ↦
      if is_posted t.status
      then load_post_targets accounts team_id ts
      else a ∷ load_post_targets accounts team_id ts
]

unfoldable pub reset_target : Target → Target
reset_target t =
    if is_posted t.status then t else record t { status = PostStatus.pending; last_error = "" }

abbrev pub reset_targets : List Target → List Target
reset_targets [] = []
reset_targets (t ∷ ts) = reset_target t ∷ reset_targets ts

-- `AdminRetryFailedPost`; `none` if the post has not failed.
unfoldable pub admin_retry_failed_post : ℕ → PostState → Option PostState
admin_retry_failed_post now s =
    if is_failed s.post.status
    then some (record s {
      post = record s.post {
        status = PostStatus.pending;
        attempt_count = 0;
        last_error = "";
        scheduled_at = now;
        updated_at = now;
      };
      acknowledged_at = none;
      targets = reset_targets s.targets;
    })
    else none

abbrev pub is_nil : Option ℕ → Bool
is_nil none = true
is_nil (some _) = false

-- `AdminAcknowledgeFailedPost`.
unfoldable pub admin_acknowledge_failed_post : ℕ → PostState → Option PostState
admin_acknowledge_failed_post now s =
    if is_failed s.post.status && is_nil s.acknowledged_at
    then some (record s { post = record s.post { updated_at = now }; acknowledged_at = some now })
    else none

-- `CancelScheduledPost`.
unfoldable pub cancel_scheduled_post : ℕ → PostState → PostState
cancel_scheduled_post now s = record s {
  post = record s.post { status = PostStatus.cancelled; updated_at = now };
}

-- `RepairFuturePostedPosts`, for one post; its audit event is left out.
unfoldable pub repair_future_posted_post : ℕ → PostState → PostState
repair_future_posted_post now s =
    if is_posted s.post.status && ltb now s.post.scheduled_at
    then record s { post = record s.post { status = PostStatus.pending } }
    else s
