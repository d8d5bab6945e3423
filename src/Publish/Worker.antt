-- ===== src/Publish/Worker.antt =====
-- internal/scheduler: what a worker does with one target of a due post (a round of `processPost`,
-- `failPost` and, in audit.go, `persistTargetOutcome`). Metrics, hashtags and logging are left out: they touch neither
-- these rows nor the provider's `Publish`.
pub mod Run
use goloom.Domain.Account.{SocialAccount}
use goloom.Domain.Post.{PostStatus, ScheduledPost, lookup}
use goloom.Domain.Post.Media.{filter_media_ids_for_account}
use goloom.Publish.{
  AuditEvent, PublishOutcome, published, rejected, rate_limited, unclear, PostState,
  mark_post_result, claim_post_target_publication, mark_post_target_result,
}
use goloom.Publish.Provider.{World, PublishRequest, ensure_mastodon_fresh}
use goloom.Prelude.Result.{Result, ok, err, ◌>>=◌, ◌>>◌, refuse_if}
use goloom.Prelude.{
  ℕ, ◌+◌, ◌*◌, String, Bool, true, false, not, Option, none, some, List, [], ◌∷◌, ◌++◌, leb,
  if◌then◌else◌,
}

abbrev pub minute : ℕ
minute = 60_000_000_000

-- `publicationEvent`; `post` is the row as the worker read it.
unfoldable pub publication_event : ScheduledPost → String → String → String → String → AuditEvent
publication_event post account_id action outcome code = record {
  account_id = account_id;
  attempt = post.attempt_count + 1;
  action = action;
  outcome = outcome;
  error_code = code;
}

-- `failPost`: a fifth attempt is the last; before that the next one is put off by the square of the
-- number of attempts in minutes.
unfoldable pub fail_post : World → ℕ → ScheduledPost → String → PostState → PostState
fail_post w now post error s =
    let attempts = post.attempt_count + 1 in
    if not w.result_commits
    then s
    else if leb 5 attempts
    then mark_post_result now attempts PostStatus.failed error none s
    else mark_post_result now attempts PostStatus.failed error
        (some (now + attempts * attempts * minute)) s

-- The row of a target after an attempt, with the event of it.
pub record TargetOutcome : Type 0 where
  pub status : PostStatus
  pub published_url : String
  pub last_error : String
  pub metadata : List (String × String)
  pub remote_id : String
  pub action : String
  pub outcome : String
  pub code : String

abbrev pub failure : String → String → TargetOutcome
failure error code = record {
  status = PostStatus.failed;
  published_url = "";
  last_error = error;
  metadata = [];
  remote_id = "";
  action = "post.publish_failure";
  outcome = "failure";
  code = code;
}

abbrev pub uncertain : TargetOutcome
uncertain = record {
  status = PostStatus.processing;
  published_url = "";
  last_error = "publication_outcome_unknown";
  metadata = [];
  remote_id = "";
  action = "post.publish_uncertain";
  outcome = "uncertain";
  code = "provider_outcome_unknown";
}

abbrev pub success : String → List (String × String) → String → TargetOutcome
success url metadata remote_id = record {
  status = PostStatus.posted;
  published_url = url;
  last_error = "";
  metadata = metadata;
  remote_id = remote_id;
  action = "post.publish_success";
  outcome = "success";
  code = "";
}

-- `persistTargetOutcome`: the row and the event are written together or not at all. The flag is
-- true if they are.
unfoldable pub persist_target_outcome :
    World → ScheduledPost → String → TargetOutcome → PostState → PostState × Bool
persist_target_outcome w post account_id o s =
    if w.outcome_commits account_id
    then (
      record (mark_post_target_result account_id o.status o.published_url o.last_error o.metadata
          o.remote_id s) {
            outbox = s.outbox ++ publication_event post account_id o.action o.outcome o.code ∷ [];
          },
      true,
    )
    else (s, false)

-- The claim of a target: `none` on an error of its transaction, `some none` if it was refused.
unfoldable pub claim : World → ScheduledPost → String → PostState → Option (Option PostState)
claim w post account_id s =
    if not (w.claim_commits account_id)
    then none
    else elim (claim_post_target_publication account_id s) [
      | none ↦ some none
      | some s' ↦ some (
          some (record s' {
            outbox =
                s'.outbox
                ++ publication_event post account_id "post.publish_started" "pending" "" ∷ [];
          }))
    ]

abbrev pub content_or : String → Option String → String
content_or content none = content
content_or content (some over) = over

-- All that comes before the call of `Publish`. An error here means that nothing was sent.
unfoldable pub prepare_publication :
    World
    → ℕ
    → ScheduledPost
    → List (String × String)
    → SocialAccount
    → Result String (SocialAccount × PublishRequest)
prepare_publication w now post versions account = do
  refuse_if (not (w.registered account.provider)) "unsupported provider"
  fresh ← ensure_mastodon_fresh w now account
  token ← w.decrypt_access_token fresh
  refresh ← w.decrypt_refresh_token fresh
  media ←
      w.sync_media fresh
        (filter_media_ids_for_account post.media_ids post.media_exclude_by_account fresh.id)
  ok (
    fresh,
    record {
      content = w.expand (content_or post.content (lookup fresh.id versions));
      media_ids = media;
      visibility = post.visibility;
    },
  )

-- How one round of the loop over the accounts ends: it goes on, with the error of a failed target,
-- or the run is left with the post in processing, or the claim was not available.
pub data Verdict : Type 0 where
  go_on : Option String → Verdict
  leave claim_unavailable : Verdict

abbrev pub after_persist : Option String → PostState × Bool → PostState × Verdict
after_persist error (s, true) = (s, go_on error)
after_persist error (s, false) = (s, leave)

-- What follows the call of `Publish`, by its outcome.
unfoldable pub settle :
    World → ScheduledPost → String → PublishOutcome → PostState → PostState × Verdict
settle w post id (published url metadata remote_id) s =
    after_persist none (persist_target_outcome w post id (success url metadata remote_id) s)
settle w post id (rejected e) s =
    after_persist (some e) (persist_target_outcome w post id (failure e "provider_rejected") s)
settle w post id (rate_limited e) s =
    after_persist (some e) (persist_target_outcome w post id (failure e "provider_rejected") s)
settle w post id (unclear e) s = ((persist_target_outcome w post id uncertain s).0, leave)

-- The call of `Publish`, which is recorded.
unfoldable pub send :
    World → ScheduledPost → SocialAccount → PublishRequest → PostState → PostState × Verdict
send w post account request s =
    let outcome = w.publish account request in
    settle w post account.id outcome (record s {
      sent =
          record {
            account_id = account.id;
            content = request.content;
            media_ids = request.media_ids;
            outcome = outcome;
          }
          ∷ s.sent;
    })

-- A claimed target.
unfoldable pub publish_claimed :
    World
    → ℕ
    → ScheduledPost
    → List (String × String)
    → SocialAccount
    → PostState
    → PostState × Verdict
publish_claimed w now post versions account s =
    elim (prepare_publication w now post versions account) [
      | err e ↦
          after_persist (some e)
            (persist_target_outcome w post account.id (failure e "preparation_failed") s)
      | ok (fresh, request) ↦ send w post fresh request s
    ]

-- One round of the loop of `processPost`.
unfoldable pub publish_account :
    World
    → ℕ
    → ScheduledPost
    → List (String × String)
    → SocialAccount
    → PostState
    → PostState × Verdict
publish_account w now post versions account s = elim (claim w post account.id s) [
  | none ↦ (s, claim_unavailable)
  | some none ↦ (s, leave)
  | some (some s') ↦ publish_claimed w now post versions account s'
]
