-- ===== src/Tests/Publish.antt =====
-- A post with two targets: the network refuses the second account, an operator retries, and the
-- second run publishes to that account alone.
use goloom.Domain.Account.{SocialAccount, AccountAuthType}
use goloom.Domain.Post.{PostStatus, PostSource}
use goloom.Domain.Post.Patch.{is_set}
use goloom.Publish.{Target, admin_retry_failed_post, published, rejected, PostState, is_due}
use goloom.Publish.Provider.{World, IsWorld}
use goloom.Publish.Worker.{minute}
use goloom.Publish.Worker.Run.{poll}
use goloom.Publish.Invariant.{landed, is_held}
use goloom.Publish.Safety.Reachable.{
  Reaches, start, next, polled, retried, IsNew, Reaches-is_held, publish_at_most_once,
}
use goloom.Publish.Attempts.{Ends, poll-Ends, poll-is_due, runs, runs_le_five}
use goloom.Prelude.Result.{Result, ok, err}
use goloom.Prelude.{
  ℕ, ◌+◌, ◌*◌, ◌≤◌, String, ◌≡◌, refl, sym, ap, ◌∙◌, inl, inr, true, false, Option, none, some,
  List, [], ◌∷◌, if◌then◌else◌, ◌==◌, eq_nat, eq_text, eq_of_beq, Bool-cases, All,
}

abbrev pub account : String → SocialAccount
account id = record {
  id = id;
  team_id = "team";
  name = id;
  provider = "bluesky";
  auth_type = AccountAuthType.app_password;
  provider_instance_id = "";
  instance_url = "";
  username = id;
  remote_account_id = id;
  avatar_url = "";
  access_token_ciphertext = "";
  refresh_token_ciphertext = "";
  max_chars_override = none;
  access_token_expires_at = none;
  account_metrics_synced_at = none;
  post_engagement_synced_at = none;
  created_at = 0;
}

abbrev by_id : String → Result String SocialAccount
by_id id = if id == "a" then ok (account "a") else err "not found"

-- A network that refuses one account.
abbrev pub world : String → World
world refused = record {
  accounts = account "a" ∷ account "b" ∷ [];
  load_accounts = λ ids. some (account "a" ∷ account "b" ∷ []);
  targets_query = true;
  versions_query = true;
  claim_commits = λ id. true;
  outcome_commits = λ id. true;
  result_commits = true;
  registered = λ name. true;
  can_refresh = λ name. false;
  decrypt_access_token = λ a. ok "token";
  decrypt_refresh_token = λ a. ok "";
  client_secret = λ id. err "no instance";
  refresh_tokens = λ a secret token. err "no refresh";
  get_account = by_id;
  sync_media = λ a ids. ok ids;
  expand = λ content. content;
  publish = λ a request.
      if a.id == refused then rejected "refused" else published "https://example.org/1" [] "1";
}

pub world-IsWorld : (refused : String) → IsWorld (world refused)
world-IsWorld refused id a h = elim (Bool-cases (id == "a")) [
  | inl same ↦
      let e : ◌≡◌ {A = Result String SocialAccount} (ok (account "a")) (ok a) = rw same at h in
      let e' : account "a" ≡ a = cc in
      ap (λ (x : SocialAccount). x.id) (sym e') ∙ sym (eq_of_beq id "a" same)
  | inr other ↦ cc (rw other at h)
]

abbrev target : String → Target
target id = record {
  account_id = id;
  status = PostStatus.pending;
  published_url = "";
  last_error = "";
  publish_metadata = [];
  remote_post_id = "";
}

abbrev pub stored : PostState
stored = record {
  post = record {
    id = "post";
    team_id = "team";
    author_user_id = "user";
    title = "Title";
    content = "Hello";
    scheduled_at = 100;
    status = PostStatus.pending;
    source = PostSource.scheduled;
    attempt_count = 0;
    last_error = "";
    created_at = 0;
    updated_at = 0;
    target_accounts = "a" ∷ "b" ∷ [];
    visibility = "public";
    media_ids = [];
    media_exclude_by_account = [];
    post_template_id = none;
    template_counter = none;
    template_occurrence_at = none;
    template_post_role = "";
    rss_feed_id = none;
    ai_job_id = none;
    ai_fallback_reason = none;
  };
  acknowledged_at = none;
  targets = target "a" ∷ target "b" ∷ [];
  versions = [];
  outbox = [];
  sent = [];
}

stored-IsNew : IsNew stored
stored-IsNew = record { unsent = refl; waiting = (refl, (refl, tt)) }

abbrev failed_once : PostState
failed_once = poll (world "b") 100 stored

failed_once-sent : (landed "a" failed_once.sent ≡ 1) × (landed "b" failed_once.sent ≡ 0)
unfolding poll is_due goloom.Publish.mark_post_processing goloom.Publish.Worker.Run.process_post
    goloom.Postservice.resolve_targets goloom.Postservice.resolve_loaded
    goloom.Postservice.scan_targets goloom.Postservice.find_account
    goloom.Postservice.check_overrides goloom.Publish.load_post_targets
    goloom.Publish.Worker.Run.publish_accounts goloom.Publish.Worker.publish_account
    goloom.Publish.Worker.claim goloom.Publish.claim_post_target_publication
    goloom.Publish.claimable_rows goloom.Publish.Worker.publish_claimed
    goloom.Publish.Worker.prepare_publication goloom.Publish.Provider.ensure_mastodon_fresh
    goloom.Domain.Post.Media.filter_media_ids_for_account goloom.Domain.Post.lookup
    goloom.Domain.Post.put goloom.Postservice.in_target_order goloom.Publish.Worker.fail_post
    goloom.Publish.Worker.persist_target_outcome goloom.Publish.Worker.publication_event
    goloom.Publish.Worker.send goloom.Publish.Worker.settle
    goloom.Publish.Worker.Run.version_contents goloom.Publish.claim_target
    goloom.Publish.mark_post_result goloom.Publish.mark_post_target_result
    goloom.Publish.update_targets
failed_once-sent = (refl, refl)

failed_once-row :
    (failed_once.post.status ≡ PostStatus.failed)
    × (failed_once.post.attempt_count ≡ 1)
    × (failed_once.post.scheduled_at ≡ 100 + minute)
unfolding poll is_due goloom.Publish.mark_post_processing goloom.Publish.Worker.Run.process_post
    goloom.Postservice.resolve_targets goloom.Postservice.resolve_loaded
    goloom.Postservice.scan_targets goloom.Postservice.find_account
    goloom.Postservice.check_overrides goloom.Publish.load_post_targets
    goloom.Publish.Worker.Run.publish_accounts goloom.Publish.Worker.publish_account
    goloom.Publish.Worker.claim goloom.Publish.claim_post_target_publication
    goloom.Publish.claimable_rows goloom.Publish.Worker.publish_claimed
    goloom.Publish.Worker.prepare_publication goloom.Publish.Provider.ensure_mastodon_fresh
    goloom.Domain.Post.Media.filter_media_ids_for_account goloom.Domain.Post.lookup
    goloom.Domain.Post.put goloom.Postservice.in_target_order goloom.Publish.Worker.fail_post
    goloom.Publish.Worker.persist_target_outcome goloom.Publish.Worker.publication_event
    goloom.Publish.Worker.send goloom.Publish.Worker.settle
    goloom.Publish.Worker.Run.version_contents goloom.Publish.claim_target
    goloom.Publish.mark_post_result goloom.Publish.mark_post_target_result
    goloom.Publish.update_targets
failed_once-row = (refl, refl, refl)

failed_once-is_due : is_due (100 + minute) failed_once ≡ true
unfolding is_due
failed_once-is_due = rw (failed_once-row.0, failed_once-row.1, failed_once-row.2) refl

pub stored-is_due : is_due 100 stored ≡ true
unfolding is_due
stored-is_due = refl

abbrev or_else : PostState → Option PostState → PostState
or_else s none = s
or_else s (some t) = t

abbrev operator_retry : PostState
operator_retry = or_else failed_once (admin_retry_failed_post 200 failed_once)

is_set-or_else : (s : PostState) (o : Option PostState) → is_set o ≡ true → o ≡ some (or_else s o)
is_set-or_else s none h = cc
is_set-or_else s (some t) h = refl

operator_retry-accepted : is_set (admin_retry_failed_post 200 failed_once) ≡ true
unfolding admin_retry_failed_post
operator_retry-accepted = rw (failed_once-row.0) refl

operator_retry-stored : admin_retry_failed_post 200 failed_once ≡ some operator_retry
operator_retry-stored = is_set-or_else failed_once _ operator_retry-accepted

life : Reaches stored (poll (world "nobody") 300 operator_retry)
life =
    next
      (next (next start (polled (world "b") 100 (world-IsWorld "b")))
        (retried 200 operator_retry-stored))
      (polled (world "nobody") 300 (world-IsWorld "nobody"))

publish_at_most_once_example : landed "a" (poll (world "nobody") 300 operator_retry).sent ≤ 1
publish_at_most_once_example =
    publish_at_most_once stored (poll (world "nobody") 300 operator_retry) "a" stored-IsNew life

Reaches-is_held_example :
    All
      (λ t. 1 ≤ landed t.account_id failed_once.sent → is_held t.status ≡ true)
      failed_once.targets
Reaches-is_held_example =
    Reaches-is_held stored failed_once stored-IsNew
      (next start (polled (world "b") 100 (world-IsWorld "b")))

poll-Ends_example : Ends 100 stored.post failed_once.post
poll-Ends_example = poll-Ends (world "b") 100 stored stored-is_due

poll-is_due_example :
    (1 ≤ 4) × (failed_once.post.attempt_count ≡ 1) × (100 + 1 * 1 * minute ≤ 100 + minute)
poll-is_due_example =
    poll-is_due (world "b") 100 (100 + minute) stored stored-is_due failed_once-is_due

abbrev polls : List (World × ℕ)
polls = (world "b", 100) ∷ (world "b", 100 + minute) ∷ []

runs_le_five_example : runs polls stored ≤ 5
runs_le_five_example = runs_le_five polls stored
