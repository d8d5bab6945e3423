-- ===== src/Publish/Create.antt =====
-- internal/store/sqlite/store.go: `CreateScheduledPost`, one transaction; `none` is an error. The link
-- of an RSS item is left out.
use goloom.Domain.Principal.{AuthenticatedPrincipal}
use goloom.Domain.Post.{CreatePostInput}
use goloom.Domain.Post.Status.{resolve_post_insert}
use goloom.Domain.Post.Media.{normalize_media_ids}
use goloom.Domain.Post.Input.{normalize_post_visibility}
use goloom.Publish.{PostState}
use goloom.Publish.Edit.{override_rows, pending_targets}
use goloom.Prelude.{ℕ, String, Bool, Option, none, some, [], if◌then◌else◌}

unfoldable pub create_scheduled_post :
    Bool → String → ℕ → String → AuthenticatedPrincipal → CreatePostInput → Option PostState
create_scheduled_post commits id now team_id principal input =
    let ins = resolve_post_insert principal input in
    if commits
    then some (record {
      post = record {
        id = id;
        team_id = team_id;
        author_user_id = ins.author_id;
        title = input.title;
        content = input.content;
        scheduled_at = input.scheduled_at;
        status = ins.status;
        source = ins.source;
        attempt_count = 0;
        last_error = "";
        created_at = now;
        updated_at = now;
        target_accounts = input.target_accounts;
        visibility = normalize_post_visibility input.visibility;
        media_ids = normalize_media_ids input.media_ids;
        media_exclude_by_account = input.media_exclude_by_account;
        post_template_id = ins.template_id;
        template_counter = ins.template_counter;
        template_occurrence_at = ins.template_occurrence_at;
        template_post_role = ins.template_role;
        rss_feed_id = ins.rss_feed_id;
        ai_job_id = input.ai_job_id;
        ai_fallback_reason = input.ai_fallback_reason;
      };
      acknowledged_at = none;
      targets = pending_targets input.target_accounts;
      versions = override_rows id input.account_content_override;
      outbox = [];
      sent = [];
    })
    else none
