-- ===== src/Tests/Api.antt =====
-- A token that may write drafts creates the post of Tests/Posts as a draft, and updates it.
use goloom.Domain.Principal.{AuthenticatedPrincipal}
use goloom.Domain.Post.{CreatePostInput, is_draft}
use goloom.Domain.Post.Patch.{UpdatePostPatch}
use goloom.Auth.{scope_write_draft, scope_write_schedule, principal_allows}
use goloom.Publish.{PostState}
use goloom.Domain.Account.{SocialAccount}
use goloom.Publish.Team.{InTeam}
use goloom.Publish.Worker.Run.{poll}
use goloom.Api.Life.{IsServed, Life, begin, next, updated, polled, targets_stay-InTeam}
use goloom.Api.{Services, may_edit, handle_update_post}
use goloom.Api.Posts.{handle_create_post}
use goloom.Api.Update.{drafts_stay}
use goloom.Api.Creation.{created_authority}
use goloom.Tests.Posts.{
  env, load, load-IsLoader, input, is_ok, or_default, is_ok-or_default, only_account,
}
use goloom.Tests.Publish.{stored, world, world-IsWorld}
use goloom.Prelude.Result.{ok}
use goloom.Prelude.{String, ◌≡◌, refl, sym, ap, true, false, none, some, [], ◌∷◌}

abbrev services : Services
services = record {
  has_role = λ user team roles. some true;
  env = env;
  load_accounts = load;
  versions_load = true;
  commits = true;
  now = 10;
}

abbrev drafter : AuthenticatedPrincipal
drafter = record {
  user = record {
    id = "u";
    email = "";
    name = "";
    picture_url = "";
    subject = "";
    is_admin = false;
    tour_done = false;
    created_at = 0;
  };
  kind = "api_token";
  scopes = scope_write_draft ∷ [];
  token_team_id = none;
  token_expires_at = none;
  token_id = none;
  token_name = none;
}

drafter-below : principal_allows drafter scope_write_schedule ≡ false
unfolding principal_allows goloom.Auth.scope_satisfied goloom.Auth.grants
drafter-below = refl

abbrev draft_input : CreatePostInput
draft_input = record input { draft = true }

abbrev created : PostState
created =
    or_default stored (handle_create_post services "p" "team" (some drafter) (some draft_input))

created-is_ok :
    is_ok (handle_create_post services "p" "team" (some drafter) (some draft_input)) ≡ true
unfolding handle_create_post goloom.Api.Posts.timed_input goloom.Api.Posts.create_options
    goloom.Auth.principal_allows goloom.Auth.scope_satisfied goloom.Auth.grants
    goloom.Auth.principal_has_team_access goloom.Auth.bound_elsewhere
    goloom.Postservice.Prepare.prepare goloom.Strings.is_blank goloom.Postservice.Prepare.validated
    goloom.Domain.Post.Input.validate goloom.Domain.Post.Input.normalize
    goloom.Postservice.Prepare.is_past goloom.Postservice.resolve_targets
    goloom.Postservice.resolve_loaded goloom.Postservice.scan_targets
    goloom.Postservice.find_account goloom.Postservice.check_overrides
    goloom.Postservice.Prepare.raw_override_keys goloom.Postservice.Prepare.limits_checked
    goloom.Postservice.in_target_order goloom.Publish.Create.create_scheduled_post
created-is_ok = refl

created-accepted :
    handle_create_post services "p" "team" (some drafter) (some draft_input) ≡ ok created
created-accepted = is_ok-or_default stored _ created-is_ok

created_authority_example :
    (may_edit services drafter created.post.team_id ≡ true)
    × (principal_allows drafter scope_write_schedule ≡ false → is_draft created.post.status ≡ true)
created_authority_example =
    created_authority services "p" "team" drafter draft_input created load-IsLoader created-accepted

abbrev retitled : UpdatePostPatch
retitled = record {
  title = some "New";
  content = none;
  scheduled_at = none;
  target_accounts = none;
  visibility = none;
  media_ids = none;
  media_exclude_by_account = none;
  account_content_override = none;
  draft = none;
  publish_now = none;
  review_complete = none;
}

abbrev renamed : PostState
renamed =
    or_default stored (handle_update_post services (some drafter) (some created) (some retitled))

updated-is_ok :
    is_ok (handle_update_post services (some drafter) (some created) (some retitled)) ≡ true
unfolding handle_update_post handle_create_post goloom.Api.review_checked goloom.Api.has_scope
    goloom.Api.required_scope goloom.Api.post_write_scope goloom.Api.effective_patch
    goloom.Api.prepare_patch goloom.Api.merged_input goloom.Api.update_options
    goloom.Api.store_patch goloom.Domain.Post.Patch.apply_post_patch
    goloom.Publish.Edit.patch_scheduled_post goloom.Domain.Post.Status.resolve_post_insert
    goloom.Domain.Post.Patch.any_set goloom.Api.Posts.timed_input goloom.Api.Posts.create_options
    goloom.Auth.principal_allows goloom.Auth.scope_satisfied goloom.Auth.grants
    goloom.Auth.principal_has_team_access goloom.Auth.bound_elsewhere
    goloom.Postservice.Prepare.prepare goloom.Strings.is_blank goloom.Postservice.Prepare.validated
    goloom.Domain.Post.Input.validate goloom.Domain.Post.Input.normalize
    goloom.Postservice.Prepare.is_past goloom.Postservice.resolve_targets
    goloom.Postservice.resolve_loaded goloom.Postservice.scan_targets
    goloom.Postservice.find_account goloom.Postservice.check_overrides
    goloom.Postservice.Prepare.raw_override_keys goloom.Postservice.Prepare.limits_checked
    goloom.Postservice.in_target_order goloom.Publish.Create.create_scheduled_post
    goloom.Domain.Post.Overrides.normalize_account_content_override
    goloom.Domain.Post.Patch.versions_to_override_map goloom.Publish.Edit.override_rows
    goloom.Domain.Post.put
updated-is_ok = refl

updated-accepted :
    handle_update_post services (some drafter) (some created) (some retitled) ≡ ok renamed
updated-accepted = is_ok-or_default stored _ updated-is_ok

drafts_stay_example : (is_draft created.post.status ≡ true) × (is_draft renamed.post.status ≡ true)
drafts_stay_example =
    drafts_stay services drafter created retitled renamed drafter-below updated-accepted

-- A token that may schedule creates the post, replaces its targets, and a worker publishes it.
abbrev scheduler : AuthenticatedPrincipal
scheduler = record drafter { scopes = scope_write_schedule ∷ [] }

abbrev queued : PostState
queued = or_default stored (handle_create_post services "p" "team" (some scheduler) (some input))

queued-is_ok : is_ok (handle_create_post services "p" "team" (some scheduler) (some input)) ≡ true
unfolding handle_create_post goloom.Api.Posts.timed_input goloom.Api.Posts.create_options
    goloom.Auth.principal_allows goloom.Auth.scope_satisfied goloom.Auth.grants
    goloom.Auth.principal_has_team_access goloom.Auth.bound_elsewhere
    goloom.Postservice.Prepare.prepare goloom.Strings.is_blank goloom.Postservice.Prepare.validated
    goloom.Domain.Post.Input.validate goloom.Domain.Post.Input.normalize
    goloom.Postservice.Prepare.is_past goloom.Postservice.resolve_targets
    goloom.Postservice.resolve_loaded goloom.Postservice.scan_targets
    goloom.Postservice.find_account goloom.Postservice.check_overrides
    goloom.Postservice.Prepare.raw_override_keys goloom.Postservice.Prepare.limits_checked
    goloom.Postservice.in_target_order goloom.Publish.Create.create_scheduled_post
    goloom.Postvalidate.check goloom.Postvalidate.check_from goloom.Postvalidate.check_account
    goloom.Postvalidate.provider_length goloom.Strings.lower_is
    goloom.Domain.Post.Media.filter_media_ids_for_account
    goloom.Domain.Post.Media.normalize_media_ids goloom.Domain.Post.lookup
    goloom.Domain.Post.Media.normalize_media_exclude_by_account
    goloom.Domain.Post.Media.exclude_step goloom.Domain.Post.Media.filter_allowed
    goloom.Domain.Post.Media.is_allowed goloom.Domain.Post.put
queued-is_ok = refl

abbrev retargeted : UpdatePostPatch
retargeted = record retitled { target_accounts = some ("a" ∷ []) }

abbrev moved : PostState
moved =
    or_default stored (handle_update_post services (some scheduler) (some queued) (some retargeted))

moved-is_ok :
    is_ok (handle_update_post services (some scheduler) (some queued) (some retargeted)) ≡ true
unfolding handle_update_post handle_create_post goloom.Api.review_checked goloom.Api.has_scope
    goloom.Api.required_scope goloom.Api.post_write_scope goloom.Api.effective_patch
    goloom.Api.prepare_patch goloom.Api.merged_input goloom.Api.update_options
    goloom.Api.store_patch goloom.Domain.Post.Patch.apply_post_patch
    goloom.Publish.Edit.patch_scheduled_post goloom.Domain.Post.Status.resolve_post_insert
    goloom.Domain.Post.Patch.any_set goloom.Api.Posts.timed_input goloom.Api.Posts.create_options
    goloom.Auth.principal_allows goloom.Auth.scope_satisfied goloom.Auth.grants
    goloom.Auth.principal_has_team_access goloom.Auth.bound_elsewhere
    goloom.Postservice.Prepare.prepare goloom.Strings.is_blank goloom.Postservice.Prepare.validated
    goloom.Domain.Post.Input.validate goloom.Domain.Post.Input.normalize
    goloom.Postservice.Prepare.is_past goloom.Postservice.resolve_targets
    goloom.Postservice.resolve_loaded goloom.Postservice.scan_targets
    goloom.Postservice.find_account goloom.Postservice.check_overrides
    goloom.Postservice.Prepare.raw_override_keys goloom.Postservice.Prepare.limits_checked
    goloom.Postservice.in_target_order goloom.Publish.Create.create_scheduled_post
    goloom.Domain.Post.Overrides.normalize_account_content_override
    goloom.Domain.Post.Patch.versions_to_override_map goloom.Publish.Edit.override_rows
    goloom.Domain.Post.put goloom.Postvalidate.check goloom.Postvalidate.check_from
    goloom.Postvalidate.check_account goloom.Postvalidate.provider_length goloom.Strings.lower_is
    goloom.Domain.Post.Media.filter_media_ids_for_account
    goloom.Domain.Post.Media.normalize_media_ids goloom.Domain.Post.lookup
    goloom.Domain.Post.Media.normalize_media_exclude_by_account
    goloom.Domain.Post.Media.exclude_step goloom.Domain.Post.Media.filter_allowed
    goloom.Domain.Post.Media.is_allowed goloom.Publish.Edit.update_fields
    goloom.Publish.Edit.replace_targets goloom.Publish.Edit.replace_versions
    goloom.Publish.Edit.pending_targets
moved-is_ok = refl

abbrev one_team : String → String
one_team id = "team"

services-IsServed : IsServed one_team services
services-IsServed = record {
  loader = load-IsLoader;
  table = record {
    same_team =
        λ ids loaded h a mem. ap SocialAccount.team_id (sym (only_account ids loaded a h mem).1);
  };
}

life : Life one_team queued (poll (world "nobody") 30 moved)
life =
    next
      (next begin (
        updated services scheduler retargeted services-IsServed
          (is_ok-or_default stored _ moved-is_ok)))
      (polled (world "nobody") 30 (world-IsWorld "nobody"))

targets_stay-InTeam_example :
    ((poll (world "nobody") 30 moved).post.team_id ≡ queued.post.team_id)
    × (may_edit services scheduler (poll (world "nobody") 30 moved).post.team_id ≡ true)
    × InTeam one_team (poll (world "nobody") 30 moved)
targets_stay-InTeam_example =
    targets_stay-InTeam one_team services "p" "team" scheduler input queued
      (poll (world "nobody") 30 moved) services-IsServed (is_ok-or_default stored _ queued-is_ok)
      life
