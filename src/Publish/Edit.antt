-- ===== src/Publish/Edit.antt =====
-- internal/store/sqlite/store.go: `PatchScheduledPost` and `completeReview`. Each is one
-- transaction; `commits` says whether it succeeds, and `none` is an error, which changes nothing.
use goloom.Domain.Post.{PostStatus, ScheduledPost, CreatePostInput, is_draft}
use goloom.Domain.Post.Status.{resolve_post_status_on_update}
use goloom.Domain.Post.Media.{normalize_media_ids}
use goloom.Domain.Post.Input.{normalize_post_visibility}
use goloom.Domain.Post.Patch.{
  UpdatePostPatch, PostPatchFieldsSet, any_set, PostVersion, apply_post_patch,
}
use goloom.Publish.{Target, PostState}
use goloom.Prelude.{
  ℕ, String, Bool, false, not, ◌&&◌, ◌||◌, Option, none, some, List, [], ◌∷◌, if◌then◌else◌,
}

-- `completeReview`: only a draft leaves the review.
unfoldable pub complete_review : Bool → ℕ → ℕ → PostState → Option PostState
complete_review commits now scheduled_at s =
    if commits && is_draft s.post.status
    then some (record s {
      post = record s.post {
        scheduled_at = scheduled_at;
        status = PostStatus.pending;
        updated_at = now;
      };
    })
    else none

abbrev pub is_field_change : PostPatchFieldsSet → Bool
is_field_change f =
    f.title || f.content || f.scheduled_at || f.visibility || f.media_ids
    || f.media_exclude_by_account || f.draft

abbrev pub is_schedule_only : PostPatchFieldsSet → Bool
is_schedule_only f =
    f.scheduled_at
    && not f.title
    && not f.content
    && not f.visibility
    && not f.media_ids
    && not f.media_exclude_by_account

-- The `update scheduled_posts` of a patch.
unfoldable pub update_fields :
    ℕ → PostPatchFieldsSet → CreatePostInput → ScheduledPost → ScheduledPost
update_fields now flags merged post =
    let status = resolve_post_status_on_update now post.status post.source merged in
    if not (is_field_change flags)
    then post
    else if is_schedule_only flags
    then record post { scheduled_at = merged.scheduled_at; status = status; updated_at = now }
    else record post {
      title = merged.title;
      content = merged.content;
      scheduled_at = merged.scheduled_at;
      visibility = normalize_post_visibility merged.visibility;
      media_ids = normalize_media_ids merged.media_ids;
      media_exclude_by_account = merged.media_exclude_by_account;
      status = status;
      updated_at = now;
    }

unfoldable pub override_rows : String → List (String × String) → List PostVersion
override_rows post_id [] = []
override_rows post_id ((account_id, content) ∷ rest) =
    record { post_id = post_id; account_id = account_id; content = content }
    ∷ override_rows post_id rest

unfoldable pub pending_targets : List String → List Target
pending_targets [] = []
pending_targets (id ∷ ids) =
    record {
      account_id = id;
      status = PostStatus.pending;
      published_url = "";
      last_error = "";
      publish_metadata = [];
      remote_post_id = "";
    }
    ∷ pending_targets ids

-- The rows of the targets are deleted and inserted again, as pending.
unfoldable pub replace_targets : PostPatchFieldsSet → CreatePostInput → PostState → PostState
unfolding pending_targets
replace_targets flags merged s =
    if flags.target_accounts
    then record s {
      post = record s.post { target_accounts = merged.target_accounts };
      targets = pending_targets merged.target_accounts;
    }
    else s

unfoldable pub replace_versions : PostPatchFieldsSet → CreatePostInput → PostState → PostState
unfolding override_rows
replace_versions flags merged s =
    if flags.versions
    then record s { versions = override_rows s.post.id merged.account_content_override }
    else s

abbrev pub is_yes : Option Bool → Bool
is_yes none = false
is_yes (some b) = b

-- `PatchScheduledPost`.
unfoldable pub patch_scheduled_post : Bool → ℕ → UpdatePostPatch → PostState → Option PostState
patch_scheduled_post commits now patch s =
    let (merged, flags) = apply_post_patch s.post s.versions patch in
    if is_yes patch.review_complete
    then complete_review commits now merged.scheduled_at s
    else if not (any_set flags)
    then some s
    else if commits
    then some (
        replace_targets flags merged (
          replace_versions flags merged
            (record s { post = update_fields now flags merged s.post })))
    else none
