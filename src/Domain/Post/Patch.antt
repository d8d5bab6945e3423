-- ===== src/Domain/Post/Patch.antt =====
-- internal/domain/update_post_patch.go: merging a PATCH body onto a stored post.
use goloom.Strings.{trim_space, is_blank}
use goloom.Domain.Post.{ScheduledPost, PostSource, CreatePostInput, is_draft, put}
use goloom.Domain.Post.Media.{normalize_media_ids, normalize_media_exclude_by_account}
use goloom.Domain.Post.Overrides.{normalize_account_content_override}
use goloom.Domain.Post.Input.{normalize_post_visibility}
use goloom.Prelude.{
  ℕ, String, Bool, true, false, ◌||◌, Option, none, some, List, [], ◌∷◌, if◌then◌else◌,
}

-- A `PatchField[T]` is an option: `none` where the key was omitted.
pub record UpdatePostPatch : Type 0 where
  pub title : Option String
  pub content : Option String
  pub scheduled_at : Option ℕ
  pub target_accounts : Option (List String)
  pub visibility : Option String
  pub media_ids : Option (List String)
  pub media_exclude_by_account : Option (List (String × List String))
  pub account_content_override : Option (List (String × String))
  pub draft : Option Bool
  pub publish_now : Option Bool
  pub review_complete : Option Bool

pub record PostPatchFieldsSet : Type 0 where
  pub title : Bool
  pub content : Bool
  pub scheduled_at : Bool
  pub target_accounts : Bool
  pub visibility : Bool
  pub media_ids : Bool
  pub media_exclude_by_account : Bool
  pub versions : Bool
  pub draft : Bool

-- `PostPatchFieldsSet.Any`.
unfoldable pub any_set : PostPatchFieldsSet → Bool
any_set f =
    f.title || f.content || f.scheduled_at || f.target_accounts || f.visibility || f.media_ids
    || f.media_exclude_by_account || f.versions || f.draft

pub record PostVersion : Type 0 where
  pub post_id : String
  pub account_id : String
  pub content : String

versions_from : List PostVersion → List (String × String) → List (String × String)
versions_from [] out = out
versions_from (v ∷ versions) out =
    versions_from versions (if is_blank v.content then out else put v.account_id v.content out)

unfoldable pub versions_to_override_map : List PostVersion → List (String × String)
unfolding versions_from
versions_to_override_map versions = versions_from versions []

abbrev pub is_set {ℓ} : {A : Type ℓ} → Option A → Bool
is_set none = false
is_set (some _) = true

-- The patched value, read by `f`, or the stored one.
abbrev pub patched {ℓ κ} : {A : Type ℓ} {B : Type κ} → (A → B) → B → Option A → B
patched f old none = old
patched f old (some a) = f a

unfoldable pub apply_post_patch :
    ScheduledPost → List PostVersion → UpdatePostPatch → CreatePostInput × PostPatchFieldsSet
apply_post_patch existing versions patch =
    let targets = patched (λ t. t) existing.target_accounts patch.target_accounts in
    let media = patched normalize_media_ids existing.media_ids patch.media_ids in
    (
      record {
        title = patched trim_space existing.title patch.title;
        content = patched trim_space existing.content patch.content;
        scheduled_at = patched (λ t. t) existing.scheduled_at patch.scheduled_at;
        target_accounts = targets;
        visibility = patched normalize_post_visibility existing.visibility patch.visibility;
        media_ids = media;
        media_exclude_by_account =
            patched (λ ex. normalize_media_exclude_by_account ex media)
              existing.media_exclude_by_account patch.media_exclude_by_account;
        draft = patched (λ b. b) (is_draft existing.status) patch.draft;
        publish_now = patched (λ b. b) false patch.publish_now;
        account_content_override =
            normalize_account_content_override
              (patched (λ over. over) (versions_to_override_map versions)
                patch.account_content_override)
              targets;
        use_versions = false;
        author_user_id = none;
        post_template_id = none;
        template_counter = none;
        template_occurrence_at = none;
        template_post_role = "";
        source = PostSource.unset;
        rss_feed_id = none;
        rss_item_key = "";
        ai_job_id = none;
        ai_fallback_reason = none;
      },
      record {
        title = is_set patch.title;
        content = is_set patch.content;
        scheduled_at = is_set patch.scheduled_at;
        target_accounts = is_set patch.target_accounts;
        visibility = is_set patch.visibility;
        media_ids = is_set patch.media_ids;
        media_exclude_by_account = is_set patch.media_exclude_by_account;
        versions = is_set patch.account_content_override;
        draft = is_set patch.draft;
      },
    )
