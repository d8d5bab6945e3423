-- ===== src/Domain/Post/Input.antt =====
-- `CreatePostInput.Normalize` and `CreatePostInput.Validate`.
use goloom.Strings.{trim_space, is_blank, lower_is}
use goloom.Domain.Post.{CreatePostInput}
use goloom.Domain.Post.Media.{normalize_media_ids, normalize_media_exclude_by_account}
use goloom.Domain.Post.Overrides.{normalize_account_content_override}
use goloom.Prelude.{
  String, ◌≡◌, ◌↔◌, ◌⊎◌, true, false, not, Option, none, some, arith, if◌then◌else◌, is_empty,
}

-- `NormalizePostVisibility`: the lower-cased word itself, where it is one of the four.
unfoldable pub normalize_post_visibility : String → String
normalize_post_visibility v =
    let n = trim_space v in
    if lower_is n "public"
    then "public"
    else if lower_is n "unlisted"
    then "unlisted"
    else if lower_is n "private"
    then "private"
    else if lower_is n "direct"
    then "direct"
    else "public"

unfoldable pub normalize : CreatePostInput → CreatePostInput
normalize input =
    let media = normalize_media_ids input.media_ids in
    let over =
      normalize_account_content_override input.account_content_override input.target_accounts in
    record input {
      title = trim_space input.title;
      content = trim_space input.content;
      visibility = normalize_post_visibility input.visibility;
      media_ids = media;
      media_exclude_by_account =
          normalize_media_exclude_by_account input.media_exclude_by_account media;
      account_content_override = over;
      use_versions = not (is_empty over);
    }

pub data ShapeError : Type 0 where
  title_required content_required targets_required : ShapeError

-- `none` is a nil error.
unfoldable pub validate : CreatePostInput → Option ShapeError
validate input =
    if is_blank input.title
    then some title_required
    else if input.draft
    then none
    else if is_blank input.content
    then some content_required
    else if is_empty input.target_accounts
    then some targets_required
    else none

-- An input is valid exactly when it has a title and, unless it is a draft, a content and a target.
pub validate_iff :
    (input : CreatePostInput)
    → (validate input ≡ none) ↔ (
        (is_blank input.title ≡ false)
        × ((input.draft ≡ true)
            ⊎ ((is_blank input.content ≡ false) × (is_empty input.target_accounts ≡ false))))
unfolding validate
validate_iff input = ground arith
