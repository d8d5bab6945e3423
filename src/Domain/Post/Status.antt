-- ===== src/Domain/Post/Status.antt =====
-- `ResolvePostStatusOnUpdate`, and the status and source of a new post (`ResolvePostInsert`).
use goloom.Strings.{trim_space, is_blank}
use goloom.Domain.Principal.{AuthenticatedPrincipal}
use goloom.Domain.Post.{PostStatus, PostSource, is_draft, is_settled, CreatePostInput}
use goloom.Prelude.{
  ℕ, zero, suc, ◌≤◌, String, ◌≡◌, ◌≢◌, ◌⊎◌, Bool, true, false, not, ◌&&◌, Option, none, some, arith,
  ltb, if◌then◌else◌,
}

abbrev is_imported : PostSource → Bool
is_imported PostSource.imported = true
is_imported _ = false

-- `now` is what `time.Now()` returns.
unfoldable pub resolve_post_status_on_update :
    ℕ → PostStatus → PostSource → CreatePostInput → PostStatus
resolve_post_status_on_update now was source input =
    if is_imported source
    then PostStatus.posted
    else if is_settled was
    then was
    else if not input.draft && ltb now input.scheduled_at
    then PostStatus.pending
    else if input.draft
    then PostStatus.draft
    else if is_draft was
    then PostStatus.pending
    else was

-- What an update may do to the status of a post that was not imported: a posted, processing or
-- cancelled post keeps its status; any other becomes a draft exactly when the input says so, and
-- otherwise is pending, or stays failed when its time is not in the future.
pub record Updated (now : ℕ) (was : PostStatus) (input : CreatePostInput) (status : PostStatus)
    : Type 0 where
  pub settled : is_settled was ≡ true → status ≡ was
  pub drafted : is_settled was ≡ false → input.draft ≡ true → status ≡ PostStatus.draft
  pub queued :
      is_settled was ≡ false
      → input.draft ≡ false
      → (status ≡ PostStatus.pending)
        ⊎ ((status ≡ PostStatus.failed) × (was ≡ PostStatus.failed) × (input.scheduled_at ≤ now))

-- An update never marks a post as posted or processing, and never takes a post back from posted,
-- processing or cancelled.
pub resolve_post_status_on_update-Updated :
    (now : ℕ) (was : PostStatus) (source : PostSource) (input : CreatePostInput)
    → source ≢ PostSource.imported
    → Updated now was input (resolve_post_status_on_update now was source input)
unfolding resolve_post_status_on_update
resolve_post_status_on_update-Updated now was source input h = ground arith

-- `ResolvedPostInsert`.
pub record ResolvedPostInsert : Type 0 where
  pub author_id : String
  pub status : PostStatus
  pub source : PostSource
  pub template_id : Option String
  pub template_counter : Option ℕ
  pub template_occurrence_at : Option ℕ
  pub template_role : String
  pub rss_feed_id : Option String

-- The trimmed text behind a pointer, where that is not empty.
unfoldable pub trimmed_id : Option String → Option String
trimmed_id none = none
trimmed_id (some s) = if is_blank s then none else some (trim_space s)

abbrev or_else : Option String → String → String
or_else none s = s
or_else (some t) s = t

abbrev source_or_scheduled : PostSource → PostSource
source_or_scheduled PostSource.unset = PostSource.scheduled
source_or_scheduled source = source

-- A pointer to the zero time counts as nil.
abbrev not_zero : Option ℕ → Option ℕ
not_zero none = none
not_zero (some zero) = none
not_zero (some (suc t)) = some (suc t)

unfoldable pub resolve_post_insert : AuthenticatedPrincipal → CreatePostInput → ResolvedPostInsert
resolve_post_insert principal input = record {
  author_id = or_else (trimmed_id input.author_user_id) principal.user.id;
  status = if input.draft then PostStatus.draft else PostStatus.pending;
  source = source_or_scheduled input.source;
  template_id = trimmed_id input.post_template_id;
  template_counter = input.template_counter;
  template_occurrence_at = not_zero input.template_occurrence_at;
  template_role = trim_space input.template_post_role;
  rss_feed_id = trimmed_id input.rss_feed_id;
}
