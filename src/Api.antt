-- ===== src/Api.antt =====
-- The HTTP handlers of posts (api/http.go). A handler runs in one transaction that a refusal rolls
-- back (`auditedHandler` in api/audit_transaction.go): it gives the new state or a refusal. The decoded
-- body, the session and what the store loads are given.
pub mod Posts
pub mod Update
pub mod Creation
pub mod Life
use goloom.Domain.Principal.{TeamRole, AuthenticatedPrincipal}
use goloom.Domain.Post.{PostStatus, PostSource, is_draft, is_settled, CreatePostInput}
use goloom.Domain.Post.Patch.{UpdatePostPatch, is_set, apply_post_patch}
use goloom.Auth.{
  scope_write_draft, scope_write_schedule, scope_delete_draft, scope_delete_schedule,
  principal_allows, principal_has_team_access,
}
use goloom.Postvalidate.{Env, Report}
use goloom.Postservice.{PrepareError, AccountLoader}
use goloom.Postservice.Prepare.{Options, Prepared, prepare}
use goloom.Publish.{PostState}
use goloom.Publish.Edit.{is_yes, patch_scheduled_post}
use goloom.Prelude.Result.{Result, ok, err, ◌>>=◌, ◌>>◌, refuse_if}
use goloom.Prelude.{
  ℕ, String, Bool, true, false, not, ◌&&◌, ◌||◌, Option, none, some, List, [], ◌∷◌, if◌then◌else◌,
}

-- The answers that are no success.
pub data Refusal : Type 0 where
  unauthorized not_found imported_post_read_only forbidden invalid_json_body : Refusal
  review_complete_exclusive review_complete_draft_conflict : Refusal
  review_complete_action_required review_complete_conflicting_action : Refusal
  already_published scope_required review_conflict internal_error : Refusal
  not_prepared : PrepareError → Refusal
  unprocessable : Report → Refusal

-- What a handler works with: the roles that the store reports, the rules of the networks, the accounts
-- of the store, whether the overrides load, whether the transaction commits, and the time.
pub record Services : Type 0 where
  pub has_role : String → String → List TeamRole → Option Bool
  pub env : Env
  pub load_accounts : AccountLoader
  pub versions_load : Bool
  pub commits : Bool
  pub now : ℕ

abbrev pub or_refuse : {A : Type 0} → Refusal → Option A → Result Refusal A
or_refuse refusal none = err refusal
or_refuse refusal (some a) = ok a

abbrev pub prepared_or : Result PrepareError Prepared → Result Refusal Prepared
prepared_or (ok p) = ok p
prepared_or (err e) = err (not_prepared e)

-- `err != nil || !allowed`.
abbrev is_allowed : Option Bool → Bool
is_allowed none = false
is_allowed (some b) = b

abbrev pub may_edit : Services → AuthenticatedPrincipal → String → Bool
may_edit sv p team_id =
    is_allowed
      (principal_has_team_access sv.has_role p team_id (TeamRole.editor ∷ TeamRole.owner ∷ []))

unfoldable pub post_write_scope : PostStatus → String
post_write_scope status = if is_draft status then scope_write_draft else scope_write_schedule

unfoldable pub post_delete_scope : PostStatus → String
post_delete_scope status = if is_draft status then scope_delete_draft else scope_delete_schedule

abbrev pub is_imported : PostSource → Bool
is_imported PostSource.imported = true
is_imported _ = false

-- The guards on a patch that completes a review: no content, no draft, and one action.
abbrev changes_content : UpdatePostPatch → Bool
changes_content patch =
    is_set patch.title
    || is_set patch.content
    || is_set patch.visibility
    || is_set patch.media_ids
    || is_set patch.media_exclude_by_account
    || is_set patch.target_accounts
    || is_set patch.account_content_override

abbrev pub is_no : Option Bool → Bool
is_no none = false
is_no (some b) = not b

abbrev has_action : UpdatePostPatch → Bool
has_action patch = is_yes patch.publish_now || (is_set patch.scheduled_at && is_no patch.draft)

unfoldable pub review_checked : UpdatePostPatch → Result Refusal (Unit {0})
review_checked patch = do
  refuse_if (is_yes patch.review_complete && changes_content patch) review_complete_exclusive
  refuse_if (is_yes patch.review_complete && is_yes patch.draft) review_complete_draft_conflict
  refuse_if (is_yes patch.review_complete && not (has_action patch)) review_complete_action_required
  refuse_if
      (is_yes patch.review_complete && (is_yes patch.publish_now && is_set patch.scheduled_at))
      review_complete_conflicting_action

-- `publish_now` schedules at the current time and clears the draft.
unfoldable pub effective_patch : ℕ → UpdatePostPatch → UpdatePostPatch
effective_patch now patch =
    if is_yes patch.publish_now
    then record patch { scheduled_at = some now; draft = some false }
    else patch

abbrev pub target_draft : Bool → Option Bool → Bool
target_draft was_draft none = was_draft
target_draft was_draft (some b) = b

-- The scope that an update asks for, by the draft state that it leads to.
unfoldable pub required_scope : PostStatus → UpdatePostPatch → String
required_scope status patch =
    if not (target_draft (is_draft status) patch.draft) || is_yes patch.review_complete
    then scope_write_schedule
    else post_write_scope status

-- The input that is prepared: the patch on the post, with the overrides as the caller gave them.
abbrev raw_overrides :
    List (String × String) → Option (List (String × String)) → List (String × String)
raw_overrides merged none = merged
raw_overrides merged (some raw) = raw

unfoldable pub merged_input : PostState → UpdatePostPatch → CreatePostInput
merged_input s patch =
    let merged = (apply_post_patch s.post s.versions patch).0 in
    record merged {
      account_content_override =
          raw_overrides merged.account_content_override patch.account_content_override;
    }

abbrev patch_refusal : UpdatePostPatch → Bool → Refusal
patch_refusal patch commits =
    if is_yes patch.review_complete && commits then review_conflict else internal_error

unfoldable pub update_options : UpdatePostPatch → CreatePostInput → Options
update_options patch merged = record {
  check_limits = not merged.draft;
  require_team = true;
  reject_past_scheduled_at = not (is_yes patch.publish_now);
}

unfoldable pub prepare_patch : Services → PostState → UpdatePostPatch → Result Refusal Prepared
prepare_patch sv s sent =
    let merged = merged_input s (effective_patch sv.now sent) in
    prepared_or
      (prepare sv.env sv.load_accounts sv.now s.post.team_id merged (update_options sent merged))

unfoldable pub store_patch : Services → PostState → UpdatePostPatch → Result Refusal PostState
store_patch sv s sent =
    or_refuse (patch_refusal sent sv.commits)
      (patch_scheduled_post sv.commits sv.now (effective_patch sv.now sent) s)

unfoldable pub has_scope : Services → AuthenticatedPrincipal → PostState → UpdatePostPatch → Bool
has_scope sv principal s sent =
    principal_allows principal (required_scope s.post.status (effective_patch sv.now sent))

unfoldable pub handle_update_post :
    Services
    → Option AuthenticatedPrincipal
    → Option PostState
    → Option UpdatePostPatch
    → Result Refusal PostState
handle_update_post sv caller found body = do
  principal ← or_refuse unauthorized caller
  s ← or_refuse not_found found
  refuse_if (is_imported s.post.source) imported_post_read_only
  refuse_if (not (may_edit sv principal s.post.team_id)) forbidden
  sent ← or_refuse invalid_json_body body
  review_checked sent
  refuse_if (is_yes sent.publish_now && is_settled s.post.status) already_published
  refuse_if (not (has_scope sv principal s sent)) scope_required
  refuse_if (not sv.versions_load) internal_error
  prepared ← prepare_patch sv s sent
  refuse_if (not prepared.validation.valid) (unprocessable prepared.validation)
  store_patch sv s sent
