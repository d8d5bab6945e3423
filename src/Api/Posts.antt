-- ===== src/Api/Posts.antt =====
-- Creation, cancellation and deletion of posts (api/http.go).
use goloom.Strings.{trim_space}
use goloom.Domain.Principal.{AuthenticatedPrincipal}
use goloom.Domain.Post.{PostStatus, CreatePostInput}
use goloom.Auth.{scope_write_draft, scope_write_schedule, principal_allows}
use goloom.Postservice.Prepare.{Options, prepare}
use goloom.Publish.{PostState, cancel_scheduled_post}
use goloom.Publish.Create.{create_scheduled_post}
use goloom.Api.{
  Refusal, unauthorized, not_found, forbidden, invalid_json_body, scope_required, internal_error,
  unprocessable, Services, or_refuse, prepared_or, may_edit, post_write_scope, post_delete_scope,
}
use goloom.Prelude.Result.{Result, ok, err, ◌>>=◌, ◌>>◌, refuse_if}
use goloom.Prelude.{
  ℕ, String, Bool, true, false, not, Option, none, if◌then◌else◌, ◌==◌, eq_nat, eq_text,
}

-- A post without a time, or for now, is scheduled at the current time.
unfoldable pub timed_input : ℕ → CreatePostInput → CreatePostInput
timed_input now input =
    if input.publish_now
    then record input { scheduled_at = now; draft = false }
    else if input.scheduled_at == 0
    then record input { scheduled_at = now }
    else input

abbrev pub create_scope : CreatePostInput → String
create_scope input = if input.draft then scope_write_draft else scope_write_schedule

unfoldable pub create_options : CreatePostInput → Options
create_options input = record {
  check_limits = not input.draft;
  require_team = true;
  reject_past_scheduled_at = not input.publish_now;
}

-- `id` is the new post's.
unfoldable pub handle_create_post :
    Services
    → String
    → String
    → Option AuthenticatedPrincipal
    → Option CreatePostInput
    → Result Refusal PostState
handle_create_post sv id path_team caller body = do
  principal ← or_refuse unauthorized caller
  sent ← or_refuse invalid_json_body body
  refuse_if (not (principal_allows principal (create_scope (timed_input sv.now sent))))
      scope_required
  prepared ← prepared_or (
      prepare sv.env sv.load_accounts sv.now (trim_space path_team) (timed_input sv.now sent)
        (create_options (timed_input sv.now sent)))
  refuse_if (not prepared.validation.valid) (unprocessable prepared.validation)
  refuse_if (not (may_edit sv principal prepared.effective_team)) forbidden
  or_refuse internal_error
      (create_scheduled_post sv.commits id sv.now prepared.effective_team principal prepared.input)

abbrev pub is_cancelled : PostStatus → Bool
is_cancelled PostStatus.cancelled = true
is_cancelled _ = false

-- A cancelled post stays as it is.
unfoldable pub handle_cancel_post :
    Services → Option AuthenticatedPrincipal → Option PostState → Result Refusal PostState
handle_cancel_post sv caller found = do
  principal ← or_refuse unauthorized caller
  s ← or_refuse not_found found
  refuse_if (not (principal_allows principal (post_write_scope s.post.status))) scope_required
  refuse_if (not (may_edit sv principal s.post.team_id)) forbidden
  (if is_cancelled s.post.status
      then ok s
      else if sv.commits
      then ok (cancel_scheduled_post sv.now s)
      else err internal_error)

-- The rows of the post that is left: none. The mark that a recurring occurrence is skipped is left out.
unfoldable pub handle_delete_post :
    Services → Option AuthenticatedPrincipal → Option PostState → Result Refusal (Option PostState)
handle_delete_post sv caller found = do
  principal ← or_refuse unauthorized caller
  s ← or_refuse not_found found
  refuse_if (not (principal_allows principal (post_delete_scope s.post.status))) scope_required
  refuse_if (not (may_edit sv principal s.post.team_id)) forbidden
  (if sv.commits then ok none else err internal_error)
