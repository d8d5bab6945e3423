-- ===== src/Auth/Routes.antt =====
-- api/token_route_policy.go: which routes a token may call.
pub mod Laws
use goloom.Strings.{has_prefix, has_suffix, contains_text, cut_space}
use goloom.Domain.Principal.{AuthenticatedPrincipal}
use goloom.Auth.{
  scope_read, scope_write, scope_write_draft, scope_write_schedule, scope_delete,
  scope_delete_draft, scope_delete_schedule, principal_allows, is_none,
  principal_can_manage_api_token,
}
use goloom.Prelude.{
  String, Bool, true, false, not, ◌&&◌, ◌||◌, Option, none, some, [], ◌∷◌, if◌then◌else◌, ◌==◌,
  eq_nat, eq_text, contains,
}

-- What the policy reads of an `http.Request`: `r.Pattern`, `r.Method` and `r.PathValue("teamID")`.
pub record Request : Type 0 where
  pub pattern : String
  pub method : String
  pub team_id : String

unfoldable pub is_global_path : String → Bool
is_global_path path =
    has_prefix path "/v1/admin/"
    || path == "/v1/me/push-subscriptions"
    || has_prefix path "/v1/me/push-subscriptions/"

unfoldable pub is_aggregate_path : String → Bool
is_aggregate_path path =
    contains
      ("/v1/users" ∷ "/v1/teams" ∷ "/v1/me/review-counts" ∷ "/v1/me/team-notification-prefs"
        ∷ "/v1/me/push-subscriptions" ∷ [])
      path

unfoldable pub is_privilege_route : String → Bool
is_privilege_route pattern =
    pattern == "PATCH /v1/teams/{teamID}"
    || pattern == "POST /v1/teams"
    || contains_text pattern "/members"
    || contains_text pattern "/invitations"
    || contains_text pattern "/ai-service-config"
    || contains_text pattern "/accounts"

-- The team of a privilege-management route, nil for none and for a migration.
unfoldable pub managed_team : Request → Option String
managed_team r =
    if not (r.team_id == "") && not (has_suffix r.pattern "/migrate") then some r.team_id else none

unfoldable pub is_token_route : String → Bool
is_token_route pattern =
    contains ("POST /v1/me/api-tokens" ∷ "DELETE /v1/me/api-tokens/{tokenID}" ∷ []) pattern

unfoldable pub is_reading_post : String → Bool
is_reading_post pattern =
    contains
      ("POST /v1/auth/logout" ∷ "POST /v1/teams/{teamID}/posts/validate"
        ∷ "POST /v1/teams/{teamID}/ai/prompt-preview" ∷ "POST /v1/teams/{teamID}/ai/chat"
        ∷ "GET /v1/teams/{teamID}/rss-feeds/{feedID}/preview-items" ∷ [])
      pattern

unfoldable pub is_post_write : String → Bool
is_post_write pattern =
    contains
      ("POST /v1/teams/{teamID}/posts" ∷ "PATCH /v1/teams/{teamID}/posts/{postID}"
        ∷ "POST /v1/teams/{teamID}/posts/{postID}/cancel" ∷ [])
      pattern

unfoldable pub is_post_delete : String → Bool
is_post_delete pattern = pattern == "DELETE /v1/teams/{teamID}/posts/{postID}"

unfoldable pub is_draft_write : String → Bool
is_draft_write pattern =
    contains
      ("POST /v1/teams/{teamID}/posts/draft" ∷ "POST /v1/teams/{teamID}/ai-trigger"
        ∷ "POST /v1/teams/{teamID}/rss-feeds/{feedID}/ai-preview"
        ∷ "POST /v1/teams/{teamID}/post-templates/{templateID}/ai-preview"
        ∷ "POST /v1/teams/{teamID}/ai-jobs/{jobID}/cancel" ∷ [])
      pattern

unfoldable pub is_confirmation : String → Bool
is_confirmation pattern = pattern == "POST /v1/teams/{teamID}/ai/confirm-action"

-- The branches for methods other than GET, HEAD and OPTIONS.
unfoldable pub unsafe_route_allows : AuthenticatedPrincipal → Request → Bool
unsafe_route_allows p r =
    if is_privilege_route r.pattern
    then principal_can_manage_api_token p [] (managed_team r)
    else if is_token_route r.pattern
    then true
    else if is_reading_post r.pattern
    then principal_allows p scope_read
    else if is_post_write r.pattern
    then principal_allows p scope_write_draft || principal_allows p scope_write_schedule
    else if is_post_delete r.pattern
    then principal_allows p scope_delete_draft || principal_allows p scope_delete_schedule
    else if is_draft_write r.pattern
    then principal_allows p scope_write_draft
    else if is_confirmation r.pattern
    then principal_allows p scope_write_draft
      || principal_allows p scope_write_schedule
      || principal_allows p scope_delete_draft
      || principal_allows p scope_delete_schedule
    else if r.method == "DELETE"
    then principal_allows p scope_delete
    else principal_allows p scope_write

unfoldable pub token_route_allows : AuthenticatedPrincipal → Request → Bool
token_route_allows p r =
    let path = cut_space r.pattern in
    if is_global_path path
    then principal_can_manage_api_token p [] none
    else if r.method == "GET" || r.method == "HEAD"
    then (if is_aggregate_path path && not (is_none p.token_team_id)
        then false
        else principal_allows p scope_read)
    else if r.method == "OPTIONS"
    then true
    else unsafe_route_allows p r
