-- ===== src/Auth.antt =====
-- internal/auth: token scopes (scopes.go) and team access (auth.go).
pub mod Scopes
pub mod Delegation
pub mod Routes
use goloom.Strings.{trim_space}
use goloom.Domain.Principal.{TeamRole, AuthenticatedPrincipal}
use goloom.Prelude.{
  String, Bool, true, false, not, ◌&&◌, ◌||◌, Option, none, some, List, [], ◌∷◌, if◌then◌else◌,
  ◌==◌, eq_nat, eq_text, is_empty, all, contains,
}

abbrev pub scope_read : String
scope_read = "read"

abbrev pub scope_write : String
scope_write = "write"

abbrev pub scope_write_draft : String
scope_write_draft = "write:draft"

abbrev pub scope_write_schedule : String
scope_write_schedule = "write:schedule"

abbrev pub scope_delete : String
scope_delete = "delete"

abbrev pub scope_delete_draft : String
scope_delete_draft = "delete:draft"

abbrev pub scope_delete_schedule : String
scope_delete_schedule = "delete:schedule"

abbrev pub all_scopes : List String
all_scopes =
    scope_read ∷ scope_write ∷ scope_write_draft ∷ scope_write_schedule ∷ scope_delete
    ∷ scope_delete_draft ∷ scope_delete_schedule ∷ []

unfoldable pub is_known_scope : String → Bool
is_known_scope scope = contains all_scopes scope

-- One round of the loop of `ScopeSatisfied`.
unfoldable pub grants : String → String → Bool
grants granted required =
    if granted == required
    then true
    else if granted == scope_write
        && (required == scope_write_draft || required == scope_write_schedule)
    then true
    else granted == scope_delete
      && (required == scope_delete_draft || required == scope_delete_schedule)

unfoldable pub scope_satisfied : List String → String → Bool
scope_satisfied [] required = false
scope_satisfied (granted ∷ rest) required =
    if grants granted required then true else scope_satisfied rest required

unfoldable pub principal_allows : AuthenticatedPrincipal → String → Bool
principal_allows p required = if is_empty p.scopes then true else scope_satisfied p.scopes required

abbrev pub is_none : Option String → Bool
is_none none = true
is_none (some _) = false

-- The two team tests of `PrincipalCanManageAPIToken`: both nil, or both set and equal.
unfoldable pub same_team : Option String → Option String → Bool
same_team none none = true
same_team (some bound) (some team) = bound == team
same_team _ _ = false

unfoldable pub principal_can_manage_api_token :
    AuthenticatedPrincipal → List String → Option String → Bool
principal_can_manage_api_token p scopes team =
    if is_empty p.scopes && is_none p.token_team_id
    then true
    else if not (same_team p.token_team_id team)
    then false
    else if not (is_empty p.scopes) && is_empty scopes
    then false
    else all (λ scope. is_empty p.scopes || scope_satisfied p.scopes scope) scopes

-- A token bound to a team that is not blank may touch that team alone.
unfoldable pub bound_elsewhere : Option String → String → Bool
bound_elsewhere none team = false
bound_elsewhere (some token_team) team =
    let bound = trim_space token_team in not (bound == "") && not (bound == team)

-- `PrincipalHasTeamAccess`. The store's `UserHasAnyTeamRole` is a parameter; `none` is its error.
unfoldable pub principal_has_team_access :
    (String → String → List TeamRole → Option Bool)
    → AuthenticatedPrincipal
    → String
    → List TeamRole
    → Option Bool
principal_has_team_access user_has_any_team_role p team roles =
    if bound_elsewhere p.token_team_id team
    then some false
    else if p.user.is_admin
    then some true
    else user_has_any_team_role p.user.id team roles
