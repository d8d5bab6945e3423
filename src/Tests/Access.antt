-- ===== src/Tests/Access.antt =====
-- A caller with the scopes "read" and "write" for one team, and a narrower token of his.
use goloom.Domain.Principal.{TeamRole, AuthenticatedPrincipal}
use goloom.Auth.{
  scope_read, scope_write, scope_write_draft, grants, scope_satisfied, principal_allows,
  principal_can_manage_api_token, principal_has_team_access, same_team,
}
use goloom.Auth.Scopes.{Covers, scope_satisfied_iff, scope_satisfied_trans}
use goloom.Auth.Delegation.{minted, Within, principal_can_manage_api_token_iff, minted_authority}
use goloom.Auth.Routes.{Request, token_route_allows, is_token_route, is_reading_post}
use goloom.Auth.Routes.Laws.{minted-token_route_allows, read_only_routes}
use goloom.Prelude.{
  String, ◌≡◌, refl, ◌↔◌, ◌⊎◌, Bool, true, false, Option, none, some, List, [], ◌∷◌, All, In,
}

abbrev caller : AuthenticatedPrincipal
caller = record {
  user = record {
    id = "user";
    email = "user@example.org";
    name = "User";
    picture_url = "";
    subject = "sub";
    is_admin = false;
    tour_done = true;
    created_at = 0;
  };
  kind = "api_token";
  scopes = scope_read ∷ scope_write ∷ [];
  token_team_id = some "team";
  token_expires_at = none;
  token_id = none;
  token_name = none;
}

abbrev own : List String
own = scope_read ∷ scope_write ∷ []

abbrev narrower : List String
narrower = scope_read ∷ scope_write_draft ∷ []

caller-manages : principal_can_manage_api_token caller narrower (some "team") ≡ true
unfolding principal_can_manage_api_token scope_satisfied grants same_team
caller-manages = refl

token-manages :
    principal_can_manage_api_token
      (minted caller narrower (some "team"))
      (scope_read ∷ [])
      (some "team")
    ≡ true
unfolding principal_can_manage_api_token scope_satisfied grants same_team
token-manages = refl

-- The team is no other and the scopes are not none.
caller-refused :
    (principal_can_manage_api_token caller narrower (some "other") ≡ false)
    × (principal_can_manage_api_token caller [] (some "team") ≡ false)
    × (principal_can_manage_api_token caller ("delete" ∷ []) (some "team") ≡ false)
unfolding principal_can_manage_api_token scope_satisfied grants same_team
caller-refused = (refl, refl, refl)

minted_authority_example :
    ((required : String)
      → principal_allows (minted caller narrower (some "team")) required ≡ true
      → principal_allows caller required ≡ true)
    × ((has_role : String → String → List TeamRole → Option Bool) (t : String)
          (roles : List TeamRole)
        → principal_has_team_access has_role (minted caller narrower (some "team")) t roles
          ≡ some true
        → principal_has_team_access has_role caller t roles ≡ some true)
minted_authority_example = minted_authority caller narrower (some "team") caller-manages

principal_can_manage_api_token_iff_example :
    (principal_can_manage_api_token caller narrower (some "team") ≡ true)
    ↔ Within caller narrower (some "team")
principal_can_manage_api_token_iff_example =
    principal_can_manage_api_token_iff caller narrower (some "team")

abbrev draft_route : Request
draft_route = record {
  pattern = "POST /v1/teams/{teamID}/posts/draft";
  method = "POST";
  team_id = "team";
}

draft_route-allowed : token_route_allows (minted caller narrower (some "team")) draft_route ≡ true
unfolding token_route_allows goloom.Auth.Routes.is_global_path goloom.Strings.has_prefix
    goloom.Strings.cut_space goloom.Auth.Routes.unsafe_route_allows
    goloom.Auth.Routes.is_privilege_route goloom.Strings.contains_text is_token_route
    is_reading_post goloom.Auth.Routes.is_post_write goloom.Auth.Routes.is_post_delete
    goloom.Auth.Routes.is_draft_write principal_allows scope_satisfied grants
draft_route-allowed = refl

minted-token_route_allows_example : token_route_allows caller draft_route ≡ true
minted-token_route_allows_example =
    minted-token_route_allows caller narrower (some "team") draft_route caller-manages
      draft_route-allowed

scope_satisfied_iff_example :
    (scope_satisfied own scope_write_draft ≡ true)
    ↔ ((granted : String) × In granted own × Covers granted scope_write_draft)
scope_satisfied_iff_example = scope_satisfied_iff own scope_write_draft

narrower-covered : All (λ scope. scope_satisfied own scope ≡ true) narrower
unfolding scope_satisfied grants
narrower-covered = (refl, (refl, tt))

draft-satisfied : scope_satisfied narrower scope_write_draft ≡ true
unfolding scope_satisfied grants
draft-satisfied = refl

scope_satisfied_trans_example : scope_satisfied own scope_write_draft ≡ true
scope_satisfied_trans_example =
    scope_satisfied_trans own narrower scope_write_draft narrower-covered draft-satisfied

abbrev reader : AuthenticatedPrincipal
reader = minted caller (scope_read ∷ []) (some "team")

abbrev validate_route : Request
validate_route = record {
  pattern = "POST /v1/teams/{teamID}/posts/validate";
  method = "POST";
  team_id = "team";
}

validate_route-allowed : token_route_allows reader validate_route ≡ true
unfolding token_route_allows goloom.Auth.Routes.is_global_path goloom.Strings.has_prefix
    goloom.Strings.cut_space goloom.Auth.Routes.unsafe_route_allows
    goloom.Auth.Routes.is_privilege_route goloom.Strings.contains_text is_token_route
    is_reading_post goloom.Auth.Routes.is_post_write goloom.Auth.Routes.is_post_delete
    goloom.Auth.Routes.is_draft_write principal_allows scope_satisfied grants
validate_route-allowed = refl

read_only_routes_example :
    (is_token_route validate_route.pattern ≡ true) ⊎ (is_reading_post validate_route.pattern ≡ true)
read_only_routes_example =
    read_only_routes reader validate_route refl refl refl refl validate_route-allowed
