-- ===== src/Auth/Routes/Laws.antt =====
-- The route policy gives a minted token nothing beyond its maker, and a read-only token no writes.
use goloom.Domain.Principal.{AuthenticatedPrincipal}
use goloom.Auth.{
  grants, scope_satisfied, principal_allows, is_none, scope_read, scope_write, scope_write_draft,
  scope_write_schedule, scope_delete, scope_delete_draft, scope_delete_schedule,
  principal_can_manage_api_token,
}
use goloom.Auth.Delegation.{
  principal_can_manage_api_token_iff, minted, minted-principal_allows, minted-can_manage,
}
use goloom.Auth.Routes.{
  is_reading_post, is_token_route, token_route_allows, Request, managed_team, unsafe_route_allows,
}
use goloom.Prelude.{
  String, ◌≡◌, refl, ◌⊎◌, true, false, Option, none, List, [], ◌∷◌, arith, ◌==◌, eq_nat, eq_text,
}

module _ (p : AuthenticatedPrincipal) (scopes : List String) (team : Option String)
    (managed : principal_can_manage_api_token p scopes team ≡ true) where
  minted-unsafe_route_allows :
      (r : Request)
      → unsafe_route_allows (minted p scopes team) r ≡ true
      → unsafe_route_allows p r ≡ true
  unfolding unsafe_route_allows
  minted-unsafe_route_allows r h = ground (
    arith,
    minted-can_manage p scopes [] team (managed_team r) managed,
    minted-principal_allows p scopes team managed scope_read,
    minted-principal_allows p scopes team managed scope_write,
    minted-principal_allows p scopes team managed scope_write_draft,
    minted-principal_allows p scopes team managed scope_write_schedule,
    minted-principal_allows p scopes team managed scope_delete,
    minted-principal_allows p scopes team managed scope_delete_draft,
    minted-principal_allows p scopes team managed scope_delete_schedule,
  )

  minted-is_none : is_none p.token_team_id ≡ false → is_none team ≡ false
  minted-is_none h =
      ground (arith, ((principal_can_manage_api_token_iff p scopes team).0 managed).team_within)

-- A token that a caller may manage passes the route policy only where the caller passes it, on
-- every route and with every method.
pub minted-token_route_allows :
    (p : AuthenticatedPrincipal) (scopes : List String) (team : Option String) (r : Request)
    → principal_can_manage_api_token p scopes team ≡ true
    → token_route_allows (minted p scopes team) r ≡ true
    → token_route_allows p r ≡ true
unfolding token_route_allows
minted-token_route_allows p scopes team r managed h = ground (
  arith,
  minted-can_manage p scopes [] team none managed,
  minted-principal_allows p scopes team managed scope_read,
  minted-unsafe_route_allows p scopes team managed r,
  minted-is_none p scopes team managed,
)

-- A caller whose only scope is "read".
abbrev pub IsReadOnly : AuthenticatedPrincipal → Type 0
IsReadOnly p = p.scopes ≡ scope_read ∷ []

read_only_allows :
    (p : AuthenticatedPrincipal) (required : String)
    → IsReadOnly p
    → (scope_read == required) ≡ false
    → principal_allows p required ≡ false
unfolding principal_allows scope_satisfied grants
read_only_allows p required e ne = rw e (rw ne)

read_only_manages :
    (p : AuthenticatedPrincipal) (team : Option String)
    → IsReadOnly p
    → principal_can_manage_api_token p [] team ≡ false
unfolding principal_can_manage_api_token
read_only_manages p team e = ground arith

read_only_unsafe :
    (p : AuthenticatedPrincipal) (r : Request)
    → IsReadOnly p
    → unsafe_route_allows p r ≡ true
    → (is_token_route r.pattern ≡ true) ⊎ (is_reading_post r.pattern ≡ true)
unfolding unsafe_route_allows
read_only_unsafe p r e h = ground (
  arith,
  read_only_manages p (managed_team r) e,
  read_only_allows p scope_write e refl,
  read_only_allows p scope_write_draft e refl,
  read_only_allows p scope_write_schedule e refl,
  read_only_allows p scope_delete e refl,
  read_only_allows p scope_delete_draft e refl,
  read_only_allows p scope_delete_schedule e refl,
)

-- With a method other than GET, HEAD and OPTIONS, the policy lets a read-only token call nothing
-- but the two token-management routes and the listed routes that only read.
pub read_only_routes :
    (p : AuthenticatedPrincipal) (r : Request)
    → IsReadOnly p
    → (r.method == "GET") ≡ false
    → (r.method == "HEAD") ≡ false
    → (r.method == "OPTIONS") ≡ false
    → token_route_allows p r ≡ true
    → (is_token_route r.pattern ≡ true) ⊎ (is_reading_post r.pattern ≡ true)
unfolding token_route_allows
read_only_routes p r e get head options h =
    ground (arith, read_only_manages p none e, read_only_unsafe p r e)
