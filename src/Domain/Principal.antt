-- ===== src/Domain/Principal.antt =====
-- internal/domain/models.go: users and the authenticated caller of a request.
use goloom.Prelude.{ℕ, String, Bool, false, not, Option, none, some, List, ltb}

pub data TeamRole : Type 0 where
  owner editor viewer : TeamRole

-- Instants are nanoseconds since Go's zero time.
pub record User : Type 0 where
  pub id : String
  pub email : String
  pub name : String
  pub picture_url : String
  pub subject : String
  pub is_admin : Bool
  pub tour_done : Bool
  pub created_at : ℕ

-- A `*string` or `*time.Time` is an `Option`. `kind` is "oidc" or "api_token".
pub record AuthenticatedPrincipal : Type 0 where
  pub user : User
  pub kind : String
  pub scopes : List String
  pub token_team_id : Option String
  pub token_expires_at : Option ℕ
  pub token_id : Option String
  pub token_name : Option String

-- `APITokenExpired`.
unfoldable pub api_token_expired : Option ℕ → ℕ → Bool
api_token_expired none now = false
api_token_expired (some expires_at) now = not (ltb now expires_at)
