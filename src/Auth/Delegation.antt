-- ===== src/Auth/Delegation.antt =====
-- What a caller may mint: a token that `PrincipalCanManageAPIToken` lets through has no authority
-- that its maker lacks.
use goloom.Domain.Principal.{TeamRole, AuthenticatedPrincipal}
use goloom.Auth.{
  scope_satisfied, principal_allows, is_none, same_team, principal_can_manage_api_token,
  bound_elsewhere, principal_has_team_access,
}
use goloom.Auth.Scopes.{scope_satisfied_trans}
use goloom.Prelude.{
  String, ◌≡◌, refl, ap, ◌↔◌, ◌⊎◌, inl, inr, Bool, true, false, ◌||◌, Option, none, some, List, [],
  ◌∷◌, arith, eq_nat, eq_text, eq_of_beq, beq_self, is_empty, all, All,
}

-- The caller that a token with these scopes and this team authenticates, for the same user.
abbrev pub minted : AuthenticatedPrincipal → List String → Option String → AuthenticatedPrincipal
minted p scopes team = record p { kind = "api_token"; scopes = scopes; token_team_id = team }

-- The two facts that the guard establishes.
pub record Within (p : AuthenticatedPrincipal) (scopes : List String) (team : Option String)
    : Type 0 where
  pub scopes_within :
      (is_empty p.scopes ≡ true)
      ⊎ ((is_empty scopes ≡ false) × All (λ s. scope_satisfied p.scopes s ≡ true) scopes)
  pub team_within :
      ((is_empty p.scopes ≡ true) × (p.token_team_id ≡ none)) ⊎ (p.token_team_id ≡ team)

eq_of_same_team : (a b : Option String) → same_team a b ≡ true → a ≡ b
unfolding same_team
eq_of_same_team none none h = refl
eq_of_same_team none (some b) h = cc
eq_of_same_team (some a) none h = cc
eq_of_same_team (some a) (some b) h = ap some (eq_of_beq a b h)

same_team_self : (a : Option String) → same_team a a ≡ true
unfolding same_team
same_team_self none = refl
same_team_self (some a) = beq_self a

eq_none : (o : Option String) → is_none o ≡ true → o ≡ none
eq_none none h = refl
eq_none (some a) h = cc

All-weaken :
    (own : List String) (scopes : List String)
    → is_empty own ≡ false
    → all (λ s. is_empty own || scope_satisfied own s) scopes ≡ true
    → All (λ s. scope_satisfied own s ≡ true) scopes
All-weaken own [] e h = tt
All-weaken own (s ∷ scopes) e h = ground (arith, All-weaken own scopes e)

Within-of_manage :
    (p : AuthenticatedPrincipal) (scopes : List String) (team : Option String)
    → principal_can_manage_api_token p scopes team ≡ true
    → Within p scopes team
unfolding principal_can_manage_api_token
Within-of_manage p scopes team h = ground (
  arith,
  eq_of_same_team p.token_team_id team,
  eq_none p.token_team_id,
  All-weaken p.scopes scopes,
)

all_of_All :
    (own : List String) (scopes : List String)
    → All (λ s. scope_satisfied own s ≡ true) scopes
    → all (λ s. is_empty own || scope_satisfied own s) scopes ≡ true
all_of_All own [] a = refl
all_of_All own (s ∷ scopes) a = ground (arith, all_of_All own scopes a.1)

all_of_empty :
    (own : List String) (scopes : List String)
    → is_empty own ≡ true
    → all (λ s. is_empty own || scope_satisfied own s) scopes ≡ true
all_of_empty own [] e = refl
all_of_empty own (s ∷ scopes) e = ground (arith, all_of_empty own scopes e)

manage_of_Within :
    (p : AuthenticatedPrincipal) (scopes : List String) (team : Option String)
    → Within p scopes team
    → principal_can_manage_api_token p scopes team ≡ true
unfolding principal_can_manage_api_token
manage_of_Within p scopes team w =
    ground (arith, same_team_self team, all_of_All p.scopes scopes, all_of_empty p.scopes scopes)

-- A caller may manage a token exactly if the token's scopes are within his own (he has no scopes, or
-- the token has some and his scopes satisfy each of them), and its team is his, both absent included,
-- or he has neither scopes nor a team.
pub principal_can_manage_api_token_iff :
    (p : AuthenticatedPrincipal) (scopes : List String) (team : Option String)
    → (principal_can_manage_api_token p scopes team ≡ true) ↔ Within p scopes team
principal_can_manage_api_token_iff p scopes team =
    (Within-of_manage p scopes team, manage_of_Within p scopes team)

module _ (p : AuthenticatedPrincipal) (scopes : List String) (team : Option String)
    (managed : principal_can_manage_api_token p scopes team ≡ true) where
  pub minted-principal_allows :
      (required : String)
      → principal_allows (minted p scopes team) required ≡ true
      → principal_allows p required ≡ true
  unfolding principal_allows
  minted-principal_allows required h = ground (
    arith,
    (Within-of_manage p scopes team managed).scopes_within,
    scope_satisfied_trans p.scopes scopes required,
  )

  pub minted-bound_elsewhere :
      (t : String) → bound_elsewhere team t ≡ false → bound_elsewhere p.token_team_id t ≡ false
  unfolding bound_elsewhere
  minted-bound_elsewhere t h = elim (Within-of_manage p scopes team managed).team_within [
    | inl free ↦ rw free.1
    | inr same ↦ rw same h
  ]

  pub minted-principal_has_team_access :
      (has_role : String → String → List TeamRole → Option Bool) (t : String)
      (roles : List TeamRole)
      → principal_has_team_access has_role (minted p scopes team) t roles ≡ some true
      → principal_has_team_access has_role p t roles ≡ some true
  unfolding principal_has_team_access
  minted-principal_has_team_access has_role t roles h = ground (arith, minted-bound_elsewhere t)

-- A token that a caller may manage allows nothing that he is not allowed: every scope it satisfies
-- he satisfies, and every team it reaches he reaches, whatever roles the store reports.
pub minted_authority :
    (p : AuthenticatedPrincipal) (scopes : List String) (team : Option String)
    → principal_can_manage_api_token p scopes team ≡ true
    → ((required : String)
        → principal_allows (minted p scopes team) required ≡ true
        → principal_allows p required ≡ true)
      × ((has_role : String → String → List TeamRole → Option Bool) (t : String)
            (roles : List TeamRole)
          → principal_has_team_access has_role (minted p scopes team) t roles ≡ some true
          → principal_has_team_access has_role p t roles ≡ some true)
minted_authority p scopes team managed = (
  minted-principal_allows p scopes team managed,
  minted-principal_has_team_access p scopes team managed,
)

All-trans :
    (own mid scopes : List String)
    → All (λ s. scope_satisfied own s ≡ true) mid
    → All (λ s. scope_satisfied mid s ≡ true) scopes
    → All (λ s. scope_satisfied own s ≡ true) scopes
All-trans own mid [] a b = tt
All-trans own mid (s ∷ scopes) a b =
    (scope_satisfied_trans own mid s a b.0, All-trans own mid scopes a b.1)

-- Delegation is transitive: what a minted token may mint, its maker may mint.
pub minted-can_manage :
    (p : AuthenticatedPrincipal) (scopes narrower : List String) (team next_team : Option String)
    → principal_can_manage_api_token p scopes team ≡ true
    → principal_can_manage_api_token (minted p scopes team) narrower next_team ≡ true
    → principal_can_manage_api_token p narrower next_team ≡ true
minted-can_manage p scopes narrower team next_team first second =
    let v = Within-of_manage p scopes team first in
    let w = Within-of_manage (minted p scopes team) narrower next_team second in
    manage_of_Within p narrower next_team (record {
      scopes_within =
          ground (arith, v.scopes_within, w.scopes_within, All-trans p.scopes scopes narrower);
      team_within = ground (arith, v.scopes_within, v.team_within, w.team_within);
    })
