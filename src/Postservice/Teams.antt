-- ===== src/Postservice/Teams.antt =====
-- The targets of a prepared post belong to the team that `Prepare` found.
use goloom.Strings.{is_blank}
use goloom.Domain.Account.{SocialAccount}
use goloom.Domain.Post.{CreatePostInput}
use goloom.Domain.Post.Input.{normalize}
use goloom.Postvalidate.{Env}
use goloom.Postservice.{
  PrepareError, AccountLoader, find_account, in_target_order, scan_targets, check_overrides,
  resolve_loaded, resolve_targets, team_required, past_scheduled_at,
}
use goloom.Postservice.Targets.{IsLoader, ids_of, find_account_sound, resolve_targets-Resolved}
use goloom.Postservice.Prepare.{
  Options, Prepared, prepare, raw_override_keys, prepare-IsPrepared, validated, is_past,
  limits_checked,
}
use goloom.Prelude.Result.{Result, ok, Result-cases, refuse_if, >>=-eq-ok}
use goloom.Prelude.{
  ℕ, String, ◌≡◌, sym, subst, ◌∙◌, inl, inr, true, ◌&&◌, some, List, [], ◌∷◌, Option-cases, All, In,
}

-- The table of accounts gives each account id one team.
pub record IsTable (team_of : String → String) (load : AccountLoader) : Type 0 where
  pub same_team :
      (ids : List String) (loaded : List SocialAccount)
      → load ids ≡ some loaded
      → (a : SocialAccount) → In a loaded
      → team_of a.id ≡ a.team_id

module _ (P : SocialAccount → Type 0) (loaded : List SocialAccount)
    (known : (a : SocialAccount) → In a loaded → P a) where
  in_target_order-All : (targets : List String) → All P (in_target_order loaded targets)
  unfolding in_target_order
  in_target_order-All [] = tt
  in_target_order-All (id ∷ targets) = elim (Option-cases (find_account id loaded)) [
    | inl nothing ↦ rw (nothing, in_target_order) (in_target_order-All targets)
    | inr (a, found) ↦
        rw (found, in_target_order)
          (known a (find_account_sound id loaded found).1, in_target_order-All targets)
  ]

  resolve_loaded-All :
      (team_id : String) (targets keys : List String) (accounts : List SocialAccount)
      (team : String)
      → resolve_loaded team_id targets keys loaded ≡ ok (accounts, team)
      → All P accounts
  unfolding resolve_loaded
  resolve_loaded-All team_id targets keys accounts team h =
      elim (Result-cases (scan_targets loaded team_id targets team_id [])) [
        | inl (e, failed) ↦ cc (rw (failed, resolve_loaded) at h)
        | inr ((found_team, []), scanned) ↦ elim (Result-cases (check_overrides loaded keys)) [
          | inl (e, failed) ↦ cc (rw (scanned, failed, resolve_loaded) at h)
          | inr (u, checked) ↦
              let e : ◌≡◌ {A = Result PrepareError (List SocialAccount × String)}
                  (ok (in_target_order loaded targets, found_team)) (ok (accounts, team)) =
                rw (scanned, checked, resolve_loaded) at h in
              let same_accounts : in_target_order loaded targets ≡ accounts = cc in
              subst (All P) same_accounts (in_target_order-All targets)
        ]
        | inr ((found_team, x ∷ missing), scanned) ↦ cc (rw (scanned, resolve_loaded) at h)
      ]

-- What holds of all loaded accounts holds of those that the targets resolve to.
resolve_targets-All :
    (P : SocialAccount → Type 0) (load : AccountLoader) (team_id : String)
    (targets keys : List String) (accounts : List SocialAccount) (team : String)
    → ((ids : List String) (loaded : List SocialAccount)
        → load ids ≡ some loaded
        → (a : SocialAccount) → In a loaded
        → P a)
    → resolve_targets load team_id targets keys ≡ ok (accounts, team)
    → All P accounts
unfolding resolve_targets
resolve_targets-All P load team_id [] [] accounts team known h =
    let no_accounts : accounts ≡ [] = cc in subst (All P) (sym no_accounts) tt
resolve_targets-All P load team_id [] (key ∷ keys) accounts team known h = absurd cc
resolve_targets-All P load team_id (id ∷ targets) keys accounts team known h =
    elim (Option-cases (load (id ∷ targets))) [
      | inl failed ↦ absurd (cc (rw (failed, resolve_targets) at h))
      | inr (loaded, found) ↦
          resolve_loaded-All P loaded (known (id ∷ targets) loaded found) team_id (id ∷ targets)
            keys accounts team (rw (found, resolve_targets) at h)
    ]

ids-in_team :
    (team_of : String → String) (team : String) (accounts : List SocialAccount)
    → All (λ a. a.team_id ≡ team) accounts
    → All (λ a. team_of a.id ≡ a.team_id) accounts
    → All (λ id. team_of id ≡ team) (ids_of accounts)
ids-in_team team_of team [] one_team known = tt
ids-in_team team_of team (a ∷ accounts) one_team known =
    (known.0 ∙ one_team.0, ids-in_team team_of team accounts one_team.1 known.1)

module _ (env : Env) (load : AccountLoader) (now : ℕ) (team_id : String) (raw : CreatePostInput)
    (opts : Options) (p : Prepared) where
  prepare-resolved :
      prepare env load now team_id raw opts ≡ ok p
      → (accounts : List SocialAccount) × (resolve_targets load team_id
            (normalize raw).target_accounts
            (raw_override_keys raw.account_content_override)
          ≡ ok (accounts, p.effective_team))
  unfolding prepare
  prepare-resolved h =
      let input = normalize raw in
      let keys = raw_override_keys raw.account_content_override in
      let (_, team_given, h₁) =
        >>=-eq-ok (refuse_if (opts.require_team && is_blank team_id) team_required) _ h in
      let (_, shaped, h₂) = >>=-eq-ok (validated input) _ h₁ in
      let (_, timely, h₃) = >>=-eq-ok (refuse_if (is_past opts now input) past_scheduled_at) _ h₂ in
      let ((accounts, team), resolved, h₄) =
        >>=-eq-ok (resolve_targets load team_id input.target_accounts keys) _ h₃ in
      let (report, checked, h₅) = >>=-eq-ok (limits_checked env opts accounts input) _ h₄ in
      let same : team ≡ p.effective_team = cc (h₅) in
      (
        accounts,
        subst (λ t. resolve_targets load team_id input.target_accounts keys ≡ ok (accounts, t)) same
            resolved,
      )

  -- All targets are in the effective team, which is the requested one where a team is required.
  pub prepare-in_team :
      (team_of : String → String)
      → IsLoader load
      → IsTable team_of load
      → prepare env load now team_id raw opts ≡ ok p
      → All (λ id. team_of id ≡ p.effective_team) raw.target_accounts
        × (opts.require_team ≡ true → p.effective_team ≡ team_id)
  unfolding normalize is_blank
  prepare-in_team team_of loader table h =
      let (accounts, resolved) = prepare-resolved h in
      let r = resolve_targets-Resolved load team_id _ _ accounts p.effective_team loader resolved in
      let known =
        resolve_targets-All (λ a. team_of a.id ≡ a.team_id) load team_id _ _ accounts
          p.effective_team table.same_team resolved in
      let given = (prepare-IsPrepared env load now team_id raw opts p loader h).team_given in
      (
        subst (All (λ id. team_of id ≡ p.effective_team)) (r.in_order)
            (ids-in_team team_of p.effective_team accounts r.one_team known),
        λ required. r.requested (λ empty. cc (rw empty at (given required))),
      )
