-- ===== src/Api/Life.antt =====
-- The targets of a post over its life: requests to the handlers, runs of the workers, and operators.
use goloom.Domain.Principal.{AuthenticatedPrincipal}
use goloom.Domain.Post.{CreatePostInput}
use goloom.Domain.Post.Patch.{UpdatePostPatch}
use goloom.Postservice.Targets.{IsLoader}
use goloom.Postservice.Teams.{prepare-in_team, IsTable}
use goloom.Publish.{
  PostState, admin_retry_failed_post, admin_acknowledge_failed_post, repair_future_posted_post,
  cancel_scheduled_post,
}
use goloom.Publish.Provider.{World, IsWorld}
use goloom.Publish.Worker.Run.{poll}
use goloom.Publish.Safety.Actions.{OfOption}
use goloom.Api.Update.{handle_update_post-IsAccepted, accepted-stored}
use goloom.Api.Creation.{handle_create_post-IsCreated, prepared_or-ok}
use goloom.Strings.{trim_space}
use goloom.Auth.{principal_allows}
use goloom.Domain.Post.Input.{normalize}
use goloom.Postservice.Prepare.{prepare-IsPrepared}
use goloom.Api.{
  Services, Refusal, may_edit, handle_update_post, effective_patch, merged_input, prepare_patch,
  update_options, scope_required, forbidden, post_write_scope,
}
use goloom.Api.Posts.{
  is_cancelled, handle_create_post, handle_cancel_post, timed_input, create_options,
}
use goloom.Prelude.Result.{Result, ok, err, not_refused}
use goloom.Publish.Team.{
  InTeam, Home, Stays, Home-Stays, poll-Stays, retry-Home, acknowledge-Home, repair-Home,
}
use goloom.Publish.Team.Edits.{patched-Stays, stored-InTeam}
use goloom.Prelude.{
  ℕ, String, ◌≡◌, refl, sym, ap, subst, ◌∙◌, inl, inr, true, not, some, Bool-cases, All,
}

-- The database under a request, whose table of accounts gives each id one team.
pub record IsServed (team_of : String → String) (sv : Services) : Type 0 where
  pub loader : IsLoader sv.load_accounts
  pub table : IsTable team_of sv.load_accounts

-- A step in the life of a post. An update may replace the targets.
pub data Step (team_of : String → String) (s : PostState) : PostState → Type 0 where
  updated :
      {s' : PostState} (sv : Services) (p : AuthenticatedPrincipal) (sent : UpdatePostPatch)
      → IsServed team_of sv
      → handle_update_post sv (some p) (some s) (some sent) ≡ ok s'
      → Step team_of s s'
  cancelled :
      {s' : PostState} (sv : Services) (p : AuthenticatedPrincipal)
      → handle_cancel_post sv (some p) (some s) ≡ ok s'
      → Step team_of s s'
  polled : (w : World) (now : ℕ) → IsWorld w → Step team_of s (poll w now s)
  retried : {s' : PostState} (now : ℕ) → admin_retry_failed_post now s ≡ some s' → Step team_of s s'
  acknowledged :
      {s' : PostState} (now : ℕ) → admin_acknowledge_failed_post now s ≡ some s' → Step team_of s s'
  repaired : (now : ℕ) → Step team_of s (repair_future_posted_post now s)

pub data Life (team_of : String → String) (s : PostState) : PostState → Type 0 where
  begin : Life team_of s s
  next : {s' s'' : PostState} → Life team_of s s' → Step team_of s' s'' → Life team_of s s''

abbrev OfOk : (PostState → Type 0) → Result Refusal PostState → Type 0
OfOk P (ok s) = P s
OfOk P (err e) = Unit

normalize-targets :
    (input : CreatePostInput) → (normalize input).target_accounts ≡ input.target_accounts
unfolding normalize
normalize-targets input = refl

module _ (team_of : String → String) where
  update-Stays :
      (sv : Services) (p : AuthenticatedPrincipal) (s : PostState) (sent : UpdatePostPatch)
      (s' : PostState)
      → IsServed team_of sv
      → handle_update_post sv (some p) (some s) (some sent) ≡ ok s'
      → Stays team_of s s'
  unfolding prepare_patch merged_input update_options
  update-Stays sv p s sent s' served h =
      let accepted = handle_update_post-IsAccepted sv p s sent s' h in
      let patch = effective_patch sv.now sent in
      let merged = merged_input s patch in
      let (inside, same) =
        prepare-in_team sv.env sv.load_accounts sv.now s.post.team_id merged
          (update_options sent merged) accepted.prepared team_of served.loader served.table
          (prepared_or-ok _ accepted.has_prepared) in
      subst (OfOption (Stays team_of s)) (accepted-stored sv s sent s' accepted.stored) (
        patched-Stays team_of sv.commits sv.now patch s
          (subst (λ t. All (λ id. team_of id ≡ t) merged.target_accounts) (same refl) inside))

  cancel-Home :
      (sv : Services) (p : AuthenticatedPrincipal) (s s' : PostState)
      → handle_cancel_post sv (some p) (some s) ≡ ok s'
      → Home s s'
  unfolding handle_cancel_post cancel_scheduled_post
  cancel-Home sv p s s' h =
      let (scope, h₁) =
        not_refused (not (principal_allows p (post_write_scope s.post.status))) scope_required _
          h in
      let (access, h₂) = not_refused (not (may_edit sv p s.post.team_id)) forbidden _ h₁ in
      subst (OfOk (Home s)) h₂ (elim (Bool-cases (is_cancelled s.post.status)) [
        | inl over ↦ rw over (refl, refl, refl)
        | inr live ↦ elim (Bool-cases sv.commits) [
          | inl stored ↦ rw (live, stored) (refl, refl, refl)
          | inr lost ↦ rw (live, lost) tt
        ]
      ])

  Step-Stays : (s s' : PostState) → Step team_of s s' → Stays team_of s s'
  Step-Stays s s' (updated sv p sent served h) = update-Stays sv p s sent s' served h
  Step-Stays s s' (cancelled sv p h) = Home-Stays team_of s s' (cancel-Home sv p s s' h)
  Step-Stays s s' (polled w now known) = poll-Stays team_of w now s known
  Step-Stays s s' (retried now h) =
      Home-Stays team_of s s' (subst (OfOption (Home s)) h (retry-Home now s))
  Step-Stays s s' (acknowledged now h) =
      Home-Stays team_of s s' (subst (OfOption (Home s)) h (acknowledge-Home now s))
  Step-Stays s s' (repaired now) = Home-Stays team_of s s' (repair-Home now s)

  Life-Stays : (s s' : PostState) → Life team_of s s' → Stays team_of s s'
  Life-Stays s s' begin = (refl, λ old. old)
  Life-Stays s s'' (next {s'} path step) =
      let (team, rows) = Life-Stays s s' path in
      let (team', rows') = Step-Stays s' s'' step in (team' ∙ team, λ old. rows' (rows old))

  create-InTeam :
      (sv : Services) (id path_team : String) (p : AuthenticatedPrincipal) (sent : CreatePostInput)
      (s : PostState)
      → IsServed team_of sv
      → handle_create_post sv id path_team (some p) (some sent) ≡ ok s
      → InTeam team_of s × (may_edit sv p s.post.team_id ≡ true)
  create-InTeam sv id path_team p sent s served h =
      let created = handle_create_post-IsCreated sv id path_team p sent s h in
      let prepared = created.prepared in
      let (inside, same) =
        prepare-in_team sv.env sv.load_accounts sv.now (trim_space path_team)
          (timed_input sv.now sent) (create_options (timed_input sv.now sent)) prepared team_of
          served.loader served.table created.has_prepared in
      let through =
        prepare-IsPrepared sv.env sv.load_accounts sv.now (trim_space path_team)
          (timed_input sv.now sent) (create_options (timed_input sv.now sent)) prepared
          served.loader created.has_prepared in
      subst (OfOption (λ t. InTeam team_of t × (may_edit sv p t.post.team_id ≡ true)))
        created.stored
        (stored-InTeam team_of sv.commits id sv.now prepared.effective_team p prepared.input
          (λ team. may_edit sv p team ≡ true)
          (subst (All (λ x. team_of x ≡ prepared.effective_team))
            (sym (
              ap CreatePostInput.target_accounts through.normalized
              ∙ normalize-targets (timed_input sv.now sent)))
            inside)
          created.access)

  -- From the request that creates a post on, through whatever updates, also of its targets,
  -- cancellations, runs of the workers, retries, acknowledgements and repairs follow one after the
  -- other, if accounts are loaded by their ids and each id has one team: the post stays in the
  -- team that it was created in, which the creator could edit, all its targets are accounts of
  -- that team, and every call of `Publish` was for such an account.
  pub targets_stay-InTeam :
      (sv : Services) (id path_team : String) (p : AuthenticatedPrincipal) (sent : CreatePostInput)
      (s s' : PostState)
      → IsServed team_of sv
      → handle_create_post sv id path_team (some p) (some sent) ≡ ok s
      → Life team_of s s'
      → (s'.post.team_id ≡ s.post.team_id)
        × (may_edit sv p s'.post.team_id ≡ true)
        × InTeam team_of s'
  targets_stay-InTeam sv id path_team p sent s s' served h path =
      let (inside, access) = create-InTeam sv id path_team p sent s served h in
      let (team, rows) = Life-Stays s s' path in (team, rw team access, rows inside)
