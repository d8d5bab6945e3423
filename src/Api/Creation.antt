-- ===== src/Api/Creation.antt =====
-- What an accepted creation of a post has been through, and what is stored.
use goloom.Strings.{trim_space}
use goloom.Domain.Principal.{AuthenticatedPrincipal}
use goloom.Domain.Post.{CreatePostInput, is_draft}
use goloom.Domain.Post.Input.{normalize}
use goloom.Domain.Post.Status.{resolve_post_insert}
use goloom.Auth.{scope_write_schedule, principal_allows}
use goloom.Postservice.Prepare.{Prepared, prepare, prepare-IsPrepared}
use goloom.Postservice.Targets.{IsLoader}
use goloom.Publish.{PostState}
use goloom.Publish.Create.{create_scheduled_post}
use goloom.Publish.Safety.Actions.{OfOption}
use goloom.Api.{
  Refusal, Services, or_refuse, prepared_or, may_edit, scope_required, forbidden, internal_error,
}
use goloom.Api.Posts.{timed_input, create_scope, create_options, handle_create_post}
use goloom.Prelude.Result.{Result, ok, err, not_refused, >>=-eq-ok}
use goloom.Prelude.{
  ℕ, String, ◌≡◌, refl, ap, subst, ◌∙◌, inl, inr, Bool, true, false, not, Option, none, some, arith,
  Bool-cases,
}

pub or_refuse-ok :
    {A : Type 0} (refusal : Refusal) (o : Option A) {a : A}
    → or_refuse refusal o ≡ ok a
    → o ≡ some a
or_refuse-ok refusal none h = cc
or_refuse-ok refusal (some b) h = cc

pub prepared_or-ok : {p : Prepared} (r : Result _ Prepared) → prepared_or r ≡ ok p → r ≡ ok p
prepared_or-ok (ok q) h = cc
prepared_or-ok (err e) h = cc

created_status :
    (commits : Bool) (id : String) (now : ℕ) (team_id : String) (p : AuthenticatedPrincipal)
    (input : CreatePostInput)
    → OfOption
        (λ s. (s.post.team_id ≡ team_id) × (is_draft s.post.status ≡ input.draft))
        (create_scheduled_post commits id now team_id p input)
unfolding create_scheduled_post resolve_post_insert
created_status true id now team_id p input = (refl, ground arith)
created_status false id now team_id p input = tt

normalize-draft : (input : CreatePostInput) → (normalize input).draft ≡ input.draft
unfolding normalize
normalize-draft input = refl

-- The caller holds the scope and may edit posts of the team that the targets have; what is stored was
-- prepared for that team and is valid.
pub record IsCreated (sv : Services) (id path_team : String) (p : AuthenticatedPrincipal)
    (sent : CreatePostInput) (s : PostState) : Type 0 where
  pub scope : principal_allows p (create_scope (timed_input sv.now sent)) ≡ true
  pub prepared : Prepared
  pub has_prepared :
      prepare sv.env sv.load_accounts sv.now
        (trim_space path_team)
        (timed_input sv.now sent)
        (create_options (timed_input sv.now sent))
      ≡ ok prepared
  pub valid : prepared.validation.valid ≡ true
  pub access : may_edit sv p prepared.effective_team ≡ true
  pub stored :
      create_scheduled_post sv.commits id sv.now prepared.effective_team p prepared.input ≡ some s

module _ (sv : Services) (id path_team : String) (p : AuthenticatedPrincipal)
    (sent : CreatePostInput) (s : PostState) where
  pub handle_create_post-IsCreated :
      handle_create_post sv id path_team (some p) (some sent) ≡ ok s
      → IsCreated sv id path_team p sent s
  unfolding handle_create_post
  handle_create_post-IsCreated h =
      let (scope, h₁) =
        not_refused (not (principal_allows p (create_scope (timed_input sv.now sent))))
          scope_required _ h in
      let (prepared, through, h₂) =
        >>=-eq-ok
          (prepared_or (
            prepare sv.env sv.load_accounts sv.now (trim_space path_team) (timed_input sv.now sent)
              (create_options (timed_input sv.now sent))))
          _ h₁ in
      let (valid, h₃) = not_refused (not prepared.validation.valid) _ _ h₂ in
      let (access, h₄) = not_refused (not (may_edit sv p prepared.effective_team)) forbidden _ h₃ in
      record {
        scope = ground arith;
        prepared = prepared;
        has_prepared = prepared_or-ok _ through;
        valid = ground arith;
        access = ground arith;
        stored = or_refuse-ok internal_error _ h₄;
      }

  -- A post that was created belongs to a team that the caller may edit; and a caller without the scope
  -- write:schedule creates drafts only.
  pub created_authority :
      IsLoader sv.load_accounts
      → handle_create_post sv id path_team (some p) (some sent) ≡ ok s
      → (may_edit sv p s.post.team_id ≡ true)
        × (principal_allows p scope_write_schedule ≡ false → is_draft s.post.status ≡ true)
  created_authority loader h =
      let created = handle_create_post-IsCreated h in
      let input = created.prepared.input in
      let through =
        prepare-IsPrepared sv.env sv.load_accounts sv.now (trim_space path_team)
          (timed_input sv.now sent) (create_options (timed_input sv.now sent)) created.prepared
          loader created.has_prepared in
      let (own_team, same_draft) =
        subst
          (OfOption (λ t.
            (t.post.team_id ≡ created.prepared.effective_team)
            × (is_draft t.post.status ≡ input.draft)))
          created.stored
          (created_status sv.commits id sv.now created.prepared.effective_team p input) in
      (
        rw own_team (created.access),
        λ below.
            same_draft
            ∙ ap CreatePostInput.draft (through.normalized)
            ∙ normalize-draft (timed_input sv.now sent)
            ∙ draft_asked below (created.scope),
      )
    where
      draft_asked :
          principal_allows p scope_write_schedule ≡ false
          → principal_allows p (create_scope (timed_input sv.now sent)) ≡ true
          → (timed_input sv.now sent).draft ≡ true
      draft_asked below allowed = elim (Bool-cases (timed_input sv.now sent).draft) [
        | inl draft ↦ draft
        | inr queued ↦ absurd (cc (rw queued at allowed))
      ]
