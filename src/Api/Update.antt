-- ===== src/Api/Update.antt =====
-- What an accepted update of a post has been through.
use goloom.Domain.Principal.{AuthenticatedPrincipal}
use goloom.Domain.Post.{is_settled, ScheduledPost, CreatePostInput, PostStatus, is_draft}
use goloom.Domain.Post.Patch.{UpdatePostPatch, PostPatchFieldsSet, apply_post_patch, any_set}
use goloom.Postservice.Prepare.{Prepared}
use goloom.Publish.{PostState}
use goloom.Publish.Edit.{
  is_yes, update_fields, patch_scheduled_post, replace_targets, replace_versions,
}
use goloom.Api.{
  Services, may_edit, is_imported, review_checked, has_scope, prepare_patch, store_patch,
  handle_update_post, imported_post_read_only, forbidden, already_published, scope_required,
  internal_error, target_draft, post_write_scope, required_scope, effective_patch,
}
use goloom.Prelude.Result.{not_refused, ok, >>=-eq-ok}
use goloom.Auth.{scope_write_schedule, principal_allows}
use goloom.Domain.Post.Status.{resolve_post_status_on_update}
use goloom.Publish.Safety.Actions.{OfOption}
use goloom.Api.Creation.{or_refuse-ok}
use goloom.Prelude.{
  ℕ, ◌≡◌, subst, ◌∙◌, inl, inr, Bool, true, false, not, ◌&&◌, ◌||◌, none, some, arith,
  if◌then◌else◌, if-both, if-split, Bool-cases,
}

-- The caller may edit posts of the team and holds the scope; the post was not imported, and is not
-- published now if it is settled; what is stored was prepared and valid; and the store took it.
pub record IsAccepted (sv : Services) (p : AuthenticatedPrincipal) (s : PostState)
    (sent : UpdatePostPatch) (s' : PostState) : Type 0 where
  pub own : is_imported s.post.source ≡ false
  pub access : may_edit sv p s.post.team_id ≡ true
  pub review : review_checked sent ≡ ok tt
  pub unpublished : is_yes sent.publish_now ≡ true → is_settled s.post.status ≡ false
  pub scope : has_scope sv p s sent ≡ true
  pub prepared : Prepared
  pub has_prepared : prepare_patch sv s sent ≡ ok prepared
  pub valid : prepared.validation.valid ≡ true
  pub stored : store_patch sv s sent ≡ ok s'

-- An update succeeds only for a caller and a post that are known.
pub handle_update_post-IsAccepted :
    (sv : Services) (p : AuthenticatedPrincipal) (s : PostState) (sent : UpdatePostPatch)
    (s' : PostState)
    → handle_update_post sv (some p) (some s) (some sent) ≡ ok s'
    → IsAccepted sv p s sent s'
unfolding handle_update_post
handle_update_post-IsAccepted sv p s sent s' h =
    let (own, h₁) = not_refused (is_imported s.post.source) imported_post_read_only _ h in
    let (access, h₂) = not_refused (not (may_edit sv p s.post.team_id)) forbidden _ h₁ in
    let (_, review, h₃) = >>=-eq-ok (review_checked sent) _ h₂ in
    let (unpublished, h₄) =
      not_refused (is_yes sent.publish_now && is_settled s.post.status) already_published _ h₃ in
    let (scope, h₅) = not_refused (not (has_scope sv p s sent)) scope_required _ h₄ in
    let (_, h₆) = not_refused (not sv.versions_load) internal_error _ h₅ in
    let (prepared, through, h₇) = >>=-eq-ok (prepare_patch sv s sent) _ h₆ in
    let (valid, stored) = not_refused (not prepared.validation.valid) _ _ h₇ in
    record {
      own = own;
      access = ground arith;
      review = review;
      unpublished = λ e. ground arith;
      scope = ground arith;
      prepared = prepared;
      has_prepared = through;
      valid = ground arith;
      stored = stored;
    }

-- The scope that was asked for lies below scheduling only if a draft stays a draft.
draft_scope :
    (p : AuthenticatedPrincipal) (status : PostStatus) (patch : UpdatePostPatch)
    → principal_allows p scope_write_schedule ≡ false
    → principal_allows p (required_scope status patch) ≡ true
    → (is_draft status ≡ true)
      × (target_draft (is_draft status) patch.draft ≡ true)
      × (is_yes patch.review_complete ≡ false)
unfolding required_scope post_write_scope
draft_scope p status patch below allowed =
    elim (Bool-cases
      (not (target_draft (is_draft status) patch.draft) || is_yes patch.review_complete)) [
        | inl promoted ↦ absurd (cc (rw promoted at allowed))
        | inr stays ↦ elim (Bool-cases (is_draft status)) [
          | inl draft ↦ (draft, ground arith, ground arith)
          | inr queued ↦ absurd (cc (rw (stays, queued) at allowed))
        ]
      ]

update_fields-draft :
    (now : ℕ) (flags : PostPatchFieldsSet) (merged : CreatePostInput) (post : ScheduledPost)
    → is_imported post.source ≡ false
    → is_draft post.status ≡ true
    → merged.draft ≡ true
    → is_draft (update_fields now flags merged post).status ≡ true
unfolding update_fields resolve_post_status_on_update
update_fields-draft now flags merged post own draft stays = ground arith

abbrev StaysDraft : PostState → Type 0
StaysDraft s = is_draft s.post.status ≡ true

replaced-StaysDraft :
    (flags : PostPatchFieldsSet) (merged : CreatePostInput) (s : PostState)
    → StaysDraft s
    → StaysDraft (replace_targets flags merged (replace_versions flags merged s))
unfolding replace_targets replace_versions
replaced-StaysDraft flags merged s draft =
    if-both StaysDraft flags.target_accounts (if-both StaysDraft flags.versions draft draft)
      (if-both StaysDraft flags.versions draft draft)

merged-draft :
    (s : PostState) (patch : UpdatePostPatch)
    → (apply_post_patch s.post s.versions patch).0.draft
      ≡ target_draft (is_draft s.post.status) patch.draft
unfolding apply_post_patch
merged-draft s patch = ground arith

-- The patch of a draft that asks for no promotion leaves a draft.
patched-StaysDraft :
    (commits : Bool) (now : ℕ) (patch : UpdatePostPatch) (s : PostState)
    → is_imported s.post.source ≡ false
    → StaysDraft s
    → target_draft (is_draft s.post.status) patch.draft ≡ true
    → is_yes patch.review_complete ≡ false
    → OfOption StaysDraft (patch_scheduled_post commits now patch s)
unfolding patch_scheduled_post
patched-StaysDraft commits now patch s own draft stays no_review =
    let r : CreatePostInput × PostPatchFieldsSet = apply_post_patch s.post s.versions patch in
    let changed : PostState = record s { post = update_fields now r.1 r.0 s.post } in
    let s' : PostState = replace_targets r.1 r.0 (replace_versions r.1 r.0 changed) in
    if-split (OfOption StaysDraft) (is_yes patch.review_complete) (λ review. absurd (cc))
      (λ edit.
        if-both (OfOption StaysDraft) (not (any_set r.1)) {x = some s}
          {y = if commits then some s' else none} draft
          (if-both (OfOption StaysDraft) commits {x = some s'} {y = none}
            (replaced-StaysDraft r.1 r.0 changed
              (update_fields-draft now r.1 r.0 s.post own draft (merged-draft s patch ∙ stays)))
            tt))

pub accepted-stored :
    (sv : Services) (s : PostState) (sent : UpdatePostPatch) (s' : PostState)
    → store_patch sv s sent ≡ ok s'
    → patch_scheduled_post sv.commits sv.now (effective_patch sv.now sent) s ≡ some s'
unfolding store_patch
accepted-stored sv s sent s' h = or_refuse-ok _ _ h

-- An update by a caller without the scope write:schedule succeeds only on a draft, which it leaves a
-- draft.
pub drafts_stay :
    (sv : Services) (p : AuthenticatedPrincipal) (s : PostState) (sent : UpdatePostPatch)
    (s' : PostState)
    → principal_allows p scope_write_schedule ≡ false
    → handle_update_post sv (some p) (some s) (some sent) ≡ ok s'
    → (is_draft s.post.status ≡ true) × (is_draft s'.post.status ≡ true)
unfolding has_scope
drafts_stay sv p s sent s' below h =
    let accepted = handle_update_post-IsAccepted sv p s sent s' h in
    let patch = effective_patch sv.now sent in
    let (draft, stays, no_review) = draft_scope p s.post.status patch below accepted.scope in
    (
      draft,
      subst (OfOption StaysDraft) (accepted-stored sv s sent s' accepted.stored)
          (patched-StaysDraft sv.commits sv.now patch s accepted.own draft stays no_review),
    )
