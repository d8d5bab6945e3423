-- ===== src/Publish/Team/Edits.antt =====
-- What a creation and an edit of a post do to its targets.
use goloom.Domain.Principal.{AuthenticatedPrincipal}
use goloom.Domain.Post.{CreatePostInput, ScheduledPost, is_draft}
use goloom.Domain.Post.Patch.{apply_post_patch, any_set, UpdatePostPatch, PostPatchFieldsSet}
use goloom.Publish.{PostState}
use goloom.Publish.Edit.{
  is_yes, complete_review, update_fields, pending_targets, replace_targets, replace_versions,
  patch_scheduled_post,
}
use goloom.Publish.Create.{create_scheduled_post}
use goloom.Publish.Safety.Actions.{OfOption}
use goloom.Publish.Frame.{row_ids}
use goloom.Publish.Team.{InTeam, Home, Stays, Home-Stays}
use goloom.Prelude.{
  ℕ, String, ◌≡◌, refl, ap, inl, inr, Bool, true, false, ◌&&◌, Option, none, some, List, [], ◌∷◌,
  arith, Bool-cases, All,
}

pending_targets-rows : (ids : List String) → row_ids (pending_targets ids) ≡ ids
unfolding pending_targets
pending_targets-rows [] = refl
pending_targets-rows (id ∷ ids) = ap (λ xs. id ∷ xs) (pending_targets-rows ids)

update_fields-team :
    (now : ℕ) (flags : PostPatchFieldsSet) (merged : CreatePostInput) (post : ScheduledPost)
    → (update_fields now flags merged post).team_id ≡ post.team_id
unfolding update_fields
update_fields-team now flags merged post = ground arith

complete_review-Home :
    (commits : Bool) (now at : ℕ) (s : PostState)
    → OfOption (Home s) (complete_review commits now at s)
unfolding complete_review
complete_review-Home commits now at s = elim (Bool-cases (commits && is_draft s.post.status)) [
  | inl draft ↦ rw (draft, complete_review) (refl, refl, refl)
  | inr other ↦ rw (other, complete_review) tt
]

OfOption-map :
    (P Q : PostState → Type 0) (o : Option PostState)
    → ((s : PostState) → P s → Q s)
    → OfOption P o
    → OfOption Q o
OfOption-map P Q none f h = tt
OfOption-map P Q (some s) f h = f s h

-- The rows of the targets after an edit: as before, or those of the merged input.
replaced-Stays :
    (team_of : String → String) (flags : PostPatchFieldsSet) (merged : CreatePostInput)
    (s s' : PostState)
    → Home s s'
    → All (λ id. team_of id ≡ s.post.team_id) merged.target_accounts
    → Stays team_of s (replace_targets flags merged (replace_versions flags merged s'))
unfolding replace_targets replace_versions
replaced-Stays team_of flags merged s s' home inside = elim (Bool-cases flags.target_accounts) [
  | inl new ↦ elim (Bool-cases flags.versions) [
    | inl v ↦
        simp (new, v, replace_targets, replace_versions)
          (
            home.0,
            λ old. (
              rw (home.0, pending_targets-rows merged.target_accounts) inside,
              rw (home.0, home.2) old.1,
            ),
          )
    | inr v ↦
        simp (new, v, replace_targets, replace_versions)
          (
            home.0,
            λ old. (
              rw (home.0, pending_targets-rows merged.target_accounts) inside,
              rw (home.0, home.2) old.1,
            ),
          )
  ]
  | inr kept ↦ elim (Bool-cases flags.versions) [
    | inl v ↦ simp (kept, v, replace_targets, replace_versions) (Home-Stays team_of s s' home)
    | inr v ↦ simp (kept, v, replace_targets, replace_versions) (Home-Stays team_of s s' home)
  ]
]

pub patched-Stays :
    (team_of : String → String) (commits : Bool) (now : ℕ) (patch : UpdatePostPatch) (s : PostState)
    → All
        (λ id. team_of id ≡ s.post.team_id)
        (apply_post_patch s.post s.versions patch).0.target_accounts
    → OfOption (Stays team_of s) (patch_scheduled_post commits now patch s)
unfolding patch_scheduled_post
patched-Stays team_of commits now patch s inside =
    let r = apply_post_patch s.post s.versions patch in
    elim (Bool-cases (is_yes patch.review_complete)) [
      | inl review ↦
          simp (review, patch_scheduled_post)
            (OfOption-map (Home s) (Stays team_of s) _ (Home-Stays team_of s)
              (complete_review-Home commits now r.0.scheduled_at s))
      | inr edit ↦ elim (Bool-cases (any_set r.1)) [
        | inr nothing ↦ simp (edit, nothing, patch_scheduled_post) (refl, λ old. old)
        | inl some_field ↦ elim (Bool-cases commits) [
          | inr fails ↦ simp (edit, some_field, fails, patch_scheduled_post) tt
          | inl stored ↦
              simp (edit, some_field, stored, patch_scheduled_post)
                (replaced-Stays team_of r.1 r.0 s
                  (record s { post = update_fields now r.1 r.0 s.post })
                  (update_fields-team now r.1 r.0 s.post, refl, refl) inside)
        ]
      ]
    ]

pub stored-InTeam :
    (team_of : String → String) (commits : Bool) (id : String) (now : ℕ) (team : String)
    (p : AuthenticatedPrincipal) (input : CreatePostInput) (P : String → Type 0)
    → All (λ x. team_of x ≡ team) input.target_accounts
    → P team
    → OfOption
        (λ t. InTeam team_of t × P t.post.team_id)
        (create_scheduled_post commits id now team p input)
unfolding create_scheduled_post
stored-InTeam team_of true id now team p input P inside own =
    ((rw (pending_targets-rows input.target_accounts) inside, tt), own)
stored-InTeam team_of false id now team p input P inside own = tt
