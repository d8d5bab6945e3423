-- ===== src/Publish/Safety/Actions.antt =====
-- What a user or an operator does to a post between runs keeps the invariant.
use goloom.Domain.Post.{PostStatus, PostSource, ScheduledPost, CreatePostInput, is_draft}
use goloom.Domain.Post.Status.{resolve_post_status_on_update}
use goloom.Domain.Post.Patch.{
  is_set, UpdatePostPatch, PostPatchFieldsSet, any_set, apply_post_patch,
}
use goloom.Publish.{
  repair_future_posted_post, is_nil, Target, Publication, PostState, is_failed, is_posted,
  reset_target, reset_targets, admin_retry_failed_post, admin_acknowledge_failed_post,
  cancel_scheduled_post,
}
use goloom.Publish.Edit.{
  is_yes, patch_scheduled_post, complete_review, update_fields, replace_targets, replace_versions,
}
use goloom.Publish.Invariant.{is_stuck, is_held, is_processing, TargetOk, IsQuiet, Inv, landed}
use goloom.Prelude.{
  ℕ, ◌≤◌, String, ◌≡◌, refl, ap, subst, ◌≢◌, inl, inr, Bool, true, false, ◌&&◌, Option, none, some,
  List, [], ◌∷◌, arith, ltb, Bool-cases, All,
}

-- The predicate of the value, if there is one.
abbrev pub OfOption : (PostState → Type 0) → Option PostState → Type 0
OfOption P none = Unit
OfOption P (some s) = P s

not_held :
    (status : PostStatus)
    → is_posted status ≡ false
    → is_processing status ≡ false
    → is_held status ≡ true
    → ⊥
not_held status unposted quiet held = ground arith

reset_target-Ok :
    (sent : List Publication) (t : Target)
    → TargetOk sent t
    → IsQuiet t
    → TargetOk sent (reset_target t) × IsQuiet (reset_target t)
unfolding reset_target
reset_target-Ok sent t good quiet = elim (Bool-cases (is_posted t.status)) [
  | inl posted ↦ rw (posted, reset_target) (good, quiet)
  | inr other ↦
      rw (other, reset_target)
        ((refl, λ l. absurd (not_held t.status other quiet (good.1 l))), refl)
]

reset_targets-Ok :
    (sent : List Publication) (ts : List Target)
    → All (TargetOk sent) ts
    → All IsQuiet ts
    → All (TargetOk sent) (reset_targets ts) × All IsQuiet (reset_targets ts)
reset_targets-Ok sent [] good quiet = (tt, tt)
reset_targets-Ok sent (t ∷ ts) good quiet =
    let (here, calm) = reset_target-Ok sent t good.0 quiet.0 in
    let (rest, all_calm) = reset_targets-Ok sent ts good.1 quiet.1 in
    ((here, rest), (calm, all_calm))

failed-not_stuck : (status : PostStatus) → is_failed status ≡ true → is_stuck status ≡ false
failed-not_stuck status h = ground arith

draft-not_stuck :
    (commits : Bool) (status : PostStatus)
    → commits && is_draft status ≡ true
    → is_stuck status ≡ false
draft-not_stuck commits status h = ground arith

-- The same rows and calls, and a status that is as stuck as before.
unchanged :
    {s s' : PostState}
    → Inv s
    → s.targets ≡ s'.targets
    → s.sent ≡ s'.sent
    → (is_stuck s'.post.status ≡ false → is_stuck s.post.status ≡ false)
    → Inv s'
unchanged {s} {s'} inv same_targets same_sent stuck =
    let safe : ((a : String) → landed a s'.sent ≤ 1) × All (TargetOk s'.sent) s'.targets =
      rw⁻¹ (same_sent, same_targets) (inv.safe.once, inv.safe.rows) in
    record {
      safe = record { once = safe.0; rows = safe.1 };
      quiet = λ u. subst (λ ts. All IsQuiet ts) same_targets (inv.quiet (stuck u));
    }

pub admin_retry_failed_post-Inv :
    (now : ℕ) (s : PostState) → Inv s → OfOption Inv (admin_retry_failed_post now s)
unfolding admin_retry_failed_post
admin_retry_failed_post-Inv now s inv = elim (Bool-cases (is_failed s.post.status)) [
  | inr other ↦ rw (other, admin_retry_failed_post) tt
  | inl failed ↦
      let (rows, calm) =
        reset_targets-Ok s.sent s.targets inv.safe.rows
          (inv.quiet (failed-not_stuck s.post.status failed)) in
      rw (failed, admin_retry_failed_post)
        (record { safe = record { once = inv.safe.once; rows = rows }; quiet = λ _. calm })
]

pub admin_acknowledge_failed_post-Inv :
    (now : ℕ) (s : PostState) → Inv s → OfOption Inv (admin_acknowledge_failed_post now s)
unfolding admin_acknowledge_failed_post
admin_acknowledge_failed_post-Inv now s inv =
    elim (Bool-cases (is_failed s.post.status && is_nil s.acknowledged_at)) [
      | inr other ↦ rw (other, admin_acknowledge_failed_post) tt
      | inl failed ↦ rw (failed, admin_acknowledge_failed_post) (unchanged inv refl refl (λ u. u))
    ]

pub cancel_scheduled_post-Inv :
    (now : ℕ) (s : PostState) → Inv s → Inv (cancel_scheduled_post now s)
unfolding cancel_scheduled_post
cancel_scheduled_post-Inv now s inv = unchanged inv refl refl (λ u. cc)

complete_review-Inv :
    (commits : Bool) (now at : ℕ) (s : PostState)
    → Inv s
    → OfOption Inv (complete_review commits now at s)
unfolding complete_review
complete_review-Inv commits now at s inv = elim (Bool-cases (commits && is_draft s.post.status)) [
  | inr other ↦ rw (other, complete_review) tt
  | inl draft ↦
      rw (draft, complete_review)
        (unchanged inv refl refl (λ u. draft-not_stuck commits s.post.status draft))
]

update_fields-is_stuck :
    (now : ℕ) (flags : PostPatchFieldsSet) (merged : CreatePostInput) (post : ScheduledPost)
    → post.source ≢ PostSource.imported
    → is_stuck (update_fields now flags merged post).status ≡ false
    → is_stuck post.status ≡ false
unfolding update_fields resolve_post_status_on_update
update_fields-is_stuck now flags merged post own h = ground arith

edited-Inv :
    (now : ℕ) (flags : PostPatchFieldsSet) (merged : CreatePostInput) (s : PostState)
    → flags.target_accounts ≡ false
    → s.post.source ≢ PostSource.imported
    → Inv s
    → Inv (
        replace_targets flags merged (
          replace_versions flags merged
            (record s { post = update_fields now flags merged s.post })))
unfolding replace_targets replace_versions
edited-Inv now flags merged s omitted own inv = elim (Bool-cases flags.versions) [
  | inl v ↦
      simp (omitted, v, replace_targets, replace_versions)
        (unchanged inv refl refl (update_fields-is_stuck now flags merged s.post own))
  | inr v ↦
      simp (omitted, v, replace_targets, replace_versions)
        (unchanged inv refl refl (update_fields-is_stuck now flags merged s.post own))
]

targets_omitted :
    (s : PostState) (patch : UpdatePostPatch)
    → patch.target_accounts ≡ none
    → (apply_post_patch s.post s.versions patch).1.target_accounts ≡ false
unfolding apply_post_patch
targets_omitted s patch omitted = ap is_set omitted

-- A patch that leaves the target accounts out keeps the rows of the targets.
pub patch_scheduled_post-Inv :
    (commits : Bool) (now : ℕ) (patch : UpdatePostPatch) (s : PostState)
    → patch.target_accounts ≡ none
    → s.post.source ≢ PostSource.imported
    → Inv s
    → OfOption Inv (patch_scheduled_post commits now patch s)
unfolding patch_scheduled_post
patch_scheduled_post-Inv commits now patch s omitted own inv =
    let r = apply_post_patch s.post s.versions patch in
    elim (Bool-cases (is_yes patch.review_complete)) [
      | inl review ↦
          simp (review, patch_scheduled_post)
            (complete_review-Inv commits now r.0.scheduled_at s inv)
      | inr edit ↦ elim (Bool-cases (any_set r.1)) [
        | inr nothing ↦ simp (edit, nothing, patch_scheduled_post) inv
        | inl some_field ↦ elim (Bool-cases commits) [
          | inr fails ↦ simp (edit, some_field, fails, patch_scheduled_post) tt
          | inl stored ↦
              simp (edit, some_field, stored, patch_scheduled_post)
                (edited-Inv now r.1 r.0 s (targets_omitted s patch omitted) own inv)
        ]
      ]
    ]

repaired-not_stuck :
    (later : Bool) (status : PostStatus)
    → (is_posted status && later) ≡ true
    → is_stuck status ≡ false
repaired-not_stuck later status h = ground arith

pub repair_future_posted_post-Inv :
    (now : ℕ) (s : PostState) → Inv s → Inv (repair_future_posted_post now s)
unfolding repair_future_posted_post
repair_future_posted_post-Inv now s inv =
    elim (Bool-cases (is_posted s.post.status && ltb now s.post.scheduled_at)) [
      | inr other ↦ rw (other, repair_future_posted_post) inv
      | inl repaired ↦
          rw (repaired, repair_future_posted_post)
            (unchanged inv refl refl
              (λ u. repaired-not_stuck (ltb now s.post.scheduled_at) s.post.status repaired))
    ]
