-- ===== src/Publish/Safety/Runs.antt =====
-- A run of a worker (`processPost`) and a poll (`enqueueDuePosts`) keep the invariant.
use goloom.Domain.Post.{PostStatus, ScheduledPost}
use goloom.Postservice.{resolve_targets}
use goloom.Publish.{
  PostState, is_claimable, is_due, mark_post_processing, mark_post_result, load_post_targets,
}
use goloom.Publish.Provider.{World, IsWorld}
use goloom.Publish.Invariant.{is_stuck, IsQuiet, IsSafe, Inv}
use goloom.Publish.Safety.Rounds.{RunKept, publish_accounts-RunKept}
use goloom.Publish.Worker.{fail_post}
use goloom.Publish.Worker.Run.{
  publish_accounts, poll, is_error, version_contents, process_post, conclude, Ending, through, left,
  no_claim,
}
use goloom.Prelude.{
  ℕ, ◌+◌, String, ◌≡◌, refl, subst, inl, inr, true, false, not, ◌&&◌, none, some, [], arith, leb,
  Bool-cases, is_empty, All,
}

-- A state in which no outcome is open.
calm : (s : PostState) → IsSafe s → All IsQuiet s.targets → Inv s
calm s safe quiet = record { safe = safe; quiet = λ _. quiet }

fail_post-Inv :
    (w : World) (now : ℕ) (post : ScheduledPost) (error : String) (s : PostState)
    → IsSafe s
    → All IsQuiet s.targets
    → Inv (fail_post w now post error s)
unfolding fail_post mark_post_result
fail_post-Inv w now post error s safe quiet = elim (Bool-cases (w.result_commits)) [
  | inr lost ↦ rw (lost, fail_post) (calm s safe quiet)
  | inl stored ↦ elim (Bool-cases (leb 5 (post.attempt_count + 1))) [
    | inl final ↦
        rw (stored, final, fail_post)
          (record { safe = record { once = safe.once; rows = safe.rows }; quiet = λ _. quiet })
    | inr again ↦
        rw (stored, again, fail_post)
          (record { safe = record { once = safe.once; rows = safe.rows }; quiet = λ _. quiet })
  ]
]

processing-not_stuck : {s : PostStatus} → is_stuck s ≡ false → s ≡ PostStatus.processing → ⊥
processing-not_stuck {s} unsettled running =
    let h : is_stuck PostStatus.processing ≡ false =
      subst (λ x. is_stuck x ≡ false) running unsettled in
    cc

conclude-Inv :
    (w : World) (now : ℕ) (post : ScheduledPost) (s : PostState) (r : PostState × Ending)
    → s.post.status ≡ PostStatus.processing
    → RunKept s r
    → Inv (conclude w now post r)
unfolding mark_post_result
conclude-Inv w now post s (s', through none) running kept = elim (Bool-cases (w.result_commits)) [
  | inr lost ↦ rw lost (calm s' kept.safe kept.quiet)
  | inl stored ↦ rw stored (record {
    safe = record { once = kept.safe.once; rows = kept.safe.rows };
    quiet = λ _. kept.quiet;
  })
]
conclude-Inv w now post s (s', through (some e)) running kept =
    fail_post-Inv w now post e s' kept.safe kept.quiet
conclude-Inv w now post s (s', no_claim) running kept =
    fail_post-Inv w now post "publication claim unavailable" s' kept.safe kept.quiet
conclude-Inv w now post s (s', left) running kept = record {
  safe = kept.safe;
  quiet = λ unsettled. absurd (
      processing-not_stuck
        (subst (λ (p : ScheduledPost). is_stuck p.status ≡ false) kept.same_post unsettled)
        running);
}

-- A run fails before anything is published, or publishes to the accounts of the targets.
pub process_post-cases :
    (P : PostState → Type 0) (w : World) (now : ℕ) (post : ScheduledPost) (s : PostState)
    → ((error : String) → P (fail_post w now post error s))
    → P (
        conclude w now post (
          publish_accounts w now post
            (version_contents s.versions [])
            (load_post_targets w.accounts s.post.team_id s.targets)
            none
            s))
    → P (process_post w now post s)
unfolding process_post
process_post-cases P w now post s fails publishes =
    elim (Bool-cases
      (is_error (resolve_targets w.load_accounts post.team_id post.target_accounts []))) [
        | inl bad ↦ rw (bad, process_post) (fails "validate targets")
        | inr good ↦ elim (Bool-cases w.targets_query) [
          | inr lost ↦ simp (good, lost, process_post) (fails "load targets")
          | inl loaded ↦
              elim (Bool-cases (
                not (is_empty (load_post_targets w.accounts s.post.team_id s.targets))
                && not w.versions_query)) [
                  | inl lost ↦ simp (good, loaded, lost, process_post) (fails "list post versions")
                  | inr found ↦ simp (good, loaded, found, process_post) publishes
                ]
        ]
      ]

process_post-Inv :
    (w : World) (now : ℕ) (post : ScheduledPost) (s : PostState)
    → IsWorld w
    → IsSafe s
    → All IsQuiet s.targets
    → s.post.status ≡ PostStatus.processing
    → Inv (process_post w now post s)
process_post-Inv w now post s known safe quiet running =
    process_post-cases Inv w now post s (λ error. fail_post-Inv w now post error s safe quiet)
      (conclude-Inv w now post s _ running (
        publish_accounts-RunKept w now post (version_contents s.versions [])
          (load_post_targets w.accounts s.post.team_id s.targets) none s known safe quiet))

pub claimable-not_stuck :
    (status : PostStatus) → is_claimable status ≡ true → is_stuck status ≡ false
claimable-not_stuck status h = ground arith

-- A poll keeps the invariant.
pub poll-Inv : (w : World) (now : ℕ) (s : PostState) → IsWorld w → Inv s → Inv (poll w now s)
unfolding poll is_due mark_post_processing
poll-Inv w now s known inv = elim (Bool-cases (is_due now s)) [
  | inr rest ↦ rw (rest, poll) inv
  | inl due ↦ elim (Bool-cases (is_claimable s.post.status)) [
    | inr lost ↦ rw (due, lost, poll, mark_post_processing) inv
    | inl claimed ↦
        rw (due, claimed, poll, mark_post_processing)
          (process_post-Inv w now s.post _ known
            (record { once = inv.safe.once; rows = inv.safe.rows })
            (inv.quiet (claimable-not_stuck s.post.status claimed)) refl)
  ]
]
