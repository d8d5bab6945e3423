-- ===== src/Publish/Sent.antt =====
-- The accounts that a run (internal/scheduler) calls `Publish` for.
use goloom.Domain.Account.{SocialAccount}
use goloom.Domain.Post.{ScheduledPost, PostStatus}
use goloom.Publish.{
  is_posted, PublishOutcome, published, rejected, rate_limited, unclear, Publication, PostState,
  Target, claim_post_target_publication, claimable_rows, mark_post_target_result, mark_post_result,
  mark_post_processing, load_post_targets, find_in_team, is_due, is_claimable,
}
use goloom.Publish.Provider.{World, IsWorld}
use goloom.Publish.Worker.{
  TargetOutcome, failure, uncertain, success, persist_target_outcome, Verdict, go_on, leave,
  claim_unavailable, after_persist, settle, send, claim, prepare_publication, publish_claimed,
  publish_account, fail_post,
}
use goloom.Publish.Worker.Run.{
  Ending, through, left, no_claim, first_error, publish_accounts, conclude, poll, version_contents,
}
use goloom.Publish.Safety.Rounds.{prepare_publication-id}
use goloom.Publish.Safety.Runs.{process_post-cases}
use goloom.Publish.Frame.{row_ids}
use goloom.Prelude.Result.{Result-cases}
use goloom.Prelude.{
  ℕ, String, ◌≡◌, sym, subst, inl, inr, Bool, true, false, not, ◌&&◌, Option, none, some, List, [],
  ◌∷◌, if-both, ◌==◌, eq_nat, eq_text, eq_of_beq, and_iff, Bool-cases, Option-cases, All,
}

module _ (P : String → Type 0) where
  -- Every call was for an account with the property.
  abbrev pub SentTo : PostState → Type 0
  SentTo s = All (λ (p : Publication). P p.account_id) s.sent

  abbrev OfRound : PostState × Verdict → Type 0
  OfRound r = SentTo r.0

  abbrev OfEnd : PostState × Ending → Type 0
  OfEnd r = SentTo r.0

  abbrev OfClaim : Option (Option PostState) → Type 0
  OfClaim (some (some s)) = SentTo s
  OfClaim o = Unit

  after_persist-SentTo :
      (error : Option String) (r : PostState × Bool) → SentTo r.0 → SentTo (after_persist error r).0
  after_persist-SentTo error (s, true) old = old
  after_persist-SentTo error (s, false) old = old

  module _ (w : World) (now : ℕ) (post : ScheduledPost) where
    persist-SentTo :
        (id : String) (o : TargetOutcome) (s : PostState)
        → SentTo s
        → SentTo (persist_target_outcome w post id o s).0
    unfolding persist_target_outcome mark_post_target_result
    persist-SentTo id o s old =
        if-both (λ (r : PostState × Bool). SentTo r.0) (w.outcome_commits id) old old

    settle-SentTo :
        (id : String) (outcome : PublishOutcome) (s : PostState)
        → SentTo s
        → SentTo (settle w post id outcome s).0
    unfolding settle
    settle-SentTo id (published url metadata remote_id) s old =
        after_persist-SentTo none _ (persist-SentTo id (success url metadata remote_id) s old)
    settle-SentTo id (rejected e) s old =
        after_persist-SentTo (some e) _ (persist-SentTo id (failure e "provider_rejected") s old)
    settle-SentTo id (rate_limited e) s old =
        after_persist-SentTo (some e) _ (persist-SentTo id (failure e "provider_rejected") s old)
    settle-SentTo id (unclear e) s old = persist-SentTo id uncertain s old

    publish_claimed-SentTo :
        (versions : List (String × String)) (account : SocialAccount) (s : PostState)
        → IsWorld w
        → P account.id
        → SentTo s
        → SentTo (publish_claimed w now post versions account s).0
    unfolding publish_claimed send
    publish_claimed-SentTo versions account s known own old =
        elim (Result-cases (prepare_publication w now post versions account)) [
          | inl (e, failed) ↦
              rw (failed, publish_claimed)
                (after_persist-SentTo (some e) _
                  (persist-SentTo account.id (failure e "preparation_failed") s old))
          | inr ((fresh, request), prepared) ↦
              let same =
                prepare_publication-id w now post versions account fresh request known prepared in
              rw (prepared, publish_claimed)
                (settle-SentTo fresh.id (w.publish fresh request) _ (subst P (sym same) own, old))
        ]

    claim-SentTo : (id : String) (s : PostState) → SentTo s → OfClaim (claim w post id s)
    unfolding claim claim_post_target_publication
    claim-SentTo id s old = elim (Bool-cases (w.claim_commits id)) [
      | inr fails ↦ rw (fails, claim) tt
      | inl commits ↦ elim (Bool-cases (claimable_rows id s.targets == 1)) [
        | inl one_row ↦ rw (commits, one_row, claim, claim_post_target_publication) old
        | inr other ↦ rw (commits, other, claim, claim_post_target_publication) tt
      ]
    ]

    publish_account-SentTo :
        (versions : List (String × String)) (account : SocialAccount) (s : PostState)
        → IsWorld w
        → P account.id
        → SentTo s
        → SentTo (publish_account w now post versions account s).0
    unfolding publish_account
    publish_account-SentTo versions account s known own old =
        elim (claim w post account.id s)
            as (λ c.
              OfClaim c
              → OfRound (elim c [
                | none ↦ (s, claim_unavailable)
                | some none ↦ (s, leave)
                | some (some s') ↦ publish_claimed w now post versions account s'
              ])) [
                | none ↦ λ _. old
                | some none ↦ λ _. old
                | some (some s') ↦ λ kept. publish_claimed-SentTo versions account s' known own kept
              ]
          (claim-SentTo account.id s old)

    next_round-SentTo :
        (versions : List (String × String)) (accounts : List SocialAccount) (error : Option String)
        (r : PostState × Verdict)
        → SentTo r.0
        → ((e : Option String) → OfEnd (publish_accounts w now post versions accounts e r.0))
        → OfEnd (elim (r.1) [
          | go_on new ↦ publish_accounts w now post versions accounts (first_error error new) r.0
          | leave ↦ (r.0, left)
          | claim_unavailable ↦ (r.0, no_claim)
        ])
    next_round-SentTo versions accounts error (s, go_on new) old loop = loop (first_error error new)
    next_round-SentTo versions accounts error (s, leave) old loop = old
    next_round-SentTo versions accounts error (s, claim_unavailable) old loop = old

    publish_accounts-SentTo :
        (versions : List (String × String)) (accounts : List SocialAccount) (error : Option String)
        (s : PostState)
        → IsWorld w
        → All (λ (a : SocialAccount). P a.id) accounts
        → SentTo s
        → SentTo (publish_accounts w now post versions accounts error s).0
    unfolding publish_accounts
    publish_accounts-SentTo versions [] error s known own old = old
    publish_accounts-SentTo versions (a ∷ accounts) error s known own old =
        let kept = publish_account-SentTo versions a s known own.0 old in
        next_round-SentTo versions accounts error (publish_account w now post versions a s) kept
          (λ e. publish_accounts-SentTo versions accounts e _ known own.1 kept)

    fail_post-SentTo :
        (error : String) (s : PostState) → SentTo s → SentTo (fail_post w now post error s)
    unfolding fail_post mark_post_result
    fail_post-SentTo error s old =
        if-both SentTo (not w.result_commits) old (if-both SentTo _ old old)

    conclude-SentTo : (r : PostState × Ending) → SentTo r.0 → SentTo (conclude w now post r)
    unfolding mark_post_result
    conclude-SentTo (s, through none) old = if-both SentTo w.result_commits old old
    conclude-SentTo (s, through (some e)) old = fail_post-SentTo e s old
    conclude-SentTo (s, no_claim) old = fail_post-SentTo _ s old
    conclude-SentTo (s, left) old = old

  find_in_team-id :
      (id team_id : String) (accounts : List SocialAccount) (a : SocialAccount)
      → find_in_team id team_id accounts ≡ some a
      → a.id ≡ id
  unfolding find_in_team
  find_in_team-id id team_id [] a h = absurd cc
  find_in_team-id id team_id (b ∷ accounts) a h =
      elim (Bool-cases (b.id == id && b.team_id == team_id)) [
        | inl here ↦
            let e : some b ≡ some a = rw here at h in
            let same : b ≡ a = cc in
            subst (λ (x : SocialAccount). x.id ≡ id) same
              (eq_of_beq b.id id ((and_iff (b.id == id) (b.team_id == team_id)).0 here).0)
        | inr later ↦ find_in_team-id id team_id accounts a (rw later at h)
      ]

  -- The accounts that are loaded are those of targets.
  load_post_targets-All :
      (accounts : List SocialAccount) (team_id : String) (ts : List Target)
      → All P (row_ids ts)
      → All (λ (a : SocialAccount). P a.id) (load_post_targets accounts team_id ts)
  unfolding load_post_targets
  load_post_targets-All accounts team_id [] own = tt
  load_post_targets-All accounts team_id (t ∷ ts) own =
      let rest = load_post_targets-All accounts team_id ts own.1 in
      elim (Option-cases (find_in_team t.account_id team_id accounts)) [
        | inl nothing ↦ rw (nothing, load_post_targets) rest
        | inr (a, found) ↦ elim (Bool-cases (is_posted t.status)) [
          | inl posted ↦ simp (found, posted, load_post_targets) rest
          | inr other ↦
              simp (found, other, load_post_targets)
                (subst P (sym (find_in_team-id t.account_id team_id accounts a found)) own.0, rest)
        ]
      ]

  -- A run calls `Publish` only for accounts of the targets that the post has.
  pub poll-SentTo :
      (w : World) (now : ℕ) (s : PostState)
      → IsWorld w
      → All P (row_ids s.targets)
      → SentTo s
      → SentTo (poll w now s)
  unfolding poll mark_post_processing
  poll-SentTo w now s known own old = elim (Bool-cases (is_due now s)) [
    | inr rest ↦ rw (rest, poll) old
    | inl due ↦ elim (Bool-cases (is_claimable s.post.status)) [
      | inr lost ↦ simp (due, lost, poll, mark_post_processing) old
      | inl claimed ↦
          let s' : PostState = record s {
            post = record s.post { status = PostStatus.processing; updated_at = now };
          } in
          let accounts : List SocialAccount =
            load_post_targets w.accounts s.post.team_id s.targets in
          simp (due, claimed, poll, mark_post_processing)
            (process_post-cases SentTo w now s.post s'
              (λ error. fail_post-SentTo w now s.post error s' old)
              (conclude-SentTo w now s.post _ (
                publish_accounts-SentTo w now s.post (version_contents s.versions []) accounts none
                  s' known (load_post_targets-All w.accounts s.post.team_id s.targets own) old)))
    ]
  ]
