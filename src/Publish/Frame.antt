-- ===== src/Publish/Frame.antt =====
-- The loop of `processPost` (internal/scheduler) leaves the post's own row to what follows it, and
-- neither adds nor removes a target.
use goloom.Domain.Account.{SocialAccount}
use goloom.Domain.Post.{ScheduledPost}
use goloom.Publish.{
  PublishOutcome, published, rejected, rate_limited, unclear, PostState,
  claim_post_target_publication, claimable_rows, Target, update_targets, claim_target, is_claimable,
  mark_post_target_result,
}
use goloom.Publish.Provider.{World}
use goloom.Publish.Worker.{
  TargetOutcome, failure, uncertain, success, persist_target_outcome, Verdict, go_on, leave,
  claim_unavailable, after_persist, settle, send, claim, prepare_publication, publish_claimed,
  publish_account,
}
use goloom.Publish.Worker.Run.{Ending, left, no_claim, first_error, publish_accounts}
use goloom.Prelude.Result.{Result-cases}
use goloom.Prelude.{
  ℕ, String, ◌≡◌, refl, ap₂, ◌∙◌, inl, inr, Bool, true, false, Option, none, some, List, [], ◌∷◌,
  if-both, ◌==◌, eq_nat, eq_text, Bool-cases,
}

-- The post's row, where a claim was granted.
abbrev OfClaim : (PostState → Type 0) → Option (Option PostState) → Type 0
OfClaim P (some (some s)) = P s
OfClaim P o = Unit

abbrev pub row_ids : List Target → List String
row_ids [] = []
row_ids (t ∷ ts) = t.account_id ∷ row_ids ts

pub row_ids-update_targets :
    (id : String) (f : Target → Target) (ts : List Target)
    → ((t : Target) → (f t).account_id ≡ t.account_id)
    → row_ids (update_targets id f ts) ≡ row_ids ts
unfolding update_targets
row_ids-update_targets id f [] keeps = refl
row_ids-update_targets id f (t ∷ ts) keeps =
    ap₂ (λ x xs. x ∷ xs)
      (if-both (λ (u : Target). u.account_id ≡ t.account_id) (t.account_id == id) (keeps t) refl)
      (row_ids-update_targets id f ts keeps)

-- The same row of the post, and the same targets.
abbrev pub Framed : PostState → PostState → Type 0
Framed s s' = (s'.post ≡ s.post) × (row_ids s'.targets ≡ row_ids s.targets)

abbrev OfRound : PostState → PostState × Verdict → Type 0
OfRound s r = Framed s r.0

abbrev OfEnd : PostState → PostState × Ending → Type 0
OfEnd s r = Framed s r.0

claim_target-id : (t : Target) → (claim_target t).account_id ≡ t.account_id
unfolding claim_target
claim_target-id t =
    if-both (λ (u : Target). u.account_id ≡ t.account_id) (is_claimable t.status) refl refl

pub Framed-trans : (s s' s'' : PostState) → Framed s s' → Framed s' s'' → Framed s s''
Framed-trans s s' s'' (p, r) (p', r') = (p' ∙ p, r' ∙ r)

after_persist-Framed :
    (error : Option String) (r : PostState × Bool) (s : PostState)
    → Framed s r.0
    → Framed s (after_persist error r).0
after_persist-Framed error (s', true) s e = e
after_persist-Framed error (s', false) s e = e

module _ (w : World) (now : ℕ) (post : ScheduledPost) where
  persist-Framed :
      (id : String) (o : TargetOutcome) (s : PostState)
      → Framed s (persist_target_outcome w post id o s).0
  unfolding persist_target_outcome mark_post_target_result
  persist-Framed id o s =
      if-both (λ (r : PostState × Bool). Framed s r.0) (w.outcome_commits id)
        (refl, row_ids-update_targets id _ s.targets (λ t. refl)) (refl, refl)

  settle-Framed :
      (id : String) (outcome : PublishOutcome) (s : PostState)
      → Framed s (settle w post id outcome s).0
  unfolding settle
  settle-Framed id (published url metadata remote_id) s =
      after_persist-Framed none _ s (persist-Framed id (success url metadata remote_id) s)
  settle-Framed id (rejected e) s =
      after_persist-Framed (some e) _ s (persist-Framed id (failure e "provider_rejected") s)
  settle-Framed id (rate_limited e) s =
      after_persist-Framed (some e) _ s (persist-Framed id (failure e "provider_rejected") s)
  settle-Framed id (unclear e) s = persist-Framed id uncertain s

  publish_claimed-Framed :
      (versions : List (String × String)) (account : SocialAccount) (s : PostState)
      → Framed s (publish_claimed w now post versions account s).0
  unfolding publish_claimed send
  publish_claimed-Framed versions account s =
      elim (Result-cases (prepare_publication w now post versions account)) [
        | inl (e, failed) ↦
            rw (failed, publish_claimed)
              (after_persist-Framed (some e) _ s
                (persist-Framed account.id (failure e "preparation_failed") s))
        | inr ((fresh, request), prepared) ↦
            rw (prepared, publish_claimed) (settle-Framed fresh.id (w.publish fresh request) _)
      ]

  claim-Framed : (id : String) (s : PostState) → OfClaim (λ s'. Framed s s') (claim w post id s)
  unfolding claim claim_post_target_publication
  claim-Framed id s = elim (Bool-cases (w.claim_commits id)) [
    | inr fails ↦ rw (fails, claim) tt
    | inl commits ↦ elim (Bool-cases (claimable_rows id s.targets == 1)) [
      | inl one_row ↦
          rw (commits, one_row, claim, claim_post_target_publication)
            (refl, row_ids-update_targets id claim_target s.targets (claim_target-id))
      | inr other ↦ rw (commits, other, claim, claim_post_target_publication) tt
    ]
  ]

  publish_account-Framed :
      (versions : List (String × String)) (account : SocialAccount) (s : PostState)
      → Framed s (publish_account w now post versions account s).0
  unfolding publish_account
  publish_account-Framed versions account s =
      elim (claim w post account.id s)
          as (λ c.
            OfClaim (λ s'. Framed s s') c
            → OfRound s (elim c [
              | none ↦ (s, claim_unavailable)
              | some none ↦ (s, leave)
              | some (some s') ↦ publish_claimed w now post versions account s'
            ])) [
              | none ↦ λ _. (refl, refl)
              | some none ↦ λ _. (refl, refl)
              | some (some s') ↦ λ e.
                  Framed-trans s s' (publish_claimed w now post versions account s').0 e
                    (publish_claimed-Framed versions account s')
            ]
        (claim-Framed account.id s)

  -- The loop goes on from what a round left.
  next_round-Framed :
      (versions : List (String × String)) (accounts : List SocialAccount) (error : Option String)
      (s : PostState) (r : PostState × Verdict)
      → Framed s r.0
      → ((e : Option String) → OfEnd r.0 (publish_accounts w now post versions accounts e r.0))
      → OfEnd s (elim (r.1) [
        | go_on new ↦ publish_accounts w now post versions accounts (first_error error new) r.0
        | leave ↦ (r.0, left)
        | claim_unavailable ↦ (r.0, no_claim)
      ])
  next_round-Framed versions accounts error s (s', go_on new) e loop =
      Framed-trans s s' (publish_accounts w now post versions accounts (first_error error new) s').0
        e (loop (first_error error new))
  next_round-Framed versions accounts error s (s', leave) e loop = e
  next_round-Framed versions accounts error s (s', claim_unavailable) e loop = e

  -- Whatever the rounds come to, and whatever the rows of the targets hold.
  pub publish_accounts-Framed :
      (versions : List (String × String)) (accounts : List SocialAccount) (error : Option String)
      (s : PostState)
      → Framed s (publish_accounts w now post versions accounts error s).0
  unfolding publish_accounts
  publish_accounts-Framed versions [] error s = (refl, refl)
  publish_accounts-Framed versions (a ∷ accounts) error s =
      next_round-Framed versions accounts error s (publish_account w now post versions a s)
        (publish_account-Framed versions a s) (λ e. publish_accounts-Framed versions accounts e _)
