-- ===== src/Publish/Delivery.antt =====
-- When nothing fails, a due post is posted.
use goloom.Domain.Account.{SocialAccount}
use goloom.Domain.Post.{PostStatus, ScheduledPost}
use goloom.Postservice.{resolve_targets}
use goloom.Publish.{
  Target, published, PostState, update_targets, claimable_rows, claim_target,
  claim_post_target_publication, mark_post_target_result, mark_post_processing, mark_post_result,
  load_post_targets, is_claimable, is_due,
}
use goloom.Publish.Provider.{World, IsWorld, PublishRequest}
use goloom.Publish.Worker.{
  persist_target_outcome, success, TargetOutcome, Verdict, go_on, after_persist, settle, send,
  publish_claimed, publish_account, claim, prepare_publication, publication_event,
}
use goloom.Publish.Worker.Run.{
  Ending, through, publish_accounts, version_contents, conclude, is_error, process_post, poll,
}
use goloom.Publish.Safety.Rounds.{prepare_publication-id}
use goloom.Prelude.Result.{ok}
use goloom.Prelude.{
  ℕ, String, ◌≡◌, refl, sym, ◌∙◌, ◌≢◌, inl, inr, Bool, true, false, ◌&&◌, none, some, List, [], ◌∷◌,
  ◌++◌, arith, ◌==◌, eq_nat, eq_text, eq_of_beq, beq_of_ne, Bool-cases, All,
}

-- An update of one account's rows leaves the claims of the others.
claimable_rows-update_targets :
    (id other : String) (f : Target → Target) (ts : List Target)
    → ((t : Target) → (f t).account_id ≡ t.account_id)
    → other ≢ id
    → claimable_rows other (update_targets id f ts) ≡ claimable_rows other ts
unfolding claimable_rows update_targets
claimable_rows-update_targets id other f [] keeps ne = refl
claimable_rows-update_targets id other f (t ∷ ts) keeps ne =
    let rest = claimable_rows-update_targets id other f ts keeps ne in
    elim (Bool-cases (t.account_id == id)) [
      | inr no_row ↦ rw (no_row, rest) refl
      | inl row ↦
          let same = eq_of_beq t.account_id id row in
          let not_other : (t.account_id == other) ≡ false =
            beq_of_ne t.account_id other (λ e. ne (sym e ∙ same)) in
          let not_other' : ((f t).account_id == other) ≡ false = rw (keeps t) not_other in
          rw (row, not_other, not_other', rest) refl
    ]

claim_target-account_id : (t : Target) → (claim_target t).account_id ≡ t.account_id
unfolding claim_target
claim_target-account_id t = elim (Bool-cases (is_claimable t.status)) [
  | inl yes_claim ↦ rw yes_claim refl
  | inr kept ↦ rw kept refl
]

-- A round that went through.
record Delivered (id : String) (s : PostState) (r : PostState × Verdict) : Type 0 where
  passed : r.1 ≡ go_on none
  same_post : r.0.post ≡ s.post
  others :
      (other : String)
      → other ≢ id
      → claimable_rows other r.0.targets ≡ claimable_rows other s.targets

-- The transactions commit, and the preparation and the call succeed for an account.
pub record IsWorking (w : World) : Type 0 where
  pub claims : (id : String) → w.claim_commits id ≡ true
  pub outcomes : (id : String) → w.outcome_commits id ≡ true
  pub results : w.result_commits ≡ true
  pub targets : w.targets_query ≡ true
  pub versions : w.versions_query ≡ true

pub record Accepted (w : World) (now : ℕ) (post : ScheduledPost) (versions : List (String × String))
    (account : SocialAccount) : Type 0 where
  pub fresh : SocialAccount
  pub request : PublishRequest
  pub url : String
  pub metadata : List (String × String)
  pub remote_id : String
  pub prepared : prepare_publication w now post versions account ≡ ok (fresh, request)
  pub accepted : w.publish fresh request ≡ published url metadata remote_id

-- Every account has one row that can be claimed, and none stands there twice.
abbrev pub Claimable : List SocialAccount → List Target → Type 0
Claimable [] ts = Unit
Claimable (a ∷ accounts) ts =
    (claimable_rows a.id ts ≡ 1) × All (λ b. b.id ≢ a.id) accounts × Claimable accounts ts

Claimable-later :
    (id : String) (accounts : List SocialAccount) (ts ts' : List Target)
    → ((other : String) → other ≢ id → claimable_rows other ts' ≡ claimable_rows other ts)
    → All (λ b. b.id ≢ id) accounts
    → Claimable accounts ts
    → Claimable accounts ts'
Claimable-later id [] ts ts' others apart rows = tt
Claimable-later id (a ∷ accounts) ts ts' others apart (row, distinct, rows) =
    (others a.id apart.0 ∙ row, distinct, Claimable-later id accounts ts ts' others apart.1 rows)

module _ (w : World) (now : ℕ) (post : ScheduledPost) (versions : List (String × String))
    (known : IsWorld w) (works : IsWorking w) where
  persist-Delivered :
      (id : String) (o : TargetOutcome) (s : PostState)
      → Delivered id s (after_persist none (persist_target_outcome w post id o s))
  unfolding persist_target_outcome mark_post_target_result
  persist-Delivered id o s = rw (works.outcomes id) (record {
    passed = refl;
    same_post = refl;
    others = λ other ne. claimable_rows-update_targets id other _ s.targets (λ t. refl) ne;
  })

  send-Delivered :
      (fresh : SocialAccount) (request : PublishRequest) (url remote_id : String)
      (metadata : List (String × String)) (s : PostState)
      → w.publish fresh request ≡ published url metadata remote_id
      → Delivered fresh.id s (send w post fresh request s)
  unfolding send settle
  send-Delivered fresh request url remote_id metadata s accepted =
      rw (accepted, send, settle)
        (let d = persist-Delivered fresh.id (success url metadata remote_id) (record s {
          sent =
              record {
                account_id = fresh.id;
                content = request.content;
                media_ids = request.media_ids;
                outcome = published url metadata remote_id;
              }
              ∷ s.sent;
        }) in
          record { passed = d.passed; same_post = d.same_post; others = d.others })

  claimed_state : String → PostState → PostState
  claimed_state id s = record s {
    targets = update_targets id claim_target s.targets;
    outbox = s.outbox ++ publication_event post id "post.publish_started" "pending" "" ∷ [];
  }

  claim-granted :
      (id : String) (s : PostState)
      → claimable_rows id s.targets ≡ 1
      → claim w post id s ≡ some (some (claimed_state id s))
  unfolding claim claim_post_target_publication claimed_state
  claim-granted id s one_row = simp (works.claims id, one_row) refl

  publish_account-Delivered :
      (account : SocialAccount) (s : PostState)
      → Accepted w now post versions account
      → claimable_rows account.id s.targets ≡ 1
      → Delivered account.id s (publish_account w now post versions account s)
  unfolding publish_account publish_claimed claimed_state
  publish_account-Delivered account s a one_row =
      let same =
        prepare_publication-id w now post versions account a.fresh a.request known a.prepared in
      let d =
        send-Delivered a.fresh a.request a.url a.remote_id a.metadata (claimed_state account.id s)
          a.accepted in
      rw (claim-granted account.id s one_row, publish_account)
        (rw (a.prepared, publish_claimed)
          (record {
            passed = d.passed;
            same_post = d.same_post;
            others = λ other ne.
                d.others other (λ e. ne (e ∙ same))
                ∙ claimable_rows-update_targets account.id other claim_target s.targets
                    claim_target-account_id ne;
          }))

  publish_accounts-through :
      (accounts : List SocialAccount) (s : PostState)
      → All (Accepted w now post versions) accounts
      → Claimable accounts s.targets
      → ((publish_accounts w now post versions accounts none s).1 ≡ through none)
        × ((publish_accounts w now post versions accounts none s).0.post ≡ s.post)
  unfolding publish_accounts
  publish_accounts-through [] s accepted rows = (refl, refl)
  publish_accounts-through (a ∷ accounts) s (here, later) (row, distinct, rows) =
      let d = publish_account-Delivered a s here row in
      let s' = (publish_account w now post versions a s).0 in
      let (passed, same) =
        publish_accounts-through accounts s' later
          (Claimable-later a.id accounts s.targets s'.targets d.others distinct rows) in
      rw (d.passed, publish_accounts) (passed, same ∙ d.same_post)

-- What a run needs to go through: the targets resolve, each account that is loaded has one row that
-- can be claimed and appears once, and the preparation and the call succeed for it.
pub record IsDeliverable (w : World) (now : ℕ) (s : PostState) : Type 0 where
  pub resolves :
      is_error (resolve_targets w.load_accounts s.post.team_id s.post.target_accounts []) ≡ false
  pub accepted :
      All
        (Accepted w now s.post (version_contents s.versions []))
        (load_post_targets w.accounts s.post.team_id s.targets)
  pub rows : Claimable (load_post_targets w.accounts s.post.team_id s.targets) s.targets

and_false : (b : Bool) → (b && false) ≡ false
and_false true = refl
and_false false = refl

conclude-posted :
    (w : World) (now : ℕ) (post : ScheduledPost) (r : PostState × Ending)
    → w.result_commits ≡ true
    → r.1 ≡ through none
    → (conclude w now post r).post.status ≡ PostStatus.posted
unfolding mark_post_result
conclude-posted w now post (s, ending) stored e = rw e (simp stored refl)

-- When every transaction commits, the targets resolve, and the preparation and the call of Publish
-- succeed for every account that is loaded, each having one claimable row, the run of a due post
-- leaves it posted.
pub poll-posted :
    (w : World) (now : ℕ) (s : PostState)
    → IsWorld w
    → IsWorking w
    → is_due now s ≡ true
    → IsDeliverable w now s
    → (poll w now s).post.status ≡ PostStatus.posted
unfolding poll process_post is_due mark_post_processing
poll-posted w now s known works due d =
    let s' = record s {
      post = record s.post { status = PostStatus.processing; updated_at = now };
    } in
    let done =
      publish_accounts-through w now s.post (version_contents s.versions []) known works
        (load_post_targets w.accounts s.post.team_id s.targets) s' d.accepted d.rows in
    elim (Bool-cases (is_claimable s.post.status)) [
      | inr lost ↦ absurd (ground arith)
      | inl claimed ↦
          rw (due, claimed, poll, mark_post_processing)
            (simp (d.resolves, works.targets, works.versions, and_false, process_post)
              (conclude-posted w now s.post _ works.results done.0))
    ]
