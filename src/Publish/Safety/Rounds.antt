-- ===== src/Publish/Safety/Rounds.antt =====
-- The loop of `processPost` over the accounts keeps what holds of the rows.
use goloom.Domain.Account.{SocialAccount}
use goloom.Domain.Post.{ScheduledPost}
use goloom.Domain.Post.Media.{filter_media_ids_for_account}
use goloom.Publish.{
  Publication, PostState, update_targets, claimable_rows, claim_target,
  claim_post_target_publication,
}
use goloom.Publish.Provider.{
  World, IsWorld, PublishRequest, ensure_mastodon_fresh, ensure_mastodon_fresh-id,
}
use goloom.Publish.Invariant.{
  landed, IsQuiet, IsSafe, claimable-not_landed, claim_rows, send_rows, send_once, may_have_landed,
}
use goloom.Publish.Safety.{InRun, Kept, settle-Kept, after_persist-Kept, refused}
use goloom.Publish.Worker.{
  failure, claim, prepare_publication, Verdict, go_on, leave, claim_unavailable, send,
  publish_claimed, publish_account, publication_event,
}
use goloom.Publish.Worker.Run.{Ending, through, left, no_claim, first_error, publish_accounts}
use goloom.Prelude.Result.{ok, Result-cases, refuse_if, >>=-eq-ok}
use goloom.Prelude.{
  ℕ, String, ◌≡◌, refl, sym, ap, subst, ◌∙◌, inl, inr, false, not, Option, none, some, List, [],
  ◌∷◌, ◌++◌, arith, ◌==◌, eq_nat, eq_text, eq_of_beq, beq_self, Bool-cases, Option-cases, All,
}

-- The account that is used after the preparation is the one that was claimed.
pub prepare_publication-id :
    (w : World) (now : ℕ) (post : ScheduledPost) (versions : List (String × String))
    (account fresh : SocialAccount) (request : PublishRequest)
    → IsWorld w
    → prepare_publication w now post versions account ≡ ok (fresh, request)
    → fresh.id ≡ account.id
unfolding prepare_publication
prepare_publication-id w now post versions account fresh request known h =
    let (_, _, h1) =
      >>=-eq-ok (refuse_if (not (w.registered account.provider)) "unsupported provider") _ h in
    let (f, is_fresh, h2) = >>=-eq-ok (ensure_mastodon_fresh w now account) _ h1 in
    let (_, _, h3) = >>=-eq-ok (w.decrypt_access_token f) _ h2 in
    let (_, _, h4) = >>=-eq-ok (w.decrypt_refresh_token f) _ h3 in
    let (_, _, h5) =
      >>=-eq-ok
        (w.sync_media f
          (filter_media_ids_for_account post.media_ids post.media_exclude_by_account f.id))
        _ h4 in
    let same : f ≡ fresh = cc (h5) in
    ap (λ (a : SocialAccount). a.id) (sym same)
    ∙ ensure_mastodon_fresh-id w now account f known is_fresh

landed_cons_same :
    (p : Publication) (sent : List Publication)
    → may_have_landed p.outcome ≡ false
    → landed p.account_id (p ∷ sent) ≡ landed p.account_id sent
landed_cons_same p sent h = rw (h, beq_self p.account_id) (omega arith)

send-Kept :
    (w : World) (post : ScheduledPost) (fresh : SocialAccount) (request : PublishRequest)
    (s : PostState)
    → InRun fresh.id s
    → landed fresh.id s.sent ≡ 0
    → Kept s (send w post fresh request s)
unfolding send
send-Kept w post fresh request s run zero_so_far =
    let p : Publication = record {
      account_id = fresh.id;
      content = request.content;
      media_ids = request.media_ids;
      outcome = w.publish fresh request;
    } in
    let after =
      settle-Kept w post fresh.id (w.publish fresh request) (record s { sent = p ∷ s.sent })
        (record {
          once = send_once fresh.id p s.sent refl zero_so_far run.once;
          rows = send_rows fresh.id p s.sent s.targets refl run.rows;
        })
        (λ h. landed_cons_same p s.sent h ∙ zero_so_far) in
    record { safe = after.safe; same_post = after.same_post; quiet = after.quiet }

publish_claimed-Kept :
    (w : World) (now : ℕ) (post : ScheduledPost) (versions : List (String × String))
    (account : SocialAccount) (s : PostState)
    → IsWorld w
    → InRun account.id s
    → landed account.id s.sent ≡ 0
    → Kept s (publish_claimed w now post versions account s)
unfolding publish_claimed
publish_claimed-Kept w now post versions account s known run zero_so_far =
    elim (Result-cases (prepare_publication w now post versions account)) [
      | inl (e, failed) ↦
          rw (failed, publish_claimed)
            (after_persist-Kept w post account.id (failure e "preparation_failed") (some e) s run
              (refused w post account.id s e "preparation_failed" zero_so_far) refl)
      | inr ((fresh, request), prepared) ↦
          let same =
            prepare_publication-id w now post versions account fresh request known prepared in
          rw (prepared, publish_claimed)
            (send-Kept w post fresh request s (subst (λ id. InRun id s) (sym same) run)
              (subst (λ id. landed id s.sent ≡ 0) (sym same) zero_so_far))
    ]

-- A claim that was granted.
claim-InRun :
    (w : World) (post : ScheduledPost) (id : String) (s s' : PostState)
    → IsSafe s
    → All IsQuiet s.targets
    → claim w post id s ≡ some (some s')
    → InRun id s' × (landed id s'.sent ≡ 0) × (s'.post ≡ s.post)
unfolding claim claim_post_target_publication
claim-InRun w post id s s' safe quiet h = elim (Bool-cases (w.claim_commits id)) [
  | inr fails ↦ cc (rw (fails, claim) at h)
  | inl commits ↦ elim (Bool-cases (claimable_rows id s.targets == 1)) [
    | inr other ↦ cc (rw (commits, other, claim, claim_post_target_publication) at h)
    | inl one_row ↦
        let same : ◌≡◌ {A = Option (Option PostState)} (some (some _)) (some (some s')) =
          rw (commits, one_row, claim, claim_post_target_publication) at h in
        let e : record (record s { targets = update_targets id claim_target s.targets }) {
          outbox = s.outbox ++ publication_event post id "post.publish_started" "pending" "" ∷ [];
        }
            ≡ s' =
          cc (same) in
        subst (λ (x : PostState). InRun id x × (landed id x.sent ≡ 0) × (x.post ≡ s.post)) e
          (
            record { once = safe.once; rows = claim_rows id s.sent s.targets safe.rows quiet },
            claimable-not_landed id s.sent s.targets safe.rows
                (eq_of_beq (claimable_rows id s.targets) 1 one_row),
            refl,
          )
  ]
]

publish_account-Kept :
    (w : World) (now : ℕ) (post : ScheduledPost) (versions : List (String × String))
    (account : SocialAccount) (s : PostState)
    → IsWorld w
    → IsSafe s
    → All IsQuiet s.targets
    → Kept s (publish_account w now post versions account s)
unfolding publish_account
publish_account-Kept w now post versions account s known safe quiet =
    elim (Option-cases (claim w post account.id s)) [
      | inl failed ↦
          rw (failed, publish_account) (record { safe = safe; same_post = refl; quiet = quiet })
      | inr (none, refused) ↦
          rw (refused, publish_account) (record { safe = safe; same_post = refl; quiet = tt })
      | inr (some s', granted) ↦
          let (run, nothing, same) = claim-InRun w post account.id s s' safe quiet granted in
          let kept = publish_claimed-Kept w now post versions account s' known run nothing in
          rw (granted, publish_account)
            (record { safe = kept.safe; same_post = kept.same_post ∙ same; quiet = kept.quiet })
    ]

abbrev pub QuietUnlessEarly : Ending → PostState → Type 0
QuietUnlessEarly left s = Unit
QuietUnlessEarly (through _) s = All IsQuiet s.targets
QuietUnlessEarly no_claim s = All IsQuiet s.targets

-- What the loop over the accounts leaves behind.
pub record RunKept (s : PostState) (r : PostState × Ending) : Type 0 where
  pub safe : IsSafe r.0
  pub same_post : r.0.post ≡ s.post
  pub quiet : QuietUnlessEarly r.1 r.0

-- The loop goes on from what a round left.
next_round :
    (w : World) (now : ℕ) (post : ScheduledPost) (versions : List (String × String))
    (accounts : List SocialAccount) (error : Option String) (s : PostState)
    → ((e : Option String) (s' : PostState)
        → IsSafe s'
        → All IsQuiet s'.targets
        → RunKept s' (publish_accounts w now post versions accounts e s'))
    → (r : PostState × Verdict) → Kept s r
    → RunKept s (elim (r.1) [
      | go_on new ↦ publish_accounts w now post versions accounts (first_error error new) r.0
      | leave ↦ (r.0, left)
      | claim_unavailable ↦ (r.0, no_claim)
    ])
next_round w now post versions accounts error s loop (s', go_on new) kept =
    let rest = loop (first_error error new) s' kept.safe kept.quiet in
    record { safe = rest.safe; same_post = rest.same_post ∙ kept.same_post; quiet = rest.quiet }
next_round w now post versions accounts error s loop (s', leave) kept = record {
  safe = kept.safe;
  same_post = kept.same_post;
  quiet = tt;
}
next_round w now post versions accounts error s loop (s', claim_unavailable) kept = record {
  safe = kept.safe;
  same_post = kept.same_post;
  quiet = kept.quiet;
}

pub publish_accounts-RunKept :
    (w : World) (now : ℕ) (post : ScheduledPost) (versions : List (String × String))
    (accounts : List SocialAccount) (error : Option String) (s : PostState)
    → IsWorld w
    → IsSafe s
    → All IsQuiet s.targets
    → RunKept s (publish_accounts w now post versions accounts error s)
unfolding publish_accounts
publish_accounts-RunKept w now post versions [] error s known safe quiet = record {
  safe = safe;
  same_post = refl;
  quiet = quiet;
}
publish_accounts-RunKept w now post versions (a ∷ accounts) error s known safe quiet =
    next_round w now post versions accounts error s
      (λ e s' safe' quiet'.
        publish_accounts-RunKept w now post versions accounts e s' known safe' quiet')
      (publish_account w now post versions a s)
      (publish_account-Kept w now post versions a s known safe quiet)
