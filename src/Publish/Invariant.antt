-- ===== src/Publish/Invariant.antt =====
-- No account gets a post twice: what holds of the rows and of the calls of `Publish` between runs.
use goloom.Domain.Post.{PostStatus}
use goloom.Publish.{
  Target, PublishOutcome, published, rejected, rate_limited, unclear, Publication, PostState,
  is_claimable, update_targets, claimable_rows, claim_target,
}
use goloom.Prelude.{
  ℕ, ◌+◌, ◌≤◌, String, ◌≡◌, refl, sym, subst, ◌∙◌, ◌≢◌, inl, inr, Bool, true, false, ◌&&◌, List, [],
  ◌∷◌, arith, if◌then◌else◌, ◌==◌, eq_nat, eq_text, eq_of_beq, ne_of_beq, beq_of_ne, and_iff,
  Bool-cases, All,
}

-- The post may be on the network after this call: it was accepted, or nobody knows.
abbrev pub may_have_landed : PublishOutcome → Bool
may_have_landed (published _ _ _) = true
may_have_landed (rejected _) = false
may_have_landed (rate_limited _) = false
may_have_landed (unclear _) = true

-- How many calls for this account may have put the post on the network.
abbrev pub landed : String → List Publication → ℕ
landed account_id [] = 0
landed account_id (p ∷ sent) =
    (if p.account_id == account_id && may_have_landed p.outcome then 1 else 0)
    + landed account_id sent

-- The statuses that the code gives a target.
abbrev pub is_target_status : PostStatus → Bool
is_target_status PostStatus.cancelled = false
is_target_status PostStatus.draft = false
is_target_status _ = true

-- Posted, or with an open outcome.
abbrev pub is_held : PostStatus → Bool
is_held PostStatus.posted = true
is_held PostStatus.processing = true
is_held _ = false

abbrev pub is_processing : PostStatus → Bool
is_processing PostStatus.processing = true
is_processing _ = false

abbrev pub TargetOk : List Publication → Target → Type 0
TargetOk sent t =
    (is_target_status t.status ≡ true) × (1 ≤ landed t.account_id sent → is_held t.status ≡ true)

abbrev pub IsQuiet : Target → Type 0
IsQuiet t = is_processing t.status ≡ false

-- What holds also where a run was left early.
pub record IsSafe (s : PostState) : Type 0 where
  pub once : (account_id : String) → landed account_id s.sent ≤ 1
  pub rows : All (TargetOk s.sent) s.targets

-- Nothing publishes a post with this status, and no operator retries it.
abbrev pub is_stuck : PostStatus → Bool
is_stuck PostStatus.processing = true
is_stuck PostStatus.cancelled = true
is_stuck _ = false

-- What holds between runs: a target's outcome is open only while the post is stuck.
pub record Inv (s : PostState) : Type 0 where
  pub safe : IsSafe s
  pub quiet : is_stuck s.post.status ≡ false → All IsQuiet s.targets

claimable-not_held : (status : PostStatus) → is_claimable status ≡ true → is_held status ≡ false
claimable-not_held status h = ground arith

not_landed :
    (id : String) (sent : List Publication) (t : Target)
    → TargetOk sent t
    → t.account_id ≡ id
    → is_claimable t.status ≡ true
    → landed id sent ≡ 0
not_landed id sent t (_, held) e claimable =
    let held' : 1 ≤ landed id sent → is_held t.status ≡ true =
      subst (λ a. 1 ≤ landed a sent → is_held t.status ≡ true) e held in
    ground (arith, held', claimable-not_held t.status)

-- An account whose target can be claimed has received nothing.
pub claimable-not_landed :
    (id : String) (sent : List Publication) (ts : List Target)
    → All (TargetOk sent) ts
    → claimable_rows id ts ≡ 1
    → landed id sent ≡ 0
unfolding claimable_rows
claimable-not_landed id sent [] rows h = absurd (omega arith)
claimable-not_landed id sent (t ∷ ts) rows h =
    elim (Bool-cases (t.account_id == id && is_claimable t.status)) [
      | inl here ↦
          let both = (and_iff (t.account_id == id) (is_claimable t.status)).0 here in
          not_landed id sent t rows.0 (eq_of_beq t.account_id id both.0) both.1
      | inr not_here ↦ claimable-not_landed id sent ts rows.1 (ground arith)
    ]

-- A row while the target of the account `id` is being published.
abbrev pub InFlight : String → List Publication → Target → Type 0
InFlight id sent t =
    TargetOk sent t
    × (t.account_id ≡ id → is_held t.status ≡ true)
    × (t.account_id ≢ id → IsQuiet t)

claim-held :
    (status : PostStatus)
    → is_target_status status ≡ true
    → is_claimable status ≡ false
    → is_held status ≡ true
claim-held status h c = ground arith

claimed :
    (id : String) (sent : List Publication) (t : Target)
    → TargetOk sent t
    → t.account_id ≡ id
    → InFlight id sent (claim_target t)
unfolding claim_target
claimed id sent t good same = elim (Bool-cases (is_claimable t.status)) [
  | inl claimable ↦ rw claimable ((refl, λ _. refl), (λ _. refl), λ ne. absurd (ne same))
  | inr kept ↦ rw kept (good, (λ _. claim-held t.status good.0 kept), λ ne. absurd (ne same))
]

claim_row :
    (id : String) (sent : List Publication) (t : Target)
    → TargetOk sent t
    → IsQuiet t
    → InFlight id sent (if t.account_id == id then claim_target t else t)
claim_row id sent t good quiet = elim (Bool-cases (t.account_id == id)) [
  | inl same ↦ rw same (claimed id sent t good (eq_of_beq t.account_id id same))
  | inr other ↦ rw other (good, (λ e. absurd (ne_of_beq t.account_id id other e)), λ _. quiet)
]

pub claim_rows :
    (id : String) (sent : List Publication) (ts : List Target)
    → All (TargetOk sent) ts
    → All IsQuiet ts
    → All (InFlight id sent) (update_targets id claim_target ts)
unfolding update_targets
claim_rows id sent [] good quiet = tt
claim_rows id sent (t ∷ ts) good quiet =
    (claim_row id sent t good.0 quiet.0, claim_rows id sent ts good.1 quiet.1)

landed_cons_other :
    (a : String) (p : Publication) (sent : List Publication)
    → p.account_id ≢ a
    → landed a (p ∷ sent) ≡ landed a sent
landed_cons_other a p sent ne = rw (beq_of_ne p.account_id a ne) (omega arith)

-- A call for the account in flight changes nothing for the rows.
pub send_rows :
    (id : String) (p : Publication) (sent : List Publication) (ts : List Target)
    → p.account_id ≡ id
    → All (InFlight id sent) ts
    → All (InFlight id (p ∷ sent)) ts
send_rows id p sent [] e rows = tt
send_rows id p sent (t ∷ ts) e ((good, held, quiet), rows) = (
  (
    (
      good.0,
      λ l. elim (Bool-cases (t.account_id == id)) [
        | inl same ↦ held (eq_of_beq t.account_id id same)
        | inr other ↦ good.1 (
            subst (λ n. 1 ≤ n)
              (landed_cons_other t.account_id p sent
                (λ q. ne_of_beq t.account_id id other (sym q ∙ e)))
              l)
      ],
    ),
    held,
    quiet,
  ),
  send_rows id p sent ts e rows,
)

-- A call for an account that has received nothing keeps `once`.
pub send_once :
    (id : String) (p : Publication) (sent : List Publication)
    → p.account_id ≡ id
    → landed id sent ≡ 0
    → ((a : String) → landed a sent ≤ 1)
    → (a : String) → landed a (p ∷ sent) ≤ 1
send_once id p sent e zero_so_far once a = elim (Bool-cases (p.account_id == a)) [
  | inl same ↦
      let none_yet : landed a sent ≡ 0 =
        subst (λ x. landed x sent ≡ 0) (sym e ∙ eq_of_beq p.account_id a same) zero_so_far in
      ground arith
  | inr other ↦
      subst (λ n. n ≤ 1) (sym (landed_cons_other a p sent (ne_of_beq p.account_id a other)))
        (once a)
]

-- The outcome written to the rows of the account in flight: with a status that is no open one,
-- and that is posted if the account may have received the post, all rows are quiet again.
module _ (id : String) (sent : List Publication) (f : Target → Target) (status : PostStatus)
    (writes : (t : Target) → ((f t).status ≡ status) × ((f t).account_id ≡ t.account_id))
    (known : is_target_status status ≡ true)
    (marks : 1 ≤ landed id sent → is_held status ≡ true) where
  written : (t : Target) → t.account_id ≡ id → TargetOk sent (f t)
  written t same = (
    rw ((writes t).0) known,
    λ l. rw ((writes t).0) (marks (subst (λ a. 1 ≤ landed a sent) ((writes t).1 ∙ same) l)),
  )

  pub outcome_ok :
      (ts : List Target) → All (InFlight id sent) ts → All (TargetOk sent) (update_targets id f ts)
  unfolding update_targets
  outcome_ok [] rows = tt
  outcome_ok (t ∷ ts) ((good, held, quiet), rows) = (
    elim (Bool-cases (t.account_id == id)) [
      | inl same ↦ rw same (written t (eq_of_beq t.account_id id same))
      | inr other ↦ rw other good
    ],
    outcome_ok ts rows,
  )

  pub outcome-IsQuiet :
      is_processing status ≡ false
      → (ts : List Target) → All (InFlight id sent) ts
      → All IsQuiet (update_targets id f ts)
  unfolding update_targets
  outcome-IsQuiet closed [] rows = tt
  outcome-IsQuiet closed (t ∷ ts) ((good, held, quiet), rows) = (
    elim (Bool-cases (t.account_id == id)) [
      | inl same ↦ rw same (rw ((writes t).0) closed)
      | inr other ↦ rw other (quiet (ne_of_beq t.account_id id other))
    ],
    outcome-IsQuiet closed ts rows,
  )

pub InFlight-ok :
    (id : String) (sent : List Publication) (ts : List Target)
    → All (InFlight id sent) ts
    → All (TargetOk sent) ts
InFlight-ok id sent [] rows = tt
InFlight-ok id sent (t ∷ ts) rows = (rows.0.0, InFlight-ok id sent ts rows.1)
