-- ===== src/Postservice/Prepare.antt =====
-- `Service.Prepare`: normalize, check the shape and the time, resolve the targets, check the limits.
use goloom.Strings.{is_blank}
use goloom.Domain.Account.{SocialAccount}
use goloom.Domain.Post.{CreatePostInput}
use goloom.Domain.Post.Input.{normalize, validate}
use goloom.Postvalidate.{Env, Report, check}
use goloom.Postvalidate.Laws.{Fits, check-valid}
use goloom.Postservice.{
  PrepareError, shape, check_failed, team_required, past_scheduled_at, AccountLoader,
  resolve_targets,
}
use goloom.Postservice.Targets.{IsLoader, Resolved, resolve_targets-Resolved}
use goloom.Prelude.Result.{
  ◌>>=◌, ◌>>◌, refuse_if-ok, >>=-eq-ok, Result, ok, err, refuse_if, Result-cases,
}
use goloom.Prelude.{
  ℕ, ◌<◌, String, ◌≡◌, refl, subst, inl, inr, Bool, true, false, not, ◌&&◌, none, some, List, [],
  ◌∷◌, arith, ltb, if◌then◌else◌, is_empty, All,
}

pub record Options : Type 0 where
  pub check_limits : Bool
  pub require_team : Bool
  pub reject_past_scheduled_at : Bool

pub record Prepared : Type 0 where
  pub input : CreatePostInput
  pub effective_team : String
  pub validation : Report

-- The keys of the overrides that are not blank, as the caller supplied them.
unfoldable pub raw_override_keys : List (String × String) → List String
raw_override_keys [] = []
raw_override_keys ((id, content) ∷ over) =
    if is_blank content then raw_override_keys over else id ∷ raw_override_keys over

abbrev no_report : Report
no_report = record { valid = true; max_chars = 0; content_length = 0; destinations = [] }

unfoldable pub validated : CreatePostInput → Result PrepareError (Unit {0})
validated input = elim (validate input) [ none ↦ ok tt | some e ↦ err (shape e) ]

unfoldable pub limits_checked :
    Env → Options → List SocialAccount → CreatePostInput → Result PrepareError Report
limits_checked env opts accounts input =
    if opts.check_limits && not (is_empty accounts)
    then (elim (check env accounts input) [ ok report ↦ ok report | err e ↦ err (check_failed e) ])
    else ok no_report

unfoldable pub is_past : Options → ℕ → CreatePostInput → Bool
is_past opts now input =
    opts.reject_past_scheduled_at
    && not input.draft
    && not input.publish_now
    && not (ltb now input.scheduled_at)

-- `now` is what `time.Now()` returns.
unfoldable pub prepare :
    Env → AccountLoader → ℕ → String → CreatePostInput → Options → Result PrepareError Prepared
prepare env load now team_id raw opts = do
  refuse_if (opts.require_team && is_blank team_id) team_required
  validated (normalize raw)
  refuse_if (is_past opts now (normalize raw)) past_scheduled_at
  resolved ←
      resolve_targets load team_id (normalize raw).target_accounts
        (raw_override_keys raw.account_content_override)
  report ← limits_checked env opts resolved.0 (normalize raw)
  ok (record { input = normalize raw; effective_team = resolved.1; validation = report })

-- What a prepared post has been through.
pub record IsPrepared (env : Env) (now : ℕ) (team_id : String) (raw : CreatePostInput)
    (opts : Options) (p : Prepared) : Type 0 where
  pub accounts : List SocialAccount
  pub team_given : opts.require_team ≡ true → is_blank team_id ≡ false
  pub normalized : p.input ≡ normalize raw
  pub has_shape : validate p.input ≡ none
  pub in_future :
      opts.reject_past_scheduled_at ≡ true
      → p.input.draft ≡ false
      → p.input.publish_now ≡ false
      → now < p.input.scheduled_at
  pub resolved :
      Resolved team_id p.input.target_accounts
        (raw_override_keys raw.account_content_override)
        accounts
        p.effective_team
  pub within_limits :
      opts.check_limits ≡ true → p.validation.valid ≡ true → All (Fits env p.input) accounts

validated-ok :
    (input : CreatePostInput) {u : Unit {0}} → validated input ≡ ok u → validate input ≡ none
unfolding validated
validated-ok input h = ground arith

limits_checked-ok :
    (env : Env) (opts : Options) (accounts : List SocialAccount) (input : CreatePostInput)
    (report : Report)
    → limits_checked env opts accounts input ≡ ok report
    → opts.check_limits ≡ true
    → report.valid ≡ true
    → All (Fits env input) accounts
unfolding limits_checked
limits_checked-ok env opts [] input report h c v = tt
limits_checked-ok env opts (a ∷ accounts) input report h c v =
    elim (Result-cases (check env (a ∷ accounts) input)) [
      | inl (e, failed) ↦ cc (rw (c, failed, limits_checked) at h)
      | inr (found, checked) ↦
          let e : ◌≡◌ {A = Result PrepareError Report} (ok found) (ok report) =
            rw (c, checked, limits_checked) at h in
          let same : found ≡ report = cc in
          (check-valid env (a ∷ accounts) input report (rw (same) at checked)).0 v
    ]

abbrev prepared : CreatePostInput → String → Report → Prepared
prepared input team report = record { input = input; effective_team = team; validation = report }

in_future_of :
    (opts : Options) (now : ℕ) (input : CreatePostInput)
    → is_past opts now input ≡ false
    → opts.reject_past_scheduled_at ≡ true
    → input.draft ≡ false
    → input.publish_now ≡ false
    → now < input.scheduled_at
unfolding is_past
in_future_of opts now input h a b c = ground arith

assemble :
    (env : Env) (load : AccountLoader) (now : ℕ) (team_id : String) (raw : CreatePostInput)
    (opts : Options) (p : Prepared) (accounts : List SocialAccount) (team : String)
    (report : Report) {u v w : Unit {0}}
    → IsLoader load
    → refuse_if (opts.require_team && is_blank team_id) team_required ≡ ok u
    → validated (normalize raw) ≡ ok v
    → refuse_if (is_past opts now (normalize raw)) past_scheduled_at ≡ ok w
    → resolve_targets load team_id
        (normalize raw).target_accounts
        (raw_override_keys raw.account_content_override)
      ≡ ok (accounts, team)
    → limits_checked env opts accounts (normalize raw) ≡ ok report
    → prepared (normalize raw) team report ≡ p
    → IsPrepared env now team_id raw opts p
assemble env load now team_id raw opts p accounts team report l given shaped timely resolved checked
      same =
    subst (IsPrepared env now team_id raw opts) same (record {
      accounts = accounts;
      team_given =
          ground (arith, refuse_if-ok (opts.require_team && is_blank team_id) team_required given);
      normalized = refl;
      has_shape = validated-ok (normalize raw) shaped;
      in_future =
          in_future_of opts now (normalize raw)
            (refuse_if-ok (is_past opts now (normalize raw)) past_scheduled_at timely);
      resolved = resolve_targets-Resolved load team_id _ _ accounts team l resolved;
      within_limits = limits_checked-ok env opts accounts (normalize raw) report checked;
    })

ok_inj : {p q : Prepared} → ◌≡◌ {A = Result PrepareError Prepared} (ok p) (ok q) → p ≡ q
ok_inj h = cc

-- A post that `Prepare` lets through is normalized, has the required shape, lies in the future where
-- past times are rejected (drafts and publish-now excepted), has targets of one team, the requested
-- one if there is one, all overrides on targets, and, where limits are checked and the
-- report is valid, fits every destination.
pub prepare-IsPrepared :
    (env : Env) (load : AccountLoader) (now : ℕ) (team_id : String) (raw : CreatePostInput)
    (opts : Options) (p : Prepared)
    → IsLoader load
    → prepare env load now team_id raw opts ≡ ok p
    → IsPrepared env now team_id raw opts p
unfolding prepare
prepare-IsPrepared env load now team_id raw opts p l h =
    let input = normalize raw in
    let keys = raw_override_keys raw.account_content_override in
    let (_, team_given, h₁) =
      >>=-eq-ok (refuse_if (opts.require_team && is_blank team_id) team_required) _ h in
    let (_, shaped, h₂) = >>=-eq-ok (validated input) _ h₁ in
    let (_, timely, h₃) = >>=-eq-ok (refuse_if (is_past opts now input) past_scheduled_at) _ h₂ in
    let ((accounts, team), resolved, h₄) =
      >>=-eq-ok (resolve_targets load team_id input.target_accounts keys) _ h₃ in
    let (report, checked, h₅) = >>=-eq-ok (limits_checked env opts accounts input) _ h₄ in
    assemble env load now team_id raw opts p accounts team report l team_given shaped timely
      resolved checked (ok_inj h₅)
