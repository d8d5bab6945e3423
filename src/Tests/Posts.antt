-- ===== src/Tests/Posts.antt =====
-- A post input with an override, an exclusion and two attachments, prepared for one account.
use goloom.Strings.{is_blank}
use goloom.Domain.Account.{SocialAccount, AccountAuthType}
use goloom.Domain.Post.{PostStatus, PostSource, CreatePostInput, lookup}
use goloom.Domain.Post.Status.{
  resolve_post_status_on_update, Updated, resolve_post_status_on_update-Updated,
}
use goloom.Domain.Post.Media.{filter_media_ids_for_account, excluded_for}
use goloom.Domain.Post.Media.Laws.{TrimmedOf, filter_media_ids_for_account_iff}
use goloom.Domain.Post.Overrides.{normalize_account_content_override, trim_if, lookup-normalize}
use goloom.Domain.Post.Input.{validate, validate_iff, normalize}
use goloom.Postvalidate.{Env, Report, check}
use goloom.Postvalidate.Laws.{Fits, NotBelow, HasLimit, check-valid, check-max_chars}
use goloom.Postservice.{AccountLoader, resolve_targets}
use goloom.Postservice.Targets.{IsLoader, Resolved, resolve_targets-Resolved}
use goloom.Postservice.Prepare.{Options, Prepared, prepare, IsPrepared, prepare-IsPrepared}
use goloom.Prelude.Result.{Result, ok, err}
use goloom.Prelude.{
  String, ◌≡◌, refl, sym, subst, ◌≢◌, ◌↔◌, ◌⊎◌, inl, inr, Bool, true, false, Option, none, some,
  List, [], ◌∷◌, if◌then◌else◌, eq_nat, eq_text, Bool-cases, is_empty, All, In, contains,
  contains_iff,
}

abbrev account : SocialAccount
account = record {
  id = "a";
  team_id = "team";
  name = "a";
  provider = "bluesky";
  auth_type = AccountAuthType.app_password;
  provider_instance_id = "";
  instance_url = "";
  username = "a";
  remote_account_id = "a";
  avatar_url = "";
  access_token_ciphertext = "";
  refresh_token_ciphertext = "";
  max_chars_override = none;
  access_token_expires_at = none;
  account_metrics_synced_at = none;
  post_engagement_synced_at = none;
  created_at = 0;
}

abbrev overrides : List (String × String)
overrides = ("a", " Hi ") ∷ ("b", "Hello") ∷ []

abbrev exclusions : List (String × List String)
exclusions = ("a", "m2" ∷ []) ∷ []

abbrev pub input : CreatePostInput
input = record {
  title = " Title ";
  content = "Hello";
  scheduled_at = 20;
  target_accounts = "a" ∷ [];
  visibility = "public";
  media_ids = " m1 " ∷ "m2" ∷ [];
  media_exclude_by_account = exclusions;
  draft = false;
  publish_now = false;
  account_content_override = ("a", " Hi ") ∷ [];
  use_versions = false;
  author_user_id = none;
  post_template_id = none;
  template_counter = none;
  template_occurrence_at = none;
  template_post_role = "";
  source = PostSource.scheduled;
  rss_feed_id = none;
  rss_item_key = "";
  ai_job_id = none;
  ai_fallback_reason = none;
}

-- A limit of five graphemes, and text whose length is always two.
abbrev pub env : Env
env = record {
  registered = λ name. true;
  capabilities = λ a. some (record { max_chars = 5; requires_media = true });
  graphemes = λ text. 2;
  mastodon_text = λ text. text;
}

abbrev pub load : AccountLoader
load ids = if contains ids "a" then some (account ∷ []) else some []

pub only_account :
    (ids : List String) (loaded : List SocialAccount) (a : SocialAccount)
    → load ids ≡ some loaded
    → In a loaded
    → In "a" ids × (a ≡ account)
only_account ids loaded a h mem = elim (Bool-cases (contains ids "a")) [
  | inl asked ↦
      let e : ◌≡◌ {A = Option (List SocialAccount)} (some (account ∷ [])) (some loaded) =
        rw asked at h in
      let e' : account ∷ [] ≡ loaded = cc in
      let found : In a (account ∷ []) = subst (λ xs. In a xs) (sym e') mem in
      ((contains_iff ids "a").0 asked, (elim found [ inl same ↦ same | inr rest ↦ elim rest [ ] ]))
  | inr other ↦
      let e : ◌≡◌ {A = Option (List SocialAccount)} (some []) (some loaded) = rw other at h in
      let e' : [] ≡ loaded = cc in
      let found : In a [] = subst (λ xs. In a xs) (sym e') mem in elim found [ ]
]

pub load-IsLoader : IsLoader load
load-IsLoader = record {
  asked_for =
      λ ids loaded h a mem. let (asked, same) = only_account ids loaded a h mem in rw same asked;
  has_team = λ ids loaded h a mem.
      let (_, same) = only_account ids loaded a h mem in rw same (λ empty. cc);
}

abbrev pub or_default : {E A : Type 0} → A → Result E A → A
or_default a (ok b) = b
or_default a (err e) = a

abbrev pub is_ok : {E A : Type 0} → Result E A → Bool
is_ok (ok a) = true
is_ok (err e) = false

pub is_ok-or_default :
    {E A : Type 0} (a : A) (r : Result E A) → is_ok r ≡ true → r ≡ ok (or_default a r)
is_ok-or_default a (ok b) h = refl
is_ok-or_default a (err e) h = cc

abbrev no_report : Report
no_report = record { valid = false; max_chars = 0; content_length = 0; destinations = [] }

abbrev report : Report
report = or_default no_report (check env (account ∷ []) input)

report-is_ok : is_ok (check env (account ∷ []) input) ≡ true
unfolding check goloom.Postvalidate.check_from
report-is_ok = refl

report-checked : check env (account ∷ []) input ≡ ok report
report-checked = is_ok-or_default no_report _ report-is_ok

check-valid_example : (report.valid ≡ true) ↔ All (Fits env input) (account ∷ [])
check-valid_example = check-valid env (account ∷ []) input report report-checked

check-max_chars_example :
    All (NotBelow env input report.max_chars) (account ∷ [])
    × ((report.max_chars ≡ 0)
        ⊎ ((a : SocialAccount) × In a (account ∷ []) × HasLimit env input report.max_chars a))
check-max_chars_example = check-max_chars env (account ∷ []) input report report-checked

targets-resolved : resolve_targets load "team" ("a" ∷ []) ("a" ∷ []) ≡ ok (account ∷ [], "team")
unfolding resolve_targets goloom.Postservice.resolve_loaded goloom.Postservice.scan_targets
    goloom.Postservice.find_account goloom.Postservice.check_overrides
    goloom.Postservice.in_target_order
targets-resolved = refl

resolve_targets-Resolved_example : Resolved "team" ("a" ∷ []) ("a" ∷ []) (account ∷ []) "team"
resolve_targets-Resolved_example =
    resolve_targets-Resolved load "team" ("a" ∷ []) ("a" ∷ []) (account ∷ []) "team" load-IsLoader
      targets-resolved

abbrev options : Options
options = record { check_limits = true; require_team = true; reject_past_scheduled_at = true }

abbrev not_prepared : Prepared
not_prepared = record { input = input; effective_team = ""; validation = no_report }

abbrev prepared : Prepared
prepared = or_default not_prepared (prepare env load 10 "team" input options)

prepared-is_ok : is_ok (prepare env load 10 "team" input options) ≡ true
unfolding prepare is_blank goloom.Postservice.Prepare.validated validate normalize
    goloom.Postservice.Prepare.is_past resolve_targets goloom.Postservice.resolve_loaded
    goloom.Postservice.scan_targets goloom.Postservice.find_account
    goloom.Postservice.check_overrides goloom.Postservice.Prepare.raw_override_keys
    goloom.Postservice.Prepare.limits_checked goloom.Postservice.in_target_order check
    goloom.Postvalidate.check_from
prepared-is_ok = refl

-- At a time after the scheduled one, the same post is refused.
late-refused : is_ok (prepare env load 30 "team" input options) ≡ false
unfolding prepare is_blank goloom.Postservice.Prepare.validated validate normalize
    goloom.Postservice.Prepare.is_past
late-refused = refl

prepare-IsPrepared_example : IsPrepared env 10 "team" input options prepared
prepare-IsPrepared_example =
    prepare-IsPrepared env load 10 "team" input options prepared load-IsLoader
      (is_ok-or_default not_prepared _ prepared-is_ok)

filter_media_ids_for_account_iff_example :
    In "m1" (filter_media_ids_for_account input.media_ids exclusions "a")
    ↔ (TrimmedOf "m1" input.media_ids × ¬ TrimmedOf "m1" (excluded_for exclusions "a"))
filter_media_ids_for_account_iff_example =
    filter_media_ids_for_account_iff input.media_ids exclusions "a" "m1"

overrides-distinct :
    (lookup {A = String} "a" (("b", "Hello") ∷ []) ≡ none) × (lookup {A = String} "b" [] ≡ none)
unfolding lookup
overrides-distinct = (refl, refl)

lookup-normalize_example :
    lookup "a" (normalize_account_content_override overrides ("a" ∷ []))
    ≡ trim_if (contains {A = String} ("a" ∷ []) "a") (lookup "a" overrides)
lookup-normalize_example =
    lookup-normalize overrides ("a" ∷ []) "a" (overrides-distinct.0, (overrides-distinct.1, tt))

scheduled-not_imported : PostSource.scheduled ≢ PostSource.imported
scheduled-not_imported h = cc

resolve_post_status_on_update-Updated_example :
    Updated 10 PostStatus.failed input
      (resolve_post_status_on_update 10 PostStatus.failed PostSource.scheduled input)
resolve_post_status_on_update-Updated_example =
    resolve_post_status_on_update-Updated 10 PostStatus.failed PostSource.scheduled input
      scheduled-not_imported

validate_iff_example : (validate input ≡ none) ↔ (
    (is_blank input.title ≡ false)
    × ((input.draft ≡ true)
        ⊎ ((is_blank input.content ≡ false) × (is_empty input.target_accounts ≡ false))))
validate_iff_example = validate_iff input
