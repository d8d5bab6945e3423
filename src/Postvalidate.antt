-- ===== src/Postvalidate.antt =====
-- internal/postvalidate/postvalidate.go: content and media limits of each destination.
pub mod Laws
use Prim.Native.String.{compare}
use Prim.Native.Nat.{Ordering}
use goloom.Strings.{trim_space, lower_is, is_blank}
use goloom.Domain.Account.{SocialAccount}
use goloom.Domain.Post.{CreatePostInput, lookup}
use goloom.Domain.Post.Media.{filter_media_ids_for_account}
use goloom.Domain.Post.Overrides.{effective_content}
use goloom.Prelude.Result.{Result, ok, err}
use goloom.Prelude.{
  ℕ, String, Bool, true, false, not, ◌&&◌, ◌||◌, Option, none, some, List, [], ◌∷◌, ◌++◌, ltb, leb,
  if◌then◌else◌, ◌==◌, eq_nat, eq_text, is_empty,
}

pub record Destination : Type 0 where
  pub account_id : String
  pub provider : String
  pub username : String
  pub max_chars : ℕ
  pub text_length : ℕ
  pub valid : Bool
  pub requires_media : Bool
  pub missing_media : Bool

pub record Report : Type 0 where
  pub valid : Bool
  pub max_chars : ℕ
  pub content_length : ℕ
  pub destinations : List Destination

pub data CheckError : Type 0 where
  unsupported_provider capabilities_failed : String → CheckError

-- internal/provider: `Capabilities`, without its list of media types.
pub record Capabilities : Type 0 where
  pub max_chars : ℕ
  pub requires_media : Bool

-- What the validation is handed: the provider registry (whether a provider is registered, and its
-- `Capabilities` call, `none` on error), the grapheme count of github.com/rivo/uniseg, and
-- the rewriting of links and mentions by Mastodon's two patterns (package regexp).
pub record Env : Type 0 where
  pub registered : String → Bool
  pub capabilities : SocialAccount → Option Capabilities
  pub graphemes : String → ℕ
  pub mastodon_text : String → String

-- internal/textcount: `ProviderLength`.
unfoldable pub provider_length : Env → String → String → ℕ
provider_length env provider content =
    if lower_is (trim_space provider) "mastodon"
    then env.graphemes (env.mastodon_text content)
    else env.graphemes content

-- `maxChars` after a destination with this limit.
unfoldable pub lower_limit : ℕ → ℕ → ℕ
lower_limit limit best = if ltb 0 limit && (best == 0 || ltb limit best) then limit else best

-- `slices.SortFunc` by account id.
insert_sorted : Destination → List Destination → List Destination
insert_sorted d [] = d ∷ []
insert_sorted d (e ∷ ds) = elim (compare e.account_id d.account_id) [
  | Ordering.gt ↦ d ∷ e ∷ ds
  | _ ↦ e ∷ insert_sorted d ds
]

unfoldable pub sort_destinations : List Destination → List Destination
unfolding insert_sorted
sort_destinations [] = []
sort_destinations (d ∷ ds) = insert_sorted d (sort_destinations ds)

-- One round of the loop of `Check`.
unfoldable pub check_account : Env → CreatePostInput → SocialAccount → Capabilities → Destination
check_account env input account caps =
    let content_len = provider_length env account.provider (effective_content input account.id) in
    let missing =
      caps.requires_media
      && is_empty (
          filter_media_ids_for_account input.media_ids input.media_exclude_by_account account.id) in
    record {
      account_id = account.id;
      provider = account.provider;
      username = account.username;
      max_chars = caps.max_chars;
      text_length = content_len;
      valid = (caps.max_chars == 0 || leb content_len caps.max_chars) && not missing;
      requires_media = caps.requires_media;
      missing_media = missing;
    }

-- The loop of `Check`, with the destinations, the limit and the verdict so far.
unfoldable pub check_from :
    Env
    → CreatePostInput
    → List SocialAccount
    → List Destination
    → ℕ
    → Bool
    → Result CheckError Report
check_from env input [] destinations max_chars all_valid = ok (record {
  valid = all_valid;
  max_chars = max_chars;
  content_length = env.graphemes input.content;
  destinations = sort_destinations destinations;
})
check_from env input (a ∷ accounts) destinations max_chars all_valid =
    if not (env.registered a.provider)
    then err (unsupported_provider a.id)
    else elim (env.capabilities a) [
      | none ↦ err (capabilities_failed a.id)
      | some caps ↦
          let d = check_account env input a caps in
          check_from env input accounts (destinations ++ d ∷ [])
            (lower_limit caps.max_chars max_chars) (all_valid && d.valid)
    ]

unfoldable pub check : Env → List SocialAccount → CreatePostInput → Result CheckError Report
check env accounts input = check_from env input accounts [] 0 true

pub record AccountLimit : Type 0 where
  pub account_id : String
  pub username : String
  pub provider : String
  pub max_chars : ℕ

abbrev override_or : String → Option String → String
override_or content none = content
override_or content (some over) = if is_blank over then content else over

-- One round of the loop of `CheckLimits`.
unfoldable pub check_limit : Env → String → List (String × String) → AccountLimit → Destination
check_limit env content overrides l =
    let content_len =
      provider_length env l.provider (override_or content (lookup l.account_id overrides)) in
    record {
      account_id = l.account_id;
      provider = l.provider;
      username = l.username;
      max_chars = l.max_chars;
      text_length = content_len;
      valid = l.max_chars == 0 || leb content_len l.max_chars;
      requires_media = false;
      missing_media = false;
    }

unfoldable pub check_limits_from :
    Env → String → List (String × String) → List AccountLimit → List Destination → ℕ → Bool → Report
check_limits_from env content overrides [] destinations max_chars all_valid = record {
  valid = all_valid;
  max_chars = max_chars;
  content_length = env.graphemes content;
  destinations = sort_destinations destinations;
}
check_limits_from env content overrides (l ∷ limits) destinations max_chars all_valid =
    let d = check_limit env content overrides l in
    check_limits_from env content overrides limits (destinations ++ d ∷ [])
      (lower_limit l.max_chars max_chars) (all_valid && d.valid)

unfoldable pub check_limits : Env → String → List (String × String) → List AccountLimit → Report
check_limits env content overrides limits = check_limits_from env content overrides limits [] 0 true
