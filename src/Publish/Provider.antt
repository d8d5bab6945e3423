-- ===== src/Publish/Provider.antt =====
-- What a worker meets outside the post's rows: queries and transactions that may fail, token
-- decryption, and the social network's client. Refreshing a Mastodon token
-- (internal/socialtokens) is modelled on top.
use goloom.Domain.Account.{SocialAccount}
use goloom.Publish.{PublishOutcome}
use goloom.Postservice.{AccountLoader}
use goloom.Prelude.Result.{Result, ok, err, Result-cases}
use goloom.Prelude.{
  ℕ, ◌+◌, String, ◌≡◌, ap, inl, inr, Bool, true, not, ◌||◌, Option, none, some, List, arith, ltb,
  if◌then◌else◌, ◌==◌, eq_nat, eq_text, Bool-cases,
}

pub record PublishRequest : Type 0 where
  pub content : String
  pub media_ids : List String
  pub visibility : String

-- One run of a worker sees one value of this record. Errors are their texts.
pub record World : Type 0 where
  pub accounts : List SocialAccount  -- the table social_accounts
  pub load_accounts : AccountLoader  -- GetAccountsByIDsGlobal
  pub targets_query : Bool  -- LoadPostTargets succeeds
  pub versions_query : Bool  -- ListPostVersionsForTeamPost succeeds
  pub claim_commits : String → Bool  -- the claim's transaction, by account id
  pub outcome_commits : String → Bool  -- the outcome's transaction, by account id
  pub result_commits : Bool  -- MarkPostResult succeeds
  pub registered : String → Bool  -- providers.Get, by provider
  pub can_refresh : String → Bool  -- the provider is an OAuthTokenRefresher
  pub decrypt_access_token : SocialAccount → Result String String
  pub decrypt_refresh_token : SocialAccount → Result String String
  pub client_secret : String → Result String String  -- GetProviderInstanceByID, then decryption
  pub refresh_tokens : SocialAccount → String → String → Result String (Unit {0})
  pub get_account : String → Result String SocialAccount  -- GetAccountByID
  pub sync_media : SocialAccount → List String → Result String (List String)
  pub expand : String → String  -- ExpandDynamicVariables at the time of the run
  pub publish : SocialAccount → PublishRequest → PublishOutcome

-- `GetAccountByID` returns the account that was asked for.
abbrev pub IsWorld : World → Type 0
IsWorld w = (id : String) (a : SocialAccount) → w.get_account id ≡ ok a → a.id ≡ id

abbrev expires_later : ℕ → Option ℕ → Bool
expires_later now none = true
expires_later now (some t) = ltb (now + 120_000_000_000) t

-- `EnsureMastodonFresh` from the decrypted refresh token on: refresh, store, read again.
unfoldable pub refresh_and_reload :
    World → SocialAccount → String → String → Result String SocialAccount
refresh_and_reload w account secret plain =
    if secret == "" then ok account else elim (w.refresh_tokens account secret plain) [
      | err e ↦ err e
      | ok _ ↦ w.get_account account.id
    ]

-- `EnsureMastodonFresh`.
unfoldable pub ensure_mastodon_fresh : World → ℕ → SocialAccount → Result String SocialAccount
ensure_mastodon_fresh w now account =
    if not (account.provider == "mastodon")
      || account.provider_instance_id == ""
      || expires_later now account.access_token_expires_at
    then ok account
    else elim (w.decrypt_refresh_token account) [
      | err _ ↦ ok account
      | ok plain ↦
          if plain == ""
            || not (w.registered account.provider)
            || not (w.can_refresh account.provider)
          then ok account
          else elim (w.client_secret account.provider_instance_id) [
            | err e ↦ err e
            | ok secret ↦ refresh_and_reload w account secret plain
          ]
    ]

refresh_and_reload-id :
    (w : World) (account : SocialAccount) (secret plain : String) (a : SocialAccount)
    → IsWorld w
    → refresh_and_reload w account secret plain ≡ ok a
    → a.id ≡ account.id
unfolding refresh_and_reload
refresh_and_reload-id w account secret plain a known h = ground (arith, known account.id a)

same_id :
    (account a : SocialAccount)
    → ◌≡◌ {A = Result String SocialAccount} (ok account) (ok a)
    → a.id ≡ account.id
same_id account a h = let e : a ≡ account = cc in ap (λ (x : SocialAccount). x.id) e

-- Refreshing the tokens gives the same account.
pub ensure_mastodon_fresh-id :
    (w : World) (now : ℕ) (account a : SocialAccount)
    → IsWorld w
    → ensure_mastodon_fresh w now account ≡ ok a
    → a.id ≡ account.id
unfolding ensure_mastodon_fresh
ensure_mastodon_fresh-id w now account a known h =
    elim (Bool-cases (
      not (account.provider == "mastodon")
      || account.provider_instance_id == ""
      || expires_later now account.access_token_expires_at)) [
        | inl early ↦ same_id account a (rw (early, ensure_mastodon_fresh) at h)
        | inr late ↦ elim (Result-cases (w.decrypt_refresh_token account)) [
          | inl (e, failed) ↦ same_id account a (rw (late, failed, ensure_mastodon_fresh) at h)
          | inr (plain, token) ↦
              elim (Bool-cases (
                plain == ""
                || not (w.registered account.provider)
                || not (w.can_refresh account.provider))) [
                  | inl unable ↦
                      same_id account a (rw (late, token, unable, ensure_mastodon_fresh) at h)
                  | inr able ↦ elim (Result-cases (w.client_secret account.provider_instance_id)) [
                    | inl (e, failed) ↦
                        cc (rw (late, token, able, failed, ensure_mastodon_fresh) at h)
                    | inr (secret, found) ↦
                        refresh_and_reload-id w account secret plain a known
                          (rw (late, token, able, found, ensure_mastodon_fresh) at h)
                  ]
                ]
        ]
      ]
