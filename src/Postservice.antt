-- ===== src/Postservice.antt =====
-- internal/postservice/postservice.go: the pipeline of every interactive post create or update.
pub mod Targets
pub mod Prepare
pub mod Teams
use goloom.Domain.Account.{SocialAccount}
use goloom.Domain.Post.Input.{ShapeError}
use goloom.Postvalidate.{CheckError}
use goloom.Prelude.Result.{Result, ok, err}
use goloom.Prelude.{
  String, not, Option, none, some, List, [], ◌∷◌, ◌++◌, if◌then◌else◌, ◌==◌, eq_nat, eq_text,
}

pub data PrepareError : Type 0 where
  team_required past_scheduled_at load_failed targets_span_teams : PrepareError
  shape : ShapeError → PrepareError
  override_not_target : String → PrepareError
  not_in_team : String → String → PrepareError
  unknown_targets : List String → PrepareError
  check_failed : CheckError → PrepareError

-- The store's `GetAccountsByIDsGlobal`; `none` is its error.
abbrev pub AccountLoader : Type 0
AccountLoader = List String → Option (List SocialAccount)

-- `byID[id]`, for the map filled from the loaded accounts: a later account replaces an earlier.
unfoldable pub find_account : String → List SocialAccount → Option SocialAccount
find_account id [] = none
find_account id (a ∷ loaded) = elim (find_account id loaded) [
  | none ↦ if a.id == id then some a else none
  | some later ↦ some later
]

-- The loop over the targets: the team found so far and the ids that are missing so far.
unfoldable pub scan_targets :
    List SocialAccount
    → String
    → List String
    → String
    → List String
    → Result PrepareError (String × List String)
scan_targets loaded team_id [] effective missing = ok (effective, missing)
scan_targets loaded team_id (id ∷ targets) effective missing = elim (find_account id loaded) [
  | none ↦ scan_targets loaded team_id targets effective (missing ++ id ∷ [])
  | some account ↦
      if effective == ""
      then scan_targets loaded team_id targets account.team_id missing
      else if not (account.team_id == effective)
      then (if not (team_id == "") then err (not_in_team id team_id) else err targets_span_teams)
      else scan_targets loaded team_id targets effective missing
]

-- The loop over the override keys.
unfoldable pub check_overrides : List SocialAccount → List String → Result PrepareError (Unit {0})
check_overrides loaded [] = ok tt
check_overrides loaded (key ∷ keys) = elim (find_account key loaded) [
  | none ↦ err (override_not_target key)
  | some account ↦ check_overrides loaded keys
]

-- The accounts in target order. Only targets that were found come here.
unfoldable pub in_target_order : List SocialAccount → List String → List SocialAccount
in_target_order loaded [] = []
in_target_order loaded (id ∷ targets) = elim (find_account id loaded) [
  | none ↦ in_target_order loaded targets
  | some account ↦ account ∷ in_target_order loaded targets
]

-- `scan_targets` onwards, once the accounts are loaded.
unfoldable pub resolve_loaded :
    String
    → List String
    → List String
    → List SocialAccount
    → Result PrepareError (List SocialAccount × String)
resolve_loaded team_id targets override_keys loaded =
    elim (scan_targets loaded team_id targets team_id []) [
      | err e ↦ err e
      | ok (effective, x ∷ missing) ↦ err (unknown_targets (x ∷ missing))
      | ok (effective, []) ↦ elim (check_overrides loaded override_keys) [
        | err e ↦ err e
        | ok _ ↦ ok (in_target_order loaded targets, effective)
      ]
    ]

-- `ResolveTargets`.
unfoldable pub resolve_targets :
    AccountLoader
    → String
    → List String
    → List String
    → Result PrepareError (List SocialAccount × String)
resolve_targets load team_id [] [] = ok ([], team_id)
resolve_targets load team_id [] (key ∷ keys) = err (override_not_target key)
resolve_targets load team_id (id ∷ targets) override_keys = elim (load (id ∷ targets)) [
  | none ↦ err load_failed
  | some loaded ↦ resolve_loaded team_id (id ∷ targets) override_keys loaded
]
