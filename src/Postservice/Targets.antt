-- ===== src/Postservice/Targets.antt =====
-- What `ResolveTargets` has established when it succeeds, and when it does succeed.
use mathlib.Core.Path.{subst, subst₂, ap₂}
use goloom.Domain.Account.{SocialAccount}
use goloom.Postservice.{
  Result, PrepareError, resolve_targets, resolve_loaded, AccountLoader, find_account, scan_targets,
  check_overrides, in_target_order,
}
use goloom.Prelude.Result.{Result-cases, ok}
use goloom.Prelude.{
  String, ◌≡◌, refl, sym, ap, ◌∙◌, ◌≢◌, inl, inr, none, some, List, [], ◌∷◌, ◌++◌, ◌==◌, eq_nat,
  eq_text, eq_of_beq, ne_of_beq, Bool-cases, Option-cases, All, In,
}

abbrev pub ids_of : List SocialAccount → List String
ids_of [] = []
ids_of (a ∷ accounts) = a.id ∷ ids_of accounts

pub find_account_sound :
    (id : String) (loaded : List SocialAccount) {a : SocialAccount}
    → find_account id loaded ≡ some a
    → (a.id ≡ id) × In a loaded
unfolding find_account
find_account_sound id [] h = cc
find_account_sound id (b ∷ loaded) {a} h = elim (Option-cases (find_account id loaded)) [
  | inl nothing ↦ elim (Bool-cases (b.id == id)) [
    | inl same ↦
        let e : some b ≡ some a = rw (nothing, same) at h in
        let e' : b ≡ a = cc in ((rw (← e') (eq_of_beq b.id id same)), inl (sym e'))
    | inr other ↦ let e : none ≡ some a = rw (nothing, other) at h in cc
  ]
  | inr (c, later) ↦
      let e : some c ≡ some a = rw later at h in
      let e' : c ≡ a = cc in
      let (same, mem) = find_account_sound id loaded later in
      (rw (← e') same, inr (subst (λ x. In x loaded) e' mem))
]

module _ (loaded : List SocialAccount) (team_id : String) where
  -- The target was loaded, in that team.
  abbrev Found : String → String → Type 0
  Found team id = (a : SocialAccount) × (find_account id loaded ≡ some a) × (a.team_id ≡ team)

  record Scanned (targets : List String) (effective : String) (missing : List String)
      (team : String) : Type 0 where
    none_missing : missing ≡ []
    keeps : effective ≢ "" → team ≡ effective
    found : All (Found team) targets

  concat-ne-nil : (xs : List String) (x : String) → (xs ++ x ∷ []) ≢ []
  concat-ne-nil [] x h = cc
  concat-ne-nil (y ∷ xs) x h = cc

  module _ (named : (a : SocialAccount) → In a loaded → a.team_id ≢ "") where
    Scanned-first :
        {id : String} {targets missing : List String} {team : String} (a : SocialAccount)
        (effective : String)
        → find_account id loaded ≡ some a
        → effective ≡ ""
        → Scanned targets a.team_id missing team
        → Scanned (id ∷ targets) effective missing team
    Scanned-first {id} a effective found first s = record {
      none_missing = s.none_missing;
      keeps = λ ne. absurd (ne first);
      found = ((a, found, sym (s.keeps (named a (find_account_sound id loaded found).1))), s.found);
    }

    Scanned-later :
        {id : String} {targets missing : List String} {team : String} (a : SocialAccount)
        (effective : String)
        → find_account id loaded ≡ some a
        → effective ≢ ""
        → a.team_id ≡ effective
        → Scanned targets effective missing team
        → Scanned (id ∷ targets) effective missing team
    Scanned-later a effective found later same s = record {
      none_missing = s.none_missing;
      keeps = s.keeps;
      found = ((a, found, same ∙ sym (s.keeps later)), s.found);
    }

    scan_targets-Scanned :
        (targets : List String) (effective : String) (missing : List String) (team : String)
        → scan_targets loaded team_id targets effective missing ≡ ok (team, [])
        → Scanned targets effective missing team
    unfolding scan_targets
    scan_targets-Scanned [] effective missing team h = record {
      none_missing = cc;
      keeps = λ _. cc;
      found = tt;
    }
    scan_targets-Scanned (id ∷ targets) effective missing team h =
        elim (Option-cases (find_account id loaded)) [
          | inl nothing ↦ absurd (
              concat-ne-nil missing id
                (scan_targets-Scanned targets effective (missing ++ id ∷ []) team
                  (rw (nothing, scan_targets) at h)).none_missing)
          | inr (a, found) ↦ elim (Bool-cases (effective == "")) [
            | inl first ↦ Scanned-first a effective found (eq_of_beq effective "" first) (
                scan_targets-Scanned targets a.team_id missing team
                  (rw (found, first, scan_targets) at h))
            | inr later ↦ elim (Bool-cases (a.team_id == effective)) [
              | inl same ↦
                  Scanned-later a effective found (ne_of_beq effective "" later)
                    (eq_of_beq a.team_id effective same)
                    (scan_targets-Scanned targets effective missing team
                      (rw (found, later, same, scan_targets) at h))
              | inr other ↦ elim (Bool-cases (team_id == "")) [
                | inl any_team ↦ cc (rw (found, later, other, any_team, scan_targets) at h)
                | inr asked ↦ cc (rw (found, later, other, asked, scan_targets) at h)
              ]
            ]
          ]
        ]

  in_target_order_step :
      (id : String) (targets : List String) {a : SocialAccount}
      → find_account id loaded ≡ some a
      → in_target_order loaded (id ∷ targets) ≡ a ∷ in_target_order loaded targets
  unfolding in_target_order
  in_target_order_step id targets found = rw (found, in_target_order)

  in_target_order-Found :
      (team : String) (targets : List String)
      → All (Found team) targets
      → (ids_of (in_target_order loaded targets) ≡ targets)
        × All (λ a. a.team_id ≡ team) (in_target_order loaded targets)
  in_target_order-Found team [] f = unfold in_target_order in (refl, tt)
  in_target_order-Found team (id ∷ targets) ((a, found, same), f) =
      let (ids, teams) = in_target_order-Found team targets f in
      rw (in_target_order_step id targets found)
        (ap₂ (λ x y. x ∷ y) (find_account_sound id loaded found).0 ids, (same, teams))

  check_overrides_sound :
      (keys : List String) {u : Unit {0}}
      → check_overrides loaded keys ≡ ok u
      → All (λ key. (a : SocialAccount) × In a loaded × (a.id ≡ key)) keys
  unfolding check_overrides
  check_overrides_sound [] h = tt
  check_overrides_sound (key ∷ keys) h = elim (Option-cases (find_account key loaded)) [
    | inl nothing ↦ cc (rw (nothing, check_overrides) at h)
    | inr (a, found) ↦
        let (same, mem) = find_account_sound key loaded found in
        ((a, mem, same), check_overrides_sound keys (rw (found, check_overrides) at h))
  ]

-- What a successful call has established, the loaded accounts being those asked for.
pub record Resolved (team_id : String) (targets override_keys : List String)
    (accounts : List SocialAccount) (team : String) : Type 0 where
  pub in_order : ids_of accounts ≡ targets
  pub one_team : All (λ a. a.team_id ≡ team) accounts
  pub requested : team_id ≢ "" → team ≡ team_id
  pub overrides_targeted : All (λ key. In key targets) override_keys

-- What the SQL of `GetAccountsByIDsGlobal` promises: only accounts that were asked for, each in a
-- team (the column is a foreign key).
pub record IsLoader (load : AccountLoader) : Type 0 where
  pub asked_for :
      (ids : List String) (loaded : List SocialAccount)
      → load ids ≡ some loaded
      → (a : SocialAccount) → In a loaded
      → In a.id ids
  pub has_team :
      (ids : List String) (loaded : List SocialAccount)
      → load ids ≡ some loaded
      → (a : SocialAccount) → In a loaded
      → a.team_id ≢ ""

keys_targeted :
    (loaded : List SocialAccount) (targets keys : List String)
    → ((a : SocialAccount) → In a loaded → In a.id targets)
    → All (λ key. (a : SocialAccount) × In a loaded × (a.id ≡ key)) keys
    → All (λ key. In key targets) keys
keys_targeted loaded targets [] asked h = tt
keys_targeted loaded targets (key ∷ keys) asked ((a, mem, same), h) =
    (subst (λ k. In k targets) same (asked a mem), keys_targeted loaded targets keys asked h)

resolve_loaded-Resolved :
    (team_id : String) (targets keys : List String) (loaded accounts : List SocialAccount)
    (team : String)
    → ((a : SocialAccount) → In a loaded → In a.id targets)
    → ((a : SocialAccount) → In a loaded → a.team_id ≢ "")
    → resolve_loaded team_id targets keys loaded ≡ ok (accounts, team)
    → Resolved team_id targets keys accounts team
unfolding resolve_loaded
resolve_loaded-Resolved team_id targets keys loaded accounts team asked named h =
    elim (Result-cases (scan_targets loaded team_id targets team_id [])) [
      | inl (e, failed) ↦ cc (rw (failed, resolve_loaded) at h)
      | inr ((found_team, []), scanned) ↦ elim (Result-cases (check_overrides loaded keys)) [
        | inl (e, failed) ↦ cc (rw (scanned, failed, resolve_loaded) at h)
        | inr (u, checked) ↦
            let e : ◌≡◌ {A = Result PrepareError (List SocialAccount × String)}
                (ok (in_target_order loaded targets, found_team)) (ok (accounts, team)) =
              rw (scanned, checked, resolve_loaded) at h in
            let same_accounts : in_target_order loaded targets ≡ accounts = cc in
            let same_team : found_team ≡ team = cc in
            let s =
              scan_targets-Scanned loaded team_id named targets team_id [] found_team scanned in
            let (ids, teams) = in_target_order-Found loaded team_id found_team targets s.found in
            record {
              in_order = rw (← same_accounts) ids;
              one_team = subst₂ (λ t xs. All (λ a. a.team_id ≡ t) xs) same_team same_accounts teams;
              requested = λ ne. sym same_team ∙ s.keeps ne;
              overrides_targeted =
                  keys_targeted loaded targets keys asked
                    (check_overrides_sound loaded team_id keys checked);
            }
      ]
      | inr ((found_team, x ∷ missing), scanned) ↦ cc (rw (scanned, resolve_loaded) at h)
    ]

-- When the targets resolve, the accounts are the targets, in order; they all belong to the returned
-- team, which is the requested team where one was requested; and every override key is a target.
pub resolve_targets-Resolved :
    (load : AccountLoader) (team_id : String) (targets override_keys : List String)
    (accounts : List SocialAccount) (team : String)
    → IsLoader load
    → resolve_targets load team_id targets override_keys ≡ ok (accounts, team)
    → Resolved team_id targets override_keys accounts team
unfolding resolve_targets
resolve_targets-Resolved load team_id [] [] accounts team l h =
    let no_accounts : accounts ≡ [] = cc in
    let same : team ≡ team_id = cc in
    record {
      in_order = ap ids_of no_accounts;
      one_team = subst (All (λ a. a.team_id ≡ team)) (sym no_accounts) tt;
      requested = λ ne. same;
      overrides_targeted = tt;
    }
resolve_targets-Resolved load team_id [] (key ∷ keys) accounts team l h = cc
resolve_targets-Resolved load team_id (id ∷ targets) keys accounts team l h =
    elim (Option-cases (load (id ∷ targets))) [
      | inl failed ↦ cc (rw (failed, resolve_targets) at h)
      | inr (loaded, found) ↦
          resolve_loaded-Resolved team_id (id ∷ targets) keys loaded accounts team
            (l.asked_for _ loaded found) (l.has_team _ loaded found)
            (rw (found, resolve_targets) at h)
    ]
