-- ===== src/Postvalidate/Laws.antt =====
-- The verdict of `Check` is the conjunction of the destinations' limits.
use mathlib.Core.Path.{subst}
use mathlib.Core.Option
use goloom.Domain.Account.{SocialAccount}
use goloom.Domain.Post.{CreatePostInput}
use goloom.Domain.Post.Media.{filter_media_ids_for_account}
use goloom.Domain.Post.Overrides.{effective_content}
use goloom.Postvalidate.{
  Env, Capabilities, Report, Destination, provider_length, lower_limit, check_account, check_from,
  check,
}
use goloom.Prelude.Result.{ok}
use goloom.Prelude.{
  ℕ, ◌≤◌, ◌<◌, ◌≡◌, refl, sym, ◌∙◌, ◌↔◌, ◌⊎◌, inl, inr, Bool, true, false, ◌&&◌, some, List, [],
  ◌∷◌, ◌++◌, arith, and_iff, Bool-cases, Option-cases, is_empty, All, In,
}

module _ (env : Env) (input : CreatePostInput) where
  -- The text is within the limit, 0 standing for no limit, and media is attached if it is required.
  abbrev pub FitsWith : Capabilities → SocialAccount → Type 0
  FitsWith caps a =
      ((caps.max_chars ≡ 0)
        ⊎ (provider_length env a.provider (effective_content input a.id) ≤ caps.max_chars))
      × (caps.requires_media ≡ true
          → is_empty
              (filter_media_ids_for_account input.media_ids input.media_exclude_by_account a.id)
            ≡ false)

  -- The account's capabilities are known and its limits hold.
  abbrev pub Fits : SocialAccount → Type 0
  Fits a = (caps : Capabilities) × (env.capabilities a ≡ some caps) × FitsWith caps a

  valid_iff_FitsWith :
      (a : SocialAccount) (caps : Capabilities)
      → ((check_account env input a caps).valid ≡ true) ↔ FitsWith caps a
  unfolding check_account
  valid_iff_FitsWith a caps = (λ h. (ground arith, λ q. ground arith), λ f. ground arith)

  Fits-known :
      (a : SocialAccount) (caps : Capabilities)
      → env.capabilities a ≡ some caps
      → Fits a
      → FitsWith caps a
  Fits-known a caps known (caps', known', f) =
      subst (λ c. FitsWith c a) (Option.some-injective caps' caps (sym known' ∙ known)) f

  -- One round: an account that passes the two refusals.
  check_from_step :
      (a : SocialAccount) (accounts : List SocialAccount) (ds : List Destination) (best : ℕ)
      (valid : Bool) (r : Report)
      → check_from env input (a ∷ accounts) ds best valid ≡ ok r
      → (caps : Capabilities) × (env.registered a.provider ≡ true)
        × (env.capabilities a ≡ some caps)
        × (check_from env input accounts
              (ds ++ check_account env input a caps ∷ [])
              (lower_limit caps.max_chars best)
              (valid && (check_account env input a caps).valid)
            ≡ ok r)
  unfolding check_from
  check_from_step a accounts ds best valid r h = elim (Bool-cases (env.registered a.provider)) [
    | inr out ↦ cc (rw (out, check_from) at h)
    | inl reg ↦ elim (Option-cases (env.capabilities a)) [
      | inl nothing ↦ cc (rw (reg, nothing, check_from) at h)
      | inr (caps, known) ↦ (caps, reg, known, rw (reg, known, check_from) at h)
    ]
  ]

  check_from-valid :
      (accounts : List SocialAccount) (ds : List Destination) (best : ℕ) (valid : Bool) (r : Report)
      → check_from env input accounts ds best valid ≡ ok r
      → (r.valid ≡ true) ↔ ((valid ≡ true) × All Fits accounts)
  check_from-valid [] ds best valid r h =
      let same : r.valid ≡ valid = unfold check_from in ground arith in
      rw same (λ v. (v, tt), λ v. v.0)
  check_from-valid (a ∷ accounts) ds best valid r h =
      let (caps, reg, known, rest) = check_from_step a accounts ds best valid r h in
      let (to, from) = check_from-valid accounts _ _ _ r rest in
      let fits = valid_iff_FitsWith a caps in
      let both = and_iff valid (check_account env input a caps).valid in
      (
        λ v.
            let (now, later) = to v in
            ((both.0 now).0, ((caps, known, fits.0 (both.0 now).1), later)),
        λ v. from (both.1 (v.0, fits.1 (Fits-known a caps known v.1.0)), v.1.1),
      )

  -- No account has a lower limit than `limit`, 0 standing for none.
  abbrev pub NotBelow : ℕ → SocialAccount → Type 0
  NotBelow limit a =
      (caps : Capabilities) × (env.capabilities a ≡ some caps)
      × (0 < caps.max_chars → (0 < limit) × (limit ≤ caps.max_chars))

  -- The account has this limit.
  abbrev pub HasLimit : ℕ → SocialAccount → Type 0
  HasLimit limit a =
      (caps : Capabilities) × (env.capabilities a ≡ some caps) × (caps.max_chars ≡ limit)

  lower_limit_le :
      (m best limit : ℕ)
      → (0 < lower_limit m best → (0 < limit) × (limit ≤ lower_limit m best))
      → (0 < best → (0 < limit) × (limit ≤ best)) × (0 < m → (0 < limit) × (limit ≤ m))
  unfolding lower_limit
  lower_limit_le m best limit h = (λ b. ground arith, λ p. ground arith)

  lower_limit_attained :
      (m best limit : ℕ) → limit ≡ lower_limit m best → (limit ≡ best) ⊎ (m ≡ limit)
  unfolding lower_limit
  lower_limit_attained m best limit h = ground arith

  check_from-max_chars :
      (accounts : List SocialAccount) (ds : List Destination) (best : ℕ) (valid : Bool) (r : Report)
      → check_from env input accounts ds best valid ≡ ok r
      → (0 < best → (0 < r.max_chars) × (r.max_chars ≤ best))
        × All (NotBelow r.max_chars) accounts
        × ((r.max_chars ≡ best) ⊎ ((a : SocialAccount) × In a accounts × HasLimit r.max_chars a))
  check_from-max_chars [] ds best valid r h =
      let same : r.max_chars ≡ best = unfold check_from in ground arith in
      (λ b. omega arith, tt, inl same)
  check_from-max_chars (a ∷ accounts) ds best valid r h =
      let (caps, reg, known, rest) = check_from_step a accounts ds best valid r h in
      let (below, others, attained) = check_from-max_chars accounts _ _ _ r rest in
      let (old, new) = lower_limit_le caps.max_chars best r.max_chars below in
      (
        old,
        ((caps, known, new), others),
        elim attained [
          | inl start ↦ elim (lower_limit_attained caps.max_chars best r.max_chars start) [
            | inl e ↦ inl e
            | inr e ↦ inr (a, inl refl, (caps, known, e))
          ]
          | inr (b, mem, limit) ↦ inr (b, inr mem, limit)
        ],
      )

-- When the check goes through, its verdict is true exactly if every account fits: its effective
-- content is within its limit, counted the provider's way, and media is left after exclusions
-- where the provider requires it.
pub check-valid :
    (env : Env) (accounts : List SocialAccount) (input : CreatePostInput) (r : Report)
    → check env accounts input ≡ ok r
    → (r.valid ≡ true) ↔ All (Fits env input) accounts
unfolding check
check-valid env accounts input r h =
    let (to, from) = check_from-valid env input accounts [] 0 true r h in
    (λ v. (to v).1, λ fits. from (refl, fits))

-- The reported limit is the smallest limit among the accounts, or 0 if none has one.
pub check-max_chars :
    (env : Env) (accounts : List SocialAccount) (input : CreatePostInput) (r : Report)
    → check env accounts input ≡ ok r
    → All (NotBelow env input r.max_chars) accounts
      × ((r.max_chars ≡ 0)
          ⊎ ((a : SocialAccount) × In a accounts × HasLimit env input r.max_chars a))
unfolding check
check-max_chars env accounts input r h =
    let (_, below, attained) = check_from-max_chars env input accounts [] 0 true r h in
    (below, attained)
