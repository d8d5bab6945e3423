-- ===== src/Domain/Post/Overrides.antt =====
-- Per-account content: `NormalizeAccountContentOverride` and `EffectiveContent`.
use goloom.Strings.{trim_space, is_blank}
use goloom.Domain.Post.{lookup, CreatePostInput}
use goloom.Prelude.{
  String, ◌≡◌, refl, sym, ap, inl, inr, Bool, true, false, not, ◌||◌, Option, none, some, List, [],
  ◌∷◌, arith, if◌then◌else◌, ◌==◌, eq_nat, eq_text, eq_of_beq, Bool-cases, contains,
}

-- The keys of a map differ, so that each kept entry is a new one of the result.
unfoldable pub normalize_account_content_override :
    List (String × String) → List String → List (String × String)
normalize_account_content_override [] targets = []
normalize_account_content_override ((account_id, content) ∷ over) targets =
    if is_blank content || not (contains targets account_id)
    then normalize_account_content_override over targets
    else (account_id, trim_space content) ∷ normalize_account_content_override over targets

abbrev override_or : String → Option String → String
override_or content none = content
override_or content (some over) = if is_blank over then content else over

unfoldable pub effective_content : CreatePostInput → String → String
effective_content input account_id =
    override_or input.content (lookup account_id input.account_content_override)

abbrev pub trim_if : Bool → Option String → Option String
trim_if false o = none
trim_if true none = none
trim_if true (some over) = if is_blank over then none else some (trim_space over)

-- The keys of the association list differ, as those of a map do.
abbrev pub DistinctKeys : List (String × String) → Type 0
DistinctKeys [] = Unit
DistinctKeys ((k, _) ∷ rest) = (lookup k rest ≡ none) × DistinctKeys rest

trim_if-none : (b : Bool) → trim_if b none ≡ none
trim_if-none true = refl
trim_if-none false = refl

subst_lookup :
    (k key : String) (over : List (String × String))
    → k ≡ key
    → lookup k over ≡ none
    → lookup key over ≡ none
subst_lookup k key over e h = rw e at h

contains_ap :
    (targets : List String) (k key : String) → k ≡ key → contains targets k ≡ contains targets key
contains_ap targets k key e = ap (contains targets) e

-- Looking an account up among the normalized overrides gives its trimmed override if the account
-- is a target and the override is not blank, and nothing otherwise.
pub lookup-normalize :
    (over : List (String × String)) (targets : List String) (key : String)
    → DistinctKeys over
    → lookup key (normalize_account_content_override over targets)
      ≡ trim_if (contains targets key) (lookup key over)
unfolding lookup normalize_account_content_override
lookup-normalize [] targets key d = sym (trim_if-none (contains targets key))
lookup-normalize ((k, c) ∷ over) targets key d = elim (Bool-cases (k == key)) [
  | inl same ↦
      let e : k ≡ key = eq_of_beq k key same in
      let none_left = subst_lookup k key over e d.0 in
      ground (
        arith,
        lookup-normalize over targets key d.1,
        none_left,
        trim_if-none (contains targets key),
        contains_ap targets k key e,
      )
  | inr other ↦ ground (arith, lookup-normalize over targets key d.1)
]
