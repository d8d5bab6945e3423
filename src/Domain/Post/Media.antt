-- ===== src/Domain/Post/Media.antt =====
-- Attachments of a post and their exclusion for single accounts.
pub mod Laws
use goloom.Strings.{trim_space, is_blank}
use goloom.Domain.Post.{lookup, put}
use goloom.Prelude.{
  String, Bool, not, ◌||◌, none, some, List, [], ◌∷◌, if◌then◌else◌, eq_nat, eq_text, is_empty,
  keep, contains,
}

-- `NormalizeMediaIDs`.
unfoldable pub normalize_media_ids : List String → List String
normalize_media_ids [] = []
normalize_media_ids (id ∷ ids) =
    if is_blank id then normalize_media_ids ids else trim_space id ∷ normalize_media_ids ids

-- The inner loop of `NormalizeMediaExcludeByAccount`: with no attachment every id passes.
unfoldable pub is_allowed : List String → String → Bool
is_allowed allowed id = is_empty allowed || contains allowed id

unfoldable pub filter_allowed : List String → List String → List String
filter_allowed allowed [] = []
filter_allowed allowed (id ∷ ids) =
    if is_blank id || not (is_allowed allowed (trim_space id))
    then filter_allowed allowed ids
    else trim_space id ∷ filter_allowed allowed ids

-- One round of its outer loop, over the map built so far.
unfoldable pub exclude_step :
    List String → String × List String → List (String × List String) → List (String × List String)
exclude_step allowed (account_id, ids) out =
    let filtered = normalize_media_ids (filter_allowed allowed ids) in
    if is_blank account_id || is_empty filtered
    then out
    else put (trim_space account_id) filtered out

exclude_from :
    List String
    → List (String × List String)
    → List (String × List String)
    → List (String × List String)
exclude_from allowed [] out = out
exclude_from allowed (entry ∷ entries) out =
    exclude_from allowed entries (exclude_step allowed entry out)

unfoldable pub normalize_media_exclude_by_account :
    List (String × List String) → List String → List (String × List String)
unfolding exclude_from
normalize_media_exclude_by_account ex media_ids = exclude_from (normalize_media_ids media_ids) ex []

-- `FilterMediaIDsForAccount`. A missing key is a nil slice.
abbrev pub excluded_for : List (String × List String) → String → List String
excluded_for ex account_id = elim (lookup (trim_space account_id) ex) [ none ↦ [] | some xs ↦ xs ]

unfoldable pub filter_media_ids_for_account :
    List String → List (String × List String) → String → List String
filter_media_ids_for_account ids ex account_id =
    keep (λ id. not (contains (normalize_media_ids (excluded_for ex account_id)) id))
      (normalize_media_ids ids)
