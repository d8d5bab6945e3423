-- ===== src/Domain/Post/Media/Laws.antt =====
-- Which attachments an account publishes.
use goloom.Strings.{trim_space, is_blank}
use goloom.Strings.Laws.{trim_space_idem}
use goloom.Domain.Post.Media.{normalize_media_ids, excluded_for, filter_media_ids_for_account}
use goloom.Prelude.{
  String, ◌≡◌, refl, ◌↔◌, ◌⊎◌, inl, inr, true, false, not, List, [], ◌∷◌, arith, eq_nat, eq_text,
  Bool-cases, In, contains, contains_iff, In-keep,
}

-- `m` is one of the ids, trimmed, and that id is not blank.
abbrev pub TrimmedOf : String → List String → Type 0
TrimmedOf m ids = (id : String) × In id ids × (is_blank id ≡ false) × (m ≡ trim_space id)

In-normalize_to :
    (m : String) (ids : List String) → In m (normalize_media_ids ids) → TrimmedOf m ids
unfolding normalize_media_ids
In-normalize_to m [] h = elim h [ ]
In-normalize_to m (id ∷ ids) h = elim (Bool-cases (is_blank id)) [
  | inl blank ↦ let (x, mem, b, e) = In-normalize_to m ids (rw blank at h) in (x, inr mem, b, e)
  | inr solid ↦
      let h' : (m ≡ trim_space id) ⊎ In m (normalize_media_ids ids) = rw solid at h in
      elim h' [
        | inl e ↦ (id, inl refl, solid, e)
        | inr mem ↦ let (x, mem', b, e) = In-normalize_to m ids mem in (x, inr mem', b, e)
      ]
]

In-normalize_from :
    (m : String) (ids : List String) → TrimmedOf m ids → In m (normalize_media_ids ids)
unfolding normalize_media_ids
In-normalize_from m [] (id, h, b, e) = elim h [ ]
In-normalize_from m (x ∷ ids) (id, inl same, b, e) = rw (← same, b) (inl e)
In-normalize_from m (x ∷ ids) (id, inr mem, b, e) =
    ground (arith, In-normalize_from m ids (id, mem, b, e))

not-contains_iff : (xs : List String) (m : String) → (not (contains xs m) ≡ true) ↔ ¬ In m xs
not-contains_iff xs m = (
  λ h mem. cc (h, (contains_iff xs m).1 mem),
  λ h. elim (Bool-cases (contains xs m)) [
    | inl yes_mem ↦ absurd (h ((contains_iff xs m).0 yes_mem))
    | inr out ↦ rw out
  ],
)

-- An account publishes exactly the attachments of the post (trimmed, blank ids dropped) that are
-- not among its exclusions (trimmed, blank ids dropped).
pub filter_media_ids_for_account_iff :
    (ids : List String) (ex : List (String × List String)) (account_id m : String)
    → In m (filter_media_ids_for_account ids ex account_id)
      ↔ (TrimmedOf m ids × ¬ TrimmedOf m (excluded_for ex account_id))
unfolding filter_media_ids_for_account
filter_media_ids_for_account_iff ids ex account_id m =
    let excluded = normalize_media_ids (excluded_for ex account_id) in
    let (to, from) = In-keep (λ id. not (contains excluded id)) m (normalize_media_ids ids) in
    (
      λ h. (
        In-normalize_to m ids (to h).0,
        λ t. (not-contains_iff excluded m).0 (to h).1 (In-normalize_from m _ t),
      ),
      λ h. from (
        In-normalize_from m ids h.0,
        (not-contains_iff excluded m).1 (λ mem. h.1 (In-normalize_to m _ mem)),
      ),
    )

is_blank-trim : (id : String) → is_blank (trim_space id) ≡ is_blank id
unfolding is_blank
is_blank-trim id = rw (trim_space_idem id)

-- Normalizing media ids twice is normalizing them once.
pub normalize_media_ids_idem :
    (ids : List String) → normalize_media_ids (normalize_media_ids ids) ≡ normalize_media_ids ids
unfolding normalize_media_ids
normalize_media_ids_idem [] = refl
normalize_media_ids_idem (id ∷ ids) = elim (Bool-cases (is_blank id)) [
  | inl blank ↦ rw (blank) (normalize_media_ids_idem ids)
  | inr solid ↦
      rw (solid) (rw (is_blank-trim id, solid, trim_space_idem id, normalize_media_ids_idem ids))
]
