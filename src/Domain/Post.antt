-- ===== src/Domain/Post.antt =====
-- internal/domain/models.go: scheduled posts, the input that creates or changes one, and the shape
-- rules of that input. A Go map is an association list with one entry for a key, a nil map or slice
-- the empty list. Instants are nanoseconds since Go's zero time.
pub mod Media
pub mod Overrides
pub mod Input
pub mod Status
pub mod Patch
use goloom.Prelude.{
  ℕ, String, Bool, true, false, Option, none, some, List, [], ◌∷◌, if◌then◌else◌, ◌==◌, eq_nat,
  eq_text,
}

pub data PostStatus : Type 0 where
  pending processing posted failed cancelled draft : PostStatus

pub data PostSource : Type 0 where
  unset scheduled imported automation : PostSource

abbrev pub is_draft : PostStatus → Bool
is_draft PostStatus.draft = true
is_draft _ = false

-- Posted, processing or cancelled.
abbrev pub is_settled : PostStatus → Bool
is_settled PostStatus.posted = true
is_settled PostStatus.processing = true
is_settled PostStatus.cancelled = true
is_settled _ = false

pub record ScheduledPost : Type 0 where
  pub id : String
  pub team_id : String
  pub author_user_id : String
  pub title : String
  pub content : String
  pub scheduled_at : ℕ
  pub status : PostStatus
  pub source : PostSource
  pub attempt_count : ℕ
  pub last_error : String
  pub created_at : ℕ
  pub updated_at : ℕ
  pub target_accounts : List String
  pub visibility : String
  pub media_ids : List String
  pub media_exclude_by_account : List (String × List String)
  pub post_template_id : Option String
  pub template_counter : Option ℕ
  pub template_occurrence_at : Option ℕ
  pub template_post_role : String
  pub rss_feed_id : Option String
  pub ai_job_id : Option String
  pub ai_fallback_reason : Option String

pub record CreatePostInput : Type 0 where
  pub title : String
  pub content : String
  pub scheduled_at : ℕ
  pub target_accounts : List String
  pub visibility : String
  pub media_ids : List String
  pub media_exclude_by_account : List (String × List String)
  pub draft : Bool
  pub publish_now : Bool
  pub account_content_override : List (String × String)
  pub use_versions : Bool
  pub author_user_id : Option String
  pub post_template_id : Option String
  pub template_counter : Option ℕ
  pub template_occurrence_at : Option ℕ
  pub template_post_role : String
  pub source : PostSource
  pub rss_feed_id : Option String
  pub rss_item_key : String
  pub ai_job_id : Option String
  pub ai_fallback_reason : Option String

-- `m[key]`: the map's value, or none.
unfoldable pub lookup {ℓ} : {A : Type ℓ} → String → List (String × A) → Option A
lookup key [] = none
lookup key ((k, a) ∷ rest) = if k == key then some a else lookup key rest

-- `m[key] = value`.
unfoldable pub put {ℓ} : {A : Type ℓ} → String → A → List (String × A) → List (String × A)
put key a [] = (key, a) ∷ []
put key a ((k, b) ∷ rest) = if k == key then (key, a) ∷ rest else (k, b) ∷ put key a rest
