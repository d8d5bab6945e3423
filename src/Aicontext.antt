-- ===== src/Aicontext.antt =====
-- What of a team's context an AI job sees: `Select` (internal/aicontext/selection.go). The decoded
-- parameters are given; so is `strings.ToLower`, which works on all of Unicode.
pub mod Laws
use goloom.Strings.{trim_space, is_blank}
use goloom.Domain.Post.{lookup, put}
use goloom.Prelude.{
  ℕ, String, Bool, true, false, not, ◌&&◌, ◌||◌, Option, none, some, List, [], ◌∷◌, ◌++◌, ltb, leb,
  if◌then◌else◌, ◌==◌, eq_nat, eq_text, length, is_empty, all, keep, take, contains,
}

pub record KnowledgeSource : Type 0 where
  pub id : String
  pub team_id : String
  pub name : String
  pub content : String

pub record StyleExample : Type 0 where
  pub id : String
  pub team_id : String
  pub platform : String
  pub content : String
  pub created_at : ℕ

-- Without a list of sources, the format takes over the team's.
pub record CampaignFormat : Type 0 where
  pub id : String
  pub team_id : String
  pub knowledge_source_ids : Option (List String)

-- The parts of an `AIContext` that `Select` reads or changes; an account is its id and provider.
pub record AiContext : Type 0 where
  pub team_id : String
  pub campaign_formats : List CampaignFormat
  pub style_examples : List StyleExample
  pub knowledge_sources : List KnowledgeSource
  pub accounts : List (String × String)

-- The two spellings of a parameter stand beside each other; a missing list is `none`.
pub record Params : Type 0 where
  pub knowledge_source_ids : Option (List String)
  pub campaign_format_id : String
  pub campaign_format_alias : String
  pub target_account_ids : List String
  pub target_account_alias : List String
  pub platform : String

abbrev or_text : String → String → String
or_text other text = if text == "" then other else text

-- The sources of the format with this id, if the team has it.
unfoldable pub format_sources :
    String → String → List CampaignFormat → Option (Option (List String))
format_sources team_id id [] = none
format_sources team_id id (f ∷ formats) =
    if f.id == id && f.team_id == team_id
    then some f.knowledge_source_ids
    else format_sources team_id id formats

-- The sources that are asked for: `none` is an error, `some none` asks for all of the team's.
unfoldable pub wanted_sources : AiContext → Params → Option (Option (List String))
wanted_sources context p =
    let format_id = or_text p.campaign_format_alias p.campaign_format_id in
    if format_id == ""
    then some p.knowledge_source_ids
    else format_sources context.team_id format_id context.campaign_formats

unfoldable pub available :
    String
    → List KnowledgeSource
    → List (String × KnowledgeSource)
    → List (String × KnowledgeSource)
available team_id [] found = found
available team_id (s ∷ sources) found =
    available team_id sources (if s.team_id == team_id then put s.id s found else found)

abbrev add_source :
    Bool → KnowledgeSource → Option (List KnowledgeSource) → Option (List KnowledgeSource)
add_source seen s none = none
add_source seen s (some sources) = some (if seen then sources else s ∷ sources)

-- Each source that is asked for, once, in the order of the request; a missing one is an error.
unfoldable pub pick_sources :
    List (String × KnowledgeSource) → List String → List String → Option (List KnowledgeSource)
pick_sources found seen [] = some []
pick_sources found seen (id ∷ ids) =
    let rest = pick_sources found (id ∷ seen) ids in
    elim (lookup id found) [ none ↦ none | some s ↦ add_source (contains seen id) s rest ]

abbrev is_own : String → KnowledgeSource → Bool
is_own team_id s = s.team_id == team_id

unfoldable pub select_sources :
    AiContext → Option (Option (List String)) → Option (List KnowledgeSource)
select_sources context none = none
select_sources context (some none) = some (keep (is_own context.team_id) context.knowledge_sources)
select_sources context (some (some ids)) =
    if ltb 50 (length ids)
    then none
    else pick_sources (available context.team_id context.knowledge_sources []) [] ids

-- The newest first; equal times keep their order.
unfoldable pub insert_newest : StyleExample → List StyleExample → List StyleExample
insert_newest ex [] = ex ∷ []
insert_newest ex (other ∷ rest) =
    if leb other.created_at ex.created_at then ex ∷ other ∷ rest else other ∷ insert_newest ex rest

unfoldable pub newest_first : List StyleExample → List StyleExample
newest_first [] = []
newest_first (ex ∷ rest) = insert_newest ex (newest_first rest)

module _ (to_lower : String → String) where
  -- The platforms of the accounts with an id.
  unfoldable pub account_platforms : String → List (String × String) → List String
  account_platforms id [] = []
  account_platforms id ((account_id, provider) ∷ accounts) =
      let rest = account_platforms id accounts in
      if account_id == id then to_lower provider ∷ rest else rest

  unfoldable pub target_platforms : List String → List (String × String) → List String
  target_platforms [] accounts = []
  target_platforms (id ∷ ids) accounts =
      account_platforms id accounts ++ target_platforms ids accounts

  abbrev or_platform : String → List String → List String
  or_platform platform [] = if platform == "" then [] else to_lower platform ∷ []
  or_platform platform (p ∷ ps) = p ∷ ps

  unfoldable pub wanted_platforms : AiContext → Params → List String
  wanted_platforms context p = or_platform p.platform (
      target_platforms
        (if is_empty p.target_account_ids then p.target_account_alias else p.target_account_ids)
        context.accounts)

  abbrev is_general : String → Bool
  is_general platform = platform == "" || platform == "general" || platform == "all"

  abbrev bool_eq : Bool → Bool → Bool
  bool_eq true b = b
  bool_eq false b = not b

  -- The condition of a round: of the team, not blank, and general or of a wanted platform.
  unfoldable pub is_fitting : String → List String → Bool → StyleExample → Bool
  is_fitting team_id platforms general ex =
      let platform = to_lower (trim_space ex.platform) in
      ex.team_id == team_id
      && not (is_blank ex.content)
      && bool_eq (is_general platform) general
      && (is_general platform || contains platforms platform)

  abbrev is_own_example : String → StyleExample → Bool
  is_own_example team_id ex = ex.team_id == team_id

  -- The loops stop at the third example, the first over those of the platforms, the second over the
  -- general ones. Without a platform all of the team are taken.
  unfoldable pub select_examples : AiContext → List String → List StyleExample
  select_examples context [] =
      keep (is_own_example context.team_id) (newest_first context.style_examples)
  select_examples context (p ∷ ps) =
      let examples = newest_first context.style_examples in
      take 3 (
        keep (is_fitting context.team_id (p ∷ ps) false) examples
        ++ keep (is_fitting context.team_id (p ∷ ps) true) examples)

  abbrev with_sources :
      AiContext → List StyleExample → Option (List KnowledgeSource) → Option AiContext
  with_sources context examples none = none
  with_sources context examples (some sources) =
      some (record context { knowledge_sources = sources; style_examples = examples })

  -- `Select`; `none` is ErrKnowledgeSourceUnavailable.
  unfoldable pub select : AiContext → Params → Option AiContext
  select context p =
      with_sources context (select_examples context (wanted_platforms context p))
        (select_sources context (wanted_sources context p))
