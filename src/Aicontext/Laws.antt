-- ===== src/Aicontext/Laws.antt =====
-- What a selection lets through: the team's own sources and examples, and few of the latter.
use goloom.Domain.Post.{lookup, put}
use goloom.Aicontext.{
  wanted_sources, is_own_example, with_sources, wanted_platforms, insert_newest, select,
  newest_first, is_fitting, select_examples, Params, KnowledgeSource, StyleExample, AiContext,
  available, pick_sources, add_source, is_own, select_sources,
}
use goloom.Prelude.{
  ℕ, zero, suc, ◌≤◌, String, ◌≡◌, refl, subst, inl, inr, Bool, true, false, Option, none, some,
  List, [], ◌∷◌, ◌++◌, arith, ltb, leb, if-both, if-split, ◌==◌, eq_nat, eq_text, eq_of_beq, length,
  is_empty, keep, All, In, take, contains,
}

module _ {A : Type 0} (P : A → Type 0) where
  All-take : (n : ℕ) (xs : List A) → All P xs → All P (take n xs)
  All-take zero xs h = tt
  All-take (suc n) [] h = tt
  All-take (suc n) (x ∷ xs) h = (h.0, All-take n xs h.1)

  All-append : (xs ys : List A) → All P xs → All P ys → All P (xs ++ ys)
  All-append [] ys h k = k
  All-append (x ∷ xs) ys h k = (h.0, All-append xs ys h.1 k)

  -- What passes a test that entails P, of what has Q where both give P.
  All-keep :
      (Q : A → Type 0) (p : A → Bool) (xs : List A)
      → ((x : A) → Q x → p x ≡ true → P x)
      → All Q xs
      → All P (keep p xs)
  All-keep Q p [] good h = tt
  All-keep Q p (x ∷ xs) good h =
      if-split (All P) (p x) (λ passes. (good x h.0 passes, All-keep Q p xs good h.1))
        (λ fails. All-keep Q p xs good h.1)

All-self :
    {A : Type 0} (whole xs : List A) → ((x : A) → In x xs → In x whole) → All (λ x. In x whole) xs
All-self whole [] part = tt
All-self whole (x ∷ xs) part = (part x (inl refl), All-self whole xs (λ y i. part y (inr i)))

take-short : {A : Type 0} (n : ℕ) (xs : List A) → length (take n xs) ≤ n
take-short zero xs = omega arith
take-short (suc n) [] = omega arith
take-short (suc n) (x ∷ xs) = let rest = take-short n xs in omega arith

module _ (context : AiContext) where
  abbrev pub OwnSource : KnowledgeSource → Type 0
  OwnSource s = (s.team_id ≡ context.team_id) × In s context.knowledge_sources

  abbrev pub OwnExample : StyleExample → Type 0
  OwnExample ex = (ex.team_id ≡ context.team_id) × In ex context.style_examples

  abbrev AllFound : List (String × KnowledgeSource) → Type 0
  AllFound found = All (λ entry. OwnSource entry.1) found

  put-AllFound :
      (id : String) (s : KnowledgeSource) (found : List (String × KnowledgeSource))
      → OwnSource s
      → AllFound found
      → AllFound (put id s found)
  unfolding put
  put-AllFound id s [] own h = (own, tt)
  put-AllFound id s ((k, old) ∷ found) own h =
      if-both AllFound (k == id) (own, h.1) (h.0, put-AllFound id s found own h.1)

  available-AllFound :
      (sources : List KnowledgeSource) (found : List (String × KnowledgeSource))
      → All (λ s. In s context.knowledge_sources) sources
      → AllFound found
      → AllFound (available context.team_id sources found)
  unfolding available
  available-AllFound [] found known h = h
  available-AllFound (s ∷ sources) found known h = available-AllFound sources _ known.1 (
      if-split AllFound (s.team_id == context.team_id)
        (λ own. put-AllFound s.id s found (eq_of_beq s.team_id context.team_id own, known.0) h)
        (λ other. h))

  abbrev OfSources : Option (List KnowledgeSource) → Type 0
  OfSources none = Unit
  OfSources (some sources) = All OwnSource sources

  abbrev OfSource : Option KnowledgeSource → Type 0
  OfSource none = Unit
  OfSource (some s) = OwnSource s

  lookup-OfSource :
      (id : String) (found : List (String × KnowledgeSource))
      → AllFound found
      → OfSource (lookup id found)
  unfolding lookup
  lookup-OfSource id [] h = tt
  lookup-OfSource id ((k, s) ∷ found) h =
      if-both OfSource (k == id) h.0 (lookup-OfSource id found h.1)

  add_source-OfSources :
      (seen : Bool) (s : KnowledgeSource) (rest : Option (List KnowledgeSource))
      → OwnSource s
      → OfSources rest
      → OfSources (add_source seen s rest)
  add_source-OfSources seen s none own h = tt
  add_source-OfSources true s (some sources) own h = h
  add_source-OfSources false s (some sources) own h = (own, h)

  pick_sources-OfSources :
      (found : List (String × KnowledgeSource)) (seen ids : List String)
      → AllFound found
      → OfSources (pick_sources found seen ids)
  unfolding pick_sources
  pick_sources-OfSources found seen [] h = tt
  pick_sources-OfSources found seen (id ∷ ids) h =
      let rest = pick_sources-OfSources found (id ∷ seen) ids h in
      elim (lookup id found)
          as (λ o.
            OfSource o
            → OfSources (elim o [
              | none ↦ none
              | some s ↦ add_source (contains seen id) s (pick_sources found (id ∷ seen) ids)
            ])) [
              | none ↦ λ _. tt
              | some s ↦ λ own. add_source-OfSources (contains seen id) s _ own rest
            ]
        (lookup-OfSource id found h)

  known_sources : All (λ s. In s context.knowledge_sources) context.knowledge_sources
  known_sources = All-self context.knowledge_sources context.knowledge_sources (λ s i. i)

  select_sources-OfSources :
      (wanted : Option (Option (List String))) → OfSources (select_sources context wanted)
  unfolding select_sources
  select_sources-OfSources none = tt
  select_sources-OfSources (some none) =
      All-keep OwnSource _ (is_own context.team_id) context.knowledge_sources
        (λ s known own. (eq_of_beq s.team_id context.team_id own, known)) known_sources
  select_sources-OfSources (some (some ids)) = if-both OfSources (ltb 50 (length ids)) tt (
      pick_sources-OfSources _ [] ids
        (available-AllFound context.knowledge_sources [] known_sources tt))

  module _ (P : StyleExample → Type 0) where
    insert_newest-All :
        (ex : StyleExample) (exs : List StyleExample)
        → P ex
        → All P exs
        → All P (insert_newest ex exs)
    unfolding insert_newest
    insert_newest-All ex [] new old = (new, tt)
    insert_newest-All ex (other ∷ rest) new old =
        if-both (All P) (leb other.created_at ex.created_at) (new, old)
          (old.0, insert_newest-All ex rest new old.1)

    newest_first-All : (exs : List StyleExample) → All P exs → All P (newest_first exs)
    unfolding newest_first
    newest_first-All [] old = tt
    newest_first-All (ex ∷ exs) old =
        insert_newest-All ex (newest_first exs) old.0 (newest_first-All exs old.1)

  known_examples : All (λ ex. In ex context.style_examples) (newest_first context.style_examples)
  known_examples =
      newest_first-All (λ ex. In ex context.style_examples) context.style_examples
        (All-self context.style_examples context.style_examples (λ ex i. i))

  module _ (to_lower : String → String) where
    fitting-OwnExample :
        (platforms : List String) (general : Bool) (ex : StyleExample)
        → In ex context.style_examples
        → is_fitting to_lower context.team_id platforms general ex ≡ true
        → OwnExample ex
    unfolding is_fitting
    fitting-OwnExample platforms general ex known fits =
        (eq_of_beq ex.team_id context.team_id (ground arith), known)

    select_examples-OwnExample :
        (platforms : List String) → All OwnExample (select_examples to_lower context platforms)
    unfolding select_examples
    select_examples-OwnExample [] =
        All-keep OwnExample _ (is_own_example to_lower context.team_id) _
          (λ ex known own. (eq_of_beq ex.team_id context.team_id own, known)) known_examples
    select_examples-OwnExample (p ∷ ps) = All-take OwnExample 3 _ (
        All-append OwnExample _ _
          (All-keep OwnExample _ _ _ (fitting-OwnExample (p ∷ ps) false) known_examples)
          (All-keep OwnExample _ _ _ (fitting-OwnExample (p ∷ ps) true) known_examples))

    select_examples-few :
        (platforms : List String)
        → is_empty platforms ≡ false
        → length (select_examples to_lower context platforms) ≤ 3
    unfolding select_examples
    select_examples-few [] given = absurd (cc given)
    select_examples-few (p ∷ ps) given = take-short 3 _

    -- What a job may see: the team's own sources and style examples, at most three of these where a
    -- platform is wanted, and the rest of the context as it was.
    pub record IsSelected (p : Params) (out : AiContext) : Type 0 where
      pub same_team : out.team_id ≡ context.team_id
      pub own_sources : All OwnSource out.knowledge_sources
      pub own_examples : All OwnExample out.style_examples
      pub few_examples :
          is_empty (wanted_platforms to_lower context p) ≡ false → length out.style_examples ≤ 3

    OfSelect : Params → Option AiContext → Type 0
    OfSelect p none = Unit
    OfSelect p (some out) = IsSelected p out

    with_sources-OfSelect :
        (p : Params) (sources : Option (List KnowledgeSource))
        → OfSources sources
        → OfSelect p (
            with_sources to_lower context
              (select_examples to_lower context (wanted_platforms to_lower context p))
              sources)
    unfolding OfSelect
    with_sources-OfSelect p none own = tt
    with_sources-OfSelect p (some sources) own = record {
      same_team = refl;
      own_sources = own;
      own_examples = select_examples-OwnExample (wanted_platforms to_lower context p);
      few_examples = select_examples-few (wanted_platforms to_lower context p);
    }

    -- A selection shows a job only sources and style examples of its own team that stand in the
    -- context, and at most three examples where a platform is wanted.
    pub select-IsSelected :
        (p : Params) (out : AiContext) → select to_lower context p ≡ some out → IsSelected p out
    unfolding select OfSelect
    select-IsSelected p out h =
        subst (OfSelect p) h
          (with_sources-OfSelect p _ (select_sources-OfSources (wanted_sources context p)))
