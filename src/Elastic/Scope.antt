-- ===== src/Elastic/Scope.antt =====
-- What the legs of the index return: hits of documents that the filters let through.
use code_rag.Prelude.{
  ℕ, String, ◌≡◌, refl, ap, ◌∙◌, inl, inr, Bool, true, false, Option, none, some, List, [], ◌∷◌,
  map, arith, if◌then◌else◌, ◌==◌, nat_eq, string_eq, list_eq, pair_eq, option_eq, All, In, All-map,
  All-inside,
}
use code_rag.Prelude.Dict.{get, get-put}
use code_rag.Prelude.Sets.{contains}
use code_rag.Retrieval.Hits.{SearchHit}
use code_rag.Retrieval.Service.{Filters}
use code_rag.Elastic.Records.{CodeChunk, CodeCommunity}
use code_rag.Elastic.Corpus.{Relevance, Item, Corpus}
use code_rag.Elastic.Queries.{
  Value, text, in_paths, filters_pass, community_filters_pass, chunk_ids_query, hit_of,
  community_hit_of, mark,
}
use code_rag.Elastic.Queries

-- A document that some search of the index finds.
abbrev pub IsFound : {Score D : Type 0} (corpus : Corpus Score D) → corpus.State → D → Type 0
IsFound {Score} {D} corpus s d =
    (q : D → Bool) × (relevance : List (Relevance Score)) × (size : ℕ) × In d
      (map (λ item. item.source) (corpus.search q relevance size s))

In-map : {A B : Type 0} (f : A → B) (xs : List A) (a : A) → In a xs → In (f a) (map f xs)
In-map f [] a m = elim m [ ]
In-map f (x ∷ xs) a (inl e) = inl (ap f e)
In-map f (x ∷ xs) a (inr m) = inr (In-map f xs a m)

pub search-IsFound :
    {Score D : Type 0} (corpus : Corpus Score D) (s : corpus.State) (q : D → Bool)
    (relevance : List (Relevance Score)) (size : ℕ)
    → All (λ item. IsFound corpus s item.source) (corpus.search q relevance size s)
search-IsFound {Score} {D} corpus s q relevance size =
    let found = corpus.search q relevance size s in
    All-map (λ (item : Item Score D). In item found)
      (λ item m. (q, relevance, size, In-map (λ (i : Item Score D). i.source) found item m)) found
      (All-inside found)

-- What a hit tells of its project and branch.
abbrev pub Tells :
    {Score : Type 0} → SearchHit Score (Value Score) → (project branch : String) → Type 0
Tells hit project branch =
    (get "gitlab_project_id" hit.metadata ≡ some (text (some project)))
    × (get "branch" hit.metadata ≡ some (text (some branch)))

-- Where paths are given, the path is one of them.
abbrev pub IsUnder : Option (List String) → String → Type 0
IsUnder none path = Unit
IsUnder (some []) path = Unit
IsUnder (some (p ∷ ps)) path = contains path (p ∷ ps) ≡ true

in_paths-IsUnder :
    (paths : Option (List String)) (path : String)
    → in_paths paths (some path) ≡ true
    → IsUnder paths path
in_paths-IsUnder none path e = tt
in_paths-IsUnder (some []) path e = tt
in_paths-IsUnder (some (p ∷ ps)) path e = e

-- A hit of a chunk of the active snapshot that the index finds, of the tenant, the branch, one of
-- the projects and one of the paths of the filters.
pub record InScope {Score : Type 0} (corpus : Corpus Score (CodeChunk Score)) (s : corpus.State)
    (filters : Filters) (hit : SearchHit Score (Value Score)) : Type 0 where
  pub chunk : CodeChunk Score
  pub is_found : IsFound corpus s chunk
  pub same_id : hit.chunk_id ≡ chunk.chunk_id
  pub same_text : hit.text ≡ chunk.text
  pub same_file : hit.file_path ≡ chunk.file_path
  pub same_path : hit.repo_path_with_namespace ≡ chunk.repo_path_with_namespace
  pub tells : Tells hit chunk.gitlab_project_id chunk.branch
  pub of_tenant : chunk.tenant_id ≡ filters.tenant_id
  pub on_branch : chunk.branch ≡ filters.branch
  pub is_active : chunk.active_snapshot ≡ true
  pub allowed : contains chunk.gitlab_project_id filters.allowed_project_ids ≡ true
  pub in_path : IsUnder filters.repo_paths_with_namespace chunk.repo_path_with_namespace

-- The same of a community, which has no snapshot.
pub record IsCommunityInScope {Score : Type 0} (corpus : Corpus Score (CodeCommunity Score))
    (s : corpus.State) (filters : Filters) (hit : SearchHit Score (Value Score)) : Type 0 where
  pub community : CodeCommunity Score
  pub is_found : IsFound corpus s community
  pub same_id : hit.chunk_id ≡ community.community_id
  pub same_text : hit.text ≡ community.summary
  pub same_path : hit.repo_path_with_namespace ≡ community.repo_path_with_namespace
  pub tells : Tells hit community.gitlab_project_id community.branch
  pub of_tenant : community.tenant_id ≡ filters.tenant_id
  pub on_branch : community.branch ≡ filters.branch
  pub allowed : contains community.gitlab_project_id filters.allowed_project_ids ≡ true
  pub in_path : IsUnder filters.repo_paths_with_namespace community.repo_path_with_namespace

module _ {Score : Type 0} (corpus : Corpus Score (CodeChunk Score)) (s : corpus.State) where
  pub hit_of-InScope :
      (filters : Filters) (item : Item Score (CodeChunk Score))
      → filters_pass filters item.source ≡ true
      → IsFound corpus s item.source
      → InScope corpus s filters (hit_of item)
  unfolding filters_pass hit_of get
  hit_of-InScope filters item passes found =
      let c = item.source in
      record {
        chunk = c;
        is_found = found;
        same_id = refl;
        same_text = refl;
        same_file = refl;
        same_path = refl;
        tells = (refl, refl);
        of_tenant = (string_eq.same_iff c.tenant_id filters.tenant_id).0 (ground (arith, passes));
        on_branch = (string_eq.same_iff c.branch filters.branch).0 (ground (arith, passes));
        is_active = ground (arith, passes);
        allowed = ground (arith, passes);
        in_path =
            in_paths-IsUnder filters.repo_paths_with_namespace c.repo_path_with_namespace
              (ground (arith, passes));
      }

  -- A mark under another key.
  pub mark-InScope :
      (key : String) (filters : Filters) (hit : SearchHit Score (Value Score))
      → (key == "gitlab_project_id") ≡ false
      → (key == "branch") ≡ false
      → InScope corpus s filters hit
      → InScope corpus s filters (mark key hit)
  mark-InScope key filters hit other other' h = record {
    chunk = h.chunk;
    is_found = h.is_found;
    same_id = h.same_id;
    same_text = h.same_text;
    same_file = h.same_file;
    same_path = h.same_path;
    tells = (
      get-put key "gitlab_project_id" _ hit.metadata
          ∙ ap (λ b. if b then some Queries.true_value else get "gitlab_project_id" hit.metadata)
              other
          ∙ h.tells.0,
      get-put key "branch" _ hit.metadata
          ∙ ap (λ b. if b then some Queries.true_value else get "branch" hit.metadata) other'
          ∙ h.tells.1,
    );
    of_tenant = h.of_tenant;
    on_branch = h.on_branch;
    is_active = h.is_active;
    allowed = h.allowed;
    in_path = h.in_path;
  }

module _ {Score : Type 0} (corpus : Corpus Score (CodeCommunity Score)) (s : corpus.State) where
  community_hit_of-InScope :
      (filters : Filters) (item : Item Score (CodeCommunity Score))
      → community_filters_pass filters item.source ≡ true
      → IsFound corpus s item.source
      → IsCommunityInScope corpus s filters (community_hit_of item)
  unfolding community_filters_pass community_hit_of get
  community_hit_of-InScope filters item passes found =
      let c = item.source in
      record {
        community = c;
        is_found = found;
        same_id = refl;
        same_text = refl;
        same_path = refl;
        tells = (refl, refl);
        of_tenant = (string_eq.same_iff c.tenant_id filters.tenant_id).0 (ground (arith, passes));
        on_branch = (string_eq.same_iff c.branch filters.branch).0 (ground (arith, passes));
        allowed = ground (arith, passes);
        in_path =
            in_paths-IsUnder filters.repo_paths_with_namespace c.repo_path_with_namespace
              (ground (arith, passes));
      }

  pub community_hits-InScope :
      (filters : Filters) (items : List (Item Score (CodeCommunity Score)))
      → All (λ item. community_filters_pass filters item.source ≡ true) items
      → All (λ item. IsFound corpus s item.source) items
      → All (IsCommunityInScope corpus s filters) (map community_hit_of items)
  community_hits-InScope filters [] passes found = tt
  community_hits-InScope filters (item ∷ items) passes found = (
    community_hit_of-InScope filters item passes.0 found.0,
    community_hits-InScope filters items passes.1 found.1,
  )
