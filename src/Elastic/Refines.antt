-- ===== src/Elastic/Refines.antt =====
-- The Elasticsearch index as the retrieval service sees it.
use code_rag.Prelude.{
  ℕ, String, ◌≡◌, ap, subst, inl, inr, Bool, true, List, [], ◌∷◌, map, arith, eqb, Bool-cases, ◌==◌,
  nat_eq, string_eq, list_eq, pair_eq, option_eq, All,
}
use code_rag.Prelude.Sets.{contains}
use code_rag.Retrieval.Hits.{SearchHit}
use code_rag.Retrieval.Expansion.{EdgeType}
use code_rag.Retrieval.Service.{Filters}
use code_rag.Retrieval.Fusion.{some_or}
use code_rag.Retrieval.Inside.{IsFiltered}
use code_rag.Elastic.Records.{CodeChunk, CodeCommunity}
use code_rag.Elastic.Corpus.{Relevance, Item}
use code_rag.Elastic.Store.{Client, Indices}
use code_rag.Elastic.Queries.{Value, filters_pass, community_filters_pass, hit_of, community_hit_of}
use code_rag.Elastic.Legs.{
  lexical_search, vector_search, symbol_search, edge_search, neighbor_chunks, community_search,
  search_port,
}
use code_rag.Elastic.Scope.{
  InScope, IsCommunityInScope, IsFound, search-IsFound, hit_of-InScope, community_hits-InScope,
  mark-InScope,
}
use code_rag.Elastic.Filtered.{
  lexical_search-All, vector_search-All, symbol_search-All, edge_search-All, neighbor_chunks-All,
}

module _ {Score RepoDocument : Type 0} (client : Client Score RepoDocument) where
  -- Whatever the indices hold and whatever is asked, each leg over chunks returns only hits of
  -- chunks that a search of the index finds, with the chunk's id, text, file, path, project and branch, where
  -- the chunk is of the active snapshot, has the tenant and the branch of the filters and one of the
  -- allowed projects, and lies under one of the repository paths where paths are given. The same
  -- holds of the communities that the community leg returns, which have no file and no snapshot.
  pub search_port-InScope :
      (s : Indices client) (filters : Filters) (query : String) (vector : List Score)
      (names : List String) (types : List EdgeType) (size : ℕ)
      → let Chunk = InScope client.chunks s.chunks_index filters in
        let Community = IsCommunityInScope client.communities s.communities_index filters in
        All Chunk (lexical_search client s query filters size)
        × All Chunk (vector_search client s vector filters size)
        × All Chunk (symbol_search client s names filters size)
        × All Chunk (edge_search client s names filters size)
        × All Chunk (neighbor_chunks client s names types filters size)
        × All Community (community_search client s query vector filters size)
  unfolding community_search
  search_port-InScope s filters query vector names types size =
      let Chunk = InScope client.chunks s.chunks_index filters in
      let Found = IsFound client.chunks s.chunks_index in
      let returned = search-IsFound client.chunks s.chunks_index in
      let from = hit_of-InScope client.chunks s.chunks_index filters in
      let marked = λ (key : String). mark-InScope client.chunks s.chunks_index key filters in
      let leg = lexical_search-All client s filters Chunk Found returned from marked in
      (
        leg query size,
        vector_search-All client s filters Chunk Found returned from marked vector size,
        symbol_search-All client s filters Chunk Found returned from marked names size,
        edge_search-All client s filters Chunk Found returned from marked names size,
        neighbor_chunks-All client s filters Chunk Found returned from marked names types size,
        elim (Bool-cases (eqb size 0)) [
          | inl zero_asked ↦ rw zero_asked tt
          | inr asked ↦ rw asked (
              community_hits-InScope client.communities s.communities_index filters _
                (client.communities.search_filtered (community_filters_pass filters) _ size _)
                (search-IsFound client.communities s.communities_index _ _ size))
        ],
      )

  -- `project_of` tells the project of every chunk and community that is kept, by its id.
  abbrev pub owned_chunk : (String → String) → CodeChunk Score → Bool
  owned_chunk project_of c = c.gitlab_project_id == project_of c.chunk_id

  abbrev pub owned_community : (String → String) → CodeCommunity Score → Bool
  owned_community project_of c = c.gitlab_project_id == project_of c.community_id

  abbrev pub IsOwned : (String → String) → Indices client → Type 0
  IsOwned project_of s =
      client.chunks.Holds (owned_chunk project_of) s.chunks_index
      × client.communities.Holds (owned_community project_of) s.communities_index

  owned_allowed :
      (project_of : String → String) (filters : Filters) (c : CodeChunk Score)
      → filters_pass filters c ≡ true
      → owned_chunk project_of c ≡ true
      → contains (project_of c.chunk_id) filters.allowed_project_ids ≡ true
  unfolding filters_pass
  owned_allowed project_of filters c passes owned =
      subst (λ p. contains p filters.allowed_project_ids ≡ true)
        ((string_eq.same_iff c.gitlab_project_id (project_of c.chunk_id)).0 owned)
        (ground (arith, passes))

  owned_community_allowed :
      (project_of : String → String) (filters : Filters) (c : CodeCommunity Score)
      → community_filters_pass filters c ≡ true
      → owned_community project_of c ≡ true
      → contains (project_of c.community_id) filters.allowed_project_ids ≡ true
  unfolding community_filters_pass
  owned_community_allowed project_of filters c passes owned =
      subst (λ p. contains p filters.allowed_project_ids ≡ true)
        ((string_eq.same_iff c.gitlab_project_id (project_of c.community_id)).0 owned)
        (ground (arith, passes))

  communities_allowed :
      (project_of : String → String) (filters : Filters)
      (items : List (Item Score (CodeCommunity Score)))
      → All (λ item. community_filters_pass filters item.source ≡ true) items
      → All (λ item. owned_community project_of item.source ≡ true) items
      → All
          (λ hit. contains (project_of hit.chunk_id) filters.allowed_project_ids ≡ true)
          (map community_hit_of items)
  unfolding community_hit_of
  communities_allowed project_of filters [] passes owned = tt
  communities_allowed project_of filters (item ∷ items) passes owned = (
    owned_community_allowed project_of filters item.source passes.0 owned.0,
    communities_allowed project_of filters items passes.1 owned.1,
  )

  community_search-Allowed :
      (project_of : String → String) (s : Indices client) (filters : Filters)
      → client.communities.Holds (owned_community project_of) s.communities_index
      → (query : String) (vector : List Score) (size : ℕ)
      → All
          (λ hit. contains (project_of hit.chunk_id) filters.allowed_project_ids ≡ true)
          (community_search client s query vector filters size)
  unfolding community_search
  community_search-Allowed project_of s filters owned query vector size =
      elim (Bool-cases (eqb size 0)) [
        | inl zero_asked ↦ rw zero_asked tt
        | inr asked ↦ rw asked (
            communities_allowed project_of filters _
              (client.communities.search_filtered (community_filters_pass filters) _ size _)
              (client.communities.search_holds (owned_community project_of) _ _ size _ owned))
      ]

  -- Where `project_of` tells the project of every chunk and community that is kept, the adapter is
  -- a search port whose legs honour the filter on projects.
  pub search_port-IsFiltered :
      (project_of : String → String) (s : Indices client)
      → IsOwned project_of s
      → IsFiltered project_of (search_port client s)
  unfolding community_search hit_of community_hit_of
  search_port-IsFiltered project_of s (chunks_owned, communities_owned) =
      let returned = λ (q : CodeChunk Score → Bool) (relevance : List (Relevance Score)) (n : ℕ).
        client.chunks.search_holds (owned_chunk project_of) q relevance n s.chunks_index
          chunks_owned in
      let Allowed = λ (filters : Filters) (hit : SearchHit Score (Value Score)).
        contains (project_of hit.chunk_id) filters.allowed_project_ids ≡ true in
      let Owned = λ (c : CodeChunk Score). owned_chunk project_of c ≡ true in
      let from =
        λ (filters : Filters) (item : Item Score (CodeChunk Score))
            (passes : filters_pass filters item.source ≡ true)
            (owned : owned_chunk project_of item.source ≡ true).
          owned_allowed project_of filters item.source passes owned in
      record {
        lexical_filtered = λ query filters size hits is_some.
            subst (All (Allowed filters)) (ap (some_or hits) is_some) (
              lexical_search-All client s filters (Allowed filters) Owned returned (from filters)
                (λ key hit other other' h. h) query size);
        symbol_filtered = λ names filters size hits is_some.
            subst (All (Allowed filters)) (ap (some_or hits) is_some) (
              symbol_search-All client s filters (Allowed filters) Owned returned (from filters)
                (λ key hit other other' h. h) names size);
        edge_filtered = λ names filters size hits is_some.
            subst (All (Allowed filters)) (ap (some_or hits) is_some) (
              edge_search-All client s filters (Allowed filters) Owned returned (from filters)
                (λ key hit other other' h. h) names size);
        vector_filtered = λ dense filters size hits is_some.
            subst (All (Allowed filters)) (ap (some_or hits) is_some) (
              vector_search-All client s filters (Allowed filters) Owned returned (from filters)
                (λ key hit other other' h. h) dense size);
        neighbors_filtered = λ f is_some fqns types filters size.
            subst (λ g. All (Allowed filters) (g fqns types filters size)) (ap (some_or f) is_some)
              (neighbor_chunks-All client s filters (Allowed filters) Owned returned (from filters)
                (λ key hit other other' h. h) fqns types size);
        community_filtered = λ query dense filters size hits is_some.
            subst (All (Allowed filters)) (ap (some_or hits) is_some)
              (community_search-Allowed project_of s filters communities_owned query dense size);
      }
