-- ===== src/Retrieval/Inside.antt =====
-- What a search answers: chunks of the granted projects, each once, no more than asked for.
use code_rag.Prelude.{
  ℕ, ◌≤◌, String, ◌≡◌, refl, sym, ap, ◌∙◌, subst, inl, inr, not, ◌||◌, Option, none, some, List, [],
  ◌∷◌, map, arith, eqb, Bool-cases, Option-cases, ◌==◌, nat_eq, string_eq, list_eq, pair_eq,
  option_eq, length, take, length-take, All, All-append,
}
use code_rag.Prelude.Sets.{contains}
use code_rag.Prelude.Sort.{sort_by}
use code_rag.Prelude.Unique.{IsUnique, sort_by-IsUnique, contains-map-sort_by}
use code_rag.Retrieval.Hits.{SearchHit, Scores}
use code_rag.Retrieval.Fusion.{some_or, best_first}
use code_rag.Retrieval.Expansion.{QueryType, EdgeType}
use code_rag.Retrieval.Rerank.{
  RerankSettings, Outside, blend_all, scored_hit, apply_cross_encoder, rerank,
}
use code_rag.Retrieval.Reranked.{chunk_ids, ids-scored_hit, ids-blend_all}
use code_rag.Retrieval.Passing.{Pass, expand-Pass}
use code_rag.Retrieval.Service.{
  SearchRequest, Filters, SearchSettings, SearchPort, Parts, community_search, leg_hits,
  neighbor_hits, community_hits, result_sets, append_set, under, also,
}

module _ {Score Value Matrix : Type 0} (numbers : Scores Score)
    (outside : Outside Score Value Matrix) (settings : RerankSettings Score) where
  ids-blend_all-some :
      (scores : List Score) (hits blended : List (SearchHit Score Value))
      → length scores ≤ length hits
      → blend_all numbers outside settings scores hits ≡ some blended
      → chunk_ids numbers outside settings blended ≡ chunk_ids numbers outside settings hits
  unfolding blend_all
  ids-blend_all-some [] hits blended fits e = absurd (ground arith)
  ids-blend_all-some (raw ∷ more) hits blended fits e =
      let (found, e', same) =
        ids-blend_all numbers outside settings (raw ∷ more) hits (omega arith) fits in
      ap (λ o. map (λ hit. hit.chunk_id) (some_or found o)) (sym e ∙ e') ∙ same

  ids-apply_some :
      (cross_encoder : Option (String → List String → List Score)) (query : String)
      (hits blended : List (SearchHit Score Value))
      → apply_cross_encoder numbers outside settings cross_encoder query hits ≡ some blended
      → chunk_ids numbers outside settings blended ≡ chunk_ids numbers outside settings hits
  unfolding apply_cross_encoder
  ids-apply_some none query hits blended e =
      ap (λ o. map (λ hit. hit.chunk_id) (some_or hits o)) (sym e)
  ids-apply_some (some encode) query hits blended e =
      let same_length = length-take settings.rerank_cross_encoder_candidates hits in
      let candidates = take settings.rerank_cross_encoder_candidates hits in
      let scores = encode query (map (λ hit. hit.text) candidates) in
      elim (Bool-cases (query == "" || not (eqb (length scores) (length candidates)))) [
        | inl skipped ↦
            let kept : apply_cross_encoder numbers outside settings (some encode) query hits
                ≡ some hits =
              rw (apply_cross_encoder, skipped) refl in
            ap (λ o. map (λ hit. hit.chunk_id) (some_or hits o)) (sym e ∙ kept)
        | inr asked ↦
            let asks : apply_cross_encoder numbers outside settings (some encode) query hits
                ≡ blend_all numbers outside settings scores hits =
              rw (apply_cross_encoder, asked) refl in
            ids-blend_all-some scores hits blended (ground (arith, same_length)) (sym asks ∙ e)
      ]

  -- What a rerank that succeeds returns.
  pub rerank-some :
      (cross_encoder : Option (String → List String → List Score))
      (hits ranked : List (SearchHit Score Value)) (query_type : QueryType)
      (identifiers : List String) (query_matrix : Matrix) (query : String)
      → rerank numbers outside settings cross_encoder hits query_type identifiers query_matrix query
        ≡ some ranked
      → IsUnique (chunk_ids numbers outside settings hits)
      → IsUnique (chunk_ids numbers outside settings ranked)
        × ((c : String)
            → contains c (chunk_ids numbers outside settings ranked)
              ≡ contains c (chunk_ids numbers outside settings hits))
  unfolding rerank
  rerank-some cross_encoder hits ranked query_type identifiers query_matrix query e unique =
      let scored =
        map (scored_hit numbers outside settings query_type identifiers query_matrix) hits in
      let same = ids-scored_hit numbers outside settings query_type identifiers query_matrix hits in
      elim (Option-cases
        (apply_cross_encoder numbers outside settings cross_encoder query scored)) [
          | inl failing ↦ absurd (ground (arith, e, failing))
          | inr (blended, done) ↦
              let order = ids-apply_some cross_encoder query scored blended done ∙ same in
              let sorted : sort_by (best_first numbers) blended ≡ ranked =
                let ends : rerank numbers outside settings cross_encoder hits query_type identifiers
                      query_matrix query
                    ≡ some (sort_by (best_first numbers) blended) =
                  rw (rerank, done) refl in
                ap (some_or ranked) (sym ends ∙ e) in
              (
                subst (λ r. IsUnique (chunk_ids numbers outside settings r)) sorted
                    (sort_by-IsUnique (λ hit. hit.chunk_id) (best_first numbers) blended
                      (subst IsUnique (sym order) unique)),
                λ c.
                    ap (λ r. contains c (chunk_ids numbers outside settings r)) (sym sorted)
                    ∙ contains-map-sort_by (λ hit. hit.chunk_id) (best_first numbers) c blended
                    ∙ ap (contains c) order,
              )
        ]

-- The legs of the index honour the filter on projects: a hit is of a chunk of one of them, where
-- `project_of` tells the project of a chunk.
pub record IsFiltered {Score Value : Type 0} (project_of : String → String)
    (index : SearchPort Score Value) : Type 0 where
  pub lexical_filtered :
      (query : String) (filters : Filters) (size : ℕ) (hits : List (SearchHit Score Value))
      → index.lexical_search query filters size ≡ some hits
      → Pass (λ c. contains (project_of c) filters.allowed_project_ids) hits
  pub symbol_filtered :
      (names : List String) (filters : Filters) (size : ℕ) (hits : List (SearchHit Score Value))
      → index.symbol_search names filters size ≡ some hits
      → Pass (λ c. contains (project_of c) filters.allowed_project_ids) hits
  pub edge_filtered :
      (names : List String) (filters : Filters) (size : ℕ) (hits : List (SearchHit Score Value))
      → index.edge_search names filters size ≡ some hits
      → Pass (λ c. contains (project_of c) filters.allowed_project_ids) hits
  pub vector_filtered :
      (dense : List Score) (filters : Filters) (size : ℕ) (hits : List (SearchHit Score Value))
      → index.vector_search dense filters size ≡ some hits
      → Pass (λ c. contains (project_of c) filters.allowed_project_ids) hits
  pub neighbors_filtered :
      (f : List String → List EdgeType → Filters → ℕ → List (SearchHit Score Value))
      → index.neighbor_chunks ≡ some f
      → (fqns : List String) (edges : List EdgeType) (filters : Filters) (size : ℕ)
      → Pass (λ c. contains (project_of c) filters.allowed_project_ids) (f fqns edges filters size)
  pub community_filtered :
      (query : String) (dense : List Score) (filters : Filters) (size : ℕ)
      → (hits : List (SearchHit Score Value))
      → index.community_search query dense filters size ≡ some hits
      → Pass (λ c. contains (project_of c) filters.allowed_project_ids) hits

module _ {Score Value Matrix : Type 0} (numbers : Scores Score)
    (outside : Outside Score Value Matrix) (rerank_settings : RerankSettings Score)
    (settings : SearchSettings) (index : SearchPort Score Value) (parts : Parts Score Value Matrix)
    (true_value : Value) (project_of : String → String)
    (honours : IsFiltered project_of index) where
  abbrev pub Granted : Filters → List (SearchHit Score Value) → Type 0
  Granted filters hits = Pass (λ c. contains (project_of c) filters.allowed_project_ids) hits

  some_or-Granted :
      (filters : Filters) (o : Option (List (SearchHit Score Value)))
      → ((hits : List (SearchHit Score Value)) → o ≡ some hits → Granted filters hits)
      → Granted filters (some_or [] o)
  some_or-Granted filters none right = tt
  some_or-Granted filters (some hits) right = right hits refl

  community_hits-Granted :
      (request : SearchRequest) (filters : Filters) (dense : List Score)
      → Granted filters (
          community_hits numbers outside rerank_settings settings index parts true_value request
            filters dense)
  unfolding community_hits community_search
  community_hits-Granted request filters dense =
      elim (Bool-cases settings.community_detection_enabled) [
        | inl on ↦
            simp on
              (some_or-Granted filters _ (honours.community_filtered request.query dense filters _))
        | inr off ↦ simp off tt
      ]

  under-Granted :
      (filters : Filters)
      (o : Option (List String → List EdgeType → Filters → ℕ → List (SearchHit Score Value)))
      → ((g : List String → List EdgeType → Filters → ℕ → List (SearchHit Score Value))
          → o ≡ some g
          → (fqns : List String) (edges : List EdgeType) (size : ℕ)
          → Granted filters (g fqns edges filters size))
      → (f : List String → List EdgeType → ℕ → List (SearchHit Score Value))
      → under filters o ≡ some f
      → (fqns : List String) (edges : List EdgeType) (size : ℕ)
      → Granted filters (f fqns edges size)
  under-Granted filters none right f e fqns edges size = absurd (ground arith)
  under-Granted filters (some g) right f e fqns edges size =
      subst (λ h. Granted filters (some_or f h fqns edges size)) e (right g refl fqns edges size)

  neighbor_hits-Granted :
      (request : SearchRequest) (filters : Filters) (legs : List (List (SearchHit Score Value)))
      → Granted filters (
          neighbor_hits numbers outside rerank_settings settings index parts true_value request
            filters legs)
  unfolding neighbor_hits
  neighbor_hits-Granted request filters legs = elim (Bool-cases settings.graph_expansion_enabled) [
    | inr off ↦ simp off tt
    | inl on ↦ simp on (
        expand-Pass true_value _ _ _ _ _ _ _ (
          under-Granted filters index.neighbor_chunks
            (λ g has fqns edges size. honours.neighbors_filtered g has fqns edges filters size)))
  ]

  append_set-Granted :
      (filters : Filters) (sets : List (List (SearchHit Score Value)))
      (hits : List (SearchHit Score Value))
      → All (Granted filters) sets
      → Granted filters hits
      → All
          (Granted filters)
          (append_set numbers outside rerank_settings settings index parts true_value sets hits)
  append_set-Granted filters sets [] old new = old
  append_set-Granted filters sets (hit ∷ hits) old new = All-append _ sets _ old (new, tt)

  also-All :
      (P : List (SearchHit Score Value) → Type 0) (o : Option (List (SearchHit Score Value)))
      (rest : Option (List (List (SearchHit Score Value))))
      → ((hits : List (SearchHit Score Value)) → o ≡ some hits → P hits)
      → ((sets : List (List (SearchHit Score Value))) → rest ≡ some sets → All P sets)
      → (sets : List (List (SearchHit Score Value))) → also o rest ≡ some sets
      → All P sets
  also-All P none rest one more sets e = absurd (ground arith)
  also-All P (some hits) none one more sets e = absurd (ground arith)
  also-All P (some hits) (some others) one more sets e =
      subst (All P) (ap (some_or sets) e) (one hits refl, more others refl)

  pub leg_hits-Granted :
      (request : SearchRequest) (filters : Filters) (dense : List Score)
      (legs : List (List (SearchHit Score Value)))
      → leg_hits numbers outside rerank_settings settings index parts true_value request filters
          dense
        ≡ some legs
      → All (Granted filters) legs
  unfolding leg_hits
  leg_hits-Granted request filters dense =
      also-All (Granted filters) _ _ (honours.symbol_filtered _ filters _) (
        also-All (Granted filters) _ _ (honours.edge_filtered _ filters _) (
          also-All (Granted filters) _ _ (honours.lexical_filtered _ filters _) (
            also-All (Granted filters) _ _ (honours.vector_filtered dense filters _)
              (λ sets e. subst (All (Granted filters)) (ap (some_or sets) e) tt))))

  pub result_sets-Granted :
      (request : SearchRequest) (filters : Filters) (dense : List Score)
      (legs : List (List (SearchHit Score Value)))
      → All (Granted filters) legs
      → All (Granted filters) (
          result_sets numbers outside rerank_settings settings index parts true_value request
            filters dense legs)
  unfolding result_sets
  result_sets-Granted request filters dense legs old =
      append_set-Granted filters _ _
        (append_set-Granted filters _ _ old (neighbor_hits-Granted request filters legs))
        (community_hits-Granted request filters dense)
