-- ===== src/Retrieval/Answers.antt =====
-- The answer of a search.
use code_rag.Prelude.{
  ◌≤◌, String, ◌≡◌, refl, sym, ap, ◌∙◌, subst, inl, inr, List, map, arith, Option-cases, nat_eq,
  string_eq, list_eq, pair_eq, option_eq, length, take, length-take, All, All-take,
}
use code_rag.Prelude.Sets.{contains}
use code_rag.Prelude.Unique.{IsUnique}
use code_rag.Permissions.Service.{ok}
use code_rag.Retrieval.Hits.{SearchHit, Scores}
use code_rag.Retrieval.Fusion.{rrf}
use code_rag.Retrieval.Ranking.{rrf_lem}
use code_rag.Retrieval.Rerank.{RerankSettings, Outside, rerank}
use code_rag.Retrieval.Passing.{Pass, Pass-any, Pass-of, take-IsUnique}
use code_rag.Retrieval.Service.{
  SearchRequest, Filters, SearchSettings, SearchPort, Parts, Outcome, answered, denied, failed,
  filters_of, leg_hits, result_sets, query_embedding, ranked_hits, search_sync,
}
use code_rag.Retrieval.Inside.{IsFiltered, leg_hits-Granted, result_sets-Granted, rerank-some}

answer_or : {A : Type 0} → A → Outcome A → A
answer_or a (answered b) = b
answer_or a denied = a
answer_or a failed = a

module _ {Score Value Matrix : Type 0} (numbers : Scores Score)
    (outside : Outside Score Value Matrix) (rerank_settings : RerankSettings Score)
    (settings : SearchSettings) (index : SearchPort Score Value) (parts : Parts Score Value Matrix)
    (true_value : Value) (project_of : String → String) where
  ranked_hits-Granted :
      (request : SearchRequest) (filters : Filters) (embedding : List Score × Matrix)
      (legs : List (List (SearchHit Score Value))) (hits : List (SearchHit Score Value))
      → IsFiltered project_of index
      → All (Pass (λ c. contains (project_of c) filters.allowed_project_ids)) legs
      → ranked_hits numbers outside rerank_settings settings index parts true_value request filters
          embedding legs
        ≡ answered hits
      → (length hits ≤ request.top_k)
        × IsUnique (map (λ hit. hit.chunk_id) hits)
        × Pass (λ c. contains (project_of c) filters.allowed_project_ids) hits
  unfolding ranked_hits answer_or
  ranked_hits-Granted request filters embedding legs hits honours inside e =
      let sets =
        result_sets numbers outside rerank_settings settings index parts true_value request filters
          embedding.0 legs in
      let candidates = rrf numbers 60 sets in
      let fused = rrf_lem numbers 60 sets in
      let granted =
        result_sets-Granted numbers outside rerank_settings settings index parts true_value
          project_of honours request filters embedding.0 legs inside in
      elim (Option-cases (
        rerank numbers outside rerank_settings parts.cross_encoder candidates
          (parts.classify request.query) (parts.identifiers request.query) embedding.1
          request.query)) [
            | inl failing ↦
                let ends : ranked_hits numbers outside rerank_settings settings index parts
                      true_value request filters embedding legs
                    ≡ failed =
                  rw (ranked_hits, failing) refl in
                absurd (ground (arith, e, ends))
            | inr (ranked, done) ↦
                let ends : ranked_hits numbers outside rerank_settings settings index parts
                      true_value request filters embedding legs
                    ≡ answered (take request.top_k ranked) =
                  rw (ranked_hits, done) refl in
                let same : take request.top_k ranked ≡ hits = ap (answer_or hits) (sym ends ∙ e) in
                let (unique, from) =
                  rerank-some numbers outside rerank_settings parts.cross_encoder candidates ranked
                    _ _ _ request.query done fused.1 in
                let right =
                  Pass-of (λ c. contains (project_of c) filters.allowed_project_ids) ranked
                    (λ c here.
                      Pass-any (λ d. contains (project_of d) filters.allowed_project_ids) c sets
                        granted (sym (fused.0 c) ∙ sym (from c) ∙ here)) in
                (
                  omega (arith, length-take request.top_k ranked, ap length same),
                  subst (λ h. IsUnique (map (λ hit. hit.chunk_id) h)) same
                      (take-IsUnique (λ hit. hit.chunk_id) request.top_k ranked unique),
                  subst (Pass (λ c. contains (project_of c) filters.allowed_project_ids)) same
                      (All-take _ request.top_k ranked right),
                )
          ]

  -- An answer to a request that was granted some projects, from an index whose legs honour the
  -- filter on projects, holds at most `top_k` hits, of different chunks, each of a granted project.
  pub search_sync-Granted :
      (request : SearchRequest) (allowed : List String) (hits : List (SearchHit Score Value))
      → IsFiltered project_of index
      → search_sync numbers outside rerank_settings settings index parts true_value request
          (ok allowed)
        ≡ answered hits
      → (length hits ≤ request.top_k)
        × IsUnique (map (λ hit. hit.chunk_id) hits)
        × Pass (λ c. contains (project_of c) allowed) hits
  unfolding search_sync filters_of
  search_sync-Granted request allowed hits honours e =
      let filters = filters_of settings request allowed in
      elim (Option-cases (
        query_embedding numbers outside rerank_settings settings index parts true_value
          request.query)) [
            | inl raises ↦ absurd (ground (arith, e, raises))
            | inr (embedding, embedded) ↦
                elim (Option-cases (
                  leg_hits numbers outside rerank_settings settings index parts true_value request
                    filters embedding.0)) [
                      | inl raises ↦ absurd (ground (arith, e, embedded, raises))
                      | inr (legs, found) ↦
                          let whole : search_sync numbers outside rerank_settings settings index
                                parts true_value request (ok allowed)
                              ≡ ranked_hits numbers outside rerank_settings settings index parts
                                  true_value request filters embedding legs =
                            rw (search_sync, embedded) (rw found refl) in
                          ranked_hits-Granted request filters embedding legs hits honours
                            (leg_hits-Granted numbers outside rerank_settings settings index parts
                              true_value project_of honours request filters embedding.0 legs found)
                            (sym whole ∙ e)
                    ]
          ]
