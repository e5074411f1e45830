-- ===== src/Retrieval/Reranked.antt =====
-- What the reranker returns: the same chunks, best first, and where it fails.
use code_rag.Prelude.{
  ◌≤◌, ◌<◌, String, ◌≡◌, refl, sym, ap, ◌∙◌, subst, inl, inr, false, not, ◌||◌, none, some, List,
  [], ◌∷◌, map, arith, eqb, Bool-cases, ◌==◌, nat_eq, string_eq, list_eq, pair_eq, option_eq,
  length, take, length-take, take-nil, length-map,
}
use code_rag.Prelude.Sets.{contains}
use code_rag.Prelude.Sort.{sort_by, IsSorted, sort_by-IsSorted}
use code_rag.Prelude.Unique.{IsUnique, contains-map-sort_by, sort_by-IsUnique}
use code_rag.Retrieval.Hits.{SearchHit, Scores}
use code_rag.Retrieval.Fusion.{best_first}
use code_rag.Retrieval.Ranking.{best_first-IsTotal}
use code_rag.Retrieval.Expansion.{QueryType}
use code_rag.Retrieval.Rerank.{
  RerankSettings, Outside, blend, apply_cross_encoder, rerank, scored_hit, blend_all,
}

module _ {Score Value Matrix : Type 0} (numbers : Scores Score)
    (outside : Outside Score Value Matrix) (settings : RerankSettings Score) where
  abbrev pub chunk_ids : List (SearchHit Score Value) → List String
  chunk_ids hits = map (λ hit. hit.chunk_id) hits

  ids-blend :
      (lo span : Score) (scores : List Score) (hits : List (SearchHit Score Value))
      → length scores ≤ length hits
      → chunk_ids (blend numbers outside settings lo span scores hits) ≡ chunk_ids hits
  unfolding blend
  ids-blend lo span [] hits enough = refl
  ids-blend lo span (raw ∷ scores) [] enough = absurd (omega arith)
  ids-blend lo span (raw ∷ scores) (hit ∷ hits) enough =
      ap (λ rest. hit.chunk_id ∷ rest) (ids-blend lo span scores hits (omega arith))

  pub ids-blend_all :
      (scores : List Score) (hits : List (SearchHit Score Value))
      → 0 < length scores
      → length scores ≤ length hits
      → (blended : List (SearchHit Score Value)) × (blend_all numbers outside settings scores hits
          ≡ some blended)
        × (chunk_ids blended ≡ chunk_ids hits)
  unfolding blend_all
  ids-blend_all [] hits positive fits = absurd (omega arith)
  ids-blend_all (raw ∷ more) hits positive fits = (_, refl, ids-blend _ _ (raw ∷ more) hits fits)

  -- Where a score can be asked for, the cross-encoder step returns the same chunks in order.
  ids-apply_cross_encoder :
      (encode : String → List String → List Score) (query : String)
      (hits : List (SearchHit Score Value))
      → 0 < length hits
      → 0 < settings.rerank_cross_encoder_candidates
      → (blended : List (SearchHit Score Value)) × (apply_cross_encoder numbers outside settings
            (some encode)
            query
            hits
          ≡ some blended)
        × (chunk_ids blended ≡ chunk_ids hits)
  unfolding apply_cross_encoder
  ids-apply_cross_encoder encode query hits some_hits some_candidates =
      let same_length = length-take settings.rerank_cross_encoder_candidates hits in
      let candidates = take settings.rerank_cross_encoder_candidates hits in
      let scores = encode query (map (λ hit. hit.text) candidates) in
      elim (Bool-cases (query == "" || not (eqb (length scores) (length candidates)))) [
        | inl skipped ↦ rw skipped (hits, refl, refl)
        | inr asked ↦
            rw asked (
              ids-blend_all scores hits (ground (arith, same_length)) (ground (arith, same_length)))
      ]

  pub ids-scored_hit :
      (query_type : QueryType) (identifiers : List String) (query_matrix : Matrix)
      (hits : List (SearchHit Score Value))
      → chunk_ids
          (map (scored_hit numbers outside settings query_type identifiers query_matrix) hits)
        ≡ chunk_ids hits
  unfolding scored_hit
  ids-scored_hit query_type identifiers query_matrix [] = refl
  ids-scored_hit query_type identifiers query_matrix (hit ∷ hits) =
      ap (λ rest. hit.chunk_id ∷ rest) (ids-scored_hit query_type identifiers query_matrix hits)

  -- Of at least one hit, with at least one candidate for the cross-encoder, the reranker returns
  -- the chunks it was given, each once if they were, best first, whatever the cross-encoder answers.
  pub rerank_lem :
      (encode : String → List String → List Score) (hits : List (SearchHit Score Value))
      (query_type : QueryType) (identifiers : List String) (query_matrix : Matrix) (query : String)
      → 0 < length hits
      → 0 < settings.rerank_cross_encoder_candidates
      → IsUnique (chunk_ids hits)
      → (ranked : List (SearchHit Score Value)) × (rerank numbers outside settings
            (some encode)
            hits
            query_type
            identifiers
            query_matrix
            query
          ≡ some ranked)
        × IsSorted (best_first numbers) ranked
        × IsUnique (chunk_ids ranked)
        × ((c : String) → contains c (chunk_ids ranked) ≡ contains c (chunk_ids hits))
  unfolding rerank
  rerank_lem encode hits query_type identifiers query_matrix query some_hits some_candidates
        unique =
      let scored =
        map (scored_hit numbers outside settings query_type identifiers query_matrix) hits in
      let same = ids-scored_hit query_type identifiers query_matrix hits in
      let (blended, e, ordered) =
        ids-apply_cross_encoder encode query scored
          (omega (
            arith,
            length-map (scored_hit numbers outside settings query_type identifiers query_matrix)
                hits,
          ))
          some_candidates in
      (
        sort_by (best_first numbers) blended,
        rw (rerank, e) refl,
        sort_by-IsSorted (best_first numbers) (best_first-IsTotal numbers 0) blended,
        sort_by-IsUnique (λ hit. hit.chunk_id) (best_first numbers) blended
            (subst IsUnique (sym (ordered ∙ same)) unique),
        λ c.
            contains-map-sort_by (λ hit. hit.chunk_id) (best_first numbers) c blended
            ∙ ap (contains c) (ordered ∙ same),
      )

  -- Without a hit the reranker fails when a cross-encoder that answers no texts with no scores is
  -- asked about a query that is not empty.
  pub rerank_fails :
      (encode : String → List String → List Score) (query_type : QueryType)
      (identifiers : List String) (query_matrix : Matrix) (query : String)
      → (query == "") ≡ false
      → encode query [] ≡ []
      → rerank numbers outside settings (some encode) [] query_type identifiers query_matrix query
        ≡ none
  unfolding rerank apply_cross_encoder blend_all
  rerank_fails encode query_type identifiers query_matrix query asked silent =
      rw
        (
          rerank,
          apply_cross_encoder,
          take-nil settings.rerank_cross_encoder_candidates,
          silent,
          asked,
        )
        refl
