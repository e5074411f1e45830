-- ===== src/Retrieval/Rerank.antt =====
-- The reranker: src/code_rag/apps/retrieval/reranker.py. Python's text functions, the tests of
-- metadata values and the numpy MaxSim score are parameters; the cross-encoder is a service.
use code_rag.Prelude.{
  ℕ, String, Bool, true, false, not, ◌&&◌, ◌||◌, Option, none, some, List, [], ◌∷◌, map, eqb,
  if◌then◌else◌, ◌==◌, nat_eq, string_eq, list_eq, pair_eq, option_eq, length, take, any,
}
use code_rag.Prelude.Dict.{get, put}
use code_rag.Prelude.Sort.{sort_by}
use code_rag.Retrieval.Hits.{SearchHit, Scores}
use code_rag.Retrieval.Fusion.{some_or, best_first}
use code_rag.Retrieval.Expansion.{
  QueryType, definition_lookup, usage_lookup, test_question, config_question, deployment_question,
}

pub record RerankSettings (Score : Type 0) : Type 0 where
  pub rerank_identifier_boost : Score
  pub rerank_definition_boost : Score
  pub rerank_usage_boost : Score
  pub rerank_test_boost : Score
  pub rerank_config_boost : Score
  pub rerank_graph_neighbor_boost : Score
  pub rerank_community_boost : Score
  pub rerank_late_interaction_weight : Score
  pub rerank_cross_encoder_candidates : ℕ
  pub rerank_cross_encoder_weight : Score

-- What the code takes from Python and numpy. `max_sim query late` is `none` where one of the
-- two matrices is missing.
pub record Outside (Score Value Matrix : Type 0) : Type 0 where
  -- text.lower()
  pub lower : String → String
  -- part in text
  pub occurs : String → String → Bool
  -- " ".join(texts)
  pub join : List String → String
  -- bool(value)
  pub is_truthy : Value → Bool
  -- value == text
  pub is_text : Value → String → Bool
  pub of_score : Score → Value
  pub max_sim : Matrix → Option Value → Option Score

abbrev pub is_query : QueryType → QueryType → Bool
is_query definition_lookup definition_lookup = true
is_query usage_lookup usage_lookup = true
is_query test_question test_question = true
is_query config_question config_question = true
is_query deployment_question deployment_question = true
is_query x y = false

module _ {Score Value Matrix : Type 0} (numbers : Scores Score)
    (outside : Outside Score Value Matrix) (settings : RerankSettings Score) where
  abbrev pub raised : Bool → Score → Score → Score
  raised applies boost value = if applies then numbers.plus value boost else value

  -- hit.metadata.get(key) == text
  abbrev pub is_meta : SearchHit Score Value → String → String → Bool
  is_meta hit key text = elim (get key hit.metadata) [
    | none ↦ false
    | some value ↦ outside.is_text value text
  ]

  -- if hit.metadata.get(key)
  abbrev pub has_meta : SearchHit Score Value → String → Bool
  has_meta hit key = elim (get key hit.metadata) [
    | none ↦ false
    | some value ↦ outside.is_truthy value
  ]

  unfoldable pub haystack : SearchHit Score Value → String
  haystack hit = outside.lower (
      outside.join (
        some_or "" hit.symbol_name
        ∷ some_or "" hit.symbol_fqn
        ∷ hit.file_path
        ∷ hit.repo_path_with_namespace
        ∷ []))

  -- min(similarity, 1.0) * weight, where both embeddings are there
  unfoldable pub add_late : Matrix → SearchHit Score Value → Score → Score
  add_late query_matrix hit value =
      elim (outside.max_sim query_matrix (get "embedding_late_interaction" hit.metadata)) [
        | none ↦ value
        | some similarity ↦
            let capped =
              if numbers.at_most similarity numbers.one then similarity else numbers.one in
            numbers.plus value (numbers.times capped settings.rerank_late_interaction_weight)
      ]

  unfoldable pub heuristic_score : QueryType → List String → Matrix → SearchHit Score Value → Score
  unfolding haystack add_late
  heuristic_score query_type identifiers query_matrix hit =
      let identifier_text = outside.lower (outside.join identifiers) in
      let names =
        any (λ identifier. outside.occurs (outside.lower identifier) (haystack hit)) identifiers in
      let v1 =
        raised (not (identifier_text == "") && names) settings.rerank_identifier_boost hit.score in
      let v2 =
        raised (is_query query_type definition_lookup && is_meta hit "symbol_role" "definition")
          settings.rerank_definition_boost v1 in
      let v3 =
        raised (is_query query_type usage_lookup && has_meta hit "edge_match")
          settings.rerank_usage_boost v2 in
      let v4 =
        raised
          (is_query query_type test_question
            && (outside.occurs "test" (outside.lower hit.file_path)
                || hit.chunk_kind == "test_case"))
          settings.rerank_test_boost v3 in
      let v5 =
        raised
          ((is_query query_type config_question || is_query query_type deployment_question)
            && is_meta hit "symbol_role" "none")
          settings.rerank_config_boost v4 in
      let v6 = raised (has_meta hit "graph_expanded") settings.rerank_graph_neighbor_boost v5 in
      let v7 = raised (hit.chunk_kind == "community_summary") settings.rerank_community_boost v6 in
      add_late query_matrix hit v7

  unfoldable pub scored_hit :
      QueryType → List String → Matrix → SearchHit Score Value → SearchHit Score Value
  unfolding heuristic_score
  scored_hit query_type identifiers query_matrix hit = record hit {
    score = heuristic_score query_type identifiers query_matrix hit;
  }

  -- min(scores) and max(scores), of a list that is not empty
  abbrev pub lowest : Score → List Score → Score
  lowest x [] = x
  lowest x (y ∷ ys) = lowest (if numbers.at_most x y then x else y) ys

  abbrev pub highest : Score → List Score → Score
  highest x [] = x
  highest x (y ∷ ys) = highest (if numbers.at_most y x then x else y) ys

  -- The loop over zip(candidates, scores); the hits past the candidates stay as they are.
  unfoldable pub blend :
      Score → Score → List Score → List (SearchHit Score Value) → List (SearchHit Score Value)
  blend lo span [] hits = hits
  blend lo span (raw ∷ scores) [] = []
  blend lo span (raw ∷ scores) (hit ∷ hits) =
      record hit {
        score = numbers.plus hit.score (
            numbers.over (numbers.times settings.rerank_cross_encoder_weight (numbers.minus raw lo))
              span);
        metadata = put "cross_encoder_score" (outside.of_score raw) hit.metadata;
      }
      ∷ blend lo span scores hits

  -- The steps below the length test. `min` of no scores fails, which is `none`.
  unfoldable pub blend_all :
      List Score → List (SearchHit Score Value) → Option (List (SearchHit Score Value))
  unfolding blend
  blend_all [] hits = none
  blend_all (raw ∷ more) hits =
      let lo = lowest raw more in
      let spread = numbers.minus (highest raw more) lo in
      some (blend lo (if numbers.is_zero spread then numbers.one else spread) (raw ∷ more) hits)

  -- `cross_encoder` is `none` where there is none or it is not enabled.
  unfoldable pub apply_cross_encoder :
      Option (String → List String → List Score)
      → String
      → List (SearchHit Score Value)
      → Option (List (SearchHit Score Value))
  unfolding blend_all
  apply_cross_encoder none query hits = some hits
  apply_cross_encoder (some encode) query hits =
      let candidates = take settings.rerank_cross_encoder_candidates hits in
      let scores = encode query (map (λ hit. hit.text) candidates) in
      if query == "" || not (eqb (length scores) (length candidates))
      then some hits
      else blend_all scores hits

  unfoldable pub rerank :
      Option (String → List String → List Score)
      → List (SearchHit Score Value)
      → QueryType
      → List String
      → Matrix
      → String
      → Option (List (SearchHit Score Value))
  unfolding scored_hit apply_cross_encoder
  rerank cross_encoder hits query_type identifiers query_matrix query =
      let scored = map (scored_hit query_type identifiers query_matrix) hits in
      elim (apply_cross_encoder cross_encoder query scored) [
        | none ↦ none
        | some blended ↦ some (sort_by (best_first numbers) blended)
      ]
