-- ===== src/Retrieval/Fusion.antt =====
-- Reciprocal rank fusion: `RetrievalService._rrf`,
-- src/code_rag/apps/retrieval/retrieval_service.py.
use code_rag.Prelude.{
  ℕ, suc, ◌+◌, String, Bool, Option, none, some, List, [], ◌∷◌, map, nat_eq, string_eq, list_eq,
  pair_eq, option_eq,
}
use code_rag.Prelude.Dict.{Dict, values, get, put}
use code_rag.Prelude.Sort.{sort_by}
use code_rag.Prelude.Unique.{set_default}
use code_rag.Retrieval.Hits.{SearchHit, Scores}

abbrev pub some_or : {V : Type 0} → V → Option V → V
some_or v none = v
some_or v (some w) = w

-- d.get(key, default)
abbrev pub get_or : {V : Type 0} → V → String → Dict String V → V
get_or v c d = some_or v (get c d)

-- The two dictionaries that the loop fills.
pub record Fused (Score Value : Type 0) : Type 0 where
  pub scores : Dict String Score
  pub hits : Dict String (SearchHit Score Value)

module _ {Score Value : Type 0} (numbers : Scores Score) where
  unfoldable pub count_hit : ℕ → ℕ → SearchHit Score Value → Fused Score Value → Fused Score Value
  count_hit k rank hit fused = record {
    scores =
        put hit.chunk_id
          (numbers.plus (get_or numbers.nothing hit.chunk_id fused.scores)
            (numbers.reciprocal (k + rank)))
          fused.scores;
    hits = set_default hit.chunk_id hit fused.hits;
  }

  -- for rank, hit in enumerate(result_set, start=1)
  unfoldable pub count_set :
      ℕ → ℕ → List (SearchHit Score Value) → Fused Score Value → Fused Score Value
  count_set k rank [] fused = fused
  count_set k rank (hit ∷ result_set) fused =
      count_set k (suc rank) result_set (count_hit k rank hit fused)

  unfoldable pub count_sets :
      ℕ → List (List (SearchHit Score Value)) → Fused Score Value → Fused Score Value
  count_sets k [] fused = fused
  count_sets k (result_set ∷ result_sets) fused =
      count_sets k result_sets (count_set k 1 result_set fused)

  -- hit.score = scores[hit.chunk_id]; both dictionaries have the same keys.
  unfoldable pub with_score : Dict String Score → SearchHit Score Value → SearchHit Score Value
  with_score scores hit = record hit { score = get_or numbers.nothing hit.chunk_id scores }

  -- sorted(..., key=lambda item: item.score, reverse=True)
  abbrev pub best_first : SearchHit Score Value → SearchHit Score Value → Bool
  best_first x y = numbers.at_most y.score x.score

  unfoldable pub rrf : ℕ → List (List (SearchHit Score Value)) → List (SearchHit Score Value)
  unfolding count_sets count_set count_hit with_score
  rrf k result_sets =
      let fused = count_sets k result_sets (record { scores = []; hits = [] }) in
      sort_by best_first (map (with_score fused.scores) (values fused.hits))
