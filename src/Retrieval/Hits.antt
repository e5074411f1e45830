-- ===== src/Retrieval/Hits.antt =====
-- Search hits, src/code_rag/domain/models/search_hit.py, and the numbers that score them.
use code_rag.Prelude.{ℕ, String, Bool, Option, nat_eq, string_eq, list_eq, pair_eq, option_eq}
use code_rag.Prelude.Sort.{IsTotal}
use code_rag.Prelude.Dict.{Dict}

-- Values of `metadata` are a parameter: the services only test for a few keys.
pub record SearchHit (Score Value : Type 0) : Type 0 where
  pub chunk_id : String
  pub score : Score
  pub repo_path_with_namespace : String
  pub file_path : String
  pub line_start : ℕ
  pub line_end : ℕ
  pub language : String
  pub chunk_kind : String
  pub symbol_name : Option String
  pub symbol_fqn : Option String
  pub gitlab_blob_url : String
  pub text : String
  pub metadata : Dict String Value

-- The floating-point operations that the services apply to scores. `reciprocal n` is 1.0 / n, and
-- the only law is that comparison is a total preorder, which holds as no score is a NaN.
pub record Scores (Score : Type 0) : Type 0 where
  pub nothing : Score
  pub plus : Score → Score → Score
  pub minus : Score → Score → Score
  pub times : Score → Score → Score
  pub over : Score → Score → Score
  pub one : Score
  pub is_zero : Score → Bool
  pub reciprocal : ℕ → Score
  pub at_most : Score → Score → Bool
  pub at_most-IsTotal : IsTotal at_most
