-- ===== src/Indexing/Records.antt =====
-- What the indexing service is given and returns: models of src/code_rag/domain/models/, and the
-- services it is built from. Dates are whole numbers of ticks.
use code_rag.Prelude.{ℕ, String, Bool, Option, List, nat_eq, string_eq, list_eq, pair_eq, option_eq}
use code_rag.Prelude.Dict.{Dict}
use code_rag.Elastic.Records.{CodeChunk, CodeSymbol, CodeEdge, CodeCommunity, FileMetadata}
use code_rag.Jobs.Records.{GitLabProject}
use code_rag.Indexing.Action.{Result}
use code_rag.Indexing.Embeddings.{Embedder}

pub record RepoMetadata : Type 0 where
  pub repo_path_with_namespace : String
  pub service_name : Option String
  pub team_owner : Option String
  pub business_domain : Option String
  pub slack_channel : Option String
  pub jira_project : Option String
  pub primary_language : Option String
  pub service_type : Option String
  pub deployment_name : Option String
  pub tags : List String

-- The document that `_index_repo` writes.
pub record RepoDocument : Type 0 where
  pub repo_id : String
  pub gitlab_project_id : String
  pub repo_path_with_namespace : String
  pub repo_name : String
  pub default_branch : Option String
  pub indexed_branch : String
  pub active_commit_sha : String
  pub last_indexed_commit_sha : String
  pub last_successful_index_at : ℕ
  pub description : Option String
  pub team_owner : Option String
  pub business_domain : Option String
  pub service_name : Option String
  pub slack_channel : Option String
  pub jira_project : Option String
  pub primary_language : Option String
  pub service_type : Option String
  pub deployment_name : Option String
  pub tags : List String
  pub index_status : String

pub record IndexSettings : Type 0 where
  pub tenant_id : String
  pub branch : String
  pub index_file_workers : ℕ
  pub skip_chunks_with_high_confidence_secrets : Bool
  pub community_detection_enabled : Bool

-- What a file is built into.
pub record BuiltFile (Score : Type 0) : Type 0 where
  pub metadata : FileMetadata
  pub chunks : List (CodeChunk Score)
  pub symbols : List CodeSymbol
  pub edges : List (CodeEdge Score)

pub record Tools (Score Content : Type 0) : Type 0 where
  pub embedder : Embedder Score
  -- how many of the files that follow one that raised the threads of the pool had taken by then
  pub started_after : List String → ℕ
  pub checkout : GitLabProject → String → Option String → Result (Dict String Content)
  pub head_sha : Dict String Content → Result String
  pub should_index : String → Dict String Content → Bool
  pub build_file :
      Dict String Content → String → GitLabProject → String → String → Result (BuiltFile Score)
  pub repo_metadata : GitLabProject → Result (Option RepoMetadata)
  pub detect :
      String
      → String
      → String
      → String
      → List CodeSymbol
      → List (CodeEdge Score)
      → Result (List (CodeCommunity Score))
  pub stable_id : List String → String
  pub content_hash : Content → String
