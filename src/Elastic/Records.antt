-- ===== src/Elastic/Records.antt =====
-- What the indices hold: the models of src/code_rag/domain/models/ that the indexing service builds.
-- Dates are whole numbers of ticks, and `Score` is the type of the floating-point numbers.
use code_rag.Prelude.{ℕ, String, Bool, Option, List, nat_eq, string_eq, list_eq, pair_eq, option_eq}
use code_rag.Chunking.Windows.{ChunkKind}
use code_rag.Retrieval.Expansion.{EdgeType}

pub data SymbolRole : Type 0 where
  definition reference mixed no_role : SymbolRole

pub data FileClass : Type 0 where
  source_code test_code config ci_cd deployment schema migration : FileClass
  documentation generated vendor binary large_unknown unknown : FileClass

-- EmbeddingResult
pub record EmbeddingResult (Score : Type 0) : Type 0 where
  pub dense : List Score
  pub late_interaction : List (List Score)

pub record CodeChunk (Score : Type 0) : Type 0 where
  pub chunk_id : String
  pub tenant_id : String
  pub gitlab_instance_url : String
  pub gitlab_project_id : String
  pub repo_path_with_namespace : String
  pub repo_name : String
  pub repo_url : String
  pub team_owner : Option String
  pub business_domain : Option String
  pub service_name : Option String
  pub slack_channel : Option String
  pub jira_project : Option String
  pub service_type : Option String
  pub deployment_name : Option String
  pub branch : String
  pub commit_sha : String
  pub active_snapshot : Bool
  pub file_path : String
  pub file_name : String
  pub file_extension : String
  pub language : String
  pub file_hash : String
  pub is_test : Bool
  pub is_generated : Bool
  pub is_vendor : Bool
  pub is_config : Bool
  pub is_migration : Bool
  pub is_deprecated : Bool
  pub chunk_type : String
  pub chunk_kind : ChunkKind
  pub symbol_role : SymbolRole
  pub symbol_name : Option String
  pub symbol_fqn : Option String
  pub symbol_kind : Option String
  pub parent_symbol_fqn : Option String
  pub parent_chunk_id : Option String
  pub line_start : ℕ
  pub line_end : ℕ
  pub gitlab_blob_url : String
  pub gitlab_raw_url : String
  pub text : String
  pub text_for_embedding : String
  pub summary : Option String
  pub imports : List String
  pub defines_symbols : List String
  pub references_symbols : List String
  pub calls_symbols : List String
  pub called_by_symbols : List String
  pub secret_findings_count : ℕ
  pub secret_redactions_count : ℕ
  pub secret_high_confidence_count : ℕ
  pub secret_types : List String
  pub embedding_dense : List Score
  pub embedding_late_interaction : List (List Score)
  pub embedding_model : Option String
  pub embedding_dimension : Option ℕ
  pub embedding_created_at : Option ℕ
  pub embedding_input_hash : Option String
  pub indexed_at : ℕ

pub record CodeSymbol : Type 0 where
  pub symbol_id : String
  pub tenant_id : String
  pub gitlab_project_id : String
  pub repo_path_with_namespace : String
  pub branch : String
  pub commit_sha : String
  pub language : String
  pub symbol_name : String
  pub symbol_fqn : String
  pub symbol_kind : String
  pub visibility : Option String
  pub exported : Bool
  pub definition_file_path : String
  pub definition_line_start : ℕ
  pub definition_line_end : ℕ
  pub definition_chunk_id : String
  pub definition_gitlab_url : String
  pub parent_symbol_fqn : Option String
  pub package_name : Option String
  pub module_path : Option String
  pub docstring : Option String
  pub signature : Option String
  pub annotations : List String
  pub decorators : List String
  pub referenced_by_count : ℕ
  pub called_by_count : ℕ
  pub tested_by_count : ℕ
  pub indexed_at : ℕ

pub record CodeEdge (Score : Type 0) : Type 0 where
  pub edge_id : String
  pub tenant_id : String
  pub branch : String
  pub commit_sha : String
  pub source_symbol_id : Option String
  pub source_symbol_fqn : Option String
  pub source_repo_project_id : String
  pub source_repo_path_with_namespace : Option String
  pub source_file_path : String
  pub source_line_start : ℕ
  pub target_symbol_id : Option String
  pub target_symbol_fqn : Option String
  pub target_repo_project_id : Option String
  pub target_file_path : Option String
  pub target_line_start : Option ℕ
  pub edge_type : EdgeType
  pub confidence : Score
  pub extraction_method : String
  pub indexed_at : ℕ

pub record CodeCommunity (Score : Type 0) : Type 0 where
  pub community_id : String
  pub tenant_id : String
  pub gitlab_project_id : String
  pub repo_path_with_namespace : String
  pub branch : String
  pub commit_sha : String
  pub label : String
  pub summary : String
  pub size : ℕ
  pub dominant_language : Option String
  pub member_symbol_fqns : List String
  pub member_chunk_ids : List String
  pub member_file_paths : List String
  pub representative_chunk_id : Option String
  pub representative_gitlab_url : Option String
  pub edge_count : ℕ
  pub embedding_dense : List Score
  pub indexed_at : ℕ

pub record FileMetadata : Type 0 where
  pub tenant_id : String
  pub gitlab_instance_url : String
  pub gitlab_project_id : String
  pub repo_path_with_namespace : String
  pub repo_name : String
  pub repo_url : String
  pub branch : String
  pub commit_sha : String
  pub file_path : String
  pub file_name : String
  pub file_extension : String
  pub language : String
  pub file_hash : String
  pub size_bytes : ℕ
  pub line_count : ℕ
  pub file_class : FileClass
  pub is_test : Bool
  pub is_generated : Bool
  pub is_vendor : Bool
  pub is_config : Bool
  pub is_migration : Bool
  pub is_binary : Bool
  pub is_large : Bool
  pub team_owner : Option String
  pub business_domain : Option String
  pub service_name : Option String
  pub slack_channel : Option String
  pub jira_project : Option String
  pub service_type : Option String
  pub deployment_name : Option String
  pub secret_findings_count : ℕ
  pub secret_redactions_count : ℕ
  pub secret_high_confidence_count : ℕ
