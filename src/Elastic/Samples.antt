-- ===== src/Elastic/Samples.antt =====
-- Documents and indices that the tests use.
use code_rag.Prelude.{
  ℕ, String, true, false, none, some, [], ◌∷◌, if◌then◌else◌, ◌==◌, nat_eq, string_eq, list_eq,
  pair_eq, option_eq,
}
use code_rag.Chunking.Windows.{file}
use code_rag.Retrieval.Expansion.{calls}
use code_rag.Retrieval.Service.{Filters}
use code_rag.Elastic.Records.{
  definition, source_code, CodeChunk, CodeSymbol, CodeEdge, CodeCommunity, FileMetadata,
}
use code_rag.Elastic.Memory.{memory}
use code_rag.Elastic.Store.{Client, Indices, FileDocument}
use code_rag.Indexing.Records.{RepoDocument}

-- A chunk of tenant t, with its id, project, file and how many secrets it has.
abbrev pub a_chunk : String → String → String → ℕ → CodeChunk ℕ
a_chunk id project path secrets = record {
  chunk_id = id;
  tenant_id = "t";
  gitlab_instance_url = "";
  gitlab_project_id = project;
  repo_path_with_namespace = "g/r";
  repo_name = "r";
  repo_url = "";
  team_owner = none;
  business_domain = none;
  service_name = none;
  slack_channel = none;
  jira_project = none;
  service_type = none;
  deployment_name = none;
  branch = "main";
  commit_sha = "c";
  active_snapshot = true;
  file_path = path;
  file_name = path;
  file_extension = "";
  language = "python";
  file_hash = "h";
  is_test = false;
  is_generated = false;
  is_vendor = false;
  is_config = false;
  is_migration = false;
  is_deprecated = false;
  chunk_type = "file";
  chunk_kind = file;
  symbol_role = definition;
  symbol_name = none;
  symbol_fqn = none;
  symbol_kind = none;
  parent_symbol_fqn = none;
  parent_chunk_id = none;
  line_start = 1;
  line_end = 2;
  gitlab_blob_url = "";
  gitlab_raw_url = "";
  text = id;
  text_for_embedding = id;
  summary = none;
  imports = [];
  defines_symbols = [];
  references_symbols = [];
  calls_symbols = [];
  called_by_symbols = [];
  secret_findings_count = secrets;
  secret_redactions_count = 0;
  secret_high_confidence_count = secrets;
  secret_types = [];
  embedding_dense = [];
  embedding_late_interaction = [];
  embedding_model = none;
  embedding_dimension = none;
  embedding_created_at = none;
  embedding_input_hash = none;
  indexed_at = 0;
}

-- An edge of project p from a chunk.
abbrev pub an_edge : String → String → CodeEdge ℕ
an_edge id source = record {
  edge_id = id;
  tenant_id = "t";
  branch = "main";
  commit_sha = "c";
  source_symbol_id = some source;
  source_symbol_fqn = some "f";
  source_repo_project_id = "p";
  source_repo_path_with_namespace = none;
  source_file_path = "a.py";
  source_line_start = 1;
  target_symbol_id = none;
  target_symbol_fqn = some "g";
  target_repo_project_id = none;
  target_file_path = none;
  target_line_start = none;
  edge_type = calls;
  confidence = 1;
  extraction_method = "regex";
  indexed_at = 0;
}

abbrev pub a_file : String → FileMetadata
a_file path = record {
  tenant_id = "t";
  gitlab_instance_url = "";
  gitlab_project_id = "p";
  repo_path_with_namespace = "g/r";
  repo_name = "r";
  repo_url = "";
  branch = "main";
  commit_sha = "c";
  file_path = path;
  file_name = path;
  file_extension = "";
  language = "python";
  file_hash = "h";
  size_bytes = 1;
  line_count = 1;
  file_class = source_code;
  is_test = false;
  is_generated = false;
  is_vendor = false;
  is_config = false;
  is_migration = false;
  is_binary = false;
  is_large = false;
  team_owner = none;
  business_domain = none;
  service_name = none;
  slack_channel = none;
  jira_project = none;
  service_type = none;
  deployment_name = none;
  secret_findings_count = 0;
  secret_redactions_count = 0;
  secret_high_confidence_count = 0;
}

abbrev pub client : Client ℕ RepoDocument
client = record {
  chunks = memory ℕ (CodeChunk ℕ) 0;
  symbols = memory ℕ CodeSymbol 0;
  edges = memory ℕ (CodeEdge ℕ) 0;
  communities = memory ℕ (CodeCommunity ℕ) 0;
  files = memory ℕ FileDocument 0;
  repos = memory ℕ RepoDocument 0;
}

-- Chunk 1 of file a.py and chunk 2 of b.py in project p, chunk 3 of project q; an edge of chunk 1,
-- and one of a chunk that is not there.
abbrev pub indices : Indices client
indices = record {
  chunks_index =
      ("1", a_chunk "1" "p" "a.py" 0)
      ∷ ("2", a_chunk "2" "p" "b.py" 0)
      ∷ ("3", a_chunk "3" "q" "a.py" 0)
      ∷ [];
  symbols_index = [];
  edges_index = ("e", an_edge "e" "1") ∷ ("o", an_edge "o" "9") ∷ [];
  communities_index = [];
  files_index = [];
  repos_index = [];
}

abbrev pub filters : Filters
filters = record {
  tenant_id = "t";
  branch = "main";
  allowed_project_ids = "p" ∷ [];
  repo_paths_with_namespace = none;
}

abbrev pub project_of : String → String
project_of id = if id == "3" then "q" else "p"
