-- ===== src/Elastic/Queries.antt =====
-- What the reads of the index are made of: the clauses of a filter and the hit of a document,
-- `EsClientBase` in src/code_rag/adapters/elasticsearch/_base.py, with the enums' values.
use code_rag.Prelude.{
  ℕ, String, Bool, true, false, ◌&&◌, Option, none, some, List, [], ◌∷◌, eqb, if◌then◌else◌, ◌==◌,
  nat_eq, string_eq, list_eq, pair_eq, option_eq,
}
use Prim.Native.Char.{code}
use Prim.Native.String.{◌++◌ as ◌++ˢ◌}
use code_rag.Prelude.Dict.{put}
use code_rag.Prelude.Sets.{contains}
use code_rag.Chunking.Windows.{
  ChunkKind, file, function_definition, method_definition, class_definition, config_block,
  documentation_section, test_case,
}
use code_rag.Retrieval.Hits.{SearchHit}
use code_rag.Retrieval.Expansion.{
  EdgeType, imports, calls, references, tests, configures, exposes_endpoint,
}
use code_rag.Retrieval.Service.{Filters, text_or}
use code_rag.Elastic.Records.{
  SymbolRole, definition, reference, mixed, no_role, CodeChunk, CodeSymbol, CodeEdge, CodeCommunity,
}
use code_rag.Elastic.Corpus.{Item}

-- The values that a hit's metadata holds.
pub data Value (Score : Type 0) : Type 0 where
  text : Option String → Value Score
  number : ℕ → Value Score
  paths : List String → Value Score
  vectors : List (List Score) → Value Score
  true_value : Value Score

abbrev pub chunk_kind_value : ChunkKind → String
chunk_kind_value file = "file"
chunk_kind_value function_definition = "function_definition"
chunk_kind_value method_definition = "method_definition"
chunk_kind_value class_definition = "class_definition"
chunk_kind_value config_block = "config_block"
chunk_kind_value documentation_section = "documentation_section"
chunk_kind_value test_case = "test_case"

abbrev pub symbol_role_value : SymbolRole → String
symbol_role_value definition = "definition"
symbol_role_value reference = "reference"
symbol_role_value mixed = "mixed"
symbol_role_value no_role = "none"

abbrev pub edge_type_value : EdgeType → String
edge_type_value imports = "IMPORTS"
edge_type_value calls = "CALLS"
edge_type_value references = "REFERENCES"
edge_type_value tests = "TESTS"
edge_type_value configures = "CONFIGURES"
edge_type_value exposes_endpoint = "EXPOSES_ENDPOINT"

-- if repo_paths: clauses.append({"terms": ...})
abbrev pub in_paths : Option (List String) → Option String → Bool
in_paths none path = true
in_paths (some []) path = true
in_paths (some (p ∷ ps)) none = false
in_paths (some (p ∷ ps)) (some path) = contains path (p ∷ ps)

-- (source.get("member_file_paths") or ["<community>"])[0]
abbrev pub first_path : List String → String
first_path [] = "<community>"
first_path (path ∷ rest) = path

abbrev pub or_empty : Option String → String
or_empty none = ""
or_empty (some t) = t

module _ {Score : Type 0} where
  -- _filters
  unfoldable pub filters_pass : Filters → CodeChunk Score → Bool
  filters_pass filters c =
      c.tenant_id == filters.tenant_id
      && c.branch == filters.branch
      && c.active_snapshot
      && contains c.gitlab_project_id filters.allowed_project_ids
      && in_paths filters.repo_paths_with_namespace (some c.repo_path_with_namespace)

  -- _edge_filters
  unfoldable pub edge_filters_pass : Filters → CodeEdge Score → Bool
  edge_filters_pass filters e =
      e.tenant_id == filters.tenant_id
      && e.branch == filters.branch
      && contains e.source_repo_project_id filters.allowed_project_ids
      && in_paths filters.repo_paths_with_namespace e.source_repo_path_with_namespace

  -- _community_filters
  unfoldable pub community_filters_pass : Filters → CodeCommunity Score → Bool
  community_filters_pass filters c =
      c.tenant_id == filters.tenant_id
      && c.branch == filters.branch
      && contains c.gitlab_project_id filters.allowed_project_ids
      && in_paths filters.repo_paths_with_namespace (some c.repo_path_with_namespace)

  -- _chunk_ids_query
  unfoldable pub chunk_ids_query : List String → Filters → CodeChunk Score → Bool
  unfolding filters_pass
  chunk_ids_query chunk_ids filters c = contains c.chunk_id chunk_ids && filters_pass filters c

  -- _hit
  unfoldable pub hit_of : Item Score (CodeChunk Score) → SearchHit Score (Value Score)
  hit_of item =
      let source = item.source in
      record {
        chunk_id = source.chunk_id;
        score = item.item_score;
        repo_path_with_namespace = source.repo_path_with_namespace;
        file_path = source.file_path;
        line_start = source.line_start;
        line_end = source.line_end;
        language = source.language;
        chunk_kind = chunk_kind_value source.chunk_kind;
        symbol_name = source.symbol_name;
        symbol_fqn = source.symbol_fqn;
        gitlab_blob_url = source.gitlab_blob_url;
        text = source.text;
        metadata =
            ("gitlab_project_id", text (some source.gitlab_project_id))
            ∷ ("branch", text (some source.branch))
            ∷ ("commit_sha", text (some source.commit_sha))
            ∷ ("symbol_role", text (some (symbol_role_value source.symbol_role)))
            ∷ ("repo_name", text (some source.repo_name))
            ∷ ("team_owner", text source.team_owner)
            ∷ ("business_domain", text source.business_domain)
            ∷ ("service_name", text source.service_name)
            ∷ ("secret_redactions_count", number source.secret_redactions_count)
            ∷ ("embedding_late_interaction", vectors source.embedding_late_interaction)
            ∷ [];
      }

  -- _community_hit
  unfoldable pub community_hit_of : Item Score (CodeCommunity Score) → SearchHit Score (Value Score)
  community_hit_of item =
      let source = item.source in
      record {
        chunk_id = source.community_id;
        score = item.item_score;
        repo_path_with_namespace = source.repo_path_with_namespace;
        file_path = first_path source.member_file_paths;
        line_start = 0;
        line_end = 0;
        language = text_or source.dominant_language "text";
        chunk_kind = "community_summary";
        symbol_name = some source.label;
        symbol_fqn = none;
        gitlab_blob_url = or_empty source.representative_gitlab_url;
        text = source.summary;
        metadata =
            ("gitlab_project_id", text (some source.gitlab_project_id))
            ∷ ("branch", text (some source.branch))
            ∷ ("community_size", number source.size)
            ∷ ("community_label", text (some source.label))
            ∷ ("member_file_paths", paths source.member_file_paths)
            ∷ ("is_community", true_value)
            ∷ [];
      }

  -- hit.metadata[key] = True
  abbrev pub mark : String → SearchHit Score (Value Score) → SearchHit Score (Value Score)
  mark key hit = record hit { metadata = put key true_value hit.metadata }

-- _symbol_filters
unfoldable pub symbol_filters_pass : Filters → CodeSymbol → Bool
symbol_filters_pass filters x =
    x.tenant_id == filters.tenant_id
    && x.branch == filters.branch
    && contains x.gitlab_project_id filters.allowed_project_ids
    && in_paths filters.repo_paths_with_namespace (some x.repo_path_with_namespace)

-- " ".join(identifiers)
unfoldable pub joined : List String → String
joined [] = ""
joined (word ∷ []) = word
joined (word ∷ next ∷ words) = word ++ˢ " " ++ˢ joined (next ∷ words)

-- What follows the last dot of the text, or `best`.
abbrev pub after_dots : String → String → String
after_dots best String.[] = best
after_dots best (String.◌∷◌ c s) = if eqb (code c) 46 then after_dots s s else after_dots best s

-- fqn.rsplit(".", 1)[-1]
unfoldable pub last_name : String → String
last_name fqn = after_dots fqn fqn
