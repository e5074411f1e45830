-- ===== src/Indexing/Runs.antt =====
-- The jobs of `IndexingService`: full indexing, and the communities. Removing the worktree is left out.
use code_rag.Prelude.{
  ℕ, String, Option, none, some, List, [], ◌∷◌, map, if◌then◌else◌, nat_eq, string_eq, list_eq,
  pair_eq, option_eq,
}
use code_rag.Prelude.Dict.{keys}
use code_rag.Retrieval.Service.{text_or}
use code_rag.Elastic.Records.{CodeCommunity, EmbeddingResult}
use code_rag.Elastic.Store.{
  Client, Indices, index_repo, index_communities, delete_project_communities, prune_orphaned_edges,
  refresh_search_indices, read_graph,
}
use code_rag.Indexing.Action.{
  Result, ok, raised, Action, pure, lift, call, read, write, ◌>>=◌, ◌>>◌,
}
use code_rag.Jobs.Records.{GitLabProject, IndexJobResult, running, succeeded, failed}
use code_rag.Indexing.Records.{RepoMetadata, RepoDocument, IndexSettings, Tools}
use code_rag.Indexing.Service.{Totals, index_paths}

module _ {Score Content : Type 0} (client : Client Score RepoDocument) (tools : Tools Score Content)
    (settings : IndexSettings) where
  -- zip(communities, results, strict=True)
  unfoldable pub zip_embeddings :
      List (CodeCommunity Score)
      → List (EmbeddingResult Score)
      → Result (List (CodeCommunity Score))
  zip_embeddings [] [] = ok []
  zip_embeddings [] (r ∷ results) = raised "zip() argument 2 is longer than argument 1"
  zip_embeddings (c ∷ communities) [] = raised "zip() argument 2 is shorter than argument 1"
  zip_embeddings (c ∷ communities) (r ∷ results) = elim (zip_embeddings communities results) [
    | ok embedded ↦ ok (record c { embedding_dense = r.dense } ∷ embedded)
    | raised e ↦ raised e
  ]

  unfoldable pub embed_communities :
      List (CodeCommunity Score) → Result (List (CodeCommunity Score))
  unfolding zip_embeddings
  embed_communities [] = ok []
  embed_communities (c ∷ communities) =
      elim (tools.embedder.embed_documents (map (λ x. x.summary) (c ∷ communities))) [
        | ok results ↦ zip_embeddings (c ∷ communities) results
        | raised e ↦ raised e
      ]

  -- What `rebuild_communities` does inside its `try`.
  unfoldable pub try_communities :
      GitLabProject → String → String → Action (Indices client) (Unit {0})
  unfolding embed_communities
  try_communities project branch commit_sha = do
    write (refresh_search_indices client)
    graph ← read (read_graph client settings.tenant_id project.gitlab_project_id branch)
    communities ← lift (
        tools.detect project.gitlab_project_id project.repo_path_with_namespace branch commit_sha
          graph.0 graph.1)
    embedded ← lift (embed_communities communities)
    deleted ←
        call (delete_project_communities client settings.tenant_id project.gitlab_project_id branch)
    write (index_communities client embedded)

  -- The adapter has all the methods that `getattr` looks for, and an exception is only logged.
  unfoldable pub rebuild_communities :
      GitLabProject → String → String → Action (Indices client) (Unit {0})
  unfolding try_communities
  rebuild_communities project branch commit_sha s =
      if settings.community_detection_enabled
      then ((try_communities project branch commit_sha s).0, ok tt)
      else (s, ok tt)

  abbrev pub repo_document :
      GitLabProject → String → String → String → ℕ → Option RepoMetadata → RepoDocument
  repo_document project branch commit_sha status now metadata = record {
    repo_id = tools.stable_id (settings.tenant_id ∷ project.gitlab_project_id ∷ branch ∷ []);
    gitlab_project_id = project.gitlab_project_id;
    repo_path_with_namespace = project.repo_path_with_namespace;
    repo_name = project.repo_name;
    default_branch = project.default_branch;
    indexed_branch = branch;
    active_commit_sha = commit_sha;
    last_indexed_commit_sha = commit_sha;
    last_successful_index_at = now;
    description = project.description;
    team_owner = elim metadata [ none ↦ none | some m ↦ m.team_owner ];
    business_domain = elim metadata [ none ↦ none | some m ↦ m.business_domain ];
    service_name = elim metadata [ none ↦ none | some m ↦ m.service_name ];
    slack_channel = elim metadata [ none ↦ none | some m ↦ m.slack_channel ];
    jira_project = elim metadata [ none ↦ none | some m ↦ m.jira_project ];
    primary_language = elim metadata [ none ↦ none | some m ↦ m.primary_language ];
    service_type = elim metadata [ none ↦ none | some m ↦ m.service_type ];
    deployment_name = elim metadata [ none ↦ none | some m ↦ m.deployment_name ];
    tags = elim metadata [ none ↦ [] | some m ↦ m.tags ];
    index_status = status;
  }

  -- `_index_repo`
  unfoldable pub record_repo :
      GitLabProject → String → String → String → ℕ → Action (Indices client) (Unit {0})
  record_repo project branch commit_sha status now = do
    metadata ← lift (tools.repo_metadata project)
    let document = repo_document project branch commit_sha status now metadata
    write (index_repo client document.repo_id document)

  -- `_job`; a missing old sha counts as an empty part of the id.
  unfoldable pub new_job :
      String → GitLabProject → String → Option String → String → ℕ → IndexJobResult
  new_job job_type project branch old_sha new_sha started_at = record {
    job_id =
        tools.stable_id
          (job_type ∷ project.gitlab_project_id ∷ branch ∷ text_or old_sha "" ∷ new_sha ∷ []);
    job_type = job_type;
    gitlab_project_id = project.gitlab_project_id;
    repo_path_with_namespace = project.repo_path_with_namespace;
    branch = branch;
    old_sha = old_sha;
    new_sha = new_sha;
    status = running;
    started_at = started_at;
    finished_at = started_at;
    files_seen = 0;
    files_added = 0;
    files_modified = 0;
    files_deleted = 0;
    files_renamed = 0;
    chunks_added = 0;
    chunks_deleted = 0;
    error_message = none;
  }

  abbrev pub with_totals : Totals → IndexJobResult → IndexJobResult
  with_totals totals job = record job {
    files_seen = totals.files_seen;
    files_added = totals.files_added;
    files_modified = totals.files_modified;
    chunks_added = totals.chunks_added;
    chunks_deleted = totals.chunks_deleted;
  }

  -- except Exception as exc
  abbrev pub or_failed :
      IndexJobResult → ℕ → Indices client × Result IndexJobResult → Indices client × IndexJobResult
  or_failed job later (s, ok done) = (s, done)
  or_failed job later (s, raised e) =
      (s, record job { status = failed; finished_at = later; error_message = some e })

  unfoldable pub full_index :
      GitLabProject
      → String
      → Option String
      → IndexJobResult
      → ℕ
      → ℕ
      → Action (Indices client) IndexJobResult
  unfolding rebuild_communities record_repo
  full_index project branch commit_sha job now later = do
    worktree ← lift (tools.checkout project branch commit_sha)
    new_sha ← lift (tools.head_sha worktree)
    totals ← index_paths client tools settings project branch new_sha worktree now (keys worktree)
    record_repo project branch new_sha "indexed" now
    pruned ← call (prune_orphaned_edges client settings.tenant_id project.gitlab_project_id branch)
    rebuild_communities project branch new_sha
    pure (record (with_totals totals job) {
      new_sha = new_sha;
      status = succeeded;
      finished_at = later;
    })

  unfoldable pub full_index_project :
      GitLabProject
      → Option String
      → Option String
      → ℕ
      → ℕ
      → Indices client
      → Indices client × IndexJobResult
  unfolding full_index new_job
  full_index_project project branch commit_sha now later s =
      let on_branch = text_or branch settings.branch in
      let job = new_job "full_repo_index" project on_branch none (text_or commit_sha "") now in
      or_failed job later (full_index project on_branch commit_sha job now later s)
