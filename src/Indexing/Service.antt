-- ===== src/Indexing/Service.antt =====
-- `IndexingService`, src/code_rag/apps/indexing/indexing_service.py. A worktree is its files by
-- relative path. The repository cache, the classifier, the chunk builder, the community detector
-- and the metadata are parameters, which may raise; the index is the adapter's model.
use code_rag.Prelude.{
  ℕ, ◌+◌, max, String, Bool, true, false, not, ◌||◌, none, some, List, [], ◌∷◌, map, ltb, leb, eqb,
  if◌then◌else◌, nat_eq, string_eq, list_eq, pair_eq, option_eq, length, take, keep_if,
}
use code_rag.Prelude.Dict.{Dict, get}
use code_rag.Prelude.Sets.{contains}
use code_rag.Elastic.Records.{CodeChunk, CodeEdge}
use code_rag.Elastic.Store.{Client, Indices, delete_file, replace_file}
use code_rag.Indexing.Action.{Result, ok, raised, Action, pure, lift, call, ◌>>=◌}
use code_rag.Indexing.Embeddings.{attach_embeddings}
use code_rag.Jobs.Records.{GitLabProject}
use code_rag.Indexing.Records.{RepoDocument, IndexSettings, BuiltFile, Tools}

-- What the loop of `_index_paths` adds up.
pub record Totals : Type 0 where
  pub files_seen : ℕ
  pub files_added : ℕ
  pub files_modified : ℕ
  pub chunks_added : ℕ
  pub chunks_deleted : ℕ

pub record FileResult : Type 0 where
  pub chunk_count : ℕ
  pub deleted_count : ℕ
  pub indexed : Bool

abbrev pub add_totals : List FileResult → Totals → Totals
add_totals [] totals = totals
add_totals (r ∷ results) totals = add_totals results (record totals {
  files_added = if r.indexed then totals.files_added + 1 else totals.files_added;
  files_modified = if r.indexed then totals.files_modified + 1 else totals.files_modified;
  chunks_added = totals.chunks_added + r.chunk_count;
  chunks_deleted = totals.chunks_deleted + r.deleted_count;
})

-- chunk.secret_high_confidence_count > 0
abbrev pub has_secret : {Score : Type 0} → CodeChunk Score → Bool
has_secret chunk = ltb 0 chunk.secret_high_confidence_count

module _ {Score : Type 0} where
  abbrev pub skipped_chunk_ids : List (CodeChunk Score) → List String
  skipped_chunk_ids chunks = map (λ c. c.chunk_id) (keep_if has_secret chunks)

  abbrev pub source_is_in : List String → CodeEdge Score → Bool
  source_is_in ids e = elim e.source_symbol_id [ none ↦ false | some id ↦ contains id ids ]

  unfoldable pub skip_secrets : Bool → BuiltFile Score → BuiltFile Score
  skip_secrets skip built =
      let skipped = skipped_chunk_ids built.chunks in
      if skip
      then record built {
        chunks = keep_if (λ c. not (contains c.chunk_id skipped)) built.chunks;
        symbols = keep_if (λ x. not (contains x.definition_chunk_id skipped)) built.symbols;
        edges = keep_if (λ e. not (source_is_in skipped e)) built.edges;
      }
      else built

module _ {Score Content : Type 0} (client : Client Score RepoDocument) (tools : Tools Score Content)
    (settings : IndexSettings) where
  -- delete_file, of the tenant of the settings
  abbrev pub delete_path : GitLabProject → String → String → Action (Indices client) ℕ
  delete_path project branch path =
      call (delete_file client settings.tenant_id project.gitlab_project_id branch path)

  -- What follows the secrets in `_index_file`.
  unfoldable pub index_built : ℕ → BuiltFile Score → Action (Indices client) FileResult
  index_built now built = do
    chunks ← attach_embeddings client tools.embedder now built.chunks
    counts ← call (replace_file client built.metadata chunks built.symbols built.edges)
    pure (record { chunk_count = counts.0; deleted_count = counts.1; indexed = true })

  -- What a file that is not indexed any more does.
  unfoldable pub drop_file : GitLabProject → String → String → Action (Indices client) FileResult
  drop_file project branch path = do
    deleted ← delete_path project branch path
    pure (record { chunk_count = 0; deleted_count = deleted; indexed = false })

  unfoldable pub index_file :
      GitLabProject
      → String
      → String
      → Dict String Content
      → ℕ
      → String
      → Action (Indices client) FileResult
  unfolding skip_secrets index_built drop_file
  index_file project branch commit_sha worktree now path =
      if tools.should_index path worktree
      then (do
        file ← lift (tools.build_file worktree path project branch commit_sha)
        index_built now (skip_secrets settings.skip_chunks_with_high_confidence_secrets file))
      else drop_file project branch path

  -- [self._index_file(...) for path in candidates]
  unfoldable pub one_by_one :
      (String → Action (Indices client) FileResult)
      → List String
      → Action (Indices client) (List FileResult)
  one_by_one index_one [] = pure []
  one_by_one index_one (path ∷ paths) = do
    result ← index_one path
    results ← one_by_one index_one paths
    pure (result ∷ results)

  -- The files that the threads had taken when the others are cancelled still run to their end, and
  -- what they return or raise is dropped.
  unfoldable pub run_started :
      (String → Action (Indices client) FileResult) → List String → Indices client → Indices client
  run_started index_one [] s = s
  run_started index_one (path ∷ paths) s = run_started index_one paths (index_one path s).0

  abbrev pub after_file :
      Action (Indices client) (List FileResult)
      → (Indices client → Indices client)
      → Indices client × Result FileResult
      → Indices client × Result (List FileResult)
  after_file rest cancelling (t, raised e) = (cancelling t, raised e)
  after_file rest cancelling (t, ok result) = (rest >>= λ results. pure (result ∷ results)) t

  -- list(pool.map(...)): the results are read in the order of the files, and the first exception
  -- cancels the files that no thread has taken, which are the last ones of the queue. The files are
  -- taken in turn here: how the index calls of several threads interleave is not modelled.
  unfoldable pub in_pool :
      (String → Action (Indices client) FileResult)
      → List String
      → Action (Indices client) (List FileResult)
  unfolding run_started
  in_pool index_one [] = pure []
  in_pool index_one (path ∷ paths) = λ s.
      after_file (in_pool index_one paths)
        (run_started index_one (take (tools.started_after paths) paths)) (index_one path s)

  abbrev pub is_file : Dict String Content → String → Bool
  is_file worktree path = elim (get path worktree) [ none ↦ false | some content ↦ true ]

  unfoldable pub index_paths :
      GitLabProject
      → String
      → String
      → Dict String Content
      → ℕ
      → List String
      → Action (Indices client) Totals
  unfolding index_file one_by_one in_pool
  index_paths project branch commit_sha worktree now paths =
      let candidates = keep_if (is_file worktree) paths in
      let index_one = index_file project branch commit_sha worktree now in
      let workers = max 1 settings.index_file_workers in
      do
        results ←
            (if eqb workers 1 || leb (length candidates) 1
              then one_by_one index_one candidates
              else in_pool index_one candidates)
        pure (
            add_totals results (record {
              files_seen = length candidates;
              files_added = 0;
              files_modified = 0;
              chunks_added = 0;
              chunks_deleted = 0;
            }))
