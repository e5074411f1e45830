-- ===== src/Indexing/Incremental.antt =====
-- `IndexingService.incremental_index_project` and what it plans of the changes.
use code_rag.Prelude.{
  ℕ, ◌+◌, String, Bool, true, false, ◌&&◌, Option, none, some, List, [], ◌∷◌, ◌++◌, if◌then◌else◌,
  ◌==◌, nat_eq, string_eq, list_eq, pair_eq, option_eq,
}
use code_rag.Prelude.Dict.{Dict, get}
use code_rag.Prelude.Sets.{sorted_set}
use code_rag.Retrieval.Service.{text_or}
use code_rag.Elastic.Store.{Client, Indices, file_hash}
use code_rag.Indexing.Action.{Action, pure, lift, read, ◌>>=◌, ◌>>◌}
use code_rag.Jobs.Records.{GitLabProject, ChangedFile, IndexJobResult, succeeded}
use code_rag.Indexing.Records.{RepoDocument, IndexSettings, Tools}
use code_rag.Indexing.Service.{delete_path, index_paths}
use code_rag.Indexing.Runs.{record_repo, new_job, with_totals, or_failed}

-- What the loop over the changes collects.
pub record Plan : Type 0 where
  pub files_deleted : ℕ
  pub files_renamed : ℕ
  pub paths_to_index : List String
  pub old_paths_to_delete : List String

module _ {Score Content : Type 0} (client : Client Score RepoDocument) (tools : Tools Score Content)
    (settings : IndexSettings) where
  unfoldable pub renamed_content_unchanged :
      String → String → String → Content → Indices client → Bool
  renamed_content_unchanged project_id branch old_path content s =
      elim (file_hash client settings.tenant_id project_id branch old_path s) [
        | none ↦ false
        | some indexed_hash ↦
            if indexed_hash == "" then false else indexed_hash == tools.content_hash content
      ]

  -- The part of one turn that looks at the new path: whether a file is there.
  unfoldable pub plan_new_path :
      GitLabProject → String → ChangedFile → Plan → Option Content → Action (Indices client) Plan
  unfolding renamed_content_unchanged
  plan_new_path project branch change plan none = do
    deleted ← delete_path client tools settings project branch change.new_path
    pure plan
  plan_new_path project branch change plan (some content) = do
    unchanged ←
        read (renamed_content_unchanged project.gitlab_project_id branch change.old_path content)
    pure (record plan {
      old_paths_to_delete =
          if change.renamed && unchanged
          then plan.old_paths_to_delete ++ (change.old_path ∷ [])
          else plan.old_paths_to_delete;
      paths_to_index = plan.paths_to_index ++ (change.new_path ∷ []);
    })

  -- if change.renamed
  abbrev pub note_rename : Bool → String → Plan → Plan
  note_rename true old_path plan = record plan {
    files_renamed = plan.files_renamed + 1;
    old_paths_to_delete = plan.old_paths_to_delete ++ (old_path ∷ []);
  }
  note_rename false old_path plan = plan

  -- One turn of the loop over the changes.
  unfoldable pub plan_change :
      GitLabProject
      → String
      → Dict String Content
      → ChangedFile
      → Plan
      → Action (Indices client) Plan
  unfolding plan_new_path
  plan_change project branch worktree change plan =
      if change.deleted
      then (do
        deleted ← delete_path client tools settings project branch change.old_path
        pure (record plan { files_deleted = plan.files_deleted + 1 }))
      else plan_new_path project branch change (note_rename change.renamed change.old_path plan)
          (get change.new_path worktree)

  unfoldable pub plan_changes :
      GitLabProject
      → String
      → Dict String Content
      → List ChangedFile
      → Plan
      → Action (Indices client) Plan
  unfolding plan_change
  plan_changes project branch worktree [] plan = pure plan
  plan_changes project branch worktree (change ∷ changes) plan = do
    next ← plan_change project branch worktree change plan
    plan_changes project branch worktree changes next

  unfoldable pub delete_paths :
      GitLabProject → String → List String → Action (Indices client) (Unit {0})
  delete_paths project branch [] = pure tt
  delete_paths project branch (path ∷ paths) = do
    deleted ← delete_path client tools settings project branch path
    delete_paths project branch paths

  unfoldable pub incremental_index :
      GitLabProject
      → String
      → String
      → List ChangedFile
      → IndexJobResult
      → ℕ
      → ℕ
      → Action (Indices client) IndexJobResult
  unfolding plan_changes delete_paths record_repo
  incremental_index project branch new_sha changes job now later = do
    worktree ← lift (tools.checkout project branch (some new_sha))
    plan ← plan_changes project branch worktree changes (record {
      files_deleted = 0;
      files_renamed = 0;
      paths_to_index = [];
      old_paths_to_delete = [];
    })
    delete_paths project branch (sorted_set plan.old_paths_to_delete)
    totals ←
        index_paths client tools settings project branch new_sha worktree now plan.paths_to_index
    record_repo client tools settings project branch new_sha "indexed" now
    pure (record (with_totals client tools settings totals job) {
      files_deleted = plan.files_deleted;
      files_renamed = plan.files_renamed;
      status = succeeded;
      finished_at = later;
    })

  unfoldable pub incremental_index_project :
      GitLabProject
      → String
      → String
      → List ChangedFile
      → Option String
      → ℕ
      → ℕ
      → Indices client
      → Indices client × IndexJobResult
  unfolding incremental_index new_job
  incremental_index_project project old_sha new_sha changes branch now later s =
      let on_branch = text_or branch settings.branch in
      let job =
        new_job client tools settings "incremental_repo_index" project on_branch (some old_sha)
          new_sha now in
      or_failed client tools settings job later
        (incremental_index project on_branch new_sha changes job now later s)
