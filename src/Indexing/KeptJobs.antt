-- ===== src/Indexing/KeptJobs.antt =====
-- What the jobs of the indexing service keep true of every chunk of the index, whatever raises.
use code_rag.Prelude.{
  ℕ, String, ◌≡◌, refl, sym, subst, inl, inr, Option, none, some, List, [], ◌∷◌, Bool-cases, nat_eq,
  string_eq, list_eq, pair_eq, option_eq, All, All-of,
}
use code_rag.Prelude.Dict.{Dict, get, keys}
use code_rag.Prelude.Sets.{sorted_set}
use code_rag.Retrieval.Service.{text_or}
use code_rag.Elastic.Records.{CodeChunk}
use code_rag.Elastic.Store.{
  Client, Indices, prune_orphaned_edges, index_repo, index_communities, delete_project_communities,
  refresh_search_indices,
}
use code_rag.Elastic.Prune.{prune_orphaned_edges-others}
use code_rag.Indexing.Action.{
  Result, ok, raised, lift, call, read, write, Keeps, if-Keeps, bind-Keeps,
}
use code_rag.Indexing.Embeddings.{attach}
use code_rag.Jobs.Records.{GitLabProject, ChangedFile, IndexJobResult}
use code_rag.Indexing.Records.{RepoDocument, IndexSettings, BuiltFile, Tools}
use code_rag.Indexing.Service.{skip_secrets, delete_path, index_paths}
use code_rag.Indexing.Runs.{
  try_communities, rebuild_communities, record_repo, new_job, or_failed, full_index,
  full_index_project,
}
use code_rag.Indexing.Incremental.{
  Plan, delete_paths, incremental_index, incremental_index_project, plan_change, plan_changes,
  plan_new_path,
}
use code_rag.Indexing.Kept.{IsKept, delete_path-Keeps, index_paths-Keeps}

module _ {Score Content : Type 0} (client : Client Score RepoDocument) (tools : Tools Score Content)
    (settings : IndexSettings) where
  pub or_failed-state :
      (job : IndexJobResult) (later : ℕ) (r : Indices client × Result IndexJobResult)
      → (or_failed client tools settings job later r).0 ≡ r.0
  or_failed-state job later (s, ok done) = refl
  or_failed-state job later (s, raised e) = refl

module _ {Score Content : Type 0} (client : Client Score RepoDocument) (tools : Tools Score Content)
    (settings : IndexSettings) (P : CodeChunk Score → Type 0)
    (InvChunks : client.chunks.State → Type 0) (kept : IsKept client.chunks P InvChunks)
    (IsIndexed : String → Type 0)
    (attached : (now : ℕ) (dense : List Score) (late : List (List Score)) (c : CodeChunk Score)
      → P c
      → P (attach client tools.embedder now dense late c))
    (built : (worktree : Dict String Content) (path : String) (project : GitLabProject)
        (branch sha : String) (file : BuiltFile Score)
      → IsIndexed path
      → tools.build_file worktree path project branch sha ≡ ok file
      → All P (skip_secrets settings.skip_chunks_with_high_confidence_secrets file).chunks) where
  abbrev pub Inv : Indices client → Type 0
  Inv s = InvChunks s.chunks_index

  pub record_repo-Keeps :
      (project : GitLabProject) (branch sha status : String) (now : ℕ)
      → Keeps Inv (record_repo client tools settings project branch sha status now)
  unfolding record_repo index_repo
  record_repo-Keeps project branch sha status now =
      bind-Keeps Inv (lift (tools.repo_metadata project)) _ (λ s h. h) (λ metadata s h. h)

  try_communities-Keeps :
      (project : GitLabProject) (branch sha : String)
      → Keeps Inv (try_communities client tools settings project branch sha)
  unfolding try_communities refresh_search_indices delete_project_communities index_communities
  try_communities-Keeps project branch sha =
      bind-Keeps Inv (write (refresh_search_indices client)) _ (λ s h. kept.refresh_ok _ h)
        (λ u.
          bind-Keeps Inv (read _) _ (λ s h. h)
            (λ graph.
              bind-Keeps Inv (lift _) _ (λ s h. h)
                (λ communities.
                  bind-Keeps Inv (lift _) _ (λ s h. h)
                    (λ embedded.
                      bind-Keeps Inv
                        (call (
                          delete_project_communities client settings.tenant_id
                            project.gitlab_project_id branch))
                        _ (λ s h. h) (λ deleted s h. h)))))

  rebuild_communities-Keeps :
      (project : GitLabProject) (branch sha : String)
      → Keeps Inv (rebuild_communities client tools settings project branch sha)
  unfolding rebuild_communities
  rebuild_communities-Keeps project branch sha s h =
      elim (Bool-cases settings.community_detection_enabled) [
        | inl on ↦ rw on (try_communities-Keeps project branch sha s h)
        | inr off ↦ rw off h
      ]

  prune-Keeps :
      (project : GitLabProject) (branch : String)
      → Keeps Inv
          (call (prune_orphaned_edges client settings.tenant_id project.gitlab_project_id branch))
  prune-Keeps project branch s h =
      subst InvChunks
        (sym
          (prune_orphaned_edges-others client settings.tenant_id project.gitlab_project_id branch
            s).0)
        h

  full_index-Keeps :
      (project : GitLabProject) (branch : String) (sha : Option String) (job : IndexJobResult)
      (now later : ℕ)
      → ((path : String) → IsIndexed path)
      → Keeps Inv (full_index client tools settings project branch sha job now later)
  unfolding full_index
  full_index-Keeps project branch sha job now later every =
      bind-Keeps Inv (lift _) _ (λ s h. h)
        (λ worktree.
          bind-Keeps Inv (lift _) _ (λ s h. h)
            (λ new_sha.
              bind-Keeps Inv
                (index_paths client tools settings project branch new_sha worktree now
                  (keys worktree))
                _
                (index_paths-Keeps client tools settings P InvChunks kept IsIndexed attached built
                  project branch new_sha worktree now (keys worktree)
                  (All-of IsIndexed every (keys worktree)))
                (λ totals.
                  bind-Keeps Inv
                    (record_repo client tools settings project branch new_sha "indexed" now) _
                    (record_repo-Keeps project branch new_sha "indexed" now)
                    (λ u.
                      bind-Keeps Inv
                        (call (
                          prune_orphaned_edges client settings.tenant_id project.gitlab_project_id
                            branch))
                        _ (prune-Keeps project branch)
                        (λ pruned.
                          bind-Keeps Inv
                            (rebuild_communities client tools settings project branch new_sha) _
                            (rebuild_communities-Keeps project branch new_sha) (λ u' s h. h))))))

  plan_new_path-Keeps :
      (project : GitLabProject) (branch : String) (change : ChangedFile) (plan : Plan)
      (file : Option Content)
      → Keeps Inv (plan_new_path client tools settings project branch change plan file)
  unfolding plan_new_path
  plan_new_path-Keeps project branch change plan none =
      bind-Keeps Inv (delete_path client tools settings project branch change.new_path) _
        (delete_path-Keeps client tools settings P InvChunks kept IsIndexed attached built project
          branch change.new_path)
        (λ deleted t k. k)
  plan_new_path-Keeps project branch change plan (some content) =
      bind-Keeps Inv (read _) _ (λ t k. k) (λ unchanged t k. k)

  pub plan_change-Keeps :
      (project : GitLabProject) (branch : String) (worktree : Dict String Content)
      (change : ChangedFile) (plan : Plan)
      → Keeps Inv (plan_change client tools settings project branch worktree change plan)
  unfolding plan_change
  plan_change-Keeps project branch worktree change plan =
      if-Keeps Inv change.deleted _ _
        (bind-Keeps Inv (delete_path client tools settings project branch change.old_path) _
          (delete_path-Keeps client tools settings P InvChunks kept IsIndexed attached built project
            branch change.old_path)
          (λ deleted t k. k))
        (plan_new_path-Keeps project branch change _ (get change.new_path worktree))

  pub plan_changes-Keeps :
      (project : GitLabProject) (branch : String) (worktree : Dict String Content)
      (changes : List ChangedFile) (plan : Plan)
      → Keeps Inv (plan_changes client tools settings project branch worktree changes plan)
  unfolding plan_changes
  plan_changes-Keeps project branch worktree [] plan = λ s h. h
  plan_changes-Keeps project branch worktree (change ∷ changes) plan =
      bind-Keeps Inv (plan_change client tools settings project branch worktree change plan) _
        (plan_change-Keeps project branch worktree change plan)
        (λ next. plan_changes-Keeps project branch worktree changes next)

  pub delete_paths-Keeps :
      (project : GitLabProject) (branch : String) (paths : List String)
      → Keeps Inv (delete_paths client tools settings project branch paths)
  unfolding delete_paths
  delete_paths-Keeps project branch [] = λ s h. h
  delete_paths-Keeps project branch (path ∷ paths) =
      bind-Keeps Inv (delete_path client tools settings project branch path) _
        (delete_path-Keeps client tools settings P InvChunks kept IsIndexed attached built project
          branch path)
        (λ deleted. delete_paths-Keeps project branch paths)

  incremental_index-Keeps :
      (project : GitLabProject) (branch new_sha : String) (changes : List ChangedFile)
      (job : IndexJobResult) (now later : ℕ)
      → ((path : String) → IsIndexed path)
      → Keeps Inv
          (incremental_index client tools settings project branch new_sha changes job now later)
  unfolding incremental_index
  incremental_index-Keeps project branch new_sha changes job now later every =
      bind-Keeps Inv (lift _) _ (λ s h. h)
        (λ worktree.
          bind-Keeps Inv (plan_changes client tools settings project branch worktree changes _) _
            (plan_changes-Keeps project branch worktree changes _)
            (λ plan.
              bind-Keeps Inv
                (delete_paths client tools settings project branch
                  (sorted_set plan.old_paths_to_delete))
                _ (delete_paths-Keeps project branch _)
                (λ u.
                  bind-Keeps Inv
                    (index_paths client tools settings project branch new_sha worktree now
                      plan.paths_to_index)
                    _
                    (index_paths-Keeps client tools settings P InvChunks kept IsIndexed attached
                      built project branch new_sha worktree now _ (All-of IsIndexed every _))
                    (λ totals.
                      bind-Keeps Inv
                        (record_repo client tools settings project branch new_sha "indexed" now) _
                        (record_repo-Keeps project branch new_sha "indexed" now) (λ u' s h. h)))))

  -- Both jobs keep the property, however they end.
  pub jobs-Keeps :
      (s : Indices client) (project : GitLabProject) (branch sha : Option String)
      (old_sha new_sha : String) (changes : List ChangedFile) (now later : ℕ)
      → ((path : String) → IsIndexed path)
      → Inv s
      → Inv (full_index_project client tools settings project branch sha now later s).0
        × Inv
            (incremental_index_project client tools settings project old_sha new_sha changes branch
              now later s).0
  unfolding full_index_project incremental_index_project
  jobs-Keeps s project branch sha old_sha new_sha changes now later every h = (
    let job =
          new_job client tools settings "full_repo_index" project (text_or branch settings.branch)
            none (text_or sha "") now in
        subst Inv
          (sym (
            or_failed-state client tools settings job later (
              full_index client tools settings project (text_or branch settings.branch) sha job now
                later s)))
          (full_index-Keeps project _ sha job now later every s h),
    let job =
          new_job client tools settings "incremental_repo_index" project
            (text_or branch settings.branch) (some old_sha) new_sha now in
        subst Inv
          (sym (
            or_failed-state client tools settings job later (
              incremental_index client tools settings project (text_or branch settings.branch)
                new_sha changes job now later s)))
          (incremental_index-Keeps project _ new_sha changes job now later every s h),
  )
