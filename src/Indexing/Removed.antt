-- ===== src/Indexing/Removed.antt =====
-- What an incremental job leaves of a file that a change removes.
use code_rag.Prelude.{
  ℕ, String, ◌≡◌, refl, sym, ap, ◌∙◌, subst, ◌⊎◌, inl, inr, Bool, true, false, Option, none, some,
  List, [], ◌∷◌, arith, if◌then◌else◌, ◌==◌, nat_eq, string_eq, list_eq, pair_eq, option_eq, All,
  In, All-append, All-keep_if, All-map,
}
use code_rag.Prelude.Dict.{Dict, get}
use code_rag.Prelude.Sets.{sorted_set}
use code_rag.Retrieval.Service.{text_or}
use code_rag.Elastic.Records.{CodeChunk}
use code_rag.Elastic.Store.{Client, Indices, in_file, delete_file}
use code_rag.Elastic.Replace.{Finds}
use code_rag.Indexing.Action.{Result, ok, Action, Good, continue, continue_good, bind-Keeps}
use code_rag.Jobs.Records.{GitLabProject, ChangedFile, IndexJobResult}
use code_rag.Indexing.Records.{RepoDocument, IndexSettings, BuiltFile, Tools}
use code_rag.Indexing.Service.{skip_secrets, delete_path, index_paths}
use code_rag.Indexing.Runs.{new_job, record_repo}
use code_rag.Indexing.Kept.{IsKept, index_paths-Keeps}
use code_rag.Indexing.Gone.{Gone, delete-Gone, other-Gone, other-Finds, refresh-Gone, index-Gone}
use code_rag.Indexing.Incremental.{
  Plan, delete_paths, incremental_index, incremental_index_project, note_rename, plan_change,
  plan_changes, plan_new_path,
}
use code_rag.Indexing.KeptJobs.{
  delete_paths-Keeps, or_failed-state, plan_change-Keeps, plan_changes-Keeps, record_repo-Keeps,
}

module _ {Score Content : Type 0} (client : Client Score RepoDocument) (tools : Tools Score Content)
    (settings : IndexSettings) (project : GitLabProject) (branch path : String) where
  abbrev pub of_path : CodeChunk Score → Bool
  of_path = in_file client settings.tenant_id project.gitlab_project_id branch path

  abbrev pub IsOther : String → Type 0
  IsOther p = (p == path) ≡ false

  note_rename-Other :
      (renamed : Bool) (old_path : String) (plan : Plan)
      → All IsOther plan.paths_to_index
      → All IsOther (note_rename client tools settings renamed old_path plan).paths_to_index
  note_rename-Other true old_path plan others = others
  note_rename-Other false old_path plan others = others

  -- A method that returns, and the paths of what it returns are others.
  abbrev pub Returns : Action (Indices client) Plan → Indices client → Type 0
  Returns m s =
      (t : Indices client) × (next : Plan) × (m s ≡ (t, ok next)) × All IsOther next.paths_to_index

  plan_new_path-Returns :
      (change : ChangedFile) (plan : Plan) (file : Option Content) (s : Indices client)
      → IsOther change.new_path
      → All IsOther plan.paths_to_index
      → Returns (plan_new_path client tools settings project branch change plan file) s
  unfolding plan_new_path continue
  plan_new_path-Returns change plan none s other others = (_, _, refl, others)
  plan_new_path-Returns change plan (some content) s other others =
      (_, _, refl, All-append IsOther plan.paths_to_index _ others (other, tt))

  -- What a turn does depends on whether the change is a deletion.
  if-Returns :
      (deleted : Bool) (first second : Action (Indices client) Plan) (s : Indices client)
      → (deleted ≡ true → Returns first s)
      → (deleted ≡ false → Returns second s)
      → Returns (if deleted then first else second) s
  if-Returns true first second s first_does second_does = first_does refl
  if-Returns false first second s first_does second_does = second_does refl

  plan_change-Returns :
      (worktree : Dict String Content) (change : ChangedFile) (plan : Plan) (s : Indices client)
      → (change.deleted ≡ true) ⊎ IsOther change.new_path
      → All IsOther plan.paths_to_index
      → Returns (plan_change client tools settings project branch worktree change plan) s
  unfolding plan_change continue
  plan_change-Returns worktree change plan s fits others =
      if-Returns change.deleted _ _ s (λ gone. (_, _, refl, others))
        (λ there.
          plan_new_path-Returns change _ (get change.new_path worktree) s
            (elim fits [ inl gone ↦ absurd (ground (arith, gone, there)) | inr other ↦ other ])
            (note_rename-Other change.renamed change.old_path plan others))

  abbrev pub Fits : ChangedFile → Type 0
  Fits change = (change.deleted ≡ true) ⊎ IsOther change.new_path

  plan_changes-Returns :
      (worktree : Dict String Content) (changes : List ChangedFile) (plan : Plan)
      (s : Indices client)
      → All Fits changes
      → All IsOther plan.paths_to_index
      → Returns (plan_changes client tools settings project branch worktree changes plan) s
  unfolding plan_changes continue
  plan_changes-Returns worktree [] plan s fits others = (s, plan, refl, others)
  plan_changes-Returns worktree (change ∷ changes) plan s fits others =
      let (t, next, returns, later) = plan_change-Returns worktree change plan s fits.0 others in
      rw returns (plan_changes-Returns worktree changes next t fits.1 later)

  abbrev pub GoneHere : Indices client → Type 0
  GoneHere s = Gone client.chunks of_path s.chunks_index

  abbrev pub FindsHere : Indices client → Type 0
  FindsHere s = Finds client.chunks of_path s.chunks_index

  Gone-IsKept : IsKept client.chunks (λ c. of_path c ≡ false) (Gone client.chunks of_path)
  Gone-IsKept = record {
    delete_ok = other-Gone client.chunks of_path;
    refresh_ok = refresh-Gone client.chunks of_path;
    index_ok = λ c s other gone. index-Gone client.chunks of_path c.chunk_id c s other gone;
  }

  Finds-IsKept : IsKept client.chunks (λ c. ⊥) (Finds client.chunks of_path)
  Finds-IsKept = record {
    delete_ok = other-Finds client.chunks of_path;
    refresh_ok = λ s finds i d left passes. client.chunks.refresh_shows i s;
    index_ok = λ c s never finds. elim never [ ];
  }

  checked_out :
      {A : Type 0} (r : Result A) (a : A) (f : A → Action (Indices client) IndexJobResult)
      (s : Indices client)
      → r ≡ ok a
      → GoneHere (f a s).0
      → GoneHere (continue f (s, r)).0
  unfolding continue
  checked_out r a f s e h = subst (λ x. GoneHere (continue f (s, x)).0) (sym e) h

  good_paths :
      (m : Action (Indices client) Plan) (s : Indices client)
      → Returns m s
      → Good (λ plan. All IsOther plan.paths_to_index) (m s).1
  good_paths m s (t, next, returns, others) =
      subst (λ r. Good (λ (plan : Plan). All IsOther plan.paths_to_index) r.1) (sym returns) others

  abbrev pub no_plan : Plan
  no_plan = record {
    files_deleted = 0;
    files_renamed = 0;
    paths_to_index = [];
    old_paths_to_delete = [];
  }

  delete_path-Gone :
      (p : String) (s : Indices client)
      → p ≡ path
      → FindsHere s
      → GoneHere (delete_path client tools settings project branch p s).0
  unfolding delete_file
  delete_path-Gone p s same finds =
      subst (λ r. GoneHere (delete_path client tools settings project branch r s).0) (sym same)
        (delete-Gone client.chunks of_path s.chunks_index finds)

  first-Gone :
      (deleted : Bool) (first second : Action (Indices client) Plan) (s : Indices client)
      → deleted ≡ true
      → GoneHere (first s).0
      → GoneHere ((if deleted then first else second) s).0
  first-Gone true first second s e gone = gone
  first-Gone false first second s e gone = absurd (ground (arith, e))

  deletion-Gone :
      (worktree : Dict String Content) (change : ChangedFile) (plan : Plan) (s : Indices client)
      → change.deleted ≡ true
      → change.old_path ≡ path
      → FindsHere s
      → GoneHere (plan_change client tools settings project branch worktree change plan s).0
  unfolding plan_change continue
  deletion-Gone worktree change plan s gone same finds =
      first-Gone change.deleted _ _ s gone (delete_path-Gone change.old_path s same finds)

  module _
      (built : (worktree : Dict String Content) (p : String) (project' : GitLabProject)
          (branch' sha : String) (file : BuiltFile Score)
        → IsOther p
        → tools.build_file worktree p project' branch' sha ≡ ok file
        → All
            (λ c. of_path c ≡ false)
            (skip_secrets settings.skip_chunks_with_high_confidence_secrets file).chunks) where
    plan_changes-Gone :
        (worktree : Dict String Content) (changes : List ChangedFile) (change : ChangedFile)
        (plan : Plan) (s : Indices client)
        → In change changes
        → change.deleted ≡ true
        → change.old_path ≡ path
        → All Fits changes
        → All IsOther plan.paths_to_index
        → FindsHere s
        → GoneHere (plan_changes client tools settings project branch worktree changes plan s).0
    unfolding plan_changes continue
    plan_changes-Gone worktree [] change plan s m gone same fits others finds = elim m [ ]
    plan_changes-Gone worktree (first ∷ changes) change plan s (inl here) gone same fits others
          finds =
        let (t, next, returns, later) = plan_change-Returns worktree first plan s fits.0 others in
        let cleared =
          deletion-Gone worktree first plan s (ap (λ c. c.deleted) here ∙ gone)
            (ap (λ c. c.old_path) here ∙ same) finds in
        rw returns (
          plan_changes-Keeps client tools settings _ _ Gone-IsKept IsOther
            (λ time dense late c h. h) built project branch worktree changes next t
            (subst (λ r. GoneHere r.0) returns cleared))
    plan_changes-Gone worktree (first ∷ changes) change plan s (inr m) gone same fits others finds =
        let (t, next, returns, later) = plan_change-Returns worktree first plan s fits.0 others in
        rw returns (
          plan_changes-Gone worktree changes change next t m gone same fits.1 later (
            subst (λ r. FindsHere r.0) returns
              (plan_change-Keeps client tools settings (λ c. ⊥) (Finds client.chunks of_path)
                Finds-IsKept (λ p. ⊥) (λ time dense late c h. h)
                (λ w p project' branch' sha file never. elim never [ ]) project branch worktree
                first plan s finds)))

    incremental_index-Gone :
        (worktree : Dict String Content) (changes : List ChangedFile) (change : ChangedFile)
        (new_sha : String) (job : IndexJobResult) (now later : ℕ) (s : Indices client)
        → tools.checkout project branch (some new_sha) ≡ ok worktree
        → In change changes
        → change.deleted ≡ true
        → change.old_path ≡ path
        → All Fits changes
        → FindsHere s
        → GoneHere
            (incremental_index client tools settings project branch new_sha changes job now later
              s).0
    unfolding incremental_index
    incremental_index-Gone worktree changes change new_sha job now later s checks m gone same fits
          finds =
        checked_out (tools.checkout project branch (some new_sha)) worktree _ s checks (
          continue_good GoneHere (λ plan. All IsOther plan.paths_to_index) _
            (λ plan others.
              bind-Keeps GoneHere
                (delete_paths client tools settings project branch
                  (sorted_set plan.old_paths_to_delete))
                _
                (delete_paths-Keeps client tools settings _ _ Gone-IsKept IsOther
                  (λ time dense late c h. h) built project branch _)
                (λ u.
                  bind-Keeps GoneHere
                    (index_paths client tools settings project branch new_sha worktree now
                      plan.paths_to_index)
                    _
                    (index_paths-Keeps client tools settings _ _ Gone-IsKept IsOther
                      (λ time dense late c h. h) built project branch new_sha worktree now
                      plan.paths_to_index others)
                    (λ totals.
                      bind-Keeps GoneHere
                        (record_repo client tools settings project branch new_sha "indexed" now) _
                        (record_repo-Keeps client tools settings _ _ Gone-IsKept IsOther
                          (λ time dense late c h. h) built project branch new_sha "indexed" now)
                        (λ u' t h. h))))
            (plan_changes client tools settings project branch worktree changes no_plan s)
            (plan_changes-Gone worktree changes change no_plan s m gone same fits tt finds)
            (good_paths (plan_changes client tools settings project branch worktree changes no_plan)
              s (plan_changes-Returns worktree changes no_plan s fits tt)))

module _ {Score Content : Type 0} (client : Client Score RepoDocument) (tools : Tools Score Content)
    (settings : IndexSettings) where
  skip_secrets-All :
      (P : CodeChunk Score → Type 0) (skip : Bool) (file : BuiltFile Score)
      → All P file.chunks
      → All P (skip_secrets skip file).chunks
  unfolding skip_secrets
  skip_secrets-All P true file h = All-keep_if P _ file.chunks h
  skip_secrets-All P false file h = h

  -- After an incremental job that could check out the commit, however it ends, the index holds no
  -- chunk of a file that one of the changes deletes, where no other change has the file's path as
  -- its new path, a search finds the file's chunks before the job, and the chunks that are built of
  -- a file bear its path.
  pub incremental_index_project-removed :
      (s : Indices client) (project : GitLabProject) (branch : Option String)
      (old_sha new_sha : String) (worktree : Dict String Content) (changes : List ChangedFile)
      (change : ChangedFile) (now later : ℕ)
      → tools.checkout project (text_or branch settings.branch) (some new_sha) ≡ ok worktree
      → In change changes
      → change.deleted ≡ true
      → All (λ c. (c.deleted ≡ true) ⊎ ((c.new_path == change.old_path) ≡ false)) changes
      → Finds client.chunks
          (in_file client settings.tenant_id project.gitlab_project_id
            (text_or branch settings.branch)
            change.old_path)
          s.chunks_index
      → ((w : Dict String Content) (p : String) (project' : GitLabProject) (branch' sha : String)
            (file : BuiltFile Score)
          → tools.build_file w p project' branch' sha ≡ ok file
          → All (λ c. c.file_path ≡ p) file.chunks)
      → Gone client.chunks
          (in_file client settings.tenant_id project.gitlab_project_id
            (text_or branch settings.branch)
            change.old_path)
          (incremental_index_project client tools settings project old_sha new_sha changes branch
            now later s).0.chunks_index
  unfolding incremental_index_project
  incremental_index_project-removed s project branch old_sha new_sha worktree changes change now
        later checks m gone fits finds builds =
      let on_branch = text_or branch settings.branch in
      let job =
        new_job client tools settings "incremental_repo_index" project on_branch (some old_sha)
          new_sha now in
      let removed = change.old_path in
      subst (GoneHere client tools settings project on_branch removed)
        (sym (
          or_failed-state client tools settings job later (
            incremental_index client tools settings project on_branch new_sha changes job now later
              s)))
        (incremental_index-Gone client tools settings project on_branch removed
          (λ w p project' branch' sha file other e. skip_secrets-All _ _ file (
            All-map _ (λ c same. ground (arith, ap (λ x. x == removed) same ∙ other)) file.chunks
              (builds w p project' branch' sha file e)))
          worktree changes change new_sha job now later s checks m gone refl fits finds)
