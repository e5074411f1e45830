-- ===== src/Jobs/Queue.antt =====
-- `IndexJobQueue`: submit, and one round of a worker's poll loop, claim, execute, finish or fail.
-- The indexing service and GitLab are the interface `Indexer` over the state that they change.
use code_rag.Prelude.{
  ℕ, String, Option, none, some, List, [], ◌∷◌, if◌then◌else◌, ◌==◌, nat_eq, string_eq, list_eq,
  pair_eq, option_eq,
}
use code_rag.Documents.Index.{DocumentIndex}
use code_rag.Jobs.Records.{
  queued, IndexJobResult, IndexJobRecord, JobStatus, Payload, GitLabProject, ChangedFile,
}
use code_rag.Jobs.Store.{
  Error, unsupported_type, missing_key, Result, ok, raise, JobStore, enqueue_job, claim_next_job,
  finish_job, fail_job,
}

pub record Indexer (W : Type 0) : Type 0 where
  pub full_index_project : GitLabProject → Option String → Option String → W → W × IndexJobResult
  pub incremental_index_project :
      GitLabProject → String → String → List ChangedFile → Option String → W → W × IndexJobResult
  -- GitLabClient.compare
  pub compare : String → String → String → W → Result (List ChangedFile)
  -- str(exc)
  pub describe : Error → String

unfoldable pub new_record : String → String → ℕ → Payload → IndexJobRecord
new_record job_id job_type now payload = record {
  job_id = job_id;
  status = queued;
  job_type = job_type;
  submitted_at = now;
  started_at = none;
  finished_at = none;
  result = none;
  error_message = none;
  payload = payload;
  locked_by = none;
  lock_expires_at = none;
  attempts = 0;
}

module _ (results : DocumentIndex IndexJobResult) (statuses : DocumentIndex IndexJobRecord) where
  unfoldable pub submit :
      String
      → String
      → Payload
      → ℕ
      → JobStore results statuses
      → JobStore results statuses × Result JobStatus
  submit job_id job_type payload now s =
      enqueue_job results statuses (new_record job_id job_type now payload) s

module _ {W : Type 0} (service : Indexer W) where
  open service use {full_index_project, incremental_index_project, compare, describe}

  abbrev pub answered : W × IndexJobResult → W × Result IndexJobResult
  answered (w, result) = (w, ok result)

  -- The tail of the incremental branch, once the changes are known.
  unfoldable pub index_changes :
      GitLabProject → String → String → Payload → List ChangedFile → W → W × Result IndexJobResult
  index_changes project old_sha new_sha payload [] w =
      if payload.fallback_to_full_index
      then answered (full_index_project project payload.branch (some new_sha) w)
      else answered (incremental_index_project project old_sha new_sha [] payload.branch w)
  index_changes project old_sha new_sha payload (c ∷ changes) w =
      answered (incremental_index_project project old_sha new_sha (c ∷ changes) payload.branch w)

  unfoldable pub changes_of :
      GitLabProject → String → String → Payload → W → Result (List ChangedFile)
  changes_of project old_sha new_sha payload w = elim payload.changes [
    | some changes ↦ ok changes
    | none ↦ compare project.gitlab_project_id old_sha new_sha w
  ]

  unfoldable pub execute_incremental : GitLabProject → Payload → W → W × Result IndexJobResult
  unfolding index_changes changes_of
  execute_incremental project payload w = elim payload.old_sha [
    | none ↦ (w, raise (missing_key "old_sha"))
    | some old_sha ↦ elim payload.new_sha [
      | none ↦ (w, raise (missing_key "new_sha"))
      | some new_sha ↦ elim (changes_of project old_sha new_sha payload w) [
        | raise e ↦ (w, raise e)
        | ok changes ↦ index_changes project old_sha new_sha payload changes w
      ]
    ]
  ]

  unfoldable pub execute : IndexJobRecord → W → W × Result IndexJobResult
  unfolding execute_incremental
  execute r w = elim r.payload.project [
    | none ↦ (w, raise (missing_key "project"))
    | some project ↦
        if r.job_type == "full_repo_index"
        then answered (full_index_project project r.payload.branch r.payload.commit_sha w)
        else if r.job_type == "incremental_repo_index"
        then execute_incremental project r.payload w
        else (w, raise (unsupported_type r.job_type))
  ]

  -- result.model_copy(update={"job_id": record.job_id}) where they differ
  abbrev pub renamed : String → IndexJobResult → IndexJobResult
  renamed job_id result =
      if result.job_id == job_id then result else record result { job_id = job_id }

  module _ (results : DocumentIndex IndexJobResult) (statuses : DocumentIndex IndexJobRecord) where
    -- except Exception: fail_job, and raise again
    unfoldable pub crash :
        IndexJobRecord
        → Error
        → ℕ
        → JobStore results statuses
        → JobStore results statuses × Result IndexJobResult
    crash r e now s =
        let (s', failed_status) = fail_job results statuses r.job_id (describe e) now s in
        (s', elim failed_status [ ok status ↦ raise e | raise e' ↦ raise e' ])

    -- The body of the `try` after `_execute`.
    unfoldable pub settle :
        IndexJobRecord
        → Result IndexJobResult
        → ℕ
        → ℕ
        → JobStore results statuses
        → JobStore results statuses × Result IndexJobResult
    unfolding crash
    settle r (raise e) finished failed_at s = crash r e failed_at s
    settle r (ok result) finished failed_at s =
        let (s', closed) =
          finish_job results statuses r.job_id (renamed r.job_id result) finished s in
        elim closed [
          | ok status ↦ (s', ok (renamed r.job_id result))
          | raise e ↦ crash r e failed_at s'
        ]

    unfoldable pub run :
        IndexJobRecord
        → ℕ
        → ℕ
        → JobStore results statuses
        → W
        → JobStore results statuses × W × Result IndexJobResult
    run r finished failed_at s w =
        let (w', outcome) = execute r w in
        let (s', answer) = settle r outcome finished failed_at s in (s', w', answer)

    -- One round of `_poll`; an exception of `_run` is logged and dropped.
    unfoldable pub poll :
        String
        → ℕ
        → ℕ
        → ℕ
        → ℕ
        → JobStore results statuses
        → W
        → JobStore results statuses × W × Option IndexJobRecord
    poll worker_id lock_ttl now finished failed_at s w =
        let (s', claimed) = claim_next_job results statuses worker_id now lock_ttl s in
        elim claimed [
          | none ↦ (s', w, none)
          | some r ↦ let (s'', w', answer) = run r finished failed_at s' w in (s'', w', some r)
        ]
