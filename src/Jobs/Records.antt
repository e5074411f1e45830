-- ===== src/Jobs/Records.antt =====
-- The job records of src/code_rag/domain/models/: statuses are the strings that the code writes.
use code_rag.Prelude.{
  ℕ, String, Bool, true, false, Option, List, nat_eq, string_eq, list_eq, pair_eq, option_eq,
}

pub data Status : Type 0 where
  queued running succeeded failed : Status

abbrev pub status_eq : Status → Status → Bool
status_eq queued queued = true
status_eq running running = true
status_eq succeeded succeeded = true
status_eq failed failed = true
status_eq _ _ = false

pub record GitLabProject : Type 0 where
  pub gitlab_project_id : String
  pub repo_path_with_namespace : String
  pub repo_name : String
  pub repo_url : String
  pub default_branch : Option String
  pub description : Option String

pub record ChangedFile : Type 0 where
  pub old_path : String
  pub new_path : String
  pub added : Bool
  pub deleted : Bool
  pub renamed : Bool
  pub modified : Bool

pub record IndexJobResult : Type 0 where
  pub job_id : String
  pub job_type : String
  pub gitlab_project_id : String
  pub repo_path_with_namespace : String
  pub branch : String
  pub old_sha : Option String
  pub new_sha : String
  pub status : Status
  pub started_at : ℕ
  pub finished_at : ℕ
  pub files_seen : ℕ
  pub files_added : ℕ
  pub files_modified : ℕ
  pub files_deleted : ℕ
  pub files_renamed : ℕ
  pub chunks_added : ℕ
  pub chunks_deleted : ℕ
  pub error_message : Option String

-- The payload's keys; `none` is a key that is missing.
pub record Payload : Type 0 where
  pub project : Option GitLabProject
  pub branch : Option String
  pub commit_sha : Option String
  pub old_sha : Option String
  pub new_sha : Option String
  pub changes : Option (List ChangedFile)
  pub fallback_to_full_index : Bool

pub record IndexJobRecord : Type 0 where
  pub job_id : String
  pub status : Status
  pub job_type : String
  pub submitted_at : ℕ
  pub started_at : Option ℕ
  pub finished_at : Option ℕ
  pub result : Option IndexJobResult
  pub error_message : Option String
  pub payload : Payload
  pub locked_by : Option String
  pub lock_expires_at : Option ℕ
  pub attempts : ℕ

pub record JobStatus : Type 0 where
  pub job_id : String
  pub status : Status
  pub job_type : String
  pub submitted_at : ℕ
  pub started_at : Option ℕ
  pub finished_at : Option ℕ
  pub result : Option IndexJobResult
  pub error_message : Option String

-- `JobStatus.model_validate` of a record's document, and `_job_status`.
unfoldable pub job_status : IndexJobRecord → JobStatus
job_status r = record {
  job_id = r.job_id;
  status = r.status;
  job_type = r.job_type;
  submitted_at = r.submitted_at;
  started_at = r.started_at;
  finished_at = r.finished_at;
  result = r.result;
  error_message = r.error_message;
}
