-- ===== src/Jobs/Store.antt =====
-- `JobStoreMixin`: enqueue, claim, finish and fail over the job and job-status indices. A raised
-- exception is an `Error` value; the state beside it is the one it leaves.
use code_rag.Prelude.{
  ℕ, ◌+◌, String, Bool, true, false, ◌&&◌, ◌||◌, Option, none, some, List, [], ◌∷◌, ltb,
  if◌then◌else◌, nat_eq, string_eq, list_eq, pair_eq, option_eq,
}
use code_rag.Documents.Index.{DocumentIndex}
use code_rag.Jobs.Records.{
  Status, queued, running, succeeded, failed, status_eq, IndexJobResult, IndexJobRecord, JobStatus,
  job_status,
}

pub data Error : Type 0 where
  not_found disappeared conflict : Error
  unsupported_type missing_key remote : String → Error

pub data Result {ℓ} (A : Type ℓ) : Type ℓ where
  ok : A → Result A
  raise : Error → Result A

-- existing.status in {"queued", "running", "succeeded"}
abbrev pub is_live : Status → Bool
is_live failed = false
is_live _ = true

-- The query of `claim_next_job`: queued, or running with an expired lock.
unfoldable pub is_claimable : ℕ → IndexJobRecord → Bool
is_claimable now r =
    status_eq r.status queued
    || (status_eq r.status running
        && elim r.lock_expires_at [ none ↦ false | some expiry ↦ ltb expiry now ])

unfoldable pub claim_update : String → ℕ → ℕ → IndexJobRecord → IndexJobRecord
claim_update worker_id now lock_ttl r = record r {
  status = running;
  started_at = some now;
  locked_by = some worker_id;
  lock_expires_at = some (now + lock_ttl);
  attempts = r.attempts + 1;
}

-- The fields of `updates` put into the document; `attempts` counts from the hit's source.
unfoldable pub claim_doc : String → ℕ → ℕ → IndexJobRecord → IndexJobRecord → IndexJobRecord
unfolding claim_update
claim_doc worker_id now lock_ttl source r =
    claim_update worker_id now lock_ttl (record r { attempts = source.attempts })

-- "succeeded" if result.status == "succeeded" else "failed"
unfoldable pub final_status : Status → Status
final_status status = if status_eq status succeeded then succeeded else failed

module _ (results : DocumentIndex IndexJobResult) (statuses : DocumentIndex IndexJobRecord) where
  pub record JobStore : Type 0 where
    pub jobs : results.State
    pub records : statuses.State

  unfoldable pub record_job : IndexJobResult → JobStore → JobStore
  record_job job s = record s { jobs = results.index job.job_id job s.jobs }

  unfoldable pub get_job : String → JobStore → Option IndexJobResult
  get_job job_id s = elim (results.get job_id s.jobs) [ none ↦ none | some (job, _) ↦ some job ]

  -- exists, then get
  unfoldable pub get_record : String → JobStore → Option IndexJobRecord
  get_record job_id s = elim (statuses.get job_id s.records) [ none ↦ none | some (r, _) ↦ some r ]

  unfoldable pub get_job_status : String → JobStore → Option JobStatus
  unfolding get_record job_status
  get_job_status job_id s = elim (get_record job_id s) [
    | none ↦ none
    | some r ↦ some (job_status r)
  ]

  unfoldable pub overwrite : IndexJobRecord → JobStore → JobStore
  overwrite r s = record s { records = statuses.index r.job_id r s.records }

  -- The conflict branch reads the record that another worker created.
  unfoldable pub adopt : IndexJobRecord → JobStore → Result JobStatus
  unfolding get_job_status
  adopt r s = elim (get_job_status r.job_id s) [
    | some existing ↦ ok existing
    | none ↦ raise conflict
  ]

  unfoldable pub create : IndexJobRecord → JobStore → JobStore × Result JobStatus
  unfolding adopt job_status
  create r s = elim (statuses.create r.job_id r s.records) [
    | some written ↦ (record s { records = written }, ok (job_status r))
    | none ↦ (s, adopt r s)
  ]

  unfoldable pub enqueue_job : IndexJobRecord → JobStore → JobStore × Result JobStatus
  unfolding create get_job_status overwrite job_status
  enqueue_job r s = elim (get_job_status r.job_id s) [
    | none ↦ create r s
    | some existing ↦
        if is_live existing.status then (s, ok existing) else (overwrite r s, ok (job_status r))
  ]

  -- The loop over the hits: the first one whose sequence number still holds is claimed. A record that
  -- is gone, for which the update of the code raises, is passed over like a conflict.
  unfoldable pub claim_first :
      String
      → ℕ
      → ℕ
      → List (String × (IndexJobRecord × ℕ))
      → JobStore
      → JobStore × Option IndexJobRecord
  unfolding claim_update claim_doc
  claim_first worker_id now lock_ttl [] s = (s, none)
  claim_first worker_id now lock_ttl ((id, (source, seq_no)) ∷ hits) s =
      let rest = claim_first worker_id now lock_ttl hits s in
      let updated = claim_update worker_id now lock_ttl source in
      elim (statuses.update_if id seq_no (claim_doc worker_id now lock_ttl source) s.records) [
        | none ↦ rest
        | some written ↦ (record s { records = written }, some updated)
      ]

  unfoldable pub claim_next_job : String → ℕ → ℕ → JobStore → JobStore × Option IndexJobRecord
  unfolding claim_first is_claimable
  claim_next_job worker_id now lock_ttl s =
      claim_first worker_id now lock_ttl
        (statuses.search (is_claimable now) (λ r. r.submitted_at) 10 s.records) s

  -- The update of `finish_job` and `fail_job`, and the read that follows.
  unfoldable pub close_job :
      String → (IndexJobRecord → IndexJobRecord) → JobStore → JobStore × Result JobStatus
  unfolding get_job_status
  close_job job_id change s = elim (statuses.update job_id change s.records) [
    | none ↦ (s, raise not_found)
    | some written ↦
        let s' : JobStore = record s { records = written } in
        (s', elim (get_job_status job_id s') [ none ↦ raise disappeared | some status ↦ ok status ])
  ]

  unfoldable pub finish_job : String → IndexJobResult → ℕ → JobStore → JobStore × Result JobStatus
  unfolding close_job record_job final_status
  finish_job job_id result now s =
      close_job job_id
        (λ r. record r {
          status = final_status result.status;
          finished_at = some now;
          result = some result;
          error_message = result.error_message;
          locked_by = none;
          lock_expires_at = none;
        })
        (record_job result s)

  unfoldable pub fail_job : String → String → ℕ → JobStore → JobStore × Result JobStatus
  unfolding close_job
  fail_job job_id error_message now s =
      close_job job_id
        (λ r. record r {
          status = failed;
          finished_at = some now;
          error_message = some error_message;
          locked_by = none;
          lock_expires_at = none;
        })
        s
