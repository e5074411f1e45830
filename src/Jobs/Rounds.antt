-- ===== src/Jobs/Rounds.antt =====
-- One round of a worker, from claim to the final record, and what a late worker can still do.
use code_rag.Prelude.{
  ℕ, String, ◌≡◌, refl, sym, ap, ◌∙◌, subst, ◌⊎◌, inr, none, some, arith, ==_refl, nat_eq,
  string_eq, list_eq, pair_eq, option_eq,
}
use code_rag.Documents.Index.{DocumentIndex}
use code_rag.Jobs.Records.{succeeded, failed, IndexJobResult, IndexJobRecord, job_status}
use code_rag.Jobs.Store.{
  Result, ok, raise, JobStore, get_record, final_status, claim_update, claim_next_job, record_job,
  finish_job, fail_job,
}
use code_rag.Jobs.Writes.{Wrote, close_job-Wrote}
use code_rag.Jobs.Claims.{claim_next_job-Claimed}
use code_rag.Jobs.Queue.{Indexer, execute, renamed, settle, crash, run, poll}
use code_rag.Jobs.Locks.{IsConsistent}

-- The record after a worker has ended its job.
unfoldable pub finished_record : IndexJobResult → ℕ → IndexJobRecord → IndexJobRecord
unfolding final_status
finished_record result now r = record r {
  status = final_status result.status;
  finished_at = some now;
  result = some result;
  error_message = result.error_message;
  locked_by = none;
  lock_expires_at = none;
}

unfoldable pub failed_record : String → ℕ → IndexJobRecord → IndexJobRecord
failed_record message now r = record r {
  status = failed;
  finished_at = some now;
  error_message = some message;
  locked_by = none;
  lock_expires_at = none;
}

module _ (results : DocumentIndex IndexJobResult) (statuses : DocumentIndex IndexJobRecord) where
  pub finish_job-Wrote :
      (id : String) (result : IndexJobResult) (now : ℕ) (s : JobStore results statuses)
      (r : IndexJobRecord)
      → get_record results statuses id s ≡ some r
      → Wrote results statuses id
          (finished_record result now r)
          s
          (finish_job results statuses id result now s).0
        × ((finish_job results statuses id result now s).1
            ≡ ok (job_status (finished_record result now r)))
  unfolding finish_job finished_record get_record record_job
  finish_job-Wrote id result now s r h =
      close_job-Wrote results statuses id (finished_record result now)
        (record_job results statuses result s) r h

  pub fail_job-Wrote :
      (id message : String) (now : ℕ) (s : JobStore results statuses) (r : IndexJobRecord)
      → get_record results statuses id s ≡ some r
      → Wrote results statuses id
          (failed_record message now r)
          s
          (fail_job results statuses id message now s).0
        × ((fail_job results statuses id message now s).1
            ≡ ok (job_status (failed_record message now r)))
  unfolding fail_job failed_record
  fail_job-Wrote id message now s r h =
      close_job-Wrote results statuses id (failed_record message now) s r h

  read_self :
      (id : String) (q : IndexJobRecord) (s s' : JobStore results statuses)
      → Wrote results statuses id q s s'
      → get_record results statuses id s' ≡ some q
  read_self id q s s' wrote = ground (arith, wrote id, ==_refl id)

  finished_here :
      (id : String) (result : IndexJobResult) (now : ℕ) (s : JobStore results statuses)
      (r : IndexJobRecord)
      → get_record results statuses id s ≡ some r
      → get_record results statuses id (finish_job results statuses id result now s).0
        ≡ some (finished_record result now r)
  finished_here id result now s r h = read_self id _ s _ (finish_job-Wrote id result now s r h).0

  -- There is no check that the worker still holds the job: once another worker has finished it, a
  -- worker that fails late turns the success into a failure, and the result stays beside it.
  pub late_failure :
      (id message : String) (result : IndexJobResult) (now later : ℕ)
      (s : JobStore results statuses) (r : IndexJobRecord)
      → get_record results statuses id s ≡ some r
      → result.status ≡ succeeded
      → get_record results statuses id (finish_job results statuses id result now s).0
          ≡ some (finished_record result now r)
        × ((finished_record result now r).status ≡ succeeded)
        × (get_record results statuses id
              (fail_job results statuses id message later
                (finish_job results statuses id result now s).0).0
            ≡ some (failed_record message later (finished_record result now r)))
  late_failure id message result now later s r h e =
      let (wrote, closed) = finish_job-Wrote id result now s r h in
      let first = finished_here id result now s r h in
      (
        first,
        unfold finished_record in rw e refl,
        read_self id _ _ _
            (fail_job-Wrote id message later _ (finished_record result now r) first).0,
      )

module _ {W : Type 0} (service : Indexer W) where
  open service use {describe}

  -- The final record of a job, by the outcome of `_execute`.
  unfoldable pub settled : Result IndexJobResult → ℕ → ℕ → IndexJobRecord → IndexJobRecord
  unfolding finished_record failed_record
  settled (ok result) finished failed_at r =
      finished_record (renamed service r.job_id result) finished r
  settled (raise e) finished failed_at r = failed_record (describe e) failed_at r

  final :
      (outcome : Result IndexJobResult) (finished failed_at : ℕ) (r : IndexJobRecord)
      → ((settled outcome finished failed_at r).status ≡ succeeded)
        ⊎ ((settled outcome finished failed_at r).status ≡ failed)
  unfolding settled
  final (ok result) finished failed_at r = ground arith
  final (raise e) finished failed_at r = inr refl

  cleared :
      (outcome : Result IndexJobResult) (finished failed_at : ℕ) (r : IndexJobRecord)
      → (settled outcome finished failed_at r).locked_by ≡ none
  unfolding settled
  cleared (ok result) finished failed_at r = refl
  cleared (raise e) finished failed_at r = refl

module _ {W : Type 0} (service : Indexer W) (results : DocumentIndex IndexJobResult)
    (statuses : DocumentIndex IndexJobRecord) where
  open service use {describe}

  settle-Wrote :
      (outcome : Result IndexJobResult) (finished failed_at : ℕ) (s : JobStore results statuses)
      (r : IndexJobRecord)
      → get_record results statuses r.job_id s ≡ some r
      → Wrote results statuses r.job_id
          (settled service outcome finished failed_at r)
          s
          (settle service results statuses r outcome finished failed_at s).0
  settle-Wrote (raise e) finished failed_at s r h =
      unfold settle crash settled in
      (fail_job-Wrote results statuses r.job_id (describe e) failed_at s r h).0
  settle-Wrote (ok result) finished failed_at s r h =
      let (wrote, closed) =
        finish_job-Wrote results statuses r.job_id (renamed service r.job_id result) finished s r
          h in
      unfold settle settled in λ j. ground (arith, closed, wrote j)

  -- A round of a worker that claims a job ends it: whatever `_execute` returned or raised, the record
  -- is final, succeeded or failed, and its lock is cleared; no other record has changed.
  pub poll_settles :
      (worker : String) (ttl now finished failed_at : ℕ) (s s' : JobStore results statuses) (w : W)
      (r : IndexJobRecord)
      → IsConsistent results statuses s
      → claim_next_job results statuses worker now ttl s ≡ (s', some r)
      → Wrote results statuses r.job_id
          (settled service (execute service r w).1 finished failed_at r)
          s
          (poll service results statuses worker ttl now finished failed_at s w).0
        × ((poll service results statuses worker ttl now finished failed_at s w).2 ≡ some r)
        × (((settled service (execute service r w).1 finished failed_at r).status ≡ succeeded)
            ⊎ ((settled service (execute service r w).1 finished failed_at r).status ≡ failed))
        × ((settled service (execute service r w).1 finished failed_at r).locked_by ≡ none)
  unfolding poll run
  poll_settles worker ttl now finished failed_at s s' w r c e =
      let (id, d, found, free, what, wrote, kept) =
        claim_next_job-Claimed results statuses worker now ttl s s' r e in
      let key : r.job_id ≡ id =
        ap (λ (q : IndexJobRecord). q.job_id) what ∙ unfold claim_update in (c.at id d found).key in
      let outcome = (execute service r w).1 in
      let wrote' = subst (λ (i : String). Wrote results statuses i r s s') (sym key) wrote in
      let here : get_record results statuses r.job_id s' ≡ some r =
        ground (arith, wrote' r.job_id, ==_refl r.job_id) in
      let done = settle-Wrote outcome finished failed_at s' r here in
      (
        λ j. ground (arith, e, wrote' j, done j),
        ground (arith, e),
        final service outcome finished failed_at r,
        cleared service outcome finished failed_at r,
      )
