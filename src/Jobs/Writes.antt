-- ===== src/Jobs/Writes.antt =====
-- What each write of the job store does to the records, read back by id.
use code_rag.Prelude.{
  String, ◌≡◌, inl, inr, true, false, none, some, arith, if◌then◌else◌, Option-cases, ◌==◌, ==_refl,
  nat_eq, string_eq, list_eq, pair_eq, option_eq,
}
use code_rag.Documents.Index.{DocumentIndex}
use code_rag.Jobs.Records.{IndexJobResult, IndexJobRecord, job_status}
use code_rag.Jobs.Store.{
  ok, raise, not_found, JobStore, is_live, get_record, overwrite, create, enqueue_job, close_job,
}

module _ (results : DocumentIndex IndexJobResult) (statuses : DocumentIndex IndexJobRecord) where
  -- The record at `id` is `r` and every other record is as before.
  abbrev pub Wrote :
      String → IndexJobRecord → JobStore results statuses → JobStore results statuses → Type 0
  Wrote id r s s' =
      (j : String)
      → get_record results statuses j s'
        ≡ (if id == j then some r else get_record results statuses j s)

  pub overwrite-Wrote :
      (r : IndexJobRecord) (s : JobStore results statuses)
      → Wrote r.job_id r s (overwrite results statuses r s)
  unfolding overwrite get_record
  overwrite-Wrote r s j = ground (arith, statuses.get-index r.job_id j r s.records)

  pub close_job-Wrote :
      (id : String) (change : IndexJobRecord → IndexJobRecord) (s : JobStore results statuses)
      (r : IndexJobRecord)
      → get_record results statuses id s ≡ some r
      → Wrote id (change r) s (close_job results statuses id change s).0
        × ((close_job results statuses id change s).1 ≡ ok (job_status (change r)))
  unfolding close_job get_record
  close_job-Wrote id change s r h = elim (Option-cases (statuses.get id s.records)) [
    | inl absent ↦ absurd (ground arith)
    | inr ((d, n), found) ↦
        let (written, m, e, later, reads) = statuses.update-present id change s.records d n found in
        (λ j. ground (arith, reads j), ground (arith, reads id, ==_refl id))
  ]

  pub close_job_absent :
      (id : String) (change : IndexJobRecord → IndexJobRecord) (s : JobStore results statuses)
      → get_record results statuses id s ≡ none
      → close_job results statuses id change s ≡ (s, raise not_found)
  unfolding close_job get_record
  close_job_absent id change s h = ground (arith, statuses.update-absent id change s.records)

  -- What a submission does, by the record that is there.
  pub enqueue_absent :
      (r : IndexJobRecord) (s : JobStore results statuses)
      → get_record results statuses r.job_id s ≡ none
      → Wrote r.job_id r s (enqueue_job results statuses r s).0
        × ((enqueue_job results statuses r s).1 ≡ ok (job_status r))
  unfolding enqueue_job get_record
  enqueue_absent r s h = elim (Option-cases (statuses.get r.job_id s.records)) [
    | inl absent ↦
        let (written, n, e, reads) = statuses.create-absent r.job_id r s.records absent in
        (λ j. ground (arith, reads j), ground arith)
    | inr (d, found) ↦ absurd (ground arith)
  ]

  pub enqueue_live :
      (r d : IndexJobRecord) (s : JobStore results statuses)
      → get_record results statuses r.job_id s ≡ some d
      → is_live d.status ≡ true
      → enqueue_job results statuses r s ≡ (s, ok (job_status d))
  unfolding enqueue_job get_record
  enqueue_live r d s h live = ground arith

  pub enqueue_failed :
      (r d : IndexJobRecord) (s : JobStore results statuses)
      → get_record results statuses r.job_id s ≡ some d
      → is_live d.status ≡ false
      → enqueue_job results statuses r s ≡ (overwrite results statuses r s, ok (job_status r))
  unfolding enqueue_job get_record
  enqueue_failed r d s h dead = ground arith

  -- A record that appeared since the check: the submission adopts it.
  pub create_conflict :
      (r d : IndexJobRecord) (s : JobStore results statuses)
      → get_record results statuses r.job_id s ≡ some d
      → create results statuses r s ≡ (s, ok (job_status d))
  unfolding create get_record
  create_conflict r d s h = elim (Option-cases (statuses.get r.job_id s.records)) [
    | inl absent ↦ absurd (ground arith)
    | inr (e, found) ↦ ground (arith, statuses.create-present r.job_id r s.records e found)
  ]
