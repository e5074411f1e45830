-- ===== src/Jobs/Submissions.antt =====
-- Submitting a job, and submitting it again.
use code_rag.Prelude.{
  ℕ, String, ◌≡◌, refl, sym, ap, ◌∙◌, subst, inl, inr, Bool, true, false, Option, none, some, arith,
  eq_iff, if◌then◌else◌, Bool-cases, Option-cases, ◌==◌, ==_refl, nat_eq, string_eq, list_eq,
  pair_eq, option_eq,
}
use code_rag.Documents.Index.{DocumentIndex}
use code_rag.Jobs.Records.{
  Status, queued, running, succeeded, failed, IndexJobResult, IndexJobRecord, Payload, job_status,
}
use code_rag.Jobs.Store.{ok, JobStore, is_live, get_record}
use code_rag.Jobs.Writes.{Wrote, overwrite-Wrote, enqueue_absent, enqueue_live, enqueue_failed}
use code_rag.Jobs.Queue.{new_record, submit}

module _ (results : DocumentIndex IndexJobResult) (statuses : DocumentIndex IndexJobRecord) where
  -- A failed job makes room for a new one.
  abbrev pub kept_by : Status → IndexJobRecord → IndexJobRecord → IndexJobRecord
  kept_by queued d r = d
  kept_by running d r = d
  kept_by succeeded d r = d
  kept_by failed d r = r

  -- What is stored and answered when `r` is submitted over `before`.
  abbrev pub after_submit : IndexJobRecord → Option IndexJobRecord → IndexJobRecord
  after_submit r none = r
  after_submit r (some d) = kept_by d.status d r

  is_live-kept :
      (status : Status) (d r : IndexJobRecord) → is_live status ≡ true → kept_by status d r ≡ d
  is_live-kept queued d r live = refl
  is_live-kept running d r live = refl
  is_live-kept succeeded d r live = refl
  is_live-kept failed d r live = absurd (ground arith)

  is_live-replaced :
      (status : Status) (d r : IndexJobRecord) → is_live status ≡ false → kept_by status d r ≡ r
  is_live-replaced queued d r dead = absurd (ground arith)
  is_live-replaced running d r dead = absurd (ground arith)
  is_live-replaced succeeded d r dead = absurd (ground arith)
  is_live-replaced failed d r dead = refl

  -- The kept record stays when another one is submitted over it.
  kept_again :
      (status : Status) (d r r' : IndexJobRecord)
      → d.status ≡ status
      → r.status ≡ queued
      → kept_by (kept_by status d r).status (kept_by status d r) r' ≡ kept_by status d r
  kept_again queued d r r' e is_new = ap (λ x. kept_by x d r') e
  kept_again running d r r' e is_new = ap (λ x. kept_by x d r') e
  kept_again succeeded d r r' e is_new = ap (λ x. kept_by x d r') e
  kept_again failed d r r' e is_new = ap (λ x. kept_by x r r') is_new

  after_submit_again :
      (before : Option IndexJobRecord) (r r' : IndexJobRecord)
      → r.status ≡ queued
      → after_submit r' (some (after_submit r before)) ≡ after_submit r before
  after_submit_again none r r' is_new = ap (λ x. kept_by x r r') is_new
  after_submit_again (some d) r r' is_new = kept_again d.status d r r' refl is_new

  Wrote-same :
      (id : String) (r : IndexJobRecord) (s : JobStore results statuses)
      → get_record results statuses id s ≡ some r
      → Wrote results statuses id r s s
  Wrote-same id r s h j = elim (Bool-cases (id == j)) [
    | inl same ↦
        rw same (
          subst (λ (k : String). get_record results statuses k s ≡ some r) ((eq_iff id j).0 same) h)
    | inr other ↦ rw other refl
  ]

  over :
      (b : Bool) (before first second : Option IndexJobRecord) (kept : Option IndexJobRecord)
      → first ≡ (if b then kept else before)
      → second ≡ (if b then kept else first)
      → second ≡ (if b then kept else before)
  over true before first second kept e e' = e'
  over false before first second kept e e' = e' ∙ e

  submit_once :
      (id job_type : String) (payload : Payload) (now : ℕ) (s : JobStore results statuses)
      → let r = new_record id job_type now payload in
        let kept = after_submit r (get_record results statuses id s) in
        Wrote results statuses id kept s (submit results statuses id job_type payload now s).0
        × ((submit results statuses id job_type payload now s).1 ≡ ok (job_status kept))
  unfolding submit new_record
  submit_once id job_type payload now s = elim (Option-cases (get_record results statuses id s)) [
    | inl absent ↦
        rw absent (enqueue_absent results statuses (new_record id job_type now payload) s absent)
    | inr (d, found) ↦
        let r = new_record id job_type now payload in
        elim (Bool-cases (is_live d.status)) [
          | inl live ↦ rw found (
              rw (is_live-kept d.status d r live) (
                rw (enqueue_live results statuses r d s found live)
                  (Wrote-same id d s found, refl)))
          | inr dead ↦ rw found (
              rw (is_live-replaced d.status d r dead) (
                rw (enqueue_failed results statuses r d s found dead)
                  (overwrite-Wrote results statuses r s, refl)))
        ]
  ]

  -- A submission leaves one record under the job id and answers with its status: the record that is
  -- there if it is queued, running or succeeded, else, if it is failed or there is none, a new queued
  -- one. No other record changes. Submitting under the same id once more, whatever the type, the
  -- payload and the time, leaves that record and gives the same answer.
  pub submit_lem :
      (id job_type again_type : String) (payload again_payload : Payload) (now later : ℕ)
      (s : JobStore results statuses)
      → let r = new_record id job_type now payload in
        let kept = after_submit r (get_record results statuses id s) in
        let first = submit results statuses id job_type payload now s in
        let second = submit results statuses id again_type again_payload later first.0 in
        Wrote results statuses id kept s first.0
        × (first.1 ≡ ok (job_status kept))
        × Wrote results statuses id kept s second.0
        × (second.1 ≡ first.1)
  unfolding new_record
  submit_lem id job_type again_type payload again_payload now later s =
      let before = get_record results statuses id s in
      let r = new_record id job_type now payload in
      let r' = new_record id again_type later again_payload in
      let first = (submit results statuses id job_type payload now s).0 in
      let once = submit_once id job_type payload now s in
      let twice = submit_once id again_type again_payload later first in
      let there : get_record results statuses id first ≡ some (after_submit r before) =
        ground (arith, once.0 id, ==_refl id) in
      let same : after_submit r' (get_record results statuses id first) ≡ after_submit r before =
        ap (after_submit r') there ∙ after_submit_again before r r' is_new in
      let wrote =
        subst
          (λ k.
            Wrote results statuses id k first
              (submit results statuses id again_type again_payload later first).0)
          same twice.0 in
      (
        once.0,
        once.1,
        λ j. over (id == j) _ _ _ _ (once.0 j) (wrote j),
        twice.1 ∙ ap (λ k. ok (job_status k)) same ∙ sym once.1,
      )
    where
      is_new : (new_record id job_type now payload).status ≡ queued
      is_new = refl
