-- ===== src/Jobs/Locks.antt =====
-- The invariant of the records under every interleaving of submissions, claims, finishes and failures.
use code_rag.Prelude.{
  ℕ, String, ◌≡◌, refl, sym, ◌∙◌, subst, inl, inr, Bool, true, false, Option, none, some, List, [],
  ◌∷◌, arith, eq_iff, Bool-cases, Option-cases, ◌==◌, nat_eq, string_eq, list_eq, pair_eq,
  option_eq,
}
use code_rag.Documents.Index.{DocumentIndex}
use code_rag.Jobs.Records.{Status, running, status_eq, IndexJobResult, IndexJobRecord, Payload}
use code_rag.Jobs.Store.{
  JobStore, get_record, is_live, claim_update, claim_next_job, record_job, final_status, close_job,
  finish_job, fail_job,
}
use code_rag.Jobs.Writes.{
  Wrote, overwrite-Wrote, close_job-Wrote, close_job_absent, enqueue_absent, enqueue_live,
  enqueue_failed,
}
use code_rag.Jobs.Claims.{claim_next_job-Claimed, claim_next_job-none}
use code_rag.Jobs.Queue.{new_record, submit}

abbrev pub has {ℓ} : {A : Type ℓ} → Option A → Bool
has none = false
has (some a) = true

-- A record stands under its own job id, and it is held by a worker exactly while it is running.
pub record IsKept (id : String) (r : IndexJobRecord) : Type 0 where
  pub key : r.job_id ≡ id
  pub held : has r.locked_by ≡ status_eq r.status running
  pub expiring : has r.lock_expires_at ≡ status_eq r.status running

-- What workers and clients do to the store, in any order.
pub data Event : Type 0 where
  submit_event : String → String → Payload → ℕ → Event
  claim_event : String → ℕ → ℕ → Event
  finish_event : String → IndexJobResult → ℕ → Event
  fail_event : String → String → ℕ → Event

module _ (results : DocumentIndex IndexJobResult) (statuses : DocumentIndex IndexJobRecord) where
  unfoldable pub happen : Event → JobStore results statuses → JobStore results statuses
  happen (submit_event id job_type payload now) s =
      (submit results statuses id job_type payload now s).0
  happen (claim_event worker now ttl) s = (claim_next_job results statuses worker now ttl s).0
  happen (finish_event id result now) s = (finish_job results statuses id result now s).0
  happen (fail_event id message now) s = (fail_job results statuses id message now s).0

  unfoldable pub history : List Event → JobStore results statuses → JobStore results statuses
  history [] s = s
  history (e ∷ events) s = history events (happen e s)

  pub record IsConsistent (s : JobStore results statuses) : Type 0 where
    pub at :
        (id : String) (r : IndexJobRecord) → get_record results statuses id s ≡ some r → IsKept id r

  Wrote-IsConsistent :
      (id : String) (r : IndexJobRecord) (s s' : JobStore results statuses)
      → IsConsistent s
      → IsKept id r
      → Wrote results statuses id r s s'
      → IsConsistent s'
  Wrote-IsConsistent id r s s' c k wrote = record {
    at = λ j q h. elim (Bool-cases (id == j)) [
      | inl same ↦
          let e : r ≡ q = ground (arith, wrote j) in
          subst (λ (z : IndexJobRecord). IsKept j z) e
            (subst (λ (i : String). IsKept i r) ((eq_iff id j).0 same) k)
      | inr other ↦ c.at j q (ground (arith, wrote j))
    ];
  }

  get_record-record_job :
      (result : IndexJobResult) (s : JobStore results statuses) (j : String)
      → get_record results statuses j s
        ≡ get_record results statuses j (record_job results statuses result s)
  unfolding get_record record_job
  get_record-record_job result s j = refl

  final_not_running : (status : Status) → false ≡ status_eq (final_status status) running
  unfolding final_status
  final_not_running status = ground arith

  close_job-IsConsistent :
      (id : String) (change : IndexJobRecord → IndexJobRecord) (s : JobStore results statuses)
      → ((r : IndexJobRecord) → IsKept id r → IsKept id (change r))
      → IsConsistent s
      → IsConsistent (close_job results statuses id change s).0
  close_job-IsConsistent id change s keeps c =
      elim (Option-cases (get_record results statuses id s)) [
        | inl absent ↦ rw (close_job_absent results statuses id change s absent) c
        | inr (r, found) ↦
            Wrote-IsConsistent id (change r) s _ c (keeps r (c.at id r found))
              (close_job-Wrote results statuses id change s r found).0
      ]

  submit-IsConsistent :
      (id job_type : String) (payload : Payload) (now : ℕ) (s : JobStore results statuses)
      → IsConsistent s
      → IsConsistent (submit results statuses id job_type payload now s).0
  unfolding new_record
  submit-IsConsistent id job_type payload now s c =
      let r = new_record id job_type now payload in
      let fresh : IsKept id r = record { key = refl; held = refl; expiring = refl } in
      unfold submit in
      elim (Option-cases (get_record results statuses id s)) [
        | inl absent ↦
            Wrote-IsConsistent id r s _ c fresh (enqueue_absent results statuses r s absent).0
        | inr (d, found) ↦ elim (Bool-cases (is_live d.status)) [
          | inl live ↦ rw (enqueue_live results statuses r d s found live) c
          | inr dead ↦
              rw (enqueue_failed results statuses r d s found dead)
                (Wrote-IsConsistent id r s _ c fresh (overwrite-Wrote results statuses r s))
        ]
      ]

  finish-IsConsistent :
      (id : String) (result : IndexJobResult) (now : ℕ) (s : JobStore results statuses)
      → IsConsistent s
      → IsConsistent (finish_job results statuses id result now s).0
  finish-IsConsistent id result now s c =
      unfold finish_job in
      close_job-IsConsistent id _ (record_job results statuses result s)
        (λ r k. record {
          key = k.key;
          held = final_not_running result.status;
          expiring = final_not_running result.status;
        })
        (record { at = λ j q h. c.at j q (get_record-record_job result s j ∙ h) })

  fail-IsConsistent :
      (id message : String) (now : ℕ) (s : JobStore results statuses)
      → IsConsistent s
      → IsConsistent (fail_job results statuses id message now s).0
  fail-IsConsistent id message now s c =
      unfold fail_job in
      close_job-IsConsistent id _ s (λ r k. record { key = k.key; held = refl; expiring = refl }) c

  claim-IsConsistent :
      (worker : String) (now ttl : ℕ) (s : JobStore results statuses)
      → IsConsistent s
      → IsConsistent (claim_next_job results statuses worker now ttl s).0
  claim-IsConsistent worker now ttl s c =
      let (s', answer) = claim_next_job results statuses worker now ttl s in go s' answer refl
    where
      go :
          (s' : JobStore results statuses) (answer : Option IndexJobRecord)
          → claim_next_job results statuses worker now ttl s ≡ (s', answer)
          → IsConsistent s'
      go s' none e =
          subst IsConsistent (sym (claim_next_job-none results statuses worker now ttl s s' e)) c
      go s' (some r) e =
          let (id, d, found, free, what, wrote, kept) =
            claim_next_job-Claimed results statuses worker now ttl s s' r e in
          Wrote-IsConsistent id r s s' c
            (subst (λ (q : IndexJobRecord). IsKept id q) (sym what)
              (unfold claim_update in
                record { key = (c.at id d found).key; held = refl; expiring = refl }))
            wrote

  -- From a store in which every record stands under its job id and is held by a worker exactly while
  -- it is running, no interleaving of submissions, claims, finishes and failures leads out: the lock
  -- and its expiry are set when a job starts to run and cleared when it ends.
  pub history-IsConsistent :
      (events : List Event) (s : JobStore results statuses)
      → IsConsistent s
      → IsConsistent (history events s)
  unfolding history happen
  history-IsConsistent [] s c = c
  history-IsConsistent (submit_event id job_type payload now ∷ events) s c =
      history-IsConsistent events _ (submit-IsConsistent id job_type payload now s c)
  history-IsConsistent (claim_event worker now ttl ∷ events) s c =
      history-IsConsistent events _ (claim-IsConsistent worker now ttl s c)
  history-IsConsistent (finish_event id result now ∷ events) s c =
      history-IsConsistent events _ (finish-IsConsistent id result now s c)
  history-IsConsistent (fail_event id message now ∷ events) s c =
      history-IsConsistent events _ (fail-IsConsistent id message now s c)
