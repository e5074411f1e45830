-- ===== src/Jobs/Held.antt =====
-- What a claim means for the job, in terms of its fields.
use code_rag.Prelude.{
  ℕ, ◌+◌, ◌<◌, String, ◌≡◌, refl, sym, subst, ◌⊎◌, inl, inr, true, some, arith, Option-cases,
  nat_eq, string_eq, list_eq, pair_eq, option_eq,
}
use code_rag.Documents.Index.{DocumentIndex}
use code_rag.Jobs.Records.{
  Status, queued, running, succeeded, failed, IndexJobRecord, IndexJobResult,
}
use code_rag.Jobs.Store.{JobStore, get_record, is_claimable, claim_update, claim_next_job}
use code_rag.Jobs.Writes.{Wrote}
use code_rag.Jobs.Claims.{claim_next_job-Claimed}

-- Nobody works on the job.
abbrev pub IsFree : ℕ → IndexJobRecord → Type 0
IsFree now d =
    (d.status ≡ queued)
    ⊎ ((d.status ≡ running) × (expiry : ℕ) × (d.lock_expires_at ≡ some expiry) × (expiry < now))

-- `r` is `d` as the worker holds it.
abbrev pub IsHeldBy : String → ℕ → ℕ → IndexJobRecord → IndexJobRecord → Type 0
IsHeldBy worker now ttl d r =
    (r.job_id ≡ d.job_id)
    × (r.payload ≡ d.payload)
    × (r.status ≡ running)
    × (r.locked_by ≡ some worker)
    × (r.lock_expires_at ≡ some (now + ttl))
    × (r.attempts ≡ d.attempts + 1)

claim_update-IsHeldBy :
    (worker : String) (now ttl : ℕ) (d : IndexJobRecord)
    → IsHeldBy worker now ttl d (claim_update worker now ttl d)
unfolding claim_update
claim_update-IsHeldBy worker now ttl d = (refl, refl, refl, refl, refl, refl)

status_cases : (s : Status) → (s ≡ queued) ⊎ (s ≡ running) ⊎ (s ≡ succeeded) ⊎ (s ≡ failed)
status_cases queued = inl refl
status_cases running = inr (inl refl)
status_cases succeeded = inr (inr (inl refl))
status_cases failed = inr (inr (inr refl))

is_claimable-IsFree : (now : ℕ) (d : IndexJobRecord) → is_claimable now d ≡ true → IsFree now d
unfolding is_claimable
is_claimable-IsFree now d h = elim (status_cases d.status) [
  | inl waits ↦ inl waits
  | inr (inl runs) ↦ elim (Option-cases d.lock_expires_at) [
    | inl unlocked ↦ absurd (ground (arith, h, runs, unlocked))
    | inr (expiry, e) ↦ inr (runs, expiry, e, ground (arith, h, runs, e))
  ]
  | inr (inr over) ↦
      absurd (elim over [ inl good ↦ ground (arith, h, good) | inr bad ↦ ground (arith, h, bad) ])
]

module _ (results : DocumentIndex IndexJobResult) (statuses : DocumentIndex IndexJobRecord) where
  -- A claim that returns a job: its record in the store was queued, or running under a lock that
  -- had expired; it is returned and stored as running, held by the worker until `now + ttl`, with
  -- one more attempt, with the same payload; and no other record and no result has changed.
  pub claim_next_job-IsHeldBy :
      (worker : String) (now ttl : ℕ) (s s' : JobStore results statuses) (r : IndexJobRecord)
      → claim_next_job results statuses worker now ttl s ≡ (s', some r)
      → (id : String) × (d : IndexJobRecord) × (get_record results statuses id s ≡ some d)
        × IsFree now d
        × IsHeldBy worker now ttl d r
        × Wrote results statuses id r s s'
        × (s'.jobs ≡ s.jobs)
  claim_next_job-IsHeldBy worker now ttl s s' r h =
      let (id, d, found, free, e, wrote, kept) =
        claim_next_job-Claimed results statuses worker now ttl s s' r h in
      (
        id,
        d,
        found,
        is_claimable-IsFree now d free,
        subst (IsHeldBy worker now ttl d) (sym e) (claim_update-IsHeldBy worker now ttl d),
        wrote,
        kept,
      )
