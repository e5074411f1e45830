-- ===== src/Jobs/Claims.antt =====
-- Claiming: what a claim returns and changes, and that of two workers with the same hit one loses.
use code_rag.Prelude.{
  ℕ, ◌<◌, String, ◌≡◌, refl, sym, ap, ◌∙◌, subst, ◌≢◌, ◌⊎◌, inl, inr, true, Option, none, some,
  List, [], ◌∷◌, arith, eqb_iff, Bool-cases, Option-cases, ◌==◌, ==_refl, nat_eq, string_eq,
  list_eq, pair_eq, option_eq, All,
}
use mathlib.Core.Option
use code_rag.Documents.Index.{DocumentIndex}
use code_rag.Jobs.Records.{IndexJobResult, IndexJobRecord}
use code_rag.Jobs.Store.{
  JobStore, get_record, is_claimable, claim_update, claim_doc, claim_first, claim_next_job,
}
use code_rag.Jobs.Writes.{Wrote}

module _ (results : DocumentIndex IndexJobResult) (statuses : DocumentIndex IndexJobRecord) where
  abbrev pub Hit : Type 0
  Hit = String × (IndexJobRecord × ℕ)

  -- A hit that the query may return in the state `s`.
  abbrev pub IsSound : ℕ → JobStore results statuses → Hit → Type 0
  IsSound now s hit =
      (is_claimable now hit.1.0 ≡ true)
      × ((d : IndexJobRecord) → statuses.get hit.0 s.records ≡ some (d, hit.1.1) → d ≡ hit.1.0)

  -- The job `d` under `id` was free and is now held as `r`; nothing else has changed.
  abbrev pub Claimed :
      String
      → ℕ
      → ℕ
      → IndexJobRecord
      → JobStore results statuses
      → JobStore results statuses
      → Type 0
  Claimed worker now ttl r s s' =
      (id : String) × (d : IndexJobRecord) × (get_record results statuses id s ≡ some d)
      × (is_claimable now d ≡ true)
      × (r ≡ claim_update worker now ttl d)
      × Wrote results statuses id r s s'
      × (s'.jobs ≡ s.jobs)

  pair_parts :
      {s s' : JobStore results statuses} {q r : IndexJobRecord}
      → ◌≡◌ {A = JobStore results statuses × Option IndexJobRecord} (s, some q) (s', some r)
      → (s ≡ s') × (q ≡ r)
  pair_parts {q} e = (ap (λ p. p.0) e, ap (λ p. Option.get_or p.1 q) e)

  record_of :
      (id : String) (r : IndexJobRecord) (n : ℕ) (s : JobStore results statuses)
      → statuses.get id s.records ≡ some (r, n)
      → get_record results statuses id s ≡ some r
  unfolding get_record
  record_of id r n s h = ground arith

  stands :
      (id : String) (n : ℕ) (s : JobStore results statuses)
      → ((d : IndexJobRecord) × (statuses.get id s.records ≡ some (d, n)))
        ⊎ ((d : IndexJobRecord) → statuses.get id s.records ≢ some (d, n))
  stands id n s = elim (Option-cases (statuses.get id s.records)) [
    | inl absent ↦ inr (λ d e. ground arith)
    | inr ((d, m), found) ↦ elim (Bool-cases (m == n)) [
      | inl same ↦ inl (d, found ∙ ap (λ (k : ℕ). some (d, k)) ((eqb_iff m n).0 same))
      | inr other ↦ inr (λ e. ground arith)
    ]
  ]

  -- A hit whose sequence number has moved on, or whose document is gone, is passed over.
  claim_passed :
      (worker : String) (now ttl : ℕ) (id : String) (source : IndexJobRecord) (n : ℕ)
      (hits : List Hit) (s : JobStore results statuses)
      → ((d : IndexJobRecord) → statuses.get id s.records ≢ some (d, n))
      → claim_first results statuses worker now ttl ((id, (source, n)) ∷ hits) s
        ≡ claim_first results statuses worker now ttl hits s
  unfolding claim_first
  claim_passed worker now ttl id source n hits s moved =
      let stamp = claim_doc worker now ttl source in
      elim (Option-cases (statuses.get id s.records)) [
        | inl absent ↦ ground (arith, statuses.update_if-absent id n stamp s.records absent)
        | inr ((d, m), found) ↦ elim (Bool-cases (m == n)) [
          | inl same ↦ absurd (moved d (found ∙ ap (λ (k : ℕ). some (d, k)) ((eqb_iff m n).0 same)))
          | inr other ↦
              ground (arith, statuses.update_if-changed id stamp s.records d n m found other)
        ]
      ]

  -- A hit whose sequence number stands is claimed.
  claim_taken :
      (worker : String) (now ttl : ℕ) (id : String) (source d : IndexJobRecord) (n : ℕ)
      (hits : List Hit) (s : JobStore results statuses)
      → statuses.get id s.records ≡ some (d, n)
      → d ≡ source
      → (s' : JobStore results statuses) × (m : ℕ) × (claim_first results statuses worker now ttl
            ((id, (source, n)) ∷ hits)
            s
          ≡ (s', some (claim_update worker now ttl source)))
        × Wrote results statuses id (claim_update worker now ttl source) s s'
        × (s'.jobs ≡ s.jobs)
        × (statuses.get id s'.records ≡ some (claim_update worker now ttl source, m))
        × (n < m)
  unfolding claim_first get_record claim_update
  claim_taken worker now ttl id source d n hits s found e =
      let stamp = claim_doc worker now ttl source in
      let (written, m, done, later, reads) =
        statuses.update_if-current id stamp s.records d n found in
      let stamped : stamp d ≡ claim_update worker now ttl source =
        ap (claim_doc worker now ttl source) e in
      (
        record s { records = written },
        m,
        ground arith,
        λ j. ground (arith, reads j, stamped),
        refl,
        ground (arith, reads id, ==_refl id, stamped),
        later,
      )

  claim_first-Claimed :
      (worker : String) (now ttl : ℕ) (hits : List Hit) (s s' : JobStore results statuses)
      (r : IndexJobRecord)
      → All (IsSound now s) hits
      → claim_first results statuses worker now ttl hits s ≡ (s', some r)
      → Claimed worker now ttl r s s'
  claim_first-Claimed worker now ttl [] s s' r sound h = unfold claim_first in absurd (ground arith)
  claim_first-Claimed worker now ttl ((id, (source, n)) ∷ hits) s s' r sound h =
      elim (stands id n s) [
        | inl (d, found) ↦
            let (t, m, e, wrote, kept, now_held, later) =
              claim_taken worker now ttl id source d n hits s found (sound.0.1 d found) in
            let (here, what) = pair_parts (sym e ∙ h) in
            let held = found ∙ ap (λ (q : IndexJobRecord). some (q, n)) (sound.0.1 d found) in
            subst (λ (z : JobStore results statuses). Claimed worker now ttl r s z) here
              (subst (λ (q : IndexJobRecord). Claimed worker now ttl q s t) what
                (id, source, record_of id source n s held, sound.0.0, refl, wrote, kept))
        | inr moved ↦
            claim_first-Claimed worker now ttl hits s s' r sound.1
              (sym (claim_passed worker now ttl id source n hits s moved) ∙ h)
      ]

  -- A claim that returns a job takes a claimable one, and returns and stores it updated.
  pub claim_next_job-Claimed :
      (worker : String) (now ttl : ℕ) (s s' : JobStore results statuses) (r : IndexJobRecord)
      → claim_next_job results statuses worker now ttl s ≡ (s', some r)
      → Claimed worker now ttl r s s'
  claim_next_job-Claimed worker now ttl s s' r h =
      claim_first-Claimed worker now ttl _ s s' r
        (statuses.search_sound (is_claimable now) (λ q. q.submitted_at) 10 s.records)
        (unfold claim_next_job in h)

  moved_on :
      (id : String) (q u : IndexJobRecord) (p : JobStore results statuses × Option IndexJobRecord)
      (t : JobStore results statuses) (o : Option IndexJobRecord) (n m : ℕ)
      → p ≡ (t, o)
      → statuses.get id t.records ≡ some (u, m)
      → n < m
      → statuses.get id p.0.records ≡ some (q, n)
      → ⊥
  moved_on id q u p t o n m e held later again =
      let again' =
        subst
          (λ (z : JobStore results statuses × Option IndexJobRecord).
            statuses.get id z.0.records ≡ some (q, n))
          e again in
      ground arith

  -- Of two workers whose searches returned the same version of a job, the second to reach it passes
  -- it over and goes on with its next hits, whatever its clock.
  pub claim_race :
      (first second : String) (now now' ttl ttl' : ℕ) (id : String) (d : IndexJobRecord) (n : ℕ)
      (hits hits' : List Hit) (s : JobStore results statuses)
      → statuses.get id s.records ≡ some (d, n)
      → (claim_first results statuses second now' ttl'
            ((id, (d, n)) ∷ hits')
            (claim_first results statuses first now ttl ((id, (d, n)) ∷ hits) s).0
          ≡ claim_first results statuses second now' ttl' hits'
              (claim_first results statuses first now ttl ((id, (d, n)) ∷ hits) s).0)
        × ((claim_first results statuses first now ttl ((id, (d, n)) ∷ hits) s).1
            ≡ some (claim_update first now ttl d))
  claim_race first second now now' ttl ttl' id d n hits hits' s found =
      let (t, m, e, wrote, kept, held, later) =
        claim_taken first now ttl id d d n hits s found refl in
      (
        claim_passed second now' ttl' id d n hits' _
            (λ q again. moved_on id q _ _ t _ n m e held later again),
        ap (λ (p : JobStore results statuses × Option IndexJobRecord). p.1) e,
      )

  claim_first-none :
      (worker : String) (now ttl : ℕ) (hits : List Hit) (s s' : JobStore results statuses)
      → claim_first results statuses worker now ttl hits s ≡ (s', none)
      → s' ≡ s
  unfolding claim_first
  claim_first-none worker now ttl [] s s' h = ground arith
  claim_first-none worker now ttl ((id, (source, n)) ∷ hits) s s' h =
      elim (Option-cases (statuses.update_if id n (claim_doc worker now ttl source) s.records)) [
        | inl conflict ↦ claim_first-none worker now ttl hits s s' (ground arith)
        | inr (written, done) ↦ absurd (ground arith)
      ]

  -- A claim that returns no job leaves the store as it is.
  pub claim_next_job-none :
      (worker : String) (now ttl : ℕ) (s s' : JobStore results statuses)
      → claim_next_job results statuses worker now ttl s ≡ (s', none)
      → s' ≡ s
  unfolding claim_next_job
  claim_next_job-none worker now ttl s s' h = claim_first-none worker now ttl _ s s' h
