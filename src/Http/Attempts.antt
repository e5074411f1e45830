-- ===== src/Http/Attempts.antt =====
-- Which attempt decides the call, and how long it waits.
use code_rag.Prelude.{
  ℕ, zero, suc, ◌+◌, ◌-◌, ◌≤◌, ◌<◌, max, ◌≡◌, refl, ap, ◌∙◌, subst, ◌≢◌, ◌⊎◌, inl, inr, Bool, true,
  false, List, [], ◌∷◌, arith, eqb, eqb_iff, Bool-cases, nat_eq, string_eq, list_eq, pair_eq,
  option_eq,
}
use Prim.Native.Nat.{◌^◌}
use code_rag.Http.Retries.{
  Reply, response, transport_error, other_error, Ending, returned, raised, raised_other, Call,
  is_retryable_status, after_sleep, ends, round, retry_loop, request_with_retries,
}

-- The reply calls for another attempt.
abbrev pub is_passing : Reply → Bool
is_passing (response status) = is_retryable_status status
is_passing transport_error = true
is_passing other_error = false

-- What the caller sees of a reply.
abbrev pub seen : Reply → Ending
seen (response status) = returned status
seen transport_error = raised
seen other_error = raised_other

-- The sleeps after the attempts from `attempt` on, `n` of them: each twice the one before.
abbrev pub backoffs : ℕ → ℕ → List ℕ
backoffs zero attempt = []
backoffs (suc n) attempt = 2 ^ (attempt - 1) ∷ backoffs n (suc attempt)

module _ (reply : ℕ → Reply) where
  -- A call that starts at the attempt `first` is decided by the attempt `last`.
  abbrev pub IsDecided : ℕ → ℕ → ℕ → Call → Type 0
  IsDecided attempts first last call =
      (first ≤ last)
      × (last ≤ attempts)
      × (call.ending ≡ seen (reply last))
      × (call.sleeps ≡ backoffs (last - first) first)
      × ((i : ℕ) → first ≤ i → i < last → is_passing (reply i) ≡ true)
      × (last < attempts → is_passing (reply last) ≡ false)

  round_cases :
      (attempts attempt : ℕ) (r : Reply) (rest : Call)
      → (((round reply attempts attempt r rest) ≡ ends (seen r))
          × (attempt < attempts → is_passing r ≡ false))
        ⊎ (((round reply attempts attempt r rest) ≡ after_sleep attempt rest)
            × (is_passing r ≡ true)
            × (attempt ≢ attempts))
  round_cases attempts attempt (response status) rest =
      elim (Bool-cases (is_retryable_status status)) [
        | inl passing ↦ elim (Bool-cases (eqb attempt attempts)) [
          | inl last ↦ inl (rw (passing, last) refl, λ more. absurd (ground arith))
          | inr more ↦ inr (rw (passing, more) refl, passing, ground arith)
        ]
        | inr final ↦ inl (rw final refl, λ more. final)
      ]
  round_cases attempts attempt transport_error rest = elim (Bool-cases (eqb attempt attempts)) [
    | inl last ↦ inl (rw last refl, λ more. absurd (ground arith))
    | inr more ↦ inr (rw more refl, refl, ground arith)
  ]
  round_cases attempts attempt other_error rest = inl (refl, λ more. refl)

  earlier_passes :
      (first last : ℕ)
      → is_passing (reply first) ≡ true
      → ((i : ℕ) → suc first ≤ i → i < last → is_passing (reply i) ≡ true)
      → (i : ℕ) → first ≤ i
      → i < last
      → is_passing (reply i) ≡ true
  earlier_passes first last here later i lo hi = elim (Bool-cases (eqb first i)) [
    | inl same ↦ subst (λ k. is_passing (reply k) ≡ true) ((eqb_iff first i).0 same) here
    | inr other ↦ later i (ground arith) hi
  ]

  retry_loop-IsDecided :
      (attempts left attempt : ℕ)
      → 0 < left
      → attempt + left ≡ attempts + 1
      → (last : ℕ) × IsDecided attempts attempt last (retry_loop reply attempts left attempt)
  unfolding retry_loop
  retry_loop-IsDecided attempts zero attempt some_left total = absurd (omega arith)
  retry_loop-IsDecided attempts (suc left) attempt some_left total =
      let rest = retry_loop reply attempts left (suc attempt) in
      elim (round_cases attempts attempt (reply attempt) rest) [
        | inl (e, final) ↦ (
          attempt,
          (
            omega arith,
            omega arith,
            ap (λ c. c.ending) e,
            ap (λ c. c.sleeps) e ∙ ap (λ k. backoffs k attempt) {x = 0} (omega arith),
            λ i lo hi. absurd (omega arith),
            final,
          ),
        )
        | inr (e, passing, more) ↦
            let (last, (lo, hi, ending, sleeps, before, final)) =
              retry_loop-IsDecided attempts left (suc attempt) (ground arith) (omega arith) in
            (
              last,
              (
                omega arith,
                hi,
                ap (λ c. c.ending) e ∙ ending,
                ap (λ c. c.sleeps) e
                    ∙ ap (λ sleeps. 2 ^ (attempt - 1) ∷ sleeps) sleeps
                    ∙ ap (λ k. backoffs k attempt) {x = suc (last - suc attempt)} (omega arith),
                earlier_passes attempt last passing before,
                final,
              ),
            )
      ]

  -- The call never falls out of its loop: it ends with the reply to one of its attempts, at most
  -- `retries` of them and at least one, as the caller sees it; all replies before called for
  -- another attempt, that one did not unless it was the last allowed; and before each further
  -- attempt the call slept, twice as long each time, starting with one backoff.
  pub request_with_retries-IsDecided :
      (retries : ℕ)
      → (last : ℕ) × IsDecided (max retries 1) 1 last (request_with_retries reply retries)
  unfolding request_with_retries
  request_with_retries-IsDecided retries =
      retry_loop-IsDecided (max retries 1) (max retries 1) 1 (omega arith) (omega arith)
