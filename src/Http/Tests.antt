-- ===== src/Http/Tests.antt =====
-- Retries against a server that recovers.
use code_rag.Prelude.{
  ℕ, ◌≡◌, refl, [], ◌∷◌, eqb, if◌then◌else◌, nat_eq, string_eq, list_eq, pair_eq, option_eq,
}
use code_rag.Http.Retries.{
  Reply, response, transport_error, returned, retry_loop, is_retryable_status, request_with_retries,
}
use code_rag.Http.Attempts.{IsDecided, request_with_retries-IsDecided}

abbrev recovering : ℕ → Reply
recovering attempt =
    if eqb attempt 1 then response 503 else if eqb attempt 2 then transport_error else response 200

request_with_retries-recovering :
    request_with_retries recovering 3 ≡ record { ending = returned 200; sleeps = 1 ∷ 2 ∷ [] }
unfolding request_with_retries retry_loop is_retryable_status
request_with_retries-recovering = refl

request_with_retries-recovering_late :
    request_with_retries recovering 1 ≡ record { ending = returned 503; sleeps = [] }
unfolding request_with_retries retry_loop is_retryable_status
request_with_retries-recovering_late = refl

request_with_retries-IsDecided_example :
    (last : ℕ) × IsDecided recovering 3 1 last (request_with_retries recovering 3)
request_with_retries-IsDecided_example = request_with_retries-IsDecided recovering 3
