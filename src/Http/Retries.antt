-- ===== src/Http/Retries.antt =====
-- `request_with_retries`, src/code_rag/adapters/http/retries.py. The server is a parameter: what it
-- replies to each attempt. Sleeping is recorded, in units of the backoff.
use code_rag.Prelude.{
  ℕ, zero, suc, ◌-◌, max, Bool, not, ◌||◌, List, [], ◌∷◌, eqb, if◌then◌else◌, nat_eq, string_eq,
  list_eq, pair_eq, option_eq, any,
}
use Prim.Native.Nat.{◌^◌}

-- A response by its status, an exception that the code catches, and any other.
pub data Reply : Type 0 where
  response : ℕ → Reply
  transport_error other_error : Reply

-- How the call ends; `exited` is the RuntimeError after the loop.
pub data Ending : Type 0 where
  returned : ℕ → Ending
  raised raised_other exited : Ending

pub record Call : Type 0 where
  pub ending : Ending
  -- the sleeps, in order
  pub sleeps : List ℕ

-- RETRYABLE_STATUS_CODES
abbrev pub retryable_status_codes : List ℕ
retryable_status_codes = 408 ∷ 409 ∷ 425 ∷ 429 ∷ 500 ∷ 502 ∷ 503 ∷ 504 ∷ []

unfoldable pub is_retryable_status : ℕ → Bool
is_retryable_status status = any (λ code. eqb code status) retryable_status_codes

-- time.sleep(backoff_seconds * 2 ** (attempt - 1)), then the rest of the loop
abbrev pub after_sleep : ℕ → Call → Call
after_sleep attempt call = record { ending = call.ending; sleeps = 2 ^ (attempt - 1) ∷ call.sleeps }

abbrev pub ends : Ending → Call
ends ending = record { ending = ending; sleeps = [] }

module _ (reply : ℕ → Reply) (attempts : ℕ) where
  -- One round, given the rest of the loop.
  abbrev pub round : ℕ → Reply → Call → Call
  round attempt (response status) rest =
      if not (is_retryable_status status) || eqb attempt attempts
      then ends (returned status)
      else after_sleep attempt rest
  round attempt transport_error rest =
      if eqb attempt attempts then ends raised else after_sleep attempt rest
  round attempt other_error rest = ends raised_other

  -- for attempt in range(1, attempts + 1), with `left` rounds to come
  unfoldable pub retry_loop : ℕ → ℕ → Call
  retry_loop zero attempt = ends exited
  retry_loop (suc left) attempt = round attempt (reply attempt) (retry_loop left (suc attempt))

unfoldable pub request_with_retries : (ℕ → Reply) → ℕ → Call
unfolding retry_loop is_retryable_status
request_with_retries reply retries = retry_loop reply (max retries 1) (max retries 1) 1
