-- ===== src/RateLimit.antt =====
-- The sliding-window rate limiter, src/code_rag/apps/ratelimit/rate_limiter.py, and the request
-- gate over it in src/code_rag/interfaces/rest/security.py. A monotonic clock reading is a whole
-- number of ticks. The lock is not modelled: a call is one step.
pub mod Window
pub mod Exact
pub mod Bound
mod Tests
use code_rag.Prelude.{
  ℕ, ◌+◌, String, Option, none, some, Bool, true, false, not, List, [], ◌∷◌, ◌++◌, ltb, leb, length,
  if◌then◌else◌, ◌==◌, string_eq,
}
use code_rag.Prelude.Dict
use code_rag.Prelude.Dict.{Dict}

pub record Limiter : Type 0 where
  pub max_requests : ℕ
  pub window : ℕ
  -- one deque for each key, the oldest request first
  pub hits : Dict String (List ℕ)

unfoldable pub init : ℕ → ℕ → Limiter
init max_requests window = record { max_requests = max_requests; window = window; hits = [] }

unfoldable pub enabled : Limiter → Bool
enabled l = ltb 0 l.max_requests

-- while bucket and bucket[0] <= cutoff: bucket.popleft()
-- `bucket[0] <= current - window` is written without the subtraction.
unfoldable pub expire : ℕ → ℕ → List ℕ → List ℕ
expire window current [] = []
expire window current (t ∷ ts) =
    let rest = expire window current ts in if leb (t + window) current then rest else t ∷ ts

-- self._hits.setdefault(key, deque())
unfoldable pub bucket : Limiter → String → List ℕ
bucket l key = elim (Dict.get key l.hits) [ none ↦ [] | some b ↦ b ]

unfoldable pub allow : String → ℕ → Limiter → Limiter × Bool
unfolding enabled
allow key now l =
    if not (enabled l)
    then (l, true)
    else let live = expire l.window now (bucket l key) in
      if leb l.max_requests (length live)
      then (record l { hits = Dict.put key live l.hits }, false)
      else (record l { hits = Dict.put key (live ++ now ∷ []) l.hits }, true)

client_host : Option String → String
client_host (some host) = host
client_host none = "anonymous"

-- key = context.user_id or (request.client.host if request.client else "anonymous")
unfoldable pub identity : Option String → Option String → String
unfolding client_host
identity (some user) host = if user == "" then client_host host else user
identity none host = client_host host
