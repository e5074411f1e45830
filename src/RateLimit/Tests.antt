-- ===== src/RateLimit/Tests.antt =====
-- Runs of the limiter at concrete requests.
use code_rag.Prelude.{
  ℕ, ◌≤◌, String, ◌≡◌, refl, true, false, none, List, [], ◌∷◌, arith, nat_eq, string_eq, list_eq,
  pair_eq,
}
use code_rag.Prelude.Dict
use code_rag.RateLimit.{init, allow, identity, bucket, expire}
use code_rag.RateLimit.Window.{in_window}
use code_rag.RateLimit.Exact.{times, answers, reference, grants, answers_exact}
use code_rag.RateLimit.Bound.{grants_bounded}

abbrev burst : List (String × ℕ)
burst = ("alice", 1) ∷ ("alice", 2) ∷ ("bob", 2) ∷ ("alice", 3) ∷ ("alice", 11) ∷ []

burst-answers : answers (init 2 10) burst ≡ true ∷ true ∷ true ∷ false ∷ true ∷ []
unfolding answers init allow Dict.get Dict.put bucket expire
burst-answers = refl

identity_anonymous : identity none none ≡ "anonymous"
unfolding identity
identity_anonymous = refl

answers_exact_example : answers (init 2 10) burst ≡ reference 2 10 [] burst
answers_exact_example = answers_exact 2 10 burst (omega arith) (omega arith)

grants_bounded_example : in_window 10 9 (times "alice" (grants (init 2 10) [] burst)) ≤ 2
grants_bounded_example = grants_bounded 2 10 burst "alice" 9 (omega arith) (omega arith)
