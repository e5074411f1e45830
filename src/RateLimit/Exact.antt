-- ===== src/RateLimit/Exact.antt =====
-- The limiter over a run of requests, against a reference that forgets no grant.
use code_rag.Prelude.{
  ℕ, ◌≤◌, ◌<◌, String, ◌≡◌, refl, sym, ◌∙◌, subst, ◌⊎◌, inl, inr, Bool, true, false, List, [], ◌∷◌,
  ◌++◌, arith, eq_iff, ltb, if◌then◌else◌, Bool-cases, ◌==◌, ==_refl, nat_eq, string_eq, list_eq,
  pair_eq,
}
use code_rag.Prelude.Dict
use mathlib.Core.Path.{ap₂}
use mathlib.Core.List.{append-nil}
use code_rag.Prelude.Dict.{get-put}
use code_rag.RateLimit.{Limiter, init, expire, bucket, allow}
use code_rag.RateLimit.Window.{
  in_window, Covers, Covers-later, Covers-count, expire-Covers, push-Covers,
}

-- The granted times of a key, oldest first, in a log of all grants.
unfoldable pub times : String → List (String × ℕ) → List ℕ
times key [] = []
times key ((k, t) ∷ log) = let rest = times key log in if k == key then t ∷ rest else rest

-- The clock never goes back.
abbrev pub IsTimely : ℕ → List (String × ℕ) → Type 0
IsTimely now [] = Unit
IsTimely now ((k, t) ∷ requests) = (now ≤ t) × IsTimely t requests

-- The answers to a run of requests.
unfoldable pub answers : Limiter → List (String × ℕ) → List Bool
answers l [] = []
answers l ((k, t) ∷ requests) = (allow k t l).1 ∷ answers (allow k t l).0 requests

-- The reference: a request passes if fewer than `limit` grants of its key lie in the window.
unfoldable pub passes : ℕ → ℕ → List (String × ℕ) → String → ℕ → Bool
passes limit window log k t =
    if ltb 0 limit then ltb (in_window window t (times k log)) limit else true

abbrev pub granted : Bool → String → ℕ → List (String × ℕ) → List (String × ℕ)
granted true k t log = log ++ (k, t) ∷ []
granted false k t log = log

unfoldable pub reference : ℕ → ℕ → List (String × ℕ) → List (String × ℕ) → List Bool
reference limit window log [] = []
reference limit window log ((k, t) ∷ requests) =
    passes limit window log k t
    ∷ reference limit window (granted (passes limit window log k t) k t log) requests

-- The log of grants that the limiter itself gives.
unfoldable pub grants : Limiter → List (String × ℕ) → List (String × ℕ) → List (String × ℕ)
grants l log [] = log
grants l log ((k, t) ∷ requests) = grants (allow k t l).0 (granted (allow k t l).1 k t log) requests

pub record Tracks (limit window now : ℕ) (l : Limiter) (log : List (String × ℕ)) : Type 0 where
  pub limited : l.max_requests ≡ limit
  pub windowed : l.window ≡ window
  pub covered : (k : String) → Covers window now (times k log) (bucket l k)

pub times-append :
    (k : String) (xs ys : List (String × ℕ)) → times k (xs ++ ys) ≡ times k xs ++ times k ys
unfolding times
times-append k [] ys = refl
times-append k ((j, t) ∷ xs) ys = ground (arith, times-append k xs ys)

module _ (limit window : ℕ) where
  pub allow-passes :
      (now t : ℕ) (k : String) (l : Limiter) (log : List (String × ℕ))
      → 0 < limit
      → now ≤ t
      → Tracks limit window now l log
      → (allow k t l).1 ≡ passes limit window log k t
  unfolding allow passes
  allow-passes now t k l log pos le h =
      ground
        (arith, h.limited, h.windowed, Covers-count window (Covers-later window le (h.covered k)))

  live_at : ℕ → String → Limiter → List ℕ
  live_at t k l = expire window t (bucket l k)

  allow_cases :
      (t : ℕ) (k : String) (l : Limiter)
      → 0 < limit
      → l.max_requests ≡ limit
      → l.window ≡ window
      → (allow k t l ≡ (record l { hits = Dict.put k (live_at t k l) l.hits }, false))
        ⊎ (allow k t l ≡ (record l { hits = Dict.put k (live_at t k l ++ t ∷ []) l.hits }, true))
  unfolding allow live_at
  allow_cases t k l pos e w = ground arith

  bucket-put :
      (l : Limiter) (k j : String) (b : List ℕ)
      → bucket (record l { hits = Dict.put k b l.hits }) j ≡ (if k == j then b else bucket l j)
  unfolding bucket
  bucket-put l k j b = ground (arith, get-put k j b l.hits)

  -- The key that a request names is covered anew, and every other key keeps its deque and grants.
  covered_put :
      (now t : ℕ) (k j : String) (l : Limiter) (log log' : List (String × ℕ)) (b : List ℕ)
      → now ≤ t
      → Tracks limit window now l log
      → Covers window t (times k log') b
      → times j log' ≡ (if k == j then times k log' else times j log)
      → Covers window t (times j log') (bucket (record l { hits = Dict.put k b l.hits }) j)
  covered_put now t k j l log log' b le h c e = rw bucket-put (elim (Bool-cases (k == j)) [
    | inl same ↦ rw same (subst (λ i. Covers window t (times i log') b) ((eq_iff k j).0 same) c)
    | inr other ↦ rw other (
        subst (λ ts. Covers window t ts (bucket l j)) (sym (e ∙ rw other refl))
          (Covers-later window le (h.covered j)))
  ])

  pub times-grant :
      (t : ℕ) (k j : String) (log : List (String × ℕ))
      → times j (log ++ (k, t) ∷ [])
        ≡ (if k == j then times k (log ++ (k, t) ∷ []) else times j log)
  unfolding times
  times-grant t k j log = ground (
    arith,
    times-append k log ((k, t) ∷ []),
    times-append j log ((k, t) ∷ []),
    eq_iff k j,
    append-nil (times j log),
  )

  times-same :
      (k j : String) (log : List (String × ℕ))
      → times j log ≡ (if k == j then times k log else times j log)
  times-same k j log = ground (arith, eq_iff k j)

  pub times-grant_self :
      (t : ℕ) (k : String) (log : List (String × ℕ))
      → times k (log ++ (k, t) ∷ []) ≡ times k log ++ t ∷ []
  unfolding times
  times-grant_self t k log = rw (times-append, ==_refl k)

  pub allow-Tracks :
      (now t : ℕ) (k : String) (l : Limiter) (log : List (String × ℕ))
      → 0 < limit
      → now ≤ t
      → Tracks limit window now l log
      → Tracks limit window t (allow k t l).0 (granted (allow k t l).1 k t log)
  allow-Tracks now t k l log pos le h =
      let c = expire-Covers window (bucket l k) (Covers-later window le (h.covered k)) in
      elim (allow_cases t k l pos h.limited h.windowed) [
        | inl e ↦ rw e (record {
          limited = h.limited;
          windowed = h.windowed;
          covered = λ j.
              covered_put now t k j l log log _ le h (unfold live_at in c) (times-same k j log);
        })
        | inr e ↦ rw e (record {
          limited = h.limited;
          windowed = h.windowed;
          covered = λ j.
              covered_put now t k j l log (log ++ (k, t) ∷ []) _ le h
                (rw times-grant_self (unfold live_at in push-Covers window c))
                (times-grant t k j log);
        })
      ]

  answers-reference :
      (now : ℕ) (l : Limiter) (log requests : List (String × ℕ))
      → 0 < limit
      → Tracks limit window now l log
      → IsTimely now requests
      → answers l requests ≡ reference limit window log requests
  unfolding answers reference
  answers-reference now l log [] pos h timely = refl
  answers-reference now l log ((k, t) ∷ requests) pos h timely =
      let e = allow-passes now t k l log pos timely.0 h in
      let h' = allow-Tracks now t k l log pos timely.0 h in
      ap₂ ◌∷◌ e (
        subst
          (λ b.
            answers (allow k t l).0 requests ≡ reference limit window (granted b k t log) requests)
          e
          (answers-reference t (allow k t l).0 (granted (allow k t l).1 k t log) requests pos h'
            timely.1))

  pub init-Tracks : Tracks limit window 0 (init limit window) []
  unfolding init times bucket
  init-Tracks = record {
    limited = refl;
    windowed = refl;
    covered = λ k. record {
      dropped = [];
      split = unfold Dict.get in refl;
      gone = tt;
      order = unfold Dict.get in tt;
      past = unfold Dict.get in tt;
    };
  }

-- From an empty limiter with a positive limit, on a clock that never goes back, every answer is the
-- reference's: a request passes exactly if fewer than `limit` grants of its key lie in the window that
-- ends with it.
pub answers_exact :
    (limit window : ℕ) (requests : List (String × ℕ))
    → 0 < limit
    → IsTimely 0 requests
    → answers (init limit window) requests ≡ reference limit window [] requests
answers_exact limit window requests pos timely =
    answers-reference limit window 0 (init limit window) [] requests pos (init-Tracks limit window)
      timely
