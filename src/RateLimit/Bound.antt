-- ===== src/RateLimit/Bound.antt =====
-- The bound that the limiter promises: the grants of a key in any window.
use code_rag.Prelude.{
  ℕ, ◌≤◌, ◌<◌, String, ◌≡◌, refl, subst, inl, inr, Bool, true, false, List, [], ◌∷◌, ◌++◌, arith,
  eq_iff, ltb, ltb→lt, Bool-cases, ◌==◌, nat_eq, string_eq, list_eq, pair_eq, length, length-append,
}
use code_rag.Prelude.Dict
use code_rag.RateLimit.{Limiter, init, expire, bucket, allow}
use code_rag.RateLimit.Window.{
  in_window, in_window-append, in_window-gone, in_window-le-length, Covers,
}
use code_rag.RateLimit.Exact.{
  times, IsTimely, granted, grants, Tracks, allow-Tracks, init-Tracks, times-grant,
  times-grant_self,
}

module _ (limit window : ℕ) where
  -- Of any key, in any window of the clock.
  pub IsBounded : List (String × ℕ) → Type 0
  IsBounded log = (k : String) (at : ℕ) → in_window window at (times k log) ≤ limit

  in_window-snoc_lt :
      (at t : ℕ) (xs : List ℕ)
      → at < t
      → in_window window at (xs ++ t ∷ []) ≡ in_window window at xs
  unfolding in_window
  in_window-snoc_lt at t xs lt = ground (arith, in_window-append window at xs (t ∷ []))

  Covers-bound :
      (at t : ℕ) (full live : List ℕ)
      → t ≤ at
      → Covers window t full live
      → in_window window at full ≤ length live
  Covers-bound at t full live le c = rw c.split (
      omega (
        arith,
        in_window-append window at c.dropped live,
        in_window-gone window t at c.dropped le c.gone,
        in_window-le-length window at live,
      ))

  length-bucket_granted :
      (t : ℕ) (k : String) (l : Limiter)
      → 0 < limit
      → l.max_requests ≡ limit
      → (allow k t l).1 ≡ true
      → length (bucket (allow k t l).0 k) ≤ limit
  unfolding allow bucket
  length-bucket_granted t k l pos e h =
      let live = expire l.window t (bucket l k) in
      ground (arith, Dict.get-put_self k (live ++ t ∷ []) l.hits, length-append live (t ∷ []))

  granted-IsBounded :
      (t : ℕ) (k : String) (l : Limiter) (log : List (String × ℕ)) (b : Bool)
      → (b ≡ true → length (bucket l k) ≤ limit)
      → IsBounded log
      → ((j : String) → Covers window t (times j (granted b k t log)) (bucket l j))
      → IsBounded (granted b k t log)
  unfolding IsBounded
  granted-IsBounded t k l log false fits h c j at = h j at
  granted-IsBounded t k l log true fits h c j at = elim (Bool-cases (k == j)) [
    | inr other ↦ rw times-grant (rw other (h j at))
    | inl same ↦ elim (Bool-cases (ltb at t)) [
      | inl early ↦ rw times-grant (
          rw same (
            rw times-grant_self
              (rw (in_window-snoc_lt at t (times k log) (ltb→lt _ _ early)) (h k at))))
      | inr late ↦
          subst (λ i. in_window window at (times i (log ++ (k, t) ∷ [])) ≤ limit)
            ((eq_iff k j).0 same)
            (omega (arith, Covers-bound at t _ _ (ground arith) (c k), fits refl))
    ]
  ]

  grants-IsBounded :
      (now : ℕ) (l : Limiter) (log requests : List (String × ℕ))
      → 0 < limit
      → Tracks limit window now l log
      → IsBounded log
      → IsTimely now requests
      → IsBounded (grants l log requests)
  unfolding grants
  grants-IsBounded now l log [] pos h bound timely = bound
  grants-IsBounded now l log ((k, t) ∷ requests) pos h bound timely =
      let h' = allow-Tracks limit window now t k l log pos timely.0 h in
      grants-IsBounded t (allow k t l).0 (granted (allow k t l).1 k t log) requests pos h'
        (granted-IsBounded t k (allow k t l).0 log (allow k t l).1
          (length-bucket_granted t k l pos h.limited) bound h'.covered)
        timely.1

-- Where the limit is above 0, at which the limiter is disabled, whatever the requests are, on a clock
-- that never goes back no window of the clock holds more than `limit` requests of one key that the
-- limiter let pass.
pub grants_bounded :
    (limit window : ℕ) (requests : List (String × ℕ)) (key : String) (at : ℕ)
    → 0 < limit
    → IsTimely 0 requests
    → in_window window at (times key (grants (init limit window) [] requests)) ≤ limit
unfolding IsBounded
grants_bounded limit window requests key at pos timely =
    grants-IsBounded limit window 0 (init limit window) [] requests pos (init-Tracks limit window)
      (λ k t. unfold in_window times in omega arith) timely key at
