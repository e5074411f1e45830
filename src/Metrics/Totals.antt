-- ===== src/Metrics/Totals.antt =====
-- The statistics of a timing are those of the values observed.
use code_rag.Prelude.{
  ℕ, suc, ◌+◌, ◌≡◌, refl, sym, ap, ◌∙◌, inl, inr, some, List, [], ◌∷◌, map, arith, Bool-cases,
  nat_eq, string_eq, list_eq, pair_eq, option_eq, length, keep_if, length-map,
}
use code_rag.Metrics.Stats.{
  Seconds, TimingStats, new_stats, count_buckets, current_buckets, observe,
}

module _ {S : Type 0} (seconds : Seconds S) (default_buckets : List S) where
  abbrev pub observe_all : List S → TimingStats S → TimingStats S
  observe_all [] stats = stats
  observe_all (value ∷ values) stats =
      observe_all values (observe seconds default_buckets value stats)

  -- How many of the values are at most the bucket.
  abbrev pub values_within : S → List S → ℕ
  values_within bucket values = length (keep_if (λ value. seconds.at_most value bucket) values)

  -- Counts raised by what further values add.
  abbrev raised_by : List S → List S → List ℕ → List ℕ
  raised_by values [] counts = []
  raised_by values (bucket ∷ buckets) [] = []
  raised_by values (bucket ∷ buckets) (n ∷ counts) =
      (n + values_within bucket values) ∷ raised_by values buckets counts

  raised_by-count_buckets :
      (value : S) (values buckets : List S) (counts : List ℕ)
      → raised_by values buckets (count_buckets seconds default_buckets value buckets counts)
        ≡ raised_by (value ∷ values) buckets counts
  unfolding count_buckets
  raised_by-count_buckets value values [] counts = refl
  raised_by-count_buckets value values (bucket ∷ buckets) [] = refl
  raised_by-count_buckets value values (bucket ∷ buckets) (n ∷ counts) =
      elim (Bool-cases (seconds.at_most value bucket)) [
        | inl within ↦
            let same : n + 1 + values_within bucket values ≡ n + suc (values_within bucket values) =
              omega arith in
            rw within (
              ap
                (λ k.
                  k
                  ∷ raised_by values buckets
                      (count_buckets seconds default_buckets value buckets counts))
                same
              ∙ ap (λ rest. (n + suc (values_within bucket values)) ∷ rest)
                  (raised_by-count_buckets value values buckets counts))
        | inr beyond ↦ rw beyond (
            ap (λ rest. (n + values_within bucket values) ∷ rest)
              (raised_by-count_buckets value values buckets counts))
      ]

  length-count_buckets :
      (value : S) (buckets : List S) (counts : List ℕ)
      → length counts ≡ length buckets
      → length (count_buckets seconds default_buckets value buckets counts) ≡ length buckets
  unfolding count_buckets
  length-count_buckets value [] counts h = refl
  length-count_buckets value (bucket ∷ buckets) [] h = h
  length-count_buckets value (bucket ∷ buckets) (n ∷ counts) h =
      omega (arith, length-count_buckets value buckets counts (omega arith))

  raised_by-nothing :
      (buckets : List S) (counts : List ℕ)
      → length counts ≡ length buckets
      → raised_by [] buckets counts ≡ counts
  raised_by-nothing [] [] h = refl
  raised_by-nothing [] (n ∷ counts) h = absurd (omega arith)
  raised_by-nothing (bucket ∷ buckets) [] h = refl
  raised_by-nothing (bucket ∷ buckets) (n ∷ counts) h =
      ap (λ k. k ∷ raised_by [] buckets counts) {x = n + 0} (omega arith)
      ∙ ap (λ rest. n ∷ rest) (raised_by-nothing buckets counts (omega arith))

  raised_by-zeros :
      (values buckets : List S)
      → raised_by values buckets (map (λ bucket. 0) buckets)
        ≡ map (λ bucket. values_within bucket values) buckets
  raised_by-zeros values [] = refl
  raised_by-zeros values (bucket ∷ buckets) =
      ap (λ k. k ∷ raised_by values buckets (map (λ bucket. 0) buckets))
        {x = 0 + values_within bucket values} (omega arith)
      ∙ ap (λ rest. values_within bucket values ∷ rest) (raised_by-zeros values buckets)

  buckets-observe_all :
      (values : List S) (stats : TimingStats S) (counts : List ℕ)
      → stats.buckets ≡ some counts
      → length counts ≡ length default_buckets
      → (observe_all values stats).buckets ≡ some (raised_by values default_buckets counts)
  unfolding observe
  buckets-observe_all [] stats counts e h =
      e ∙ ap (λ c. some c) (sym (raised_by-nothing default_buckets counts h))
  buckets-observe_all (value ∷ values) stats counts e h =
      let now =
        ap
          (λ b. some (
            count_buckets seconds default_buckets value default_buckets
              (current_buckets seconds default_buckets b)))
          e in
      buckets-observe_all values (observe seconds default_buckets value stats)
        (count_buckets seconds default_buckets value default_buckets counts) now
        (length-count_buckets value default_buckets counts h)
      ∙ ap (λ c. some c) (raised_by-count_buckets value values default_buckets counts)

  count-observe_all :
      (values : List S) (stats : TimingStats S)
      → (observe_all values stats).count ≡ stats.count + length values
  unfolding observe
  count-observe_all [] stats = omega arith
  count-observe_all (value ∷ values) stats =
      omega (arith, count-observe_all values (observe seconds default_buckets value stats))

  -- After any values, one at least, a timing has counted them all, and each bucket holds how many
  -- of them are at most its bound.
  pub observe_all_lem :
      (value : S) (values : List S)
      → let stats = observe_all (value ∷ values) (new_stats seconds default_buckets) in
        (stats.count ≡ suc (length values))
        × (stats.buckets
            ≡ some (map (λ bucket. values_within bucket (value ∷ values)) default_buckets))
  unfolding observe
  observe_all_lem value values =
      let zeros = map (λ bucket. 0) default_buckets in
      let first = observe seconds default_buckets value (new_stats seconds default_buckets) in
      (
        omega (arith, count-observe_all values first),
        buckets-observe_all values first
              (count_buckets seconds default_buckets value default_buckets zeros) refl
              (length-count_buckets value default_buckets zeros
                (length-map (λ bucket. 0) default_buckets))
            ∙ ap (λ c. some c)
                (raised_by-count_buckets value values default_buckets zeros
                  ∙ raised_by-zeros (value ∷ values) default_buckets),
      )
