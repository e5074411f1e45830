-- ===== src/Metrics/Tests.antt =====
-- A timing in whole milliseconds.
use code_rag.Prelude.{
  ℕ, ◌+◌, min, max, ◌≡◌, refl, some, List, [], ◌∷◌, map, leb, nat_eq, string_eq, list_eq, pair_eq,
  option_eq,
}
use code_rag.Metrics.Stats.{Seconds, TimingStats, new_stats, observe}
use code_rag.Metrics.Totals.{observe_all, values_within, observe_all_lem}

abbrev milliseconds : Seconds ℕ
milliseconds = record {
  zero_seconds = 0;
  plus = λ x y. x + y;
  at_most = leb;
  smaller = min;
  larger = max;
}

abbrev bounds : List ℕ
bounds = 5 ∷ 10 ∷ 25 ∷ []

abbrev stats : TimingStats ℕ
stats = observe_all milliseconds bounds (7 ∷ 30 ∷ 5 ∷ []) (new_stats milliseconds bounds)

max_seconds-stats : stats.max_seconds ≡ some 30
unfolding observe
max_seconds-stats = refl

observe_all_lem_example :
    (stats.count ≡ 3)
    × (stats.buckets
        ≡ some (map (λ bucket. values_within milliseconds bounds bucket (7 ∷ 30 ∷ 5 ∷ [])) bounds))
observe_all_lem_example = observe_all_lem milliseconds bounds 7 (30 ∷ 5 ∷ [])
