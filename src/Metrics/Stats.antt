-- ===== src/Metrics/Stats.antt =====
-- `TimingStats`, src/code_rag/apps/metrics/timing_stats.py, and the counters and timings of
-- `MetricsRegistry`, src/code_rag/apps/metrics/metrics_registry.py. Seconds are a type with the
-- floating-point operations that the code uses, as a parameter.
use code_rag.Prelude.{
  ℕ, ◌+◌, String, Bool, Option, none, some, List, [], ◌∷◌, map, if◌then◌else◌, nat_eq, string_eq,
  list_eq, pair_eq, option_eq,
}
use code_rag.Prelude.Dict
use code_rag.Prelude.Dict.{Dict}
use code_rag.Prelude.Sort.{sort_by}
use code_rag.Prelude.Text.{text_leb}

pub record Seconds (S : Type 0) : Type 0 where
  pub zero_seconds : S
  pub plus : S → S → S
  pub at_most : S → S → Bool
  -- min(a, b) and max(a, b)
  pub smaller : S → S → S
  pub larger : S → S → S

-- `buckets` are the counts in the order of DEFAULT_BUCKETS, `none` before the first value.
pub record TimingStats (S : Type 0) : Type 0 where
  pub count : ℕ
  pub total_seconds : S
  pub min_seconds : Option S
  pub max_seconds : Option S
  pub buckets : Option (List ℕ)

-- (name, labels), the labels sorted
abbrev pub MetricKey : Type 0
MetricKey = String × List (String × String)

pub record MetricsRegistry (S : Type 0) : Type 0 where
  pub counters : Dict MetricKey ℕ
  pub timings : Dict MetricKey (TimingStats S)

module _ {S : Type 0} (seconds : Seconds S) (default_buckets : List S) where
  abbrev pub new_stats : TimingStats S
  new_stats = record {
    count = 0;
    total_seconds = seconds.zero_seconds;
    min_seconds = none;
    max_seconds = none;
    buckets = none;
  }

  abbrev pub combined : (S → S → S) → Option S → S → S
  combined choose none value = value
  combined choose (some old) value = choose old value

  -- for bucket in DEFAULT_BUCKETS: if value <= bucket: self.buckets[bucket] += 1
  unfoldable pub count_buckets : S → List S → List ℕ → List ℕ
  count_buckets value [] counts = []
  count_buckets value (bucket ∷ buckets) [] = []
  count_buckets value (bucket ∷ buckets) (n ∷ counts) =
      (if seconds.at_most value bucket then n + 1 else n) ∷ count_buckets value buckets counts

  abbrev pub current_buckets : Option (List ℕ) → List ℕ
  current_buckets none = map (λ bucket. 0) default_buckets
  current_buckets (some counts) = counts

  unfoldable pub observe : S → TimingStats S → TimingStats S
  unfolding count_buckets
  observe value stats = record {
    count = stats.count + 1;
    total_seconds = seconds.plus stats.total_seconds value;
    min_seconds = some (combined seconds.smaller stats.min_seconds value);
    max_seconds = some (combined seconds.larger stats.max_seconds value);
    buckets = some (count_buckets value default_buckets (current_buckets stats.buckets));
  }

  -- `_labels`: sorted pairs; labels of one dictionary have different names, which decide.
  unfoldable pub metric_key : String → List (String × String) → MetricKey
  metric_key name labels = (name, sort_by (λ x y. text_leb x.0 y.0) labels)

  abbrev pub stats_at : MetricKey → MetricsRegistry S → TimingStats S
  stats_at key registry = elim (Dict.get key registry.timings) [
    | none ↦ new_stats
    | some stats ↦ stats
  ]

  abbrev pub counter_at : MetricKey → MetricsRegistry S → ℕ
  counter_at key registry = elim (Dict.get key registry.counters) [ none ↦ 0 | some n ↦ n ]

  unfoldable pub increment :
      String → ℕ → List (String × String) → MetricsRegistry S → MetricsRegistry S
  unfolding metric_key
  increment name value labels registry =
      let key = metric_key name labels in
      record registry {
        counters = Dict.put key (counter_at key registry + value) registry.counters;
      }

  unfoldable pub observe_timing :
      String → S → List (String × String) → MetricsRegistry S → MetricsRegistry S
  unfolding metric_key observe
  observe_timing name value labels registry =
      let key = metric_key name labels in
      record registry {
        timings = Dict.put key (observe value (stats_at key registry)) registry.timings;
      }
