-- ===== src/Loadgen/Metrics.antt =====
-- MetricsCollector (load_generator/include/metrics_collector.hpp and
-- load_generator/src/metrics_collector.cpp).
pub mod Order
pub mod Report
use hs_financial_services.Common.{
  ℕ, zero, suc, ◌+◌, ◌-◌, ◌%◌, ◌^◌, Bool, List, [], ◌∷◌, ◌++◌, leb, if◌then◌else◌, get_or, length,
}

-- A latency is a difference of two times of a steady clock, and so never negative.
pub record MetricsCollector : Type 0 where
  pub successes : ℕ
  pub errors : ℕ
  pub samples_us : List ℕ

abbrev pub new_metrics : MetricsCollector
new_metrics = record { successes = 0; errors = 0; samples_us = [] }

unfoldable pub record_success : ℕ → MetricsCollector → MetricsCollector
record_success us m = record m {
  successes = (m.successes + 1) % 2 ^ 64;
  samples_us = m.samples_us ++ (us ∷ []);
}

unfoldable pub record_error : MetricsCollector → MetricsCollector
record_error m = record m { errors = (m.errors + 1) % 2 ^ 64 }

-- `std::sort` on numbers; equal numbers cannot be told apart, so any sorting gives the same.
abbrev pub insert : ℕ → List ℕ → List ℕ
insert x [] = x ∷ []
insert x (y ∷ ys) = let rest = insert x ys in if leb x y then x ∷ y ∷ ys else y ∷ rest

abbrev pub sort : List ℕ → List ℕ
sort [] = []
sort (x ∷ xs) = insert x (sort xs)

-- The `double` arithmetic of the language. `decimal m k` is the constant `m / 10 ^ k`, and `to_index`
-- the conversion to `std::size_t`.
pub record Doubles : Type 1 where
  pub Double : Type 0
  pub decimal : ℕ → ℕ → Double
  pub of_int : ℕ → Double
  pub is_positive : Double → Bool
  pub add : Double → Double → Double
  pub mul : Double → Double → Double
  pub div : Double → Double → Double
  pub to_index : Double → ℕ

module _ (d : Doubles) where
  open d use {Double, decimal, of_int, is_positive, add, mul, div, to_index}

  pub record Stats : Type 0 where
    pub count : ℕ
    pub errors : ℕ
    pub rps : Double
    pub mean_us : Double
    pub p50_us : Double
    pub p90_us : Double
    pub p99_us : Double
    pub min_us : Double
    pub max_us : Double

  abbrev pub sum_of : Double → List ℕ → Double
  sum_of sum [] = sum
  sum_of sum (v ∷ vs) = sum_of (add sum (of_int v)) vs

  -- `percentile(p)` for `p = k / 100`, on a vector that is not empty.
  abbrev pub percentile : List ℕ → ℕ → Double
  percentile sorted k =
      of_int (get_or sorted (to_index (mul (decimal k 2) (of_int (length sorted - 1)))) 0)

  -- The fields of `s` that the samples decide.
  unfoldable pub with_samples : List ℕ → Stats → Stats
  with_samples [] s = s
  with_samples (x ∷ xs) s =
      let sorted = x ∷ xs in
      record s {
        mean_us = div (sum_of (of_int 0) sorted) (of_int (length sorted));
        p50_us = percentile sorted 50;
        p90_us = percentile sorted 90;
        p99_us = percentile sorted 99;
        min_us = of_int x;
        max_us = of_int (get_or sorted (length sorted - 1) 0);
      }

  unfoldable pub compute : MetricsCollector → Double → Stats
  unfolding with_samples
  compute m elapsed_seconds = with_samples (sort m.samples_us) (record {
    count = m.successes;
    errors = m.errors;
    rps =
        if is_positive elapsed_seconds then div (of_int m.successes) elapsed_seconds else of_int 0;
    mean_us = of_int 0;
    p50_us = of_int 0;
    p90_us = of_int 0;
    p99_us = of_int 0;
    min_us = of_int 0;
    max_us = of_int 0;
  })
