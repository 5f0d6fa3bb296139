-- ===== src/Loadgen/Metrics/Report.antt =====
-- MetricsCollector::print (load_generator/src/metrics_collector.cpp), as a text of characters: the
-- frame is not ASCII. `print_fixed` prints a double with two decimals.
pub mod Shown
use hs_financial_services.Common.{ℕ, zero, suc, ◌+◌, ◌-◌, List, [], ◌∷◌, ◌++◌, length}
use hs_financial_services.Common.Text.{Bytes, codes}
use hs_financial_services.Common.Decimal.{to_string}
use hs_financial_services.Loadgen.Metrics.{MetricsCollector, Doubles, Stats, compute}

abbrev pub spaces : ℕ → Bytes
spaces zero = []
spaces (suc n) = b' ' ∷ spaces n

-- `setw`, for the one value behind it: the stream fills with spaces on the left.
unfoldable pub setw : ℕ → Bytes → Bytes
setw width s = spaces (width - length s) ++ s

unfoldable pub row : Bytes → Bytes → Bytes → Bytes
unfolding setw
row label value unit = label ++ (setw 10 value ++ unit)

-- Lines, each with its end.
abbrev pub text : List Bytes → Bytes
text [] = []
text (line ∷ lines) = line ++ (10 ∷ text lines)

module _ (d : Doubles) (print_fixed : d.Double → Bytes) where
  unfoldable pub report : Stats d → d.Double → List Bytes
  report s elapsed_seconds =
      codes "╔══════════════════════════════════════════╗"
      ∷ codes "║         Load Generator Results           ║"
      ∷ codes "╠══════════════════════════════════════════╣"
      ∷ row (codes "║  Duration      : ") (print_fixed elapsed_seconds) (codes " s          ║")
      ∷ row (codes "║  Requests OK   : ") (to_string s.count) (codes "            ║")
      ∷ row (codes "║  Errors        : ") (to_string s.errors) (codes "            ║")
      ∷ row (codes "║  Throughput    : ") (print_fixed s.rps) (codes " req/s      ║")
      ∷ codes "╠══════════════════════════════════════════╣"
      ∷ codes "║  Latency (µs)                            ║"
      ∷ row (codes "║    Min         : ") (print_fixed s.min_us) (codes "            ║")
      ∷ row (codes "║    Mean        : ") (print_fixed s.mean_us) (codes "            ║")
      ∷ row (codes "║    P50         : ") (print_fixed s.p50_us) (codes "            ║")
      ∷ row (codes "║    P90         : ") (print_fixed s.p90_us) (codes "            ║")
      ∷ row (codes "║    P99         : ") (print_fixed s.p99_us) (codes "            ║")
      ∷ row (codes "║    Max         : ") (print_fixed s.max_us) (codes "            ║")
      ∷ codes "╚══════════════════════════════════════════╝"
      ∷ []

  unfoldable pub print : MetricsCollector → d.Double → Bytes
  unfolding report
  print m elapsed_seconds = text (report (compute d m elapsed_seconds) elapsed_seconds)
