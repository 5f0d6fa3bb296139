-- ===== src/Loadgen/Metrics/Report/Shown.antt =====
-- What the report shows.
use hs_financial_services.Common.{
  ℕ, zero, suc, ◌+◌, ◌-◌, ◌^◌, ◌≤◌, ◌<◌, ◌≡◌, ◌≢◌, refl, ap, sym, ◌∙◌, append_assoc, false, some,
  List, [], ◌∷◌, ◌++◌, map, length, length-append, drop, get_elem?, All, arith,
}
use hs_financial_services.Common.Text.{Bytes, codes}
use hs_financial_services.Common.Decimal.{
  to_string, value, IsDigits, value-to_string, to_string-IsDigits, to_string-nonempty,
}
use hs_financial_services.Json.{is_digit, is_blank}
use hs_financial_services.Json.Extract.{skip_blanks, take_while, take_while-append}
use hs_financial_services.Loadgen.Metrics.{
  MetricsCollector, Doubles, Stats, sort, with_samples, compute,
}
use hs_financial_services.Loadgen.Metrics.Report.{spaces, setw, row, text, report, print}

-- The number in a row: behind a label of 19 characters and blanks.
abbrev pub read_count : Bytes → ℕ
read_count line = value 0 (take_while is_digit (skip_blanks (drop 19 line)))

length-spaces : (n : ℕ) → length (spaces n) ≡ n
length-spaces zero = refl
length-spaces (suc n) = ap suc (length-spaces n)

length-setw : (width : ℕ) (s : Bytes) → length s ≤ width → length (setw width s) ≡ width
unfolding setw
length-setw width s h =
    omega (arith, length-append {0} (spaces (width - length s)) s, length-spaces (width - length s))

length-row :
    (label v unit : Bytes)
    → length v ≤ 10
    → length (row label v unit) ≡ length label + 10 + length unit
unfolding row
length-row label v unit h = omega (
  arith,
  length-append {0} label (setw 10 v ++ unit),
  length-append {0} (setw 10 v) unit,
  length-setw 10 v h,
)

drop-append : (label rest : Bytes) → drop (length label) (label ++ rest) ≡ rest
drop-append [] rest = refl
drop-append (c ∷ label) rest = drop-append label rest

skip_blanks-spaces : (n : ℕ) (s : Bytes) → skip_blanks (spaces n ++ s) ≡ skip_blanks s
skip_blanks-spaces zero s = refl
skip_blanks-spaces (suc n) s = skip_blanks-spaces n s

skip_blanks-digits : (v rest : Bytes) → IsDigits v → v ≢ [] → skip_blanks (v ++ rest) ≡ v ++ rest
skip_blanks-digits [] rest h full = absurd (full refl)
skip_blanks-digits (c ∷ v) rest h full =
    let plain : is_blank c ≡ false = ground (arith, h.0) in rw plain

-- A row shows the number that is printed in it.
read_count-row :
    (label unit : Bytes) (n : ℕ)
    → length label ≡ 19
    → n < 2 ^ 64
    → read_count (row label (to_string n) (b' ' ∷ unit)) ≡ n
unfolding row setw
read_count-row label unit n sized small =
    let digits = to_string n in
    let pad = spaces (10 - length digits) in
    let rest = digits ++ (b' ' ∷ unit) in
    let behind : drop 19 (label ++ ((pad ++ digits) ++ (b' ' ∷ unit))) ≡ pad ++ rest =
      ap (λ k. drop k (label ++ ((pad ++ digits) ++ (b' ' ∷ unit)))) (sym sized)
      ∙ drop-append label ((pad ++ digits) ++ (b' ' ∷ unit))
      ∙ append_assoc pad digits (b' ' ∷ unit) in
    ap (λ r. value 0 (take_while is_digit (skip_blanks r))) behind
    ∙ ap (λ r. value 0 (take_while is_digit r))
        (skip_blanks-spaces (10 - length digits) rest
          ∙ skip_blanks-digits digits (b' ' ∷ unit) (to_string-IsDigits n) (to_string-nonempty n))
    ∙ ap (value 0) (take_while-append is_digit digits unit b' ' (to_string-IsDigits n) refl)
    ∙ value-to_string n small

-- The lengths of the lines, if no number is wider than its room.
abbrev pub widths : List ℕ
widths = 44 ∷ 44 ∷ 44 ∷ 42 ∷ 42 ∷ 42 ∷ 42 ∷ 44 ∷ 44 ∷ 42 ∷ 42 ∷ 42 ∷ 42 ∷ 42 ∷ 42 ∷ 44 ∷ []

module _ (d : Doubles) (print_fixed : d.Double → Bytes) where
  -- The values as they are printed, from the top.
  abbrev pub printed : Stats d → d.Double → List Bytes
  printed s elapsed_seconds =
      print_fixed elapsed_seconds
      ∷ to_string s.count
      ∷ to_string s.errors
      ∷ print_fixed s.rps
      ∷ print_fixed s.min_us
      ∷ print_fixed s.mean_us
      ∷ print_fixed s.p50_us
      ∷ print_fixed s.p90_us
      ∷ print_fixed s.p99_us
      ∷ print_fixed s.max_us
      ∷ []

  report-widths :
      (s : Stats d) (elapsed_seconds : d.Double)
      → All (λ v. length v ≤ 10) (printed s elapsed_seconds)
      → map length (report d print_fixed s elapsed_seconds) ≡ widths
  unfolding report
  report-widths s elapsed_seconds h =
      let r0 =
        length-row (codes "║  Duration      : ") (print_fixed elapsed_seconds)
          (codes " s          ║") h.0 in
      let r1 =
        length-row (codes "║  Requests OK   : ") (to_string s.count) (codes "            ║")
          h.1.0 in
      let r2 =
        length-row (codes "║  Errors        : ") (to_string s.errors) (codes "            ║")
          h.1.1.0 in
      let r3 =
        length-row (codes "║  Throughput    : ") (print_fixed s.rps) (codes " req/s      ║")
          h.1.1.1.0 in
      let r4 =
        length-row (codes "║    Min         : ") (print_fixed s.min_us) (codes "            ║")
          h.1.1.1.1.0 in
      let r5 =
        length-row (codes "║    Mean        : ") (print_fixed s.mean_us) (codes "            ║")
          h.1.1.1.1.1.0 in
      let r6 =
        length-row (codes "║    P50         : ") (print_fixed s.p50_us) (codes "            ║")
          h.1.1.1.1.1.1.0 in
      let r7 =
        length-row (codes "║    P90         : ") (print_fixed s.p90_us) (codes "            ║")
          h.1.1.1.1.1.1.1.0 in
      let r8 =
        length-row (codes "║    P99         : ") (print_fixed s.p99_us) (codes "            ║")
          h.1.1.1.1.1.1.1.1.0 in
      let r9 =
        length-row (codes "║    Max         : ") (print_fixed s.max_us) (codes "            ║")
          h.1.1.1.1.1.1.1.1.1.0 in
      λ i.
        44
        ∷ 44
        ∷ 44
        ∷ r0 i
        ∷ r1 i
        ∷ r2 i
        ∷ r3 i
        ∷ 44
        ∷ 44
        ∷ r4 i
        ∷ r5 i
        ∷ r6 i
        ∷ r7 i
        ∷ r8 i
        ∷ r9 i
        ∷ 44
        ∷ []

  with_samples_counts :
      (xs : List ℕ) (s : Stats d)
      → ((with_samples d xs s).count ≡ s.count) × ((with_samples d xs s).errors ≡ s.errors)
  unfolding with_samples
  with_samples_counts [] s = (refl, refl)
  with_samples_counts (x ∷ xs) s = (refl, refl)

  compute_counts :
      (m : MetricsCollector) (elapsed_seconds : d.Double)
      → ((compute d m elapsed_seconds).count ≡ m.successes)
        × ((compute d m elapsed_seconds).errors ≡ m.errors)
  unfolding compute
  compute_counts m elapsed_seconds = let c = with_samples_counts (sort m.samples_us) _ in (c.0, c.1)

  report_counts :
      (s : Stats d) (elapsed_seconds : d.Double)
      → s.count < 2 ^ 64
      → s.errors < 2 ^ 64
      → let lines = report d print_fixed s elapsed_seconds in
        ((line : Bytes) × (get_elem? lines 4 ≡ some line) × (read_count line ≡ s.count))
        × ((line : Bytes) × (get_elem? lines 5 ≡ some line) × (read_count line ≡ s.errors))
  unfolding report
  report_counts s elapsed_seconds few few' = (
    (_, refl, read_count-row (codes "║  Requests OK   : ") (codes "           ║") s.count refl few),
    (
      _,
      refl,
      read_count-row (codes "║  Errors        : ") (codes "           ║") s.errors refl few',
    ),
  )

  -- For 64-bit counters, and where every number prints in at most ten characters: the report is
  -- printed line by line, its fifth and sixth line show the counts of successes and of errors, and its
  -- lines of the frame have 44 characters and those with a number 42, so that the right border is not
  -- straight.
  pub print-shown :
      (m : MetricsCollector) (elapsed_seconds : d.Double)
      → m.successes < 2 ^ 64
      → m.errors < 2 ^ 64
      → All (λ v. length v ≤ 10) (printed (compute d m elapsed_seconds) elapsed_seconds)
      → let lines = report d print_fixed (compute d m elapsed_seconds) elapsed_seconds in
        (print d print_fixed m elapsed_seconds ≡ text lines)
        × ((line : Bytes) × (get_elem? lines 4 ≡ some line) × (read_count line ≡ m.successes))
        × ((line : Bytes) × (get_elem? lines 5 ≡ some line) × (read_count line ≡ m.errors))
        × (map length lines ≡ widths)
  unfolding print
  print-shown m elapsed_seconds few few' short =
      let s = compute d m elapsed_seconds in
      let (count, errors) = compute_counts m elapsed_seconds in
      let rows =
        report_counts s elapsed_seconds (omega (arith, count, few)) (omega (arith, errors, few')) in
      (
        refl,
        (rows.0.0, rows.0.1, rows.0.2 ∙ count),
        (rows.1.0, rows.1.1, rows.1.2 ∙ errors),
        report-widths s elapsed_seconds short,
      )
