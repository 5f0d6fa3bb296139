-- ===== src/Loadgen/Main/Shows.antt =====
-- What a run of the load generator shows at its end.
use hs_financial_services.Common.{
  ℕ, ◌+◌, ◌-◌, ◌^◌, ◌≤◌, ◌<◌, ◌≡◌, ap, ◌∙◌, Bool, false, some, List, [], ◌++◌, map, length,
  get_elem?, All, ok, if◌then◌else◌, arith,
}
use hs_financial_services.Common.Text.{Bytes, codes}
use hs_financial_services.Protocol.{ByteOrder}
use hs_financial_services.Loadgen.Scenario.{Machine}
use hs_financial_services.Loadgen.Metrics.{Doubles, MetricsCollector, compute}
use hs_financial_services.Loadgen.Metrics.Report.{report, text, print}
use hs_financial_services.Loadgen.Metrics.Report.Shown.{widths, read_count, printed, print-shown}
use hs_financial_services.Loadgen.Campaign.{new_campaign, Event, run}
use hs_financial_services.Loadgen.Campaign.Flight.{open_requests, all_requests, run-IsAccounted}
use hs_financial_services.Loadgen.Campaign.Counted.{run-IsCounted}
use hs_financial_services.Common.Process.{with_threads, or_fatal}
use hs_financial_services.Common.Process.Ends.{with_threads-ok}
use hs_financial_services.Loadgen.Main.{
  Given, Settings, settings_of, System, settle_threads, start_text, generate, parsed, main,
}

settle_threads_pos : (num_threads hardware : ℕ) → 0 < settle_threads num_threads hardware
unfolding settle_threads
settle_threads_pos num_threads hardware = ground arith

module _ (sys : System) (d : Doubles) (print_fixed : d.Double → Bytes) (o : ByteOrder)
    (machine : Machine) (es : List Event) (elapsed : d.Double) where
  -- The metrics of a run with these settings.
  abbrev pub gathered : Settings → MetricsCollector
  gathered s = (run o machine es (new_campaign s.scenario s.num_clients)).metrics

  main-generate :
      (args : List Bytes) (g : Given)
      → sys.parse_command_line args ≡ ok g
      → g.help ≡ false
      → main sys d print_fixed o machine es elapsed args
        ≡ generate sys d print_fixed o machine es elapsed (settings_of g)
  unfolding main
  main-generate args g e h =
      ap (parsed sys d print_fixed o machine es elapsed) e
      ∙ ap
          (λ (b : Bool).
            if b
            then record { code = some 0; out = sys.description ++ codes "\n"; err = [] }
            else generate sys d print_fixed o machine es elapsed (settings_of g))
          h

  generate-ok :
      (s : Settings)
      → let n = settle_threads s.num_threads sys.hardware_concurrency in
        sys.threads.reserve (n - 1) ≡ ok tt
        → ((i : ℕ) → 0 < i → i < n → sys.threads.create_thread i ≡ ok tt)
        → sys.threads.ended ≡ ok tt
        → generate sys d print_fixed o machine es elapsed s ≡ record {
          code = some 0;
          out = start_text s n ++ print d print_fixed (gathered s) elapsed;
          err = [];
        }
  unfolding generate
  generate-ok s room created ended =
      let n = settle_threads s.num_threads sys.hardware_concurrency in
      let after = print d print_fixed (gathered s) elapsed in
      ap (λ q. or_fatal q (start_text s n) (with_threads sys.threads n (start_text s n) after)) room
      ∙ with_threads-ok sys.threads n (start_text s n) after created ended

  -- A run of fewer than 2 ^ 32 clients that gets its threads and ends with no handler that throws, with
  -- fewer than 2 ^ 64 responses recorded, of which every number prints in at most ten characters: main
  -- returns 0 and writes what it starts, with one thread at least, and then the report, line by line.
  -- The report's fifth line shows how many latencies were recorded, and its sixth how many errors. The
  -- latencies recorded and the requests without an answer are together at most the requests that were
  -- begun, and with the errors added at least these; the errors are at most the clients. The lines of
  -- its frame have 44 characters and those with a number 42, so that its right border is not straight.
  pub main-shows :
      (args : List Bytes) (g : Given)
      → let s = settings_of g in
        let n = settle_threads s.num_threads sys.hardware_concurrency in
        let end = run o machine es (new_campaign s.scenario s.num_clients) in
        let m = end.metrics in
        let lines = report d print_fixed (compute d m elapsed) elapsed in
        sys.parse_command_line args ≡ ok g
        → g.help ≡ false
        → sys.threads.reserve (n - 1) ≡ ok tt
        → ((i : ℕ) → 0 < i → i < n → sys.threads.create_thread i ≡ ok tt)
        → sys.threads.ended ≡ ok tt
        → s.num_clients < 2 ^ 32
        → length m.samples_us < 2 ^ 64
        → All (λ v. length v ≤ 10) (printed d print_fixed (compute d m elapsed) elapsed)
        → (main sys d print_fixed o machine es elapsed args
            ≡ record { code = some 0; out = start_text s n ++ text lines; err = [] })
          × (0 < n)
          × ((line : Bytes) × (get_elem? lines 4 ≡ some line)
              × (read_count line ≡ length m.samples_us))
          × ((line : Bytes) × (get_elem? lines 5 ≡ some line) × (read_count line ≡ m.errors))
          × (length m.samples_us + open_requests end.clients ≤ all_requests end.clients)
          × (all_requests end.clients ≤ length m.samples_us + open_requests end.clients + m.errors)
          × (m.errors ≤ s.num_clients)
          × (map length lines ≡ widths)
  main-shows args g e h room created ended few few_samples short =
      let s = settings_of g in
      let n = settle_threads s.num_threads sys.hardware_concurrency in
      let m = gathered s in
      let a = run-IsAccounted o machine s.num_clients few es s.scenario in
      let counted : m.successes ≡ length m.samples_us =
        run-IsCounted o machine es s.scenario s.num_clients ∙ omega (arith, few_samples) in
      let (printed_text, (line, at_line, shows), errors, sizes) =
        print-shown d print_fixed m elapsed (omega (arith, counted, few_samples))
          (omega (arith, a.failed, few)) short in
      (
        main-generate args g e h
            ∙ generate-ok s room created ended
            ∙ ap (λ t. record { code = some 0; out = start_text s n ++ t; err = [] }) printed_text,
        settle_threads_pos s.num_threads sys.hardware_concurrency,
        (line, at_line, shows ∙ counted),
        errors,
        a.answered,
        a.lost,
        omega (arith, a.failed),
        sizes,
      )
