-- ===== src/Tests/Mains.antt =====
-- Examples on the main functions.
use hs_financial_services.Common.{
  ◌+◌, ◌≡◌, ◌≤◌, ◌<◌, ◌^◌, get_elem?, ap, sym, subst, All, map, length, refl, false, none, some,
  List, [], ◌∷◌, ◌++◌, ok, throw, arith,
}
use hs_financial_services.Common.Text.{Bytes, codes}
use hs_financial_services.Common.Decimal.{to_string}
use hs_financial_services.Common.Process.{Threads}
use hs_financial_services.Protocol.{decode_header}
use hs_financial_services.Protocol.Endian.{little_endian}
use hs_financial_services.Services.Catalog.Table.{server_router}
use hs_financial_services.Session.{completed, success, error}
use hs_financial_services.Server.{ServerConfig, waiting, thread_count}
use hs_financial_services.Server.Running
use hs_financial_services.Server.Running.{
  Running, new_running, on_request, accepted, goes_on, at, dropped,
}
use hs_financial_services.Server.Main.{
  Given, config_of, System, construct, listening, stopped_line, main,
}
use hs_financial_services.Server.Main.Exit.{main-reports}
use hs_financial_services.Loadgen.Metrics.{MetricsCollector, compute}
use hs_financial_services.Loadgen.Metrics.Report.{report, text}
use hs_financial_services.Loadgen.Metrics.Report.Shown.{widths, read_count, printed}
use hs_financial_services.Loadgen.Campaign
use hs_financial_services.Loadgen.Campaign.{completes}
use hs_financial_services.Loadgen.Campaign.Flight.{open_requests, all_requests}
use hs_financial_services.Loadgen.ClientSession
use hs_financial_services.Loadgen.Main
use hs_financial_services.Loadgen.Main.Shows.{gathered, main-shows}
use hs_financial_services.Tests.Clients.{hundredths, whole_price}
use hs_financial_services.Tests.{whole_numbers, at_start}

-- A command line that gives the port 9100, on a machine of which the number of threads is not known.
abbrev given_port : Given
given_port = record {
  help = false;
  address = none;
  port = some 9100;
  threads = none;
  max_connections = none;
}

-- Every thread can be created, and no handler throws.
abbrev willing : Threads
willing = record { reserve = λ n. ok tt; create_thread = λ i. ok tt; ended = ok tt }

abbrev quiet_system : System
quiet_system = record {
  parse_command_line = λ args. ok given_port;
  description = codes "options";
  make_context = ok tt;
  make_signals = ok tt;
  make_address = λ address. ok tt;
  open_acceptor = λ address. ok tt;
  reuse_address = ok tt;
  bind = λ address port. ok tt;
  listen = ok tt;
  hardware_concurrency = 0;
  threads = willing;
}

-- The same, with a handler that throws.
abbrev failing_system : System
failing_system = record quiet_system {
  threads = record willing { ended = throw (codes "set_option: Bad file descriptor") };
}

abbrev settled : ServerConfig
settled = record {
  address = codes "0.0.0.0";
  port = 9100;
  thread_count = 1;
  max_connections = 50000;
}

abbrev one_client : List Running.Event
one_client =
    accepted ∷ goes_on ∷ goes_on ∷ goes_on ∷ goes_on ∷ at 0 (completed error) ∷ dropped 0 ∷ []

constructs : construct quiet_system (config_of given_port) ≡ ok settled
unfolding construct config_of thread_count
constructs = refl

at_rest :
    (Running.run little_endian
      (server_router whole_numbers)
      one_client
      (new_running settled at_start)).accept
    ≡ waiting
unfolding Running.run
at_rest = refl

main-reports_example :
    (main quiet_system whole_numbers little_endian one_client at_start [] ≡ record {
      code = some 0;
      out =
          listening settled
          ++ stopped_line
              (Running.run little_endian
                (server_router whole_numbers)
                one_client
                (new_running settled at_start)).made
              0;
      err = [];
    })
    × (0 < 1)
main-reports_example =
    main-reports quiet_system whole_numbers little_endian one_client at_start [] given_port settled
      refl refl constructs refl (λ i lo hi. refl) refl (omega arith) at_rest

-- The request that the counter would count.
one_request : (on_request (new_running settled at_start)).total_requests ≡ 1
one_request = refl

-- A load generator with two clients, of which one gets a response and one is refused by the server.
abbrev two_clients : Main.Given
two_clients = record {
  help = false;
  host = none;
  port = none;
  clients = some 2;
  duration = none;
  threads = some 4;
  sql_weight = none;
  buy_weight = none;
  sell_weight = none;
  position_weight = none;
  history_weight = none;
}

abbrev generator_system : Main.System
generator_system = record {
  parse_command_line = λ args. ok two_clients;
  description = codes "options";
  hardware_concurrency = 8;
  threads = willing;
}

abbrev refused : List Campaign.Event
refused =
    completes 0 (success []) 0
    ∷ completes 1 (success []) 5
    ∷ completes 0 (success []) 10
    ∷ completes 1 error 20
    ∷ completes 0 (success []) 30
    ∷ completes 0 (success (0 ∷ 0 ∷ 0 ∷ 0 ∷ 0 ∷ 0 ∷ 0 ∷ 0 ∷ [])) 50
    ∷ []

abbrev settings : Main.Settings
settings = Main.settings_of two_clients

few_clients : settings.num_clients < 2 ^ 32
unfolding Main.settings_of
few_clients = omega arith

abbrev results : MetricsCollector
results =
    gathered generator_system hundredths to_string little_endian whole_price refused 10 settings

results_value : results ≡ record { successes = 1; errors = 1; samples_us = 40 ∷ [] }
unfolding Campaign.run Campaign.new_campaign Main.settings_of ClientSession.start decode_header
results_value = refl

few_samples : length results.samples_us < 2 ^ 64
few_samples = omega (arith, ap (λ (m : MetricsCollector). length m.samples_us) results_value)

abbrev IsShort : MetricsCollector → Type 0
IsShort m = All (λ v. length v ≤ 10) (printed hundredths to_string (compute hundredths m 10) 10)

short : IsShort (record { successes = 1; errors = 1; samples_us = 40 ∷ [] })
unfolding compute to_string
short = omega arith

main-shows_example :
    let n = Main.settle_threads settings.num_threads 8 in
    let end =
      Campaign.run little_endian whole_price refused
        (Campaign.new_campaign settings.scenario settings.num_clients) in
    let m = end.metrics in
    let lines = report hundredths to_string (compute hundredths m 10) 10 in
    (Main.main generator_system hundredths to_string little_endian whole_price refused 10 []
      ≡ record { code = some 0; out = Main.start_text settings n ++ text lines; err = [] })
    × (0 < n)
    × ((line : Bytes) × (get_elem? lines 4 ≡ some line) × (read_count line ≡ length m.samples_us))
    × ((line : Bytes) × (get_elem? lines 5 ≡ some line) × (read_count line ≡ m.errors))
    × (length m.samples_us + open_requests end.clients ≤ all_requests end.clients)
    × (all_requests end.clients ≤ length m.samples_us + open_requests end.clients + m.errors)
    × (m.errors ≤ settings.num_clients)
    × (map length lines ≡ widths)
main-shows_example =
    main-shows generator_system hundredths to_string little_endian whole_price refused 10 []
      two_clients refl refl refl (λ i lo hi. refl) refl few_clients few_samples
      (subst IsShort (sym results_value) short)
