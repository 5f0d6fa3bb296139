-- ===== src/Loadgen/Main.antt =====
-- main of load_generator/src/main.cpp: the command line, the number of threads, what is printed, and
-- the run of the clients (Loadgen/Campaign) between. A run ends when no handler is left or one throws;
-- the events before that are given, and the time that it takes is measured.
pub mod Shows
use hs_financial_services.Common.{
  ℕ, ◌+◌, ◌-◌, Bool, Option, some, List, [], ◌∷◌, ◌++◌, Result, ok, throw, ◌==◌, if◌then◌else◌,
}
use hs_financial_services.Common.Int.{ℤ, pos}
use hs_financial_services.Common.Text.{Bytes, codes}
use hs_financial_services.Common.Decimal.{to_string}
use hs_financial_services.Common.Process.{
  or_default, Outcome, fatal_after, fatal, Threads, with_threads, or_fatal,
}
use hs_financial_services.Protocol.{ByteOrder}
use hs_financial_services.Loadgen.Scenario.{ScenarioConfig, Machine}
use hs_financial_services.Loadgen.Metrics.{Doubles}
use hs_financial_services.Loadgen.Metrics.Report.{print}
use hs_financial_services.Loadgen.Campaign.{Campaign, new_campaign, Event, run}

-- The options that the command line gives.
pub record Given : Type 0 where
  pub help : Bool
  pub host : Option Bytes
  pub port : Option ℕ
  pub clients : Option ℕ
  pub duration : Option ℕ
  pub threads : Option ℕ
  pub sql_weight : Option ℤ
  pub buy_weight : Option ℤ
  pub sell_weight : Option ℤ
  pub position_weight : Option ℤ
  pub history_weight : Option ℤ

-- The variables that the options are stored in.
pub record Settings : Type 0 where
  pub host : Bytes
  pub port : ℕ
  pub num_clients : ℕ
  pub duration_secs : ℕ
  pub num_threads : ℕ
  pub scenario : ScenarioConfig

unfoldable pub settings_of : Given → Settings
settings_of g = record {
  host = or_default (codes "127.0.0.1") g.host;
  port = or_default 9000 g.port;
  num_clients = or_default 100 g.clients;
  duration_secs = or_default 10 g.duration;
  num_threads = or_default 0 g.threads;
  scenario = record {
    weight_sql = or_default (pos 20) g.sql_weight;
    weight_buy = or_default (pos 25) g.buy_weight;
    weight_sell = or_default (pos 25) g.sell_weight;
    weight_position = or_default (pos 20) g.position_weight;
    weight_price_history = or_default (pos 10) g.history_weight;
  };
}

-- What Boost and the standard library do when main calls them, and what comes of the threads.
pub record System : Type 0 where
  pub parse_command_line : List Bytes → Result Given
  pub description : Bytes
  pub hardware_concurrency : ℕ
  pub threads : Threads

-- `if (num_threads == 0) { … }`
unfoldable pub settle_threads : ℕ → ℕ → ℕ
settle_threads num_threads hardware =
    if num_threads == 0 then (if hardware == 0 then 1 else hardware) else num_threads

unfoldable pub start_text : Settings → ℕ → Bytes
start_text s num_threads =
    codes "Starting load generator:\n  Target  : "
    ++ (s.host
        ++ (codes ":"
            ++ (to_string s.port
                ++ (codes "\n  Clients : "
                    ++ (to_string s.num_clients
                        ++ (codes "\n  Duration: "
                            ++ (to_string s.duration_secs
                                ++ (codes " s\n  Threads : "
                                    ++ (to_string num_threads ++ codes "\n")))))))))

module _ (sys : System) (d : Doubles) (print_fixed : d.Double → Bytes) (o : ByteOrder)
    (machine : Machine) (es : List Event) (elapsed : d.Double) where
  unfoldable pub generate : Settings → Outcome
  unfolding settle_threads start_text with_threads
  generate s =
      let end = run o machine es (new_campaign s.scenario s.num_clients) in
      let n = settle_threads s.num_threads sys.hardware_concurrency in
      or_fatal (sys.threads.reserve (n - 1)) (start_text s n)
        (with_threads sys.threads n (start_text s n) (print d print_fixed end.metrics elapsed))

  unfoldable pub parsed : Result Given → Outcome
  unfolding generate settings_of fatal_after
  parsed (throw what) = fatal what
  parsed (ok g) =
      if g.help
      then record { code = some 0; out = sys.description ++ codes "\n"; err = [] }
      else generate (settings_of g)

  unfoldable pub main : List Bytes → Outcome
  unfolding parsed
  main args = parsed (sys.parse_command_line args)
