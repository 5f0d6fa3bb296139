-- ===== src/Server/Main.antt =====
-- main of server/src/main.cpp, with the constructor and run of Server (server/src/server.cpp). A run
-- ends when a signal stops it or a handler throws; the events before that are given. What the code
-- asks of Asio and of the threads may fail; main catches what is thrown, where no thread is joinable.
pub mod Exit
use hs_financial_services.Common.{
  ℕ, ◌+◌, Bool, true, false, Option, none, some, List, [], ◌∷◌, ◌++◌, Result, ok, throw,
  if◌then◌else◌,
}
use hs_financial_services.Common.Text.{Bytes, codes}
use hs_financial_services.Common.Decimal.{to_string}
use hs_financial_services.Common.Process.{
  or_default, Outcome, fatal_after, fatal, Threads, with_threads, or_fatal,
}
use hs_financial_services.Protocol.{ByteOrder}
use hs_financial_services.Router.{Router}
use hs_financial_services.Services.{ServiceState}
use hs_financial_services.Services.History.{Platform}
use hs_financial_services.Services.Catalog.{register_services}
use hs_financial_services.Server.{ServerConfig, default_config, thread_count}
use hs_financial_services.Server.Running.{Running, new_running, Event, run}

-- The options that the command line gives.
pub record Given : Type 0 where
  pub help : Bool
  pub address : Option Bytes
  pub port : Option ℕ
  pub threads : Option ℕ
  pub max_connections : Option ℕ

unfoldable pub config_of : Given → ServerConfig
config_of g = record {
  address = or_default (codes "0.0.0.0") g.address;
  port = or_default 9000 g.port;
  thread_count = or_default 0 g.threads;
  max_connections = or_default 50000 g.max_connections;
}

-- What Boost and the standard library do when main calls them: the construction of the `io_context` and
-- of the `signal_set`, `make_address` on the address, the acceptor's `open` for it, `set_option`, `bind`
-- to the endpoint and `listen`, and what comes of the threads.
pub record System : Type 0 where
  pub parse_command_line : List Bytes → Result Given
  pub description : Bytes
  pub make_context : Result (Unit {0})
  pub make_signals : Result (Unit {0})
  pub make_address : Bytes → Result (Unit {0})
  pub open_acceptor : Bytes → Result (Unit {0})
  pub reuse_address : Result (Unit {0})
  pub bind : Bytes → ℕ → Result (Unit {0})
  pub listen : Result (Unit {0})
  pub hardware_concurrency : ℕ
  pub threads : Threads

infixl 5 ◌>>◌
abbrev pub ◌>>◌ : Result (Unit {0}) → Result ServerConfig → Result ServerConfig
ok _ >> next = next
throw what >> next = throw what

-- The constructor: the configuration with the number of threads settled, once the acceptor listens.
unfoldable pub construct : System → ServerConfig → Result ServerConfig
unfolding thread_count
construct sys c = do
  sys.make_context
  sys.make_signals
  sys.make_address c.address
  sys.open_acceptor c.address
  sys.reuse_address
  sys.bind c.address c.port
  sys.listen
  ok (record c { thread_count = thread_count c.thread_count sys.hardware_concurrency })

-- What `run` prints before and after it serves.
unfoldable pub listening : ServerConfig → Bytes
listening c =
    codes "[Server] Listening on "
    ++ (c.address
        ++ (codes ":"
            ++ (to_string c.port
                ++ (codes " with " ++ (to_string c.thread_count ++ codes " I/O thread(s)\n")))))

unfoldable pub stopped_line : ℕ → ℕ → Bytes
stopped_line total_connections total_requests =
    codes "[Server] Stopped. Served "
    ++ (to_string total_connections
        ++ (codes " connections, " ++ (to_string total_requests ++ codes " requests.\n")))

module _ (sys : System) (p : Platform) (o : ByteOrder) (es : List Event) (st : ServiceState) where
  unfoldable pub run_server : Router ServiceState → ServerConfig → Outcome
  unfolding listening stopped_line with_threads
  run_server router c =
      let r = run o router es (new_running c st) in
      or_fatal (sys.threads.reserve c.thread_count) [] (
        with_threads sys.threads c.thread_count (listening c)
          (stopped_line r.total_connections r.total_requests))

  unfoldable pub registered : Result (Unit {0}) → Router ServiceState → ServerConfig → Outcome
  unfolding run_server fatal_after
  registered (throw what) router c = fatal what
  registered (ok _) router c = run_server router c

  unfoldable pub constructed : Result ServerConfig → Outcome
  unfolding registered fatal_after
  constructed (throw what) = fatal what
  constructed (ok c) = let (result, router) = register_services p [] in registered result router c

  unfoldable pub parsed : Result Given → Outcome
  unfolding constructed fatal_after construct config_of
  parsed (throw what) = fatal what
  parsed (ok g) =
      if g.help
      then record { code = some 0; out = sys.description ++ codes "\n"; err = [] }
      else constructed (construct sys (config_of g))

  unfoldable pub main : List Bytes → Outcome
  unfolding parsed
  main args = parsed (sys.parse_command_line args)
