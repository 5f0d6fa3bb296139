-- ===== src/Server/Main/Exit.antt =====
-- How main ends.
use hs_financial_services.Common.{
  ℕ, ◌+◌, ◌^◌, ◌<◌, ◌≡◌, ap, ◌∙◌, ◌⊎◌, Bool, false, some, List, [], ◌++◌, Result, ok, throw,
  if◌then◌else◌, length, arith,
}
use hs_financial_services.Common.Text.{Bytes, codes}
use hs_financial_services.Common.Process.{Outcome, fatal_after, terminated, with_threads, or_fatal}
use hs_financial_services.Common.Process.Ends.{Catches, Terminates, with_threads-ok}
use hs_financial_services.Protocol.{ByteOrder}
use hs_financial_services.Services.{ServiceState}
use hs_financial_services.Services.History.{Platform}
use hs_financial_services.Services.Catalog.Table.{lookup-register_services, server_router}
use hs_financial_services.Server.{ServerConfig, thread_count, waiting}
use hs_financial_services.Server.Running.{new_running, Event, run}
use hs_financial_services.Server.Running.Total.{begun, run_total, run_total_requests}
use hs_financial_services.Server.Main.{
  Given, config_of, System, construct, listening, stopped_line, ◌>>◌, run_server, registered,
  constructed, parsed, main,
}

-- A call that throws ends the constructor.
>>-eq-ok :
    (first : Result (Unit {0})) (next : Result ServerConfig) {c : ServerConfig}
    → (first >> next) ≡ ok c
    → next ≡ ok c
>>-eq-ok (ok done) next e = e
>>-eq-ok (throw what) next e = cc

thread_count_pos : (configured hardware : ℕ) → 0 < thread_count configured hardware
unfolding thread_count
thread_count_pos configured hardware = ground arith

construct-thread_count :
    (sys : System) (cfg : ServerConfig) {c : ServerConfig}
    → construct sys cfg ≡ ok c
    → 0 < c.thread_count
unfolding construct
construct-thread_count sys cfg e =
    let settled = >>-eq-ok sys.listen _ (
      >>-eq-ok (sys.bind cfg.address cfg.port) _ (
        >>-eq-ok sys.reuse_address _ (
          >>-eq-ok (sys.open_acceptor cfg.address) _ (
            >>-eq-ok (sys.make_address cfg.address) _
              (>>-eq-ok sys.make_signals _ (>>-eq-ok sys.make_context _ e)))))) in
    ground (arith, settled, thread_count_pos cfg.thread_count sys.hardware_concurrency)

module _ (sys : System) (p : Platform) (o : ByteOrder) (es : List Event) (st : ServiceState) where
  -- On a server's empty router no registration throws.
  constructed-ok :
      (c : ServerConfig)
      → constructed sys p o es st (ok c) ≡ run_server sys p o es st (server_router p) c
  unfolding constructed
  constructed-ok c =
      ap (λ r. registered sys p o es st r (server_router p) c) (lookup-register_services p 0).0

  -- The constructor of the server runs for the command line, and settles this configuration.
  abbrev pub Constructs : List Bytes → ServerConfig → Type 0
  Constructs args c =
      (g : Given) × (sys.parse_command_line args ≡ ok g)
      × (g.help ≡ false)
      × (construct sys (config_of g) ≡ ok c)

  -- What main's handler gets before anything is written: an exception of the command line, of the
  -- constructor, or of the reservation of the threads.
  abbrev pub Fails : List Bytes → Bytes → Type 0
  Fails args what =
      (sys.parse_command_line args ≡ throw what)
      ⊎ (((g : Given) × (sys.parse_command_line args ≡ ok g)
            × (g.help ≡ false)
            × (construct sys (config_of g) ≡ throw what))
          ⊎ ((c : ServerConfig) × Constructs args c
              × (sys.threads.reserve c.thread_count ≡ throw what)))

  -- How a process ends that the server's threads or handlers make fail.
  abbrev pub Breaks : List Bytes → Outcome → Type 0
  Breaks args end =
      (c : ServerConfig) × Constructs args c
      × (((what : Bytes) × (end ≡ fatal_after (listening c) what)
            × Catches sys.threads c.thread_count what)
          ⊎ ((end ≡ terminated (listening c)) × Terminates sys.threads c.thread_count))

  abbrev help_text : Outcome
  help_text = record { code = some 0; out = sys.description ++ codes "\n"; err = [] }

  -- main behind the command line.
  main-parsed :
      (args : List Bytes) (g : Given) (b : Bool)
      → sys.parse_command_line args ≡ ok g
      → g.help ≡ b
      → main sys p o es st args
        ≡ (if b then help_text else constructed sys p o es st (construct sys (config_of g)))
  unfolding main
  main-parsed args g b e h =
      ap (parsed sys p o es st) e
      ∙ ap (λ c. if c then help_text else constructed sys p o es st (construct sys (config_of g))) h

  -- main when the server is constructed: it runs.
  main-runs :
      (args : List Bytes) (g : Given) (c : ServerConfig)
      → sys.parse_command_line args ≡ ok g
      → g.help ≡ false
      → construct sys (config_of g) ≡ ok c
      → main sys p o es st args ≡ run_server sys p o es st (server_router p) c
  main-runs args g c e h f =
      main-parsed args g false e h ∙ ap (constructed sys p o es st) f ∙ constructed-ok c

  run_server-or_fatal :
      (c : ServerConfig) (reserved : Result (Unit {0}))
      → sys.threads.reserve c.thread_count ≡ reserved
      → let r = run o (server_router p) es (new_running c st) in
        run_server sys p o es st (server_router p) c
        ≡ or_fatal reserved [] (
            with_threads sys.threads c.thread_count
              (listening c)
              (stopped_line r.total_connections r.total_requests))
  unfolding run_server
  run_server-or_fatal c reserved e =
      let r = run o (server_router p) es (new_running c st) in
      ap
        (λ q. or_fatal q [] (
          with_threads sys.threads c.thread_count (listening c)
            (stopped_line r.total_connections r.total_requests)))
        e

  -- A server that is constructed, gets its threads, and runs until it is stopped, with no handler that
  -- throws, no accept under way and fewer than 2 ^ 64 events: main returns 0 and writes where it listens
  -- and with how many threads, at least one, and then how many sessions it has made; the number of
  -- requests that it writes is 0, whatever its sessions have answered.
  pub main-reports :
      (args : List Bytes) (g : Given) (c : ServerConfig)
      → sys.parse_command_line args ≡ ok g
      → g.help ≡ false
      → construct sys (config_of g) ≡ ok c
      → sys.threads.reserve c.thread_count ≡ ok tt
      → ((i : ℕ) → 0 < i → i < c.thread_count → sys.threads.create_thread i ≡ ok tt)
      → sys.threads.ended ≡ ok tt
      → length es < 2 ^ 64
      → (run o (server_router p) es (new_running c st)).accept ≡ waiting
      → let r = run o (server_router p) es (new_running c st) in
        (main sys p o es st args
          ≡ record { code = some 0; out = listening c ++ stopped_line r.made 0; err = [] })
        × (0 < c.thread_count)
  main-reports args g c e h f room created ended few rest =
      let r = run o (server_router p) es (new_running c st) in
      let total : r.total_connections ≡ r.made =
        run_total o (server_router p) c st es few ∙ ap (λ a. r.made + begun a) rest ∙ omega arith in
      let none : r.total_requests ≡ 0 =
        run_total_requests o (server_router p) es (new_running c st) in
      (
        main-runs args g c e h f
            ∙ run_server-or_fatal c (ok tt) room
            ∙ with_threads-ok sys.threads c.thread_count (listening c)
                (stopped_line r.total_connections r.total_requests) created ended
            ∙ ap
                (λ n. record {
                  code = some 0;
                  out = listening c ++ stopped_line n r.total_requests;
                  err = [];
                })
                total
            ∙ ap
                (λ n. record {
                  code = some 0;
                  out = listening c ++ stopped_line r.made n;
                  err = [];
                })
                none,
        construct-thread_count sys (config_of g) f,
      )
