-- ===== src/Loadgen/Campaign.antt =====
-- main of load_generator/src/main.cpp: the clients that run beside each other on the shared metrics, the
-- stop flag and the count of those in flight. The completion handlers run on several threads; what
-- they share is atomic or behind a mutex, and each reads the flag once at most, so one handler is one
-- step.
pub mod Account
pub mod Counted
pub mod Flight
pub mod Stop
use hs_financial_services.Common.{
  ℕ, zero, suc, ◌+◌, ◌-◌, ◌%◌, ◌^◌, Bool, true, false, List, [], ◌∷◌,
}
use hs_financial_services.Common.Text.{Bytes}
use hs_financial_services.Protocol.{ByteOrder}
use hs_financial_services.Session.{Completion}
use hs_financial_services.Loadgen.Scenario.{ScenarioConfig, Machine}
use hs_financial_services.Loadgen.Metrics.{MetricsCollector, new_metrics}
use hs_financial_services.Loadgen.ClientSession
use hs_financial_services.Loadgen.ClientSession.{ClientSession, new_client, start}

-- `in_flight` has 32 bits.
pub record Campaign : Type 0 where
  pub clients : List ClientSession
  pub metrics : MetricsCollector
  pub stop_flag : Bool
  pub in_flight : ℕ

-- The loop that launches the clients, from number `i` on, for `n` of them.
abbrev pub launch_clients : ScenarioConfig → ℕ → ℕ → List ClientSession
launch_clients scenario i zero = []
launch_clients scenario i (suc n) =
    start (new_client scenario i) ∷ launch_clients scenario (i + 1) n

unfoldable pub new_campaign : ScenarioConfig → ℕ → Campaign
new_campaign scenario num_clients = record {
  clients = launch_clients scenario 0 num_clients;
  metrics = new_metrics;
  stop_flag = false;
  in_flight = num_clients;
}

-- The callback of a client, called so many times: `in_flight.fetch_sub(1)`
abbrev pub count_down : ℕ → ℕ → ℕ
count_down zero n = n
count_down (suc calls) n = count_down calls ((n + 2 ^ 32 - 1) % 2 ^ 32)

-- The pending operation of a client, by its number, completes at that time; or the timer ends.
pub data Event : Type 0 where
  completes : ℕ → Completion → ℕ → Event
  timer : Event

module _ (o : ByteOrder) (machine : Machine) where
  -- The client with that number takes a step; the last component counts the calls of its callback.
  unfoldable pub complete_at :
      ℕ
      → ClientSession.Event
      → List ClientSession
      → MetricsCollector
      → List ClientSession × MetricsCollector × ℕ
  unfolding ClientSession.step
  complete_at i e [] m = ([], m, 0)
  complete_at zero e (c ∷ cs) m =
      let (c', m') = ClientSession.step o machine e (c, m) in
      (c' ∷ cs, m', c'.done_calls - c.done_calls)
  complete_at (suc i) e (c ∷ cs) m =
      let (cs', m', calls) = complete_at i e cs m in (c ∷ cs', m', calls)

  abbrev pub completed : List ClientSession × MetricsCollector × ℕ → Campaign → Campaign
  completed (cs, m, calls) s = record s {
    clients = cs;
    metrics = m;
    in_flight = count_down calls s.in_flight;
  }

  unfoldable pub step : Event → Campaign → Campaign
  unfolding complete_at
  step (completes i x now) s =
      let e : ClientSession.Event = record { completion = x; now = now; stop_flag = s.stop_flag } in
      completed (complete_at i e s.clients s.metrics) s
  step timer s = record s { stop_flag = true }

  unfoldable pub run : List Event → Campaign → Campaign
  unfolding step
  run [] s = s
  run (e ∷ es) s = run es (step e s)
