-- ===== src/Loadgen/Campaign/Flight.antt =====
-- The clients in flight, and the accounts of all clients together.
use hs_financial_services.Common.{
  ℕ, zero, suc, ◌+◌, ◌-◌, ◌%◌, ◌^◌, ◌<◌, ◌≤◌, ◌≡◌, refl, sym, ap, ◌∙◌, Bool, true, List, [], ◌∷◌,
  length, arith,
}
use hs_financial_services.Protocol.{ByteOrder}
use hs_financial_services.Loadgen.Scenario.{ScenarioConfig, Machine}
use hs_financial_services.Loadgen.Metrics.{MetricsCollector}
use hs_financial_services.Loadgen.ClientSession
use hs_financial_services.Loadgen.ClientSession.{ClientSession, Waiting, new_client, start}
use hs_financial_services.Loadgen.Campaign.{
  Campaign, launch_clients, new_campaign, count_down, Event, completes, timer, complete_at, step,
  run,
}
use hs_financial_services.Loadgen.Campaign.Account.{running, unanswered, steps_left, step-Adds}

abbrev pub total : (ClientSession → ℕ) → List ClientSession → ℕ
total f [] = 0
total f (c ∷ cs) = f c + total f cs

-- The clients that have not ended, their requests without an answer, all requests, and the
-- completions that the clients can still take once the stop flag is set.
abbrev pub in_progress : List ClientSession → ℕ
in_progress = total (λ c. running c.pending)

abbrev pub open_requests : List ClientSession → ℕ
open_requests = total (λ c. unanswered c.pending)

abbrev pub all_requests : List ClientSession → ℕ
all_requests = total (λ c. c.requests)

abbrev pub all_steps : List ClientSession → ℕ
all_steps = total (λ c. steps_left c.pending)

-- Whether the client with that number waits for a completion.
abbrev pub waits_at : ℕ → List ClientSession → ℕ
waits_at i [] = 0
waits_at zero (c ∷ cs) = running c.pending
waits_at (suc i) (c ∷ cs) = waits_at i cs

pub record Moves (i : ℕ) (stop_flag : Bool) (cs : List ClientSession) (m : MetricsCollector)
    (r : List ClientSession × MetricsCollector × ℕ) : Type 0 where
  pub called : in_progress r.0 + r.2 ≡ in_progress cs
  pub answered :
      length r.1.samples_us + open_requests r.0 + all_requests cs
      ≤ all_requests r.0 + length m.samples_us + open_requests cs
  pub lost :
      all_requests r.0 + length m.samples_us + open_requests cs + m.errors
      ≤ length r.1.samples_us + open_requests r.0 + all_requests cs + r.1.errors
  pub failed : r.1.errors + in_progress r.0 ≤ m.errors + in_progress cs
  pub nearer : stop_flag ≡ true → all_steps r.0 + waits_at i cs ≤ all_steps cs

module _ (o : ByteOrder) (machine : Machine) where
  pub complete_at-Moves :
      (i : ℕ) (e : ClientSession.Event) (cs : List ClientSession) (m : MetricsCollector)
      → m.errors + 1 < 2 ^ 64
      → Moves i e.stop_flag cs m (complete_at o machine i e cs m)
  unfolding complete_at
  complete_at-Moves i e [] m few = record {
    called = refl;
    answered = omega arith;
    lost = omega arith;
    failed = omega arith;
    nearer = λ _. omega arith;
  }
  complete_at-Moves zero e (c ∷ cs) m few =
      let a = step-Adds o machine e c m few in
      record {
        called = omega (arith, a.called, a.ending);
        answered = omega (arith, a.answered);
        lost = omega (arith, a.lost);
        failed = omega (arith, a.failed);
        nearer = λ on. omega (arith, a.nearer on);
      }
  complete_at-Moves (suc i) e (c ∷ cs) m few =
      let h = complete_at-Moves i e cs m few in
      record {
        called = omega (arith, h.called);
        answered = omega (arith, h.answered);
        lost = omega (arith, h.lost);
        failed = omega (arith, h.failed);
        nearer = λ on. omega (arith, h.nearer on);
      }

-- A count that is large enough goes down by one for each call.
count_down-sub : (calls n : ℕ) → n + calls < 2 ^ 32 → count_down calls (n + calls) ≡ n
count_down-sub zero n h = omega arith
count_down-sub (suc calls) n h =
    let once : (n + suc calls + 2 ^ 32 - 1) % 2 ^ 32 ≡ n + calls = omega (arith, h) in
    ap (count_down calls) once ∙ count_down-sub calls n (omega (arith, h))

-- The accounts of a campaign of `n` clients.
pub record IsAccounted (n : ℕ) (s : Campaign) : Type 0 where
  pub flying : s.in_flight ≡ in_progress s.clients
  pub answered : length s.metrics.samples_us + open_requests s.clients ≤ all_requests s.clients
  pub lost :
      all_requests s.clients
      ≤ length s.metrics.samples_us + open_requests s.clients + s.metrics.errors
  pub failed : s.metrics.errors + s.in_flight ≤ n

launch_clients-total :
    (scenario : ScenarioConfig) (i n : ℕ)
    → (in_progress (launch_clients scenario i n) ≡ n)
      × (open_requests (launch_clients scenario i n) ≡ 0)
      × (all_requests (launch_clients scenario i n) ≡ 0)
unfolding start
launch_clients-total scenario i zero = (refl, refl, refl)
launch_clients-total scenario i (suc n) =
    let (a, b, c) = launch_clients-total scenario (i + 1) n in
    (omega (arith, a), omega (arith, b), omega (arith, c))

new_campaign-IsAccounted :
    (scenario : ScenarioConfig) (n : ℕ) → IsAccounted n (new_campaign scenario n)
unfolding new_campaign
new_campaign-IsAccounted scenario n =
    let (a, b, c) = launch_clients-total scenario 0 n in
    record {
      flying = sym a;
      answered = omega (arith, b, c);
      lost = omega (arith, b, c);
      failed = omega arith;
    }

module _ (o : ByteOrder) (machine : Machine) (n : ℕ) (small : n < 2 ^ 32) where
  pub step-IsAccounted :
      (e : Event) (s : Campaign) → IsAccounted n s → IsAccounted n (step o machine e s)
  unfolding step
  step-IsAccounted (completes i x now) s a =
      let e : ClientSession.Event = record { completion = x; now = now; stop_flag = s.stop_flag } in
      let r = complete_at o machine i e s.clients s.metrics in
      let mv =
        complete_at-Moves o machine i e s.clients s.metrics (omega (arith, a.failed, small)) in
      let flying : count_down r.2 s.in_flight ≡ in_progress r.0 =
        ap (count_down r.2) (a.flying ∙ sym mv.called)
        ∙ count_down-sub r.2 (in_progress r.0)
            (omega (arith, mv.called, a.flying, a.failed, small)) in
      record {
        flying = flying;
        answered = omega (arith, mv.answered, a.answered);
        lost = omega (arith, mv.lost, a.lost);
        failed = omega (arith, mv.failed, a.failed, a.flying, flying);
      }
  step-IsAccounted timer s a = record {
    flying = a.flying;
    answered = a.answered;
    lost = a.lost;
    failed = a.failed;
  }

  pub run_lem :
      (es : List Event) (s : Campaign) → IsAccounted n s → IsAccounted n (run o machine es s)
  unfolding run
  run_lem [] s a = a
  run_lem (e ∷ es) s a = run_lem es (step o machine e s) (step-IsAccounted e s a)

  -- For fewer than 2 ^ 32 clients, whatever the network does, in whatever order the handlers of the
  -- clients run and whenever the timer ends: the count of clients in flight is that of the clients
  -- that have not ended, and never wraps; the requests of all clients are at least the samples and
  -- the unanswered requests together, and exceed these by the errors at most; and the errors and the
  -- clients in flight are together at most the clients.
  pub run-IsAccounted :
      (es : List Event) (scenario : ScenarioConfig)
      → IsAccounted n (run o machine es (new_campaign scenario n))
  run-IsAccounted es scenario = run_lem es _ (new_campaign-IsAccounted scenario n)
