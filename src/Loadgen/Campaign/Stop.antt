-- ===== src/Loadgen/Campaign/Stop.antt =====
-- How a campaign ends.
use hs_financial_services.Common.{ℕ, ◌+◌, ◌*◌, ◌^◌, ◌<◌, ◌≤◌, ◌≡◌, refl, true, List, [], ◌∷◌, arith}
use hs_financial_services.Protocol.{ByteOrder}
use hs_financial_services.Loadgen.Scenario.{ScenarioConfig, Machine}
use hs_financial_services.Loadgen.ClientSession
use hs_financial_services.Loadgen.ClientSession.{
  ClientSession, Waiting, nothing, resolving, connecting, sending, reading_header, reading_body,
}
use hs_financial_services.Loadgen.Campaign.{
  Campaign, new_campaign, Event, completes, timer, step, run,
}
use hs_financial_services.Loadgen.Campaign.Account.{running, steps_left}
use hs_financial_services.Loadgen.Campaign.Flight.{
  in_progress, all_steps, waits_at, complete_at-Moves, IsAccounted, step-IsAccounted, run_lem,
  run-IsAccounted,
}

steps_left-bounds : (w : Waiting) → (running w ≤ steps_left w) × (steps_left w ≤ 3 * running w)
steps_left-bounds nothing = (omega arith, omega arith)
steps_left-bounds resolving = (omega arith, omega arith)
steps_left-bounds connecting = (omega arith, omega arith)
steps_left-bounds sending = (omega arith, omega arith)
steps_left-bounds reading_header = (omega arith, omega arith)
steps_left-bounds reading_body = (omega arith, omega arith)

all_steps-bounds :
    (cs : List ClientSession)
    → (in_progress cs ≤ all_steps cs) × (all_steps cs ≤ 3 * in_progress cs)
all_steps-bounds [] = (omega arith, omega arith)
all_steps-bounds (c ∷ cs) =
    let (lo, hi) = steps_left-bounds c.pending in
    let (los, his) = all_steps-bounds cs in (omega (arith, lo, los), omega (arith, hi, his))

-- Whether an event completes an operation that is pending.
abbrev pub serves : Event → Campaign → ℕ
serves (completes i x now) s = waits_at i s.clients
serves timer s = 0

module _ (o : ByteOrder) (machine : Machine) where
  -- How many of the events complete an operation that is pending when they occur.
  abbrev pub served : List Event → Campaign → ℕ
  served [] s = 0
  served (e ∷ es) s = serves e s + served es (step o machine e s)

  module _ (n : ℕ) (small : n < 2 ^ 32) where
    step-nearer :
        (e : Event) (s : Campaign)
        → IsAccounted n s
        → s.stop_flag ≡ true
        → (all_steps (step o machine e s).clients + serves e s ≤ all_steps s.clients)
          × ((step o machine e s).stop_flag ≡ true)
    unfolding step
    step-nearer (completes i x now) s a on =
        let e : ClientSession.Event = record {
          completion = x;
          now = now;
          stop_flag = s.stop_flag;
        } in
        let mv =
          complete_at-Moves o machine i e s.clients s.metrics (omega (arith, a.failed, small)) in
        (mv.nearer on, on)
    step-nearer timer s a on = (omega arith, refl)

    served-bound :
        (es : List Event) (s : Campaign)
        → IsAccounted n s
        → s.stop_flag ≡ true
        → served es s + all_steps (run o machine es s).clients ≤ all_steps s.clients
    unfolding run
    served-bound [] s a on = omega arith
    served-bound (e ∷ es) s a on =
        let (near, on') = step-nearer e s a on in
        let rest =
          served-bound es (step o machine e s) (step-IsAccounted o machine n small e s a) on' in
        omega (arith, near, rest)

    -- For fewer than 2 ^ 32 clients, from any state of a campaign in which the timer has set the stop
    -- flag, and whatever the network does in whatever order: the completions of pending operations
    -- that follow and the clients that are then still in flight are together at most three times
    -- the clients that were in flight. So after three times as many such completions none is in
    -- flight.
    pub run-stops :
        (before after : List Event) (scenario : ScenarioConfig)
        → (run o machine before (new_campaign scenario n)).stop_flag ≡ true
        → served after (run o machine before (new_campaign scenario n))
            + (run o machine after (run o machine before (new_campaign scenario n))).in_flight
          ≤ 3 * (run o machine before (new_campaign scenario n)).in_flight
    run-stops before after scenario on =
        let s = run o machine before (new_campaign scenario n) in
        let a = run-IsAccounted o machine n small before scenario in
        let a' = run_lem o machine n small after s a in
        let (lo, hi) = all_steps-bounds (run o machine after s).clients in
        let (lo', hi') = all_steps-bounds s.clients in
        omega (arith, served-bound after s a on, a.flying, a'.flying, lo, hi')
