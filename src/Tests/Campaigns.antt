-- ===== src/Tests/Campaigns.antt =====
-- A campaign of two clients.
use hs_financial_services.Common.{◌+◌, ◌*◌, ◌/◌, ◌≤◌, ◌≡◌, refl, true, List, [], ◌∷◌, arith}
use hs_financial_services.Common.Decimal.{to_string}
use hs_financial_services.Protocol.Endian.{little_endian}
use hs_financial_services.Session.{success, error}
use hs_financial_services.Common.Int.{pos}
use hs_financial_services.Loadgen.Scenario.{Machine}
use hs_financial_services.Loadgen.Scenario.{default_scenario}
use hs_financial_services.Loadgen.ClientSession
use hs_financial_services.Loadgen.Campaign.{new_campaign, Event, completes, timer, complete_at, run}
use hs_financial_services.Loadgen.Campaign.Flight.{IsAccounted, run-IsAccounted}
use hs_financial_services.Loadgen.Campaign.Stop.{served, run-stops}

abbrev machine : Machine
machine = record { print_price = λ k. to_string (100 + k / 100); overflowed = λ x y. pos 0 }

-- Both names resolve, one client connects and sends a request, and the other is refused.
abbrev opening : List Event
opening =
    completes 0 (success []) 0
    ∷ completes 1 (success []) 5
    ∷ completes 0 (success []) 10
    ∷ completes 1 error 20
    ∷ []

run-IsAccounted_example :
    IsAccounted 2 (run little_endian machine opening (new_campaign default_scenario 2))
run-IsAccounted_example =
    run-IsAccounted little_endian machine 2 (omega arith) opening default_scenario

-- The timer ends while both names are resolved; then one client loses its connection.
abbrev stopped : List Event
stopped = completes 0 (success []) 0 ∷ timer ∷ []

abbrev closing : List Event
closing = completes 0 error 30 ∷ completes 0 error 40 ∷ completes 1 (success []) 50 ∷ []

stopped_flag :
    (run little_endian machine stopped (new_campaign default_scenario 2)).stop_flag ≡ true
unfolding run
stopped_flag = refl

run-stops_example :
    served little_endian machine closing
        (run little_endian machine stopped (new_campaign default_scenario 2))
      + (run little_endian machine closing
          (run little_endian machine stopped (new_campaign default_scenario 2))).in_flight
    ≤ 3 * (run little_endian machine stopped (new_campaign default_scenario 2)).in_flight
run-stops_example =
    run-stops little_endian machine 2 (omega arith) stopped closing default_scenario stopped_flag

closing_in_flight :
    (run little_endian machine closing
      (run little_endian machine stopped (new_campaign default_scenario 2))).in_flight
    ≡ 1
unfolding run complete_at new_campaign ClientSession.step ClientSession.start
closing_in_flight = refl
