-- ===== src/Tests/Clients.antt =====
-- Examples on the clients.
use hs_financial_services.Common.{
  ℕ, ◌+◌, ◌*◌, ◌/◌, ◌%◌, ◌<◌, ◌≡◌, refl, false, some, List, [], ◌∷◌, ltb, get_or, arith,
}
use hs_financial_services.Common.Int.{pos}
use hs_financial_services.Common.Text.{codes}
use hs_financial_services.Common.Decimal.{to_string, to_string-IsDigits}
use hs_financial_services.Json.Object.{IsNumber}
use hs_financial_services.Services.History.Days.{IsDigits-IsNumber}
use hs_financial_services.Protocol.Endian.{little_endian}
use hs_financial_services.Session.{success, error}
use hs_financial_services.Loadgen.Scenario.{
  Machine, default_scenario, next_rand, next_request, seed,
}
use hs_financial_services.Loadgen.Scenario.Shares.{table, weights, next_request-share}
use hs_financial_services.Loadgen.Scenario.Requests.{Understood, next_request-Understood}
use hs_financial_services.Loadgen.Metrics.{MetricsCollector, new_metrics, Doubles, compute}
use hs_financial_services.Loadgen.Metrics.Order.{IsIndexing, IsOrdered, compute-IsOrdered}
use hs_financial_services.Loadgen.ClientSession.{Event, new_client, start, run}
use hs_financial_services.Loadgen.ClientSession.Account.{IsBalanced, run-IsBalanced}
use hs_financial_services.Ui.Wire.{decode_header}
use hs_financial_services.Ui.Socket.{Arrivals, recv_msg}
use hs_financial_services.Ui.Socket.Chunks.{IsOpen, joined, recv_msg-joined}

-- A price as a whole number, and 0 for a sum that overflows.
abbrev pub whole_price : Machine
whole_price = record { print_price = λ k. to_string (100 + k / 100); overflowed = λ x y. pos 0 }

whole_price-IsNumber : (k : ℕ) → k < 20000 → IsNumber (whole_price.print_price k)
whole_price-IsNumber k h = IsDigits-IsNumber _ (to_string-IsDigits (100 + k / 100))

next_request-Understood_example :
    Understood whole_price (next_request whole_price default_scenario (seed 3)).0
next_request-Understood_example =
    next_request-Understood whole_price default_scenario (seed 3) whole_price-IsNumber

next_request-share_example :
    (next_request whole_price (weights 20 25 25 20 10) (seed 3)).0.header.message_type
    ≡ get_or (table 20 25 25 20 10) (next_rand (seed 3) % 100) 0
next_request-share_example =
    next_request-share whole_price 20 25 25 20 10 (seed 3) (omega arith) (omega arith)

-- A client that connects, sends a request, and loses the connection.
abbrev lost : List Event
lost =
    record { completion = success []; now = 0; stop_flag = false }
    ∷ record { completion = success []; now = 10; stop_flag = false }
    ∷ record { completion = success []; now = 20; stop_flag = false }
    ∷ record { completion = error; now = 30; stop_flag = false }
    ∷ []

run-IsBalanced_example :
    IsBalanced
      (run little_endian whole_price lost (start (new_client default_scenario 3), new_metrics))
run-IsBalanced_example = run-IsBalanced little_endian whole_price lost default_scenario 3

-- Hundredths in place of floating-point numbers.
abbrev pub hundredths : Doubles
hundredths = record {
  Double = ℕ;
  decimal = λ m k. m;
  of_int = λ n. n;
  is_positive = λ x. ltb 0 x;
  add = λ x y. x + y;
  mul = λ x y. x * y;
  div = λ x y. x / y;
  to_index = λ x. x / 100;
}

hundredths-IsIndexing : IsIndexing hundredths
hundredths-IsIndexing = record {
  in_range = λ n h. omega arith;
  half_first = λ n h. omega arith;
  ninety_first = λ n h. omega arith;
}

abbrev three_samples : MetricsCollector
three_samples = record { successes = 3; errors = 0; samples_us = 30 ∷ 10 ∷ 20 ∷ [] }

compute-IsOrdered_example :
    IsOrdered hundredths (30 ∷ 10 ∷ 20 ∷ []) (compute hundredths three_samples 1)
compute-IsOrdered_example =
    compute-IsOrdered hundredths hundredths-IsIndexing three_samples 1 (ground arith) (omega arith)

-- A pong of two bytes in three pieces, with the beginning of another message behind it.
abbrev pieces : Arrivals
pieces = (0 ∷ 0 ∷ 0 ∷ []) ∷ (2 ∷ 0x80 ∷ 6 ∷ 0 ∷ 0 ∷ b'{' ∷ []) ∷ (b'}' ∷ 0 ∷ 0 ∷ []) ∷ []

recv_msg-joined_example :
    (pieces' : Arrivals) × (recv_msg pieces ≡ (some (0x8006, codes "{}"), pieces'))
    × IsOpen pieces'
    × (joined pieces' ≡ 0 ∷ 0 ∷ [])
unfolding decode_header
recv_msg-joined_example =
    recv_msg-joined (0 ∷ 0 ∷ 0 ∷ 2 ∷ 0x80 ∷ 6 ∷ 0 ∷ 0 ∷ []) (codes "{}") (0 ∷ 0 ∷ []) 0x8006 pieces
      refl refl (omega arith) (ground arith) refl
