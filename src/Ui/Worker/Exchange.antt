-- ===== src/Ui/Worker/Exchange.antt =====
-- An exchange that succeeds, and one that fails.
use hs_financial_services.Common.{ℕ, ◌-◌, ◌≡◌, ap, true, Option, some, List, ◌++◌}
use hs_financial_services.Common.Text.{Bytes}
use hs_financial_services.Ui.Socket.{Arrivals, send_msg, recv_msg}
use hs_financial_services.Ui.Worker.{
  Line, Worker, read_clock, log_lines, send, exchange, finish_exchange, round_trip,
}

-- The microseconds between the two readings of the clock.
abbrev pub elapsed : Worker → ℕ
elapsed w = (read_clock (read_clock w).1).0 - (read_clock w).0

-- The worker behind an exchange with an answer, before it is logged.
abbrev pub exchanged : ℕ → Bytes → Arrivals → Worker → Worker
exchanged type payload left w = record w {
  accepts = (send_msg type payload w.accepts).2;
  sent = w.sent ++ (send_msg type payload w.accepts).1;
  arrivals = left;
  clock = (read_clock (read_clock w).1).1.clock;
}

pub exchange-answered :
    (type : ℕ) (payload : Bytes) (w : Worker) (answer : Option (ℕ × Bytes)) (left : Arrivals)
    → (send_msg type payload w.accepts).0 ≡ true
    → recv_msg w.arrivals ≡ (answer, left)
    → exchange type payload w ≡ (
      answer,
      record w {
        accepts = (send_msg type payload w.accepts).2;
        sent = w.sent ++ (send_msg type payload w.accepts).1;
        arrivals = left;
      },
    )
unfolding exchange send
exchange-answered type payload w answer left sent got = rw (sent) (
    ap
      (λ (q : Option (ℕ × Bytes) × Arrivals). (
        q.0,
        record w {
          accepts = (send_msg type payload w.accepts).2;
          sent = w.sent ++ (send_msg type payload w.accepts).1;
          arrivals = q.1;
        },
      ))
      got)

module _ (type : ℕ) (payload : Bytes) (failed : List Line) (show : ℕ → ℕ → Bytes → List Line)
    (w : Worker) (left : Arrivals) (sent : (send_msg type payload w.accepts).0 ≡ true) where
  -- The answer is shown with the time that it took.
  pub round_trip-answered :
      (resp_type : ℕ) (resp_payload : Bytes)
      → recv_msg w.arrivals ≡ (some (resp_type, resp_payload), left)
      → round_trip type payload failed show w
        ≡ log_lines (show (elapsed w) resp_type resp_payload) (exchanged type payload left w)
  unfolding round_trip
  round_trip-answered resp_type resp_payload got =
      ap (finish_exchange failed show (read_clock w).0) (
        exchange-answered type payload (read_clock w).1 (some (resp_type, resp_payload)) left sent
          got)
