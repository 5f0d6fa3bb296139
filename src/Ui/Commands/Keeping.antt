-- ===== src/Ui/Commands/Keeping.antt =====
-- The calls of the worker thread that keep the connection as it is.
use hs_financial_services.Common.{
  ℕ, ◌≡◌, refl, ◌∙◌, inl, inr, Bool, true, false, Option, none, some, List, [], ◌∷◌, ◌++◌, ◌+◌,
  if◌then◌else◌, Bool-cases, All,
}
use hs_financial_services.Common.Int.{ℤ}
use hs_financial_services.Common.Text.{Bytes, codes}
use hs_financial_services.Ui.Socket.{send_msg}
use hs_financial_services.Ui.Worker.{
  Line, Desktop, utf8_to_wide, Worker, read_clock, log_lines, send, exchange, finish_exchange,
  round_trip,
}
use hs_financial_services.Ui.Commands.{
  banner, not_connected, request_failed, when_connected, request, request_command, msg_ping,
  msg_buy_order, msg_sell_order,
}
use hs_financial_services.Ui.Commands.Link.{
  login_refused, login_ping, login_end, authenticate, run_login, ping_failed, ping_text, pong_lines,
  next_ping, run_ping,
}
use hs_financial_services.Ui.Commands.Query.{run_sql_query}
use hs_financial_services.Ui.Commands.Trade.{run_order, run_buy_order, run_sell_order}
use hs_financial_services.Ui.Commands.Portfolio.{run_get_position}
use hs_financial_services.Ui.Commands.Candles.{run_get_price_history}
use hs_financial_services.Ui.Commands.Batch.{
  batch_refused, batch_commands, one_by_one, run_all, run_batch_test,
}

-- The connection is as it was: a socket or none, and marked the same.
pub record Keeps (w w' : Worker) : Type 0 where
  pub same_socket : w'.socket_open ≡ w.socket_open
  pub same_mark : w'.connected ≡ w.connected

Keeps-trans : (u v w : Worker) → Keeps u v → Keeps v w → Keeps u w
Keeps-trans u v w k k' = record {
  same_socket = k'.same_socket ∙ k.same_socket;
  same_mark = k'.same_mark ∙ k.same_mark;
}

Keeps-if : (b : Bool) (w x y : Worker) → Keeps w x → Keeps w y → Keeps w (if b then x else y)
Keeps-if true w x y k k' = k
Keeps-if false w x y k k' = k'

-- A call that keeps the connection, wherever it is made.
abbrev pub Keeping : (Worker → Worker) → Type 0
Keeping f = (w : Worker) → Keeps w (f w)

log_lines-Keeping : (lines : List Line) → Keeping (log_lines lines)
log_lines-Keeping lines w = record { same_socket = refl; same_mark = refl }

exchange-Keeps : (type : ℕ) (payload : Bytes) (w : Worker) → Keeps w (exchange type payload w).1
unfolding exchange send
exchange-Keeps type payload w = elim (Bool-cases (send_msg type payload w.accepts).0) [
  | inl e ↦ rw e (record { same_socket = refl; same_mark = refl })
  | inr e ↦ rw e (record { same_socket = refl; same_mark = refl })
]

finish_exchange-Keeps :
    (failed : List Line) (show : ℕ → ℕ → Bytes → List Line) (t0 : ℕ)
    (p : Option (ℕ × Bytes) × Worker)
    → Keeps p.1 (finish_exchange failed show t0 p)
finish_exchange-Keeps failed show t0 (none, w) = record { same_socket = refl; same_mark = refl }
finish_exchange-Keeps failed show t0 (some (type, payload), w) = record {
  same_socket = refl;
  same_mark = refl;
}

round_trip-Keeping :
    (type : ℕ) (payload : Bytes) (failed : List Line) (show : ℕ → ℕ → Bytes → List Line)
    → Keeping (round_trip type payload failed show)
unfolding round_trip
round_trip-Keeping type payload failed show w =
    let answer = exchange type payload (read_clock w).1 in
    let k = exchange-Keeps type payload (read_clock w).1 in
    Keeps-trans w answer.1 (finish_exchange failed show (read_clock w).0 answer)
      (record { same_socket = k.same_socket; same_mark = k.same_mark })
      (finish_exchange-Keeps failed show (read_clock w).0 answer)

when_connected-Keeping :
    (opening refused : List Line) (rest : Worker → Worker)
    → Keeping rest
    → Keeping (when_connected opening refused rest)
when_connected-Keeping opening refused rest h w =
    let started = log_lines opening w in
    Keeps-if w.connected w (rest started) (log_lines refused started)
      (Keeps-trans w started (rest started) (log_lines-Keeping opening w) (h started))
      (record { same_socket = refl; same_mark = refl })

request_command-Keeping :
    (opening announced : List Line) (type : ℕ) (text : Bytes) (show : ℕ → ℕ → Bytes → List Line)
    → Keeping (request_command opening announced type text show)
unfolding request_command request
request_command-Keeping opening announced type text show =
    when_connected-Keeping opening not_connected (request announced type text show) λ w.
      Keeps-trans w (log_lines announced w) (request announced type text show w)
        (log_lines-Keeping announced w)
        (round_trip-Keeping type text request_failed show (log_lines announced w))

login_end-Keeping : (d : Desktop) (answer : Option (ℕ × Bytes)) → Keeping (login_end d answer)
login_end-Keeping d none w = record { same_socket = refl; same_mark = refl }
login_end-Keeping d (some (type, payload)) w = record { same_socket = refl; same_mark = refl }

authenticate-Keeping : (d : Desktop) → Keeping (authenticate d)
unfolding authenticate
authenticate-Keeping d w =
    let started = log_lines (codes "Sending authentication ping to verify session..." ∷ []) w in
    let answer = exchange msg_ping login_ping started in
    Keeps-trans w answer.1 (login_end d answer.0 answer.1)
      (Keeps-trans w started answer.1 (log_lines-Keeping _ w)
        (exchange-Keeps msg_ping login_ping started))
      (login_end-Keeping d answer.0 answer.1)

next_ping-Keeping : (d : Desktop) → Keeping (next_ping d)
unfolding next_ping
next_ping-Keeping d w =
    let w' = record w { ping_seq = w.ping_seq + 1 } in
    let text = ping_text w'.ping_seq in
    let started = log_lines ((codes "Sending: " ++ utf8_to_wide d text) ∷ []) w' in
    Keeps-trans w started (next_ping d w) (record { same_socket = refl; same_mark = refl })
      (round_trip-Keeping msg_ping text ping_failed (pong_lines d) started)

one_by_one-Keeping :
    (commands : List (Worker → Worker)) → All Keeping commands → Keeping (one_by_one commands)
one_by_one-Keeping [] h w = record { same_socket = refl; same_mark = refl }
one_by_one-Keeping (command ∷ commands) h w =
    Keeps-trans w (command w) (one_by_one commands (command w)) (h.0 w)
      (one_by_one-Keeping commands h.1 (command w))

pub run_login-Keeping : (d : Desktop) → Keeping (run_login d)
unfolding run_login
run_login-Keeping d =
    when_connected-Keeping (banner (codes "  LOGIN")) login_refused (authenticate d)
      (authenticate-Keeping d)

pub run_ping-Keeping : (d : Desktop) → Keeping (run_ping d)
unfolding run_ping
run_ping-Keeping d =
    when_connected-Keeping (banner (codes "  PING")) not_connected (next_ping d)
      (next_ping-Keeping d)

pub run_sql_query-Keeping : (d : Desktop) (sql : Bytes) → Keeping (run_sql_query d sql)
unfolding run_sql_query
run_sql_query-Keeping d sql = search request_command-Keeping

run_order-Keeping :
    (d : Desktop) (type : ℕ) (title symbol : Bytes) (qty : ℤ) (price account : Bytes)
    → Keeping (run_order d type title symbol qty price account)
unfolding run_order
run_order-Keeping d type title symbol qty price account = search request_command-Keeping

pub run_buy_order-Keeping :
    (d : Desktop) (symbol : Bytes) (qty : ℤ) (price account : Bytes)
    → Keeping (run_buy_order d symbol qty price account)
unfolding run_buy_order
run_buy_order-Keeping d = run_order-Keeping d msg_buy_order (codes "BUY")

pub run_sell_order-Keeping :
    (d : Desktop) (symbol : Bytes) (qty : ℤ) (price account : Bytes)
    → Keeping (run_sell_order d symbol qty price account)
unfolding run_sell_order
run_sell_order-Keeping d = run_order-Keeping d msg_sell_order (codes "SELL")

pub run_get_position-Keeping :
    (d : Desktop) (account : Bytes) → Keeping (run_get_position d account)
unfolding run_get_position
run_get_position-Keeping d account = search request_command-Keeping

pub run_get_price_history-Keeping :
    (d : Desktop) (symbol : Bytes) (days : ℤ) → Keeping (run_get_price_history d symbol days)
unfolding run_get_price_history
run_get_price_history-Keeping d symbol days = search request_command-Keeping

batch_commands-Keeping : (d : Desktop) → All Keeping (batch_commands d)
batch_commands-Keeping d = (
  run_ping-Keeping d,
  (
    run_sql_query-Keeping d _,
    (
      run_sql_query-Keeping d _,
      (
        run_buy_order-Keeping d _ _ _ _,
        (
          run_buy_order-Keeping d _ _ _ _,
          (
            run_sell_order-Keeping d _ _ _ _,
            (
              run_sell_order-Keeping d _ _ _ _,
              (
                run_get_position-Keeping d _,
                (
                  run_get_position-Keeping d _,
                  (
                    run_get_price_history-Keeping d _ _,
                    (
                      run_get_price_history-Keeping d _ _,
                      (run_get_price_history-Keeping d _ _, tt),
                    ),
                  ),
                ),
              ),
            ),
          ),
        ),
      ),
    ),
  ),
)

pub run_batch_test-Keeping : (d : Desktop) → Keeping (run_batch_test d)
unfolding run_batch_test
run_batch_test-Keeping d = when_connected-Keeping _ batch_refused (run_all d) λ w.
    let started = log_lines (codes "Running all 12 service tests sequentially..." ∷ [] ∷ []) w in
    let ended = one_by_one (batch_commands d) started in
    let k = one_by_one-Keeping (batch_commands d) (batch_commands-Keeping d) started in
    record { same_socket = k.same_socket; same_mark = k.same_mark }
