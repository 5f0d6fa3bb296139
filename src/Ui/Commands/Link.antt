-- ===== src/Ui/Commands/Link.antt =====
-- RunLogin, RunLogout and RunPing (ui_client/src/MainDlg.cpp).
use hs_financial_services.Common.{ℕ, ◌+◌, ◌%◌, ◌^◌, Option, none, some, List, [], ◌∷◌, ◌++◌}
use hs_financial_services.Common.Text.{Bytes, codes}
use hs_financial_services.Common.Decimal.{to_string}
use hs_financial_services.Ui.Worker.{
  Line, Desktop, utf8_to_wide, Worker, log_lines, do_disconnect, send, exchange, round_trip,
}
use hs_financial_services.Ui.Commands.{msg_ping, banner, not_connected, when_connected}

abbrev pub login_refused : List Line
login_refused =
    codes "Not connected.  Please use the [Connect] button first, then re-run Login." ∷ [] ∷ []

abbrev pub login_failed : List Line
login_failed = codes "✗  Login failed: server did not respond to ping." ∷ [] ∷ []

-- What a login logs behind the server's response; the type of the response is not looked at.
abbrev pub login_lines : Desktop → ℕ → Bytes → List Line
login_lines d tick_count payload =
    (codes "Server responded: " ++ utf8_to_wide d payload)
    ∷ []
    ∷ codes "✓  Login successful.  Authenticated as: demo_user@hs-bank.com"
    ∷ (codes "   Session token  : SESS-" ++ to_string (tick_count % 2 ^ 24))
    ∷ codes "   Account access : ACC-001, ACC-002"
    ∷ codes "   Permissions    : TRADING, REPORTING, MARKET_DATA"
    ∷ []
    ∷ []

abbrev pub login_ping : Bytes
login_ping = codes "{\"seq\":1,\"client\":\"HS-UI-Client-v1.0\"}"

abbrev pub login_end : Desktop → Option (ℕ × Bytes) → Worker → Worker
login_end d none w = log_lines login_failed w
login_end d (some (type, payload)) w = log_lines (login_lines d w.tick_count payload) w

-- A login is a ping, with no reading of the clock.
unfoldable pub authenticate : Desktop → Worker → Worker
unfolding exchange
authenticate d w =
    let w' = log_lines (codes "Sending authentication ping to verify session..." ∷ []) w in
    let (answer, w'') = exchange msg_ping login_ping w' in login_end d answer w''

unfoldable pub run_login : Desktop → Worker → Worker
unfolding authenticate
run_login d = when_connected (banner (codes "  LOGIN")) login_refused (authenticate d)

abbrev pub logout_refused : List Line
logout_refused = codes "Not currently connected to the server." ∷ [] ∷ []

abbrev pub logout_ping : Bytes
logout_ping = codes "{\"seq\":0,\"reason\":\"user_logout\"}"

abbrev pub logout_lines : List Line
logout_lines =
    []
    ∷ codes "✓  Logout successful.  Goodbye, demo_user@hs-bank.com"
    ∷ codes "   Session closed.  All pending orders retained on the server."
    ∷ []
    ∷ []

-- The ping of a logout may fail, and its response is not received: then, behind a wait of 50 ms that is
-- left out, the socket is closed.
unfoldable pub say_goodbye : Worker → Worker
unfolding send do_disconnect
say_goodbye w =
    let w' = log_lines (codes "Sending logout notification..." ∷ []) w in
    let (done, w'') = send msg_ping logout_ping w' in log_lines logout_lines (do_disconnect w'')

unfoldable pub run_logout : Worker → Worker
unfolding say_goodbye
run_logout = when_connected (banner (codes "  LOGOUT")) logout_refused say_goodbye

abbrev pub ping_failed : List Line
ping_failed = codes "✗  Ping failed (socket error)." ∷ [] ∷ []

abbrev pub ping_text : ℕ → Bytes
ping_text seq = codes "{\"seq\":" ++ (to_string seq ++ codes "}")

abbrev pub pong_lines : Desktop → ℕ → ℕ → Bytes → List Line
pong_lines d elapsed type payload =
    (codes "Response: " ++ utf8_to_wide d payload)
    ∷ (codes "✓  Pong received in " ++ (d.print_ms elapsed ++ codes " ms"))
    ∷ []
    ∷ []

-- `++s_seq`, and a ping with that number; the number is not compared with the one that comes back.
unfoldable pub next_ping : Desktop → Worker → Worker
unfolding round_trip
next_ping d w =
    let w' = record w { ping_seq = w.ping_seq + 1 } in
    let text = ping_text w'.ping_seq in
    round_trip msg_ping text ping_failed (pong_lines d)
      (log_lines ((codes "Sending: " ++ utf8_to_wide d text) ∷ []) w')

unfoldable pub run_ping : Desktop → Worker → Worker
unfolding next_ping
run_ping d = when_connected (banner (codes "  PING")) not_connected (next_ping d)
