-- ===== src/Ui/Commands.antt =====
-- The commands of the UI client that run on its worker thread (ui_client/src/MainDlg.cpp), line for
-- line as they log.
pub mod Link
pub mod Scan
pub mod Query
pub mod Trade
pub mod Portfolio
pub mod Entries
pub mod Positions
pub mod Candles
pub mod Batch
pub mod Table
pub mod Keeping
pub mod Connection
pub mod Served
pub mod Late
pub mod Rows
pub mod Days
pub mod Orders
use hs_financial_services.Common.{
  ℕ, ◌+◌, Bool, true, false, List, [], ◌∷◌, ◌++◌, ◌==◌, if◌then◌else◌,
}
use hs_financial_services.Common.Int.{ℤ, pos, negsuc}
use hs_financial_services.Common.Text.{Bytes, codes}
use hs_financial_services.Common.Decimal.{to_string}
use hs_financial_services.Ui.Worker.{Line, Desktop, utf8_to_wide, Worker, log_lines, round_trip}

abbrev pub msg_sql_query : ℕ
msg_sql_query = 0x0001

abbrev pub msg_buy_order : ℕ
msg_buy_order = 0x0002

abbrev pub msg_sell_order : ℕ
msg_sell_order = 0x0003

abbrev pub msg_get_pos : ℕ
msg_get_pos = 0x0004

abbrev pub msg_price_hist : ℕ
msg_price_hist = 0x0005

abbrev pub msg_ping : ℕ
msg_ping = 0x0006

abbrev pub resp_error : ℕ
resp_error = 0xFFFF

-- An `int` as a stream prints it.
abbrev pub print_int : ℤ → Bytes
print_int (pos n) = to_string n
print_int (negsuc n) = b'-' ∷ to_string (n + 1)

abbrev bar : Line
bar = codes "═══════════════════════════════════════════════════════════"

-- The lines that a command begins with.
abbrev pub banner : Line → List Line
banner title = [] ∷ bar ∷ title ∷ bar ∷ []

abbrev pub not_connected : List Line
not_connected = codes "✗  Not connected." ∷ [] ∷ []

abbrev pub request_failed : List Line
request_failed = codes "✗  Request failed (socket error)." ∷ [] ∷ []

abbrev pub server_error : Desktop → Bytes → List Line
server_error d payload = (codes "✗  Server error: " ++ utf8_to_wide d payload) ∷ [] ∷ []

-- A command that logs its banner and returns if there is no connection.
abbrev pub when_connected : List Line → List Line → (Worker → Worker) → Worker → Worker
when_connected opening refused rest w =
    let w' = log_lines opening w in if w.connected then rest w' else log_lines refused w'

-- A request that is announced, made, and whose answer is shown.
unfoldable pub request : List Line → ℕ → Bytes → (ℕ → ℕ → Bytes → List Line) → Worker → Worker
unfolding round_trip
request announced type text show w =
    round_trip type text request_failed show (log_lines announced w)

unfoldable pub request_command :
    List Line → List Line → ℕ → Bytes → (ℕ → ℕ → Bytes → List Line) → Worker → Worker
unfolding request
request_command opening announced type text show =
    when_connected opening not_connected (request announced type text show)
