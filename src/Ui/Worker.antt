-- ===== src/Ui/Worker.antt =====
-- What the commands of the UI client work with (ui_client/src/MainDlg.h, ui_client/src/MainDlg.cpp):
-- the connection, the log, and the exchange of a request and its response.
pub mod Exchange
use hs_financial_services.Common.{
  ℕ, ◌+◌, ◌-◌, Bool, true, false, Option, none, some, List, [], ◌∷◌, ◌++◌, if◌then◌else◌,
}
use hs_financial_services.Common.Int.{ℤ}
use hs_financial_services.Common.Text.{Bytes}
use hs_financial_services.Ui.Socket.{Accepts, Arrivals, send_msg, recv_msg}

-- A line of the log: the units of a wide text.
abbrev pub Line : Type 0
Line = List ℕ

-- What the commands call of Windows and of the C++ library: the conversion of UTF-8 text (`Utf8ToWide`
-- on a text that is not empty), what a stream prints for microseconds divided by 1000.0, and `_ttoi`.
pub record Desktop : Type 0 where
  pub multi_byte_to_wide : Bytes → Line
  pub print_ms : ℕ → Line
  pub parse_int : Line → ℤ

-- `connected` and `socket_open` are `m_connected` and whether `m_socket` is a socket. `sent` is what
-- the peer was sent, `log` the lines that were posted, `clock` the readings of the steady clock to
-- come, and `tick_count` what `GetTickCount64` returns.
pub record Worker : Type 0 where
  pub socket_open : Bool
  pub connected : Bool
  pub accepts : Accepts
  pub arrivals : Arrivals
  pub sent : Bytes
  pub log : List Line
  pub ping_seq : ℕ
  pub clock : List ℕ
  pub tick_count : ℕ

-- `Utf8ToWide`
abbrev pub utf8_to_wide : Desktop → Bytes → Line
utf8_to_wide d [] = []
utf8_to_wide d (c ∷ s) = d.multi_byte_to_wide (c ∷ s)

-- The calls of `Log` one after the other; each posts its line.
abbrev pub log_lines : List Line → Worker → Worker
log_lines lines w = record w { log = w.log ++ lines }

abbrev reading : List ℕ → ℕ
reading [] = 0
reading (t ∷ ts) = t

abbrev later : List ℕ → List ℕ
later [] = []
later (t ∷ ts) = ts

-- `steady_clock::now()`
abbrev pub read_clock : Worker → ℕ × Worker
read_clock w = (reading w.clock, record w { clock = later w.clock })

-- `DoDisconnect`
unfoldable pub do_disconnect : Worker → Worker
do_disconnect w = if w.socket_open then record w { socket_open = false; connected = false } else w

-- `SendMsg` on the connection
unfoldable pub send : ℕ → Bytes → Worker → Bool × Worker
unfolding send_msg
send type payload w =
    let (done, bytes, left) = send_msg type payload w.accepts in
    (done, record w { accepts = left; sent = w.sent ++ bytes })

-- `!SendMsg(...) || !RecvMsg(...)`: nothing is received if the request cannot be sent.
unfoldable pub exchange : ℕ → Bytes → Worker → Option (ℕ × Bytes) × Worker
unfolding send recv_msg
exchange type payload w =
    let (done, w') = send type payload w in
    let (answer, left) = recv_msg w'.arrivals in
    if done then (answer, record w' { arrivals = left }) else (none, w')

-- The part that the commands share: read the clock, exchange, and log what `show` makes of the
-- microseconds that it took, the type and the payload, or the lines of the failure.
abbrev pub finish_exchange :
    List Line → (ℕ → ℕ → Bytes → List Line) → ℕ → Option (ℕ × Bytes) × Worker → Worker
finish_exchange failed show t0 (none, w) = log_lines failed w
finish_exchange failed show t0 (some (type, payload), w) =
    let (t1, w') = read_clock w in log_lines (show (t1 - t0) type payload) w'

unfoldable pub round_trip : ℕ → Bytes → List Line → (ℕ → ℕ → Bytes → List Line) → Worker → Worker
unfolding exchange
round_trip type payload failed show w =
    let (t0, w') = read_clock w in finish_exchange failed show t0 (exchange type payload w')
