-- ===== src/Ui/Dialog.antt =====
-- CMainDlg (ui_client/src/MainDlg.h, ui_client/src/MainDlg.cpp): the dialog's state, the handlers of
-- its buttons and of the messages that the worker thread posts. Windows delivers one event at a time
-- to the handlers, and no click on a disabled button; a worker thread runs beside them.
pub mod Events
pub mod Threads
pub mod Consistent
pub mod Connects
pub mod Buttons
pub mod Drain
use hs_financial_services.Common.{
  ℕ, zero, suc, ◌+◌, ◌-◌, ◌%◌, ◌^◌, Bool, true, false, Option, none, some, List, [], ◌∷◌, ◌++◌,
  ◌==◌, ltb, if◌then◌else◌, map, get_elem?,
}
use hs_financial_services.Common.Int.{ℤ, pos, negsuc}
use hs_financial_services.Common.Text.{codes}
use hs_financial_services.Common.Decimal.{to_string}
use hs_financial_services.Ui.Socket.{Accepts, Arrivals}
use hs_financial_services.Ui.Worker.{Line, Desktop, Worker, do_disconnect}
use hs_financial_services.Ui.Commands.{print_int}
use hs_financial_services.Ui.Commands.Table.{CommandEntry, commands, run_number}

-- `WM_LOG_LINE` with its line, and `WM_WORKER_DONE`
pub data Post : Type 0 where
  log_line : Line → Post
  worker_done : Post

-- A worker thread that has not begun its command, or what it has still to post.
pub data Thread : Type 0 where
  starting : ℕ → Thread
  posting : List Post → Thread

-- `worker` holds `m_socket` and `m_connected`; what it logs is moved to the posts of its thread.
-- `threads` are those that were launched and have not ended, the newest first; `queue` holds the
-- messages that were posted, the oldest first.
pub record Dialog : Type 0 where
  pub host : Line
  pub port : Line
  pub selected : Option ℕ
  pub status : Line
  pub output : Line
  pub connect_enabled : Bool
  pub disconnect_enabled : Bool
  pub run_enabled : Bool
  pub worker : Worker
  pub threads : List Thread
  pub queue : List Post
  pub closed : Bool

-- `Log` on the UI thread, for the lines one after the other.
abbrev pub post_lines : List Line → Dialog → Dialog
post_lines lines s = record s { queue = s.queue ++ map log_line lines }

abbrev disconnected : Line
disconnected = codes "●  Disconnected"

-- The default of the dialog's template has every button enabled; `worker` is as before a connection.
unfoldable pub on_init_dialog : Worker → Dialog
on_init_dialog worker = record {
  host = codes "127.0.0.1";
  port = codes "9000";
  selected = some 0;
  status = disconnected;
  output = [];
  connect_enabled = true;
  disconnect_enabled = false;
  run_enabled = false;
  worker = record worker { socket_open = false; connected = false };
  threads = [];
  queue = map log_line (
      codes "╔══════════════════════════════════════════════════════════╗"
      ∷ codes "║   HS Financial Services  –  Client Test Application     ║"
      ∷ codes "║   Version 1.0   |   High-Performance Banking Server      ║"
      ∷ codes "╚══════════════════════════════════════════════════════════╝"
      ∷ []
      ∷ codes "Available services: SQL Query, Buy/Sell Orders, Get Position,"
      ∷ codes "                    Price History, Ping"
      ∷ []
      ∷ codes "Enter the server address and port, then press [Connect]."
      ∷ codes "Select a command from the drop-down and press [Run]."
      ∷ []
      ∷ []);
  closed = false;
}

-- An address that the name resolved to: no socket for it, no connection, or a connection on which
-- sends and receives go as given.
pub data Attempt : Type 0 where
  no_socket refused : Attempt
  connects : Accepts → Arrivals → Attempt

-- The loop of `DoConnect` over the addresses.
abbrev pub try_connect : List Attempt → Worker → Bool × Worker
try_connect [] w = (false, w)
try_connect (no_socket ∷ attempts) w = try_connect attempts w
try_connect (refused ∷ attempts) w = try_connect attempts w
try_connect (connects accepts arrivals ∷ attempts) w = (
  true,
  record w { socket_open = true; connected = true; accepts = accepts; arrivals = arrivals },
)

-- `DoConnect`, for the result of `getaddrinfo`
unfoldable pub do_connect : Option (List Attempt) → Worker → Bool × Worker
do_connect none w = (false, w)
do_connect (some attempts) w = try_connect attempts w

-- A number cast to 16 bits.
abbrev pub to_u16 : ℤ → ℕ
to_u16 (pos n) = n % 2 ^ 16
to_u16 (negsuc n) = 2 ^ 16 - 1 - n % 2 ^ 16

abbrev pub asked_port : ℤ → ℕ
asked_port n = if to_u16 n == 0 then 9000 else to_u16 n

abbrev pub connecting : Desktop → Dialog → Line
connecting d s =
    codes "Connecting to "
    ++ (s.host ++ (b':' ∷ (to_string (asked_port (d.parse_int s.port)) ++ codes "...")))

abbrev pub established : List Line
established = codes "TCP connection established." ∷ [] ∷ []

abbrev pub not_established : ℤ → List Line
not_established error = (codes "Connection failed.  WSAError=" ++ print_int error) ∷ [] ∷ []

-- The two ends of `OnBnClickedConnect`; `error` is what `WSAGetLastError` returns.
abbrev pub end_connect : ℤ → Bool × Worker → Dialog → Dialog
end_connect error (true, w) s = post_lines established (record s {
  worker = w;
  status = codes "●  Connected";
  connect_enabled = false;
  disconnect_enabled = true;
  run_enabled = true;
})
end_connect error (false, w) s = post_lines (not_established error) (record s { worker = w })

-- With no host a message box is shown and nothing else is done.
unfoldable pub connect_to : Line → Desktop → Option (List Attempt) → ℤ → Dialog → Dialog
unfolding do_connect
connect_to [] d resolved error s = s
connect_to (c ∷ cs) d resolved error s =
    end_connect error (do_connect resolved s.worker) (post_lines ([] ∷ connecting d s ∷ []) s)

unfoldable pub on_bn_clicked_connect : Desktop → Option (List Attempt) → ℤ → Dialog → Dialog
unfolding connect_to
on_bn_clicked_connect d resolved error s = connect_to s.host d resolved error s

-- The UI of a dialog with no connection, as two handlers set it.
abbrev pub show_disconnected : Dialog → Dialog
show_disconnected s = record s {
  status = disconnected;
  connect_enabled = true;
  disconnect_enabled = false;
  run_enabled = false;
}

abbrev pub parted : List Line
parted = codes "Disconnected from server." ∷ [] ∷ []

unfoldable pub on_bn_clicked_disconnect : Dialog → Dialog
unfolding do_disconnect
on_bn_clicked_disconnect s =
    post_lines parted (show_disconnected (record s { worker = do_disconnect s.worker }))

-- A command that is not a separator is given to a new thread; one that still runs is detached.
abbrev pub launch : ℤ → Dialog → Dialog
launch (negsuc n) s = s
launch (pos n) s = record s {
  run_enabled = false;
  disconnect_enabled = false;
  threads = starting n ∷ s.threads;
}

abbrev pub launch_entry : Option CommandEntry → Dialog → Dialog
launch_entry none s = s
launch_entry (some entry) s = launch entry.id s

-- With no selection nothing is done.
abbrev pub run_selected : Option ℕ → Dialog → Dialog
run_selected none s = s
run_selected (some sel) s = launch_entry (get_elem? commands sel) s

unfoldable pub on_bn_clicked_run : Dialog → Dialog
on_bn_clicked_run s = run_selected s.selected s

unfoldable pub on_bn_clicked_clear : Dialog → Dialog
on_bn_clicked_clear s = record s { output = [] }

-- An hour, a minute and a second.
abbrev pub LocalTime : Type 0
LocalTime = ℕ × ℕ × ℕ

abbrev two_digits : ℕ → Line
two_digits n = if ltb n 10 then b'0' ∷ to_string n else to_string n

-- `Timestamp`
abbrev pub timestamp : LocalTime → Line
timestamp (h, m, sec) =
    b'[' ∷ (two_digits h ++ (b':' ∷ (two_digits m ++ (b':' ∷ (two_digits sec ++ codes "]")))))

-- The text up to a zero, as a format reads it.
abbrev pub c_str : Line → Line
c_str [] = []
c_str (c ∷ s) = if c == 0 then [] else c ∷ c_str s

-- What a line adds to the output.
abbrev pub stamped : LocalTime → Line → Line
stamped now text = timestamp now ++ (codes "  " ++ (c_str text ++ 13 ∷ 10 ∷ []))

unfoldable pub on_log_line : LocalTime → Line → Dialog → Dialog
on_log_line now text s = record s { output = s.output ++ stamped now text }

unfoldable pub on_worker_done : Dialog → Dialog
on_worker_done s =
    if s.worker.connected
    then record s { run_enabled = true; disconnect_enabled = true }
    else show_disconnected s

unfoldable pub on_cancel : Dialog → Dialog
unfolding do_disconnect
on_cancel s = record s { worker = do_disconnect s.worker; closed = true }
