-- ===== src/Ui/Dialog/Events.antt =====
-- The events of the dialog (ui_client/src/MainDlg.cpp): the message map, the queue of posted messages and
-- the worker threads beside it.
use hs_financial_services.Common.{
  ℕ, zero, suc, Bool, Option, List, [], ◌∷◌, ◌++◌, if◌then◌else◌, map,
}
use hs_financial_services.Common.Int.{ℤ}
use hs_financial_services.Ui.Worker.{Line, Desktop, Worker}
use hs_financial_services.Ui.Commands.Table.{run_number}
use hs_financial_services.Ui.Dialog.{
  Post, Thread, Dialog, Attempt, on_bn_clicked_connect, on_bn_clicked_disconnect, on_bn_clicked_run,
  on_bn_clicked_clear, LocalTime, on_log_line, on_worker_done, on_cancel, log_line, worker_done,
  starting, posting,
}

-- The posts of a thread whose command has logged these lines.
abbrev pub posts_of : List Line → List Post
posts_of lines = map log_line lines ++ worker_done ∷ []

-- A thread runs its command, or posts its next message, or ends.
unfoldable pub advance_thread : Desktop → Thread → Worker → List Thread × List Post × Worker
unfolding run_number
advance_thread d (starting n) w =
    let w' = run_number d n (record w { log = [] }) in
    (posting (posts_of w'.log) ∷ [], [], record w' { log = [] })
advance_thread d (posting []) w = ([], [], w)
advance_thread d (posting (p ∷ ps)) w = (posting ps ∷ [], p ∷ [], w)

-- The thread at a position moves.
unfoldable pub advance : Desktop → ℕ → List Thread → Worker → List Thread × List Post × Worker
unfolding advance_thread
advance d i [] w = ([], [], w)
advance d zero (t ∷ ts) w = let (left, posts, w') = advance_thread d t w in (left ++ ts, posts, w')
advance d (suc i) (t ∷ ts) w = let (ts', posts, w') = advance d i ts w in (t ∷ ts', posts, w')

abbrev pub moved : List Thread × List Post × Worker → Dialog → Dialog
moved (ts, posts, w) s = record s { threads = ts; queue = s.queue ++ posts; worker = w }

-- The oldest message is taken from the queue and handled.
unfoldable pub take_message : LocalTime → List Post → Dialog → Dialog
unfolding on_log_line on_worker_done
take_message now [] s = s
take_message now (log_line text ∷ queue) s = on_log_line now text (record s { queue = queue })
take_message now (worker_done ∷ queue) s = on_worker_done (record s { queue = queue })

-- What can happen: the fields and the list are edited, a button is clicked, the thread at a position
-- moves, a message is handled, or the dialog is closed.
pub data Event : Type 0 where
  edited : Line → Line → Event
  chose : Option ℕ → Event
  clicked_connect : Option (List Attempt) → ℤ → Event
  clicked_disconnect clicked_run clicked_clear : Event
  thread_moves : ℕ → Event
  message : LocalTime → Event
  cancelled : Event

abbrev pub when : Bool → (Dialog → Dialog) → Dialog → Dialog
when enabled f s = if enabled then f s else s

unfoldable pub handle_open : Desktop → Event → Dialog → Dialog
unfolding on_bn_clicked_connect on_bn_clicked_disconnect on_bn_clicked_run on_bn_clicked_clear
    on_cancel
handle_open d (edited host port) s = record s { host = host; port = port }
handle_open d (chose i) s = record s { selected = i }
handle_open d (clicked_connect resolved error) s =
    when s.connect_enabled (on_bn_clicked_connect d resolved error) s
handle_open d clicked_disconnect s = when s.disconnect_enabled on_bn_clicked_disconnect s
handle_open d clicked_run s = when s.run_enabled on_bn_clicked_run s
handle_open d clicked_clear s = on_bn_clicked_clear s
handle_open d (thread_moves i) s = moved (advance d i s.threads s.worker) s
handle_open d (message now) s = take_message now s.queue s
handle_open d cancelled s = on_cancel s

-- Nothing is modelled of what happens once the dialog is closed.
unfoldable pub handle : Desktop → Event → Dialog → Dialog
unfolding handle_open
handle d e s = if s.closed then s else handle_open d e s

unfoldable pub run_events : Desktop → List Event → Dialog → Dialog
unfolding handle
run_events d [] s = s
run_events d (e ∷ es) s = run_events d es (handle d e s)
