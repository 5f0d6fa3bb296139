-- ===== src/Tests/Desktops.antt =====
-- The dialog of the UI client, its commands and their requests, on concrete runs.
use hs_financial_services.Common.{
  ◌≡◌, ◌≤◌, refl, true, false, ◌&&◌, some, List, [], ◌∷◌, ◌++◌, length, All, arith, sym, subst,
}
use hs_financial_services.Common.Int.{pos}
use hs_financial_services.Common.Text.{Bytes, codes}
use hs_financial_services.Common.Decimal.{to_string}
use hs_financial_services.Json.{extract_string, json_escape}
use hs_financial_services.Protocol.{make, sql_query, encode_header}
use hs_financial_services.Protocol.Endian.{network_host}
use hs_financial_services.Router.{dispatch}
use hs_financial_services.Services.Sql.{handle_sql_query}
use hs_financial_services.Services.Catalog.{register_services}
use hs_financial_services.Services.Catalog.Table.{server_router}
use hs_financial_services.Ui.Socket.{Arrivals, send_msg, max_payload}
use hs_financial_services.Ui.Socket.Chunks.{IsOpen, joined}
use hs_financial_services.Ui.Worker.{log_lines}
use hs_financial_services.Ui.Commands.{banner}
use hs_financial_services.Ui.Commands.Table.{logout, run_cmd}
use hs_financial_services.Ui.Commands.Connection.{stays_open, IsLinked, run_cmd-connected}
use hs_financial_services.Ui.Commands.Served.{IsServed, asked}
use hs_financial_services.Ui.Commands.Query.{query_text, query_announced, run_sql_query}
use hs_financial_services.Ui.Commands.Scan.{count_found}
use hs_financial_services.Ui.Commands.Scan.Count.{occurrences, count_found-occurrences}
use hs_financial_services.Ui.Commands.Rows.{
  answer, sql_message, three_rows, run_sql_query-three_rows,
}
use hs_financial_services.Ui.Dialog.{Dialog, on_init_dialog, connects}
use hs_financial_services.Ui.Dialog.Events.{
  Event, chose, clicked_connect, clicked_run, thread_moves, message, advance, take_message,
  cancelled, run_events,
}
use hs_financial_services.Ui.Dialog.Threads.{busy}
use hs_financial_services.Ui.Dialog.Consistent.{IsIdle, IsConsistent}
use hs_financial_services.Ui.Dialog.Buttons.{run_events-IsConsistent}
use hs_financial_services.Ui.Dialog.Drain.{IsProgress, shown, to_come, run_events-settles}
use hs_financial_services.Tests.{whole_numbers, at_start, plain_text, worker_with}

count_found-occurrences_example :
    count_found (codes "aa") (codes "baaa") ≡ occurrences (codes "aa") (codes "baaa")
count_found-occurrences_example = count_found-occurrences b'a' (codes "a") (codes "baaa")

run_cmd-connected_example :
    ((run_cmd plain_text logout (worker_with [])).connected ≡ (true && stays_open logout))
    × IsLinked (run_cmd plain_text logout (worker_with []))
run_cmd-connected_example = run_cmd-connected plain_text logout (worker_with []) refl

-- A query for one symbol.
abbrev query : Bytes
query = codes "SELECT 1"

abbrev answer_json : Bytes
answer_json =
    codes
      "{\"rows\":[{\"symbol\":\"AAPL\",\"price\":182.50,\"volume\":52000000},{\"symbol\":\"MSFT\",\"price\":310.10,\"volume\":28000000},{\"symbol\":\"GOOGL\",\"price\":140.75,\"volume\":18000000}],\"affected\":0,\"query\":\"SELECT 1\"}"

query_response :
    (dispatch (server_router whole_numbers) (sql_message query) at_start).0
    ≡ make 0x8001 answer_json 0
unfolding dispatch make register_services handle_sql_query extract_string json_escape
query_response = refl

-- The answer in one piece behind its header.
abbrev query_arrivals : Arrivals
query_arrivals = (0 ∷ 0 ∷ 0 ∷ 196 ∷ 0x80 ∷ 1 ∷ 0 ∷ 0 ∷ []) ∷ answer_json ∷ []

query_arrives :
    joined query_arrivals
    ≡ encode_header network_host
        (dispatch (server_router whole_numbers) (sql_message query) at_start).0.header
      ++ ((dispatch (server_router whole_numbers) (sql_message query) at_start).0.payload ++ [])
unfolding encode_header make
query_arrives = rw query_response refl

query_fits :
    length (dispatch (server_router whole_numbers) (sql_message query) at_start).0.payload
    ≤ max_payload
unfolding make
query_fits = subst (λ m. length m.payload ≤ max_payload) (sym query_response) (omega arith)

query-IsServed :
    IsServed sql_query
      (query_text query)
      (dispatch (server_router whole_numbers) (sql_message query) at_start).0
      []
      (worker_with query_arrivals)
unfolding send_msg
query-IsServed = record {
  connected = refl;
  sent = refl;
  fits = query_fits;
  is_open = ground arith;
  arrived = query_arrives;
}

run_sql_query-three_rows_example :
    (left : Arrivals) × (run_sql_query plain_text query (worker_with query_arrivals)
      ≡ log_lines (three_rows plain_text 250 (answer query)) (
          asked
            (banner (codes "  SQL QUERY"))
            (query_announced plain_text query)
            sql_query
            (query_text query)
            left
            (worker_with query_arrivals)))
    × IsOpen left
    × (joined left ≡ [])
run_sql_query-three_rows_example =
    run_sql_query-three_rows plain_text whole_numbers query at_start [] (worker_with query_arrivals)
      (ground arith) (ground arith) query-IsServed

-- A connection to a peer that closes at once, and a ping on it.
abbrev clicks : List Event
clicks =
    clicked_connect (some (connects (1000 ∷ 1000 ∷ []) [] ∷ [])) (pos 0)
    ∷ chose (some 3)
    ∷ clicked_run
    ∷ thread_moves 0
    ∷ message (9, 5, 30)
    ∷ []

abbrev clicked : Dialog
clicked = run_events plain_text clicks (on_init_dialog (worker_with []))

clicked_open : clicked.closed ≡ false
unfolding run_events on_init_dialog take_message advance to_string
clicked_open = refl

-- The dialog can be closed while a command runs.
closed_at_work :
    (run_events plain_text (cancelled ∷ []) clicked).closed ≡ true
    × busy (run_events plain_text (cancelled ∷ []) clicked) ≡ 1
unfolding run_events on_init_dialog take_message advance to_string
closed_at_work = (refl, refl)

run_events-IsConsistent_example : IsConsistent clicked
run_events-IsConsistent_example =
    run_events-IsConsistent plain_text clicks (worker_with []) clicked_open

run_events-settles_example :
    (more : List Event) × All (IsProgress (9, 5, 31)) more
    × ((run_events plain_text more clicked).threads ≡ [])
    × ((run_events plain_text more clicked).queue ≡ [])
    × IsIdle (run_events plain_text more clicked)
    × ((run_events plain_text more clicked).output
        ≡ clicked.output
          ++ shown (9, 5, 31) (clicked.queue ++ to_come plain_text clicked.threads clicked.worker))
run_events-settles_example =
    run_events-settles plain_text (9, 5, 31) clicks (worker_with []) clicked_open
