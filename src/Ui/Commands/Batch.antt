-- ===== src/Ui/Commands/Batch.antt =====
-- RunBatchTest (ui_client/src/MainDlg.cpp).
use hs_financial_services.Common.{List, [], ◌∷◌}
use hs_financial_services.Common.Int.{pos}
use hs_financial_services.Common.Text.{codes}
use hs_financial_services.Ui.Worker.{Line, Desktop, Worker, log_lines}
use hs_financial_services.Ui.Commands.{when_connected}
use hs_financial_services.Ui.Commands.Link.{run_ping}
use hs_financial_services.Ui.Commands.Query.{run_sql_query}
use hs_financial_services.Ui.Commands.Trade.{run_buy_order, run_sell_order}
use hs_financial_services.Ui.Commands.Portfolio.{run_get_position}
use hs_financial_services.Ui.Commands.Candles.{run_get_price_history}

abbrev pub box_top : Line
box_top = codes "╔══════════════════════════════════════════════════════════╗"

abbrev pub box_bottom : Line
box_bottom = codes "╚══════════════════════════════════════════════════════════╝"

abbrev pub batch_refused : List Line
batch_refused = codes "✗  Not connected to the server.  Please connect first." ∷ [] ∷ []

-- The twelve commands; the waits of 100 ms between them are left out.
abbrev pub batch_commands : Desktop → List (Worker → Worker)
batch_commands d =
    run_ping d
    ∷ run_sql_query d (codes "SELECT symbol, price FROM quotes WHERE symbol='AAPL'")
    ∷ run_sql_query d (codes "SELECT symbol, price, volume FROM quotes ORDER BY volume DESC")
    ∷ run_buy_order d (codes "AAPL") (pos 100) (codes "182.5") (codes "ACC-001")
    ∷ run_buy_order d (codes "MSFT") (pos 50) (codes "310.1") (codes "ACC-001")
    ∷ run_sell_order d (codes "AAPL") (pos 75) (codes "183") (codes "ACC-002")
    ∷ run_sell_order d (codes "TSLA") (pos 200) (codes "245.5") (codes "ACC-002")
    ∷ run_get_position d (codes "ACC-001")
    ∷ run_get_position d (codes "ACC-002")
    ∷ run_get_price_history d (codes "AAPL") (pos 30)
    ∷ run_get_price_history d (codes "MSFT") (pos 7)
    ∷ run_get_price_history d (codes "GOOGL") (pos 14)
    ∷ []

abbrev pub one_by_one : List (Worker → Worker) → Worker → Worker
one_by_one [] w = w
one_by_one (command ∷ commands) w = one_by_one commands (command w)

-- Each command tests the connection for itself; the end is logged whatever they did.
abbrev pub run_all : Desktop → Worker → Worker
run_all d w =
    let w' = log_lines (codes "Running all 12 service tests sequentially..." ∷ [] ∷ []) w in
    log_lines
      ([]
        ∷ box_top
        ∷ codes "║               BATCH TEST COMPLETE                       ║"
        ∷ box_bottom
        ∷ []
        ∷ [])
      (one_by_one (batch_commands d) w')

unfoldable pub run_batch_test : Desktop → Worker → Worker
run_batch_test d =
    when_connected
      ([]
        ∷ box_top
        ∷ codes "║               BATCH TEST  –  All Services               ║"
        ∷ box_bottom
        ∷ [])
      batch_refused (run_all d)
