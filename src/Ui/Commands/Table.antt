-- ===== src/Ui/Commands/Table.antt =====
-- The commands of the combo box (`CommandEntry` and `CmdId` in ui_client/src/MainDlg.h, `kCommands` and
-- the switch of OnBnClickedRun in ui_client/src/MainDlg.cpp).
use hs_financial_services.Common.{ℕ, none, some, Option, List, [], ◌∷◌, get_elem?}
use hs_financial_services.Common.Int.{ℤ, pos, negsuc}
use hs_financial_services.Common.Text.{codes}
use hs_financial_services.Ui.Worker.{Line, Desktop, Worker}
use hs_financial_services.Ui.Commands.Link.{run_login, run_logout, run_ping}
use hs_financial_services.Ui.Commands.Query.{run_sql_query}
use hs_financial_services.Ui.Commands.Trade.{run_buy_order, run_sell_order}
use hs_financial_services.Ui.Commands.Portfolio.{run_get_position}
use hs_financial_services.Ui.Commands.Candles.{run_get_price_history}
use hs_financial_services.Ui.Commands.Batch.{run_batch_test}

pub record CommandEntry : Type 0 where
  pub label : Line
  pub id : ℤ

pub data CmdId : Type 0 where
  login logout ping sql_query_aapl sql_query_msft sql_query_all : CmdId
  buy_aapl buy_msft sell_aapl sell_tsla : CmdId
  get_position_acc001 get_position_acc002 : CmdId
  price_hist_aapl30 price_hist_msft7 price_hist_googl14 : CmdId
  batch_test : CmdId

-- The numbers that the enumerators have.
abbrev pub number : CmdId → ℕ
number login = 0
number logout = 1
number ping = 2
number sql_query_aapl = 3
number sql_query_msft = 4
number sql_query_all = 5
number buy_aapl = 6
number buy_msft = 7
number sell_aapl = 8
number sell_tsla = 9
number get_position_acc001 = 10
number get_position_acc002 = 11
number price_hist_aapl30 = 12
number price_hist_msft7 = 13
number price_hist_googl14 = 14
number batch_test = 15

abbrev entry : Line → CmdId → CommandEntry
entry label c = record { label = label; id = pos (number c) }

abbrev separator : CommandEntry
separator = record {
  label = codes "-----------------------------------------------------------";
  id = negsuc 0;
}

abbrev pub commands : List CommandEntry
commands =
    entry (codes "[1]  Login  –  Connect and authenticate") login
    ∷ entry (codes "[2]  Logout –  Disconnect from server") logout
    ∷ separator
    ∷ entry (codes "[3]  Ping server") ping
    ∷ separator
    ∷ entry (codes "[4]  SQL Query –  SELECT AAPL quotes") sql_query_aapl
    ∷ entry (codes "[5]  SQL Query –  SELECT MSFT quotes") sql_query_msft
    ∷ entry (codes "[6]  SQL Query –  SELECT all tickers") sql_query_all
    ∷ separator
    ∷ entry (codes "[7]  Buy Order  –  AAPL 100 @ $182.50 (ACC-001)") buy_aapl
    ∷ entry (codes "[8]  Buy Order  –  MSFT  50 @ $310.10 (ACC-001)") buy_msft
    ∷ entry (codes "[9]  Sell Order –  AAPL  75 @ $183.00 (ACC-002)") sell_aapl
    ∷ entry (codes "[10] Sell Order –  TSLA 200 @ $245.50 (ACC-002)") sell_tsla
    ∷ separator
    ∷ entry (codes "[11] Get Position –  Account ACC-001") get_position_acc001
    ∷ entry (codes "[12] Get Position –  Account ACC-002") get_position_acc002
    ∷ separator
    ∷ entry (codes "[13] Price History –  AAPL (30 days)") price_hist_aapl30
    ∷ entry (codes "[14] Price History –  MSFT  (7 days)") price_hist_msft7
    ∷ entry (codes "[15] Price History –  GOOGL (14 days)") price_hist_googl14
    ∷ separator
    ∷ entry (codes "[16] ★ BATCH TEST –  Run all services sequentially") batch_test
    ∷ []

abbrev all_commands : List CmdId
all_commands =
    login ∷ logout ∷ ping ∷ sql_query_aapl ∷ sql_query_msft ∷ sql_query_all ∷ buy_aapl ∷ buy_msft
    ∷ sell_aapl ∷ sell_tsla ∷ get_position_acc001 ∷ get_position_acc002 ∷ price_hist_aapl30
    ∷ price_hist_msft7 ∷ price_hist_googl14 ∷ batch_test ∷ []

-- The case of the switch that a number selects; with `none` no case is run.
unfoldable pub to_cmd : ℕ → Option CmdId
to_cmd n = get_elem? all_commands n

-- One case of the switch. The prices are given as streams print them.
unfoldable pub run_cmd : Desktop → CmdId → Worker → Worker
unfolding run_login run_logout run_ping run_sql_query run_buy_order run_sell_order run_get_position
    run_get_price_history run_batch_test
run_cmd d login = run_login d
run_cmd d logout = run_logout
run_cmd d ping = run_ping d
run_cmd d sql_query_aapl =
    run_sql_query d (codes "SELECT symbol, price FROM quotes WHERE symbol='AAPL'")
run_cmd d sql_query_msft =
    run_sql_query d (codes "SELECT symbol, price FROM quotes WHERE symbol='MSFT'")
run_cmd d sql_query_all =
    run_sql_query d (codes "SELECT symbol, price, volume FROM quotes ORDER BY volume DESC")
run_cmd d buy_aapl = run_buy_order d (codes "AAPL") (pos 100) (codes "182.5") (codes "ACC-001")
run_cmd d buy_msft = run_buy_order d (codes "MSFT") (pos 50) (codes "310.1") (codes "ACC-001")
run_cmd d sell_aapl = run_sell_order d (codes "AAPL") (pos 75) (codes "183") (codes "ACC-002")
run_cmd d sell_tsla = run_sell_order d (codes "TSLA") (pos 200) (codes "245.5") (codes "ACC-002")
run_cmd d get_position_acc001 = run_get_position d (codes "ACC-001")
run_cmd d get_position_acc002 = run_get_position d (codes "ACC-002")
run_cmd d price_hist_aapl30 = run_get_price_history d (codes "AAPL") (pos 30)
run_cmd d price_hist_msft7 = run_get_price_history d (codes "MSFT") (pos 7)
run_cmd d price_hist_googl14 = run_get_price_history d (codes "GOOGL") (pos 14)
run_cmd d batch_test = run_batch_test d

-- The body of the worker thread, up to its last message.
unfoldable pub run_number : Desktop → ℕ → Worker → Worker
unfolding run_cmd to_cmd
run_number d n w = elim (to_cmd n) [ none ↦ w | some c ↦ run_cmd d c w ]
