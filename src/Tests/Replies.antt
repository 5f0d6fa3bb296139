-- ===== src/Tests/Replies.antt =====
-- Examples on the banking services.
use hs_financial_services.Common.{
  ◌≡◌, ◌≢◌, refl, false, none, some, if◌then◌else◌, [], ◌∷◌, ◌++◌, inl, ok, arith,
}
use hs_financial_services.Common.Text.{Bytes, codes}
use hs_financial_services.Common.Decimal.{to_string}
use hs_financial_services.Json.{extract_string, extract_number, extract_field}
use hs_financial_services.Json.Escape.{read_string, is_readable}
use hs_financial_services.Protocol.{make}
use hs_financial_services.Router.{dispatch}
use hs_financial_services.Session.Serve.{serve}
use hs_financial_services.Services.{default_to}
use hs_financial_services.Services.Sql.{rows, handle_sql_query}
use hs_financial_services.Services.Sql.Reply.{
  sql_request, handle_sql_query-echo, extract_string-cut,
}
use hs_financial_services.Services.Trade.{build_order_ack}
use hs_financial_services.Services.Trade.Ack.{Reads, build_order_ack-Reads}
use hs_financial_services.Services.Position.{handle_get_position}
use hs_financial_services.Services.Position.Reply.{handle_get_position-account}
use hs_financial_services.Services.History.{handle_get_price_history, walk_base}
use hs_financial_services.Services.History.Days.{joined, rounds, handle_get_price_history-rounds}
use hs_financial_services.Services.Catalog.Table.{server_router}
use hs_financial_services.Services.Catalog.Orders.{IsOrder, order_number, order_number-distinct}
use hs_financial_services.Services.Catalog.Responses.{dispatch-response_type}
use hs_financial_services.Tests.{
  whole_numbers, at_start, buy_json, buy_request, ping_request, history_json,
}

handle_sql_query-echo_example :
    (echo : Bytes) × (handle_sql_query (sql_request (codes "SELECT 1")) at_start
      ≡ (ok (rows ++ echo), at_start))
    × (read_string false echo []
        ≡ (if is_readable (codes "SELECT 1") then some (codes "SELECT 1", codes "}") else none))
handle_sql_query-echo_example =
    handle_sql_query-echo (codes "SELECT 1") at_start (ground arith) (ground arith)

extract_string-cut_example :
    extract_string (codes "{\"sql\":\"SELECT \\\"name\\\"\"}") (codes "sql") ≡ codes "SELECT \\"
extract_string-cut_example =
    extract_string-cut (codes "SELECT ") (codes "name\\\"\"}") (ground arith)

build_order_ack-Reads_example :
    (ack : Bytes) × (build_order_ack (codes "BUY") buy_json at_start
      ≡ (ok ack, record at_start { order_counter = 2 }))
    × Reads ack
        (codes "ORD-" ++ to_string 1)
        (default_to (codes "UNKNOWN") (extract_string buy_json (codes "symbol")))
        (codes "BUY")
        (default_to (codes "N/A") (extract_string buy_json (codes "account")))
        (codes "100")
        (codes "0")
unfolding extract_number
build_order_ack-Reads_example = build_order_ack-Reads (codes "BUY") buy_json at_start (ground arith)

handle_get_position-account_example :
    (reply : Bytes) × (handle_get_position (codes "{\"account\":\"ACC-7\"}") at_start
      ≡ (ok reply, at_start))
    × (extract_field reply (codes "account") ≡ codes "ACC-7")
unfolding extract_string
handle_get_position-account_example =
    handle_get_position-account (codes "{\"account\":\"ACC-7\"}") at_start

handle_get_price_history-rounds_example :
    handle_get_price_history whole_numbers history_json at_start ≡ (
      ok (
          codes "{\"symbol\":\""
          ++ (codes "MSFT" ++ codes "\",\"history\":[")
          ++ joined (rounds whole_numbers (walk_base whole_numbers 182 (codes "MSFT")) 1000000000 2)
          ++ codes "]}"),
      at_start,
    )
handle_get_price_history-rounds_example =
    handle_get_price_history-rounds whole_numbers (codes "MSFT") (codes "2") at_start (ground arith)
      (ground arith) (ground arith) (ground arith) (omega arith) (omega arith)

buy_request-IsOrder : IsOrder buy_request.header.message_type
unfolding make
buy_request-IsOrder = inl refl

order_number-distinct_example :
    order_number (dispatch (server_router whole_numbers) buy_request at_start).0
    ≢ order_number
        (dispatch
          (server_router whole_numbers)
          buy_request
          (serve
            (server_router whole_numbers)
            (ping_request ∷ [])
            (dispatch (server_router whole_numbers) buy_request at_start).1).1).0
order_number-distinct_example =
    order_number-distinct whole_numbers buy_request (ping_request ∷ []) buy_request at_start
      buy_request-IsOrder buy_request-IsOrder (omega arith)

dispatch-response_type_example :
    (dispatch (server_router whole_numbers) buy_request at_start).0.header.message_type ≡ 0x8002
unfolding make
dispatch-response_type_example = dispatch-response_type whole_numbers buy_request at_start
