-- ===== src/Tests/Orders.antt =====
-- An order of the UI client and its acknowledgement.
use hs_financial_services.Common.{◌≡◌, ◌≤◌, refl, [], ◌∷◌, ◌++◌, length, arith, sym, subst}
use hs_financial_services.Common.Int.{pos}
use hs_financial_services.Common.Text.{Bytes, codes}
use hs_financial_services.Common.Decimal.{to_string}
use hs_financial_services.Protocol.{Message, make, buy_order, encode_header}
use hs_financial_services.Protocol.Endian.{network_host}
use hs_financial_services.Json.{extract_string, extract_number}
use hs_financial_services.Router.{dispatch}
use hs_financial_services.Services.Trade.{handle_buy_order}
use hs_financial_services.Services.Catalog.{register_services}
use hs_financial_services.Services.Catalog.Table.{server_router}
use hs_financial_services.Ui.Socket.{Arrivals, send_msg, max_payload}
use hs_financial_services.Ui.Socket.Chunks.{IsOpen, joined}
use hs_financial_services.Ui.Worker.{Worker, log_lines}
use hs_financial_services.Ui.Commands.{banner}
use hs_financial_services.Ui.Commands.Served.{IsServed, asked}
use hs_financial_services.Ui.Commands.Trade.{
  order_request, order_announced, acknowledged, run_buy_order,
}
use hs_financial_services.Ui.Commands.Orders.{buy_message, run_buy_order-acknowledged}
use hs_financial_services.Tests.{whole_numbers, at_start, plain_text, worker_with}

abbrev ack_json : Bytes
ack_json =
    codes
      "{\"order_id\":\"ORD-1\",\"symbol\":\"AAPL\",\"side\":\"BUY\",\"account\":\"ACC-1\",\"qty\":100,\"price\":182,\"status\":\"FILLED\"}"

abbrev order_message : Message
order_message = buy_message (codes "AAPL") 100 (codes "182") (codes "ACC-1")

order_response :
    (dispatch (server_router whole_numbers) order_message at_start).0 ≡ make 0x8002 ack_json 0
unfolding dispatch make register_services handle_buy_order to_string extract_string extract_number
order_response = refl

-- The header and the payload arrive apart, with the beginning of another message.
abbrev order_arrivals : Arrivals
order_arrivals = (0 ∷ 0 ∷ 0 ∷ 107 ∷ 0x80 ∷ 2 ∷ 0 ∷ 0 ∷ []) ∷ (ack_json ++ (0 ∷ 0 ∷ [])) ∷ []

order_arrives :
    joined order_arrivals
    ≡ encode_header network_host
        (dispatch (server_router whole_numbers) order_message at_start).0.header
      ++ ((dispatch (server_router whole_numbers) order_message at_start).0.payload ++ (0 ∷ 0 ∷ []))
unfolding encode_header make
order_arrives = rw order_response refl

order_fits :
    length (dispatch (server_router whole_numbers) order_message at_start).0.payload ≤ max_payload
unfolding make
order_fits = subst (λ m. length m.payload ≤ max_payload) (sym order_response) (omega arith)

abbrev order_worker : Worker
order_worker = worker_with order_arrivals

order-IsServed :
    IsServed buy_order
      (order_request (codes "AAPL") (pos 100) (codes "182") (codes "ACC-1"))
      (dispatch (server_router whole_numbers) order_message at_start).0
      (0 ∷ 0 ∷ [])
      order_worker
unfolding send_msg to_string
order-IsServed = record {
  connected = refl;
  sent = refl;
  fits = order_fits;
  is_open = ground arith;
  arrived = order_arrives;
}

run_buy_order-acknowledged_example :
    (left : Arrivals) × (run_buy_order plain_text
        (codes "AAPL")
        (pos 100)
        (codes "182")
        (codes "ACC-1")
        order_worker
      ≡ log_lines
          (acknowledged plain_text
            (codes "BUY")
            250
            (codes "ORD-" ++ to_string 1)
            (codes "BUY")
            (codes "AAPL")
            (to_string 100)
            (codes "182")
            (codes "FILLED"))
          (asked
            (banner (codes "  BUY ORDER"))
            (order_announced plain_text
              (codes "BUY")
              (codes "AAPL")
              (pos 100)
              (codes "182")
              (codes "ACC-1"))
            buy_order
            (order_request (codes "AAPL") (pos 100) (codes "182") (codes "ACC-1"))
            left
            order_worker))
    × IsOpen left
    × (joined left ≡ 0 ∷ 0 ∷ [])
run_buy_order-acknowledged_example =
    run_buy_order-acknowledged plain_text whole_numbers (codes "AAPL") (codes "182") (codes "ACC-1")
      100 at_start (0 ∷ 0 ∷ []) order_worker (ground arith) (ground arith) (ground arith)
      (ground arith) (ground arith) order-IsServed
