-- ===== src/Ui/Commands/Orders.antt =====
-- An order from the command of the client to the server's services and back.
use hs_financial_services.Common.{ℕ, ◌≡◌, ◌≢◌, ap, ◌∙◌, List, [], ◌∷◌, ◌++◌, ok, arith}
use hs_financial_services.Common.Int.{pos}
use hs_financial_services.Common.Text.{Bytes, codes, Lacks}
use hs_financial_services.Common.Decimal.{to_string, to_string-nonempty, to_string-IsDigits}
use hs_financial_services.Json.{quote, extract_string, extract_number}
use hs_financial_services.Json.Object.{Field, str, raw, AllFields, IsNumber}
use hs_financial_services.Json.Object.Lookup.{extract_string-object, extract_number-object}
use hs_financial_services.Protocol.{Message, make, buy_order}
use hs_financial_services.Router.{dispatch, respond}
use hs_financial_services.Services.{ServiceState, default_to, default_to-nonempty}
use hs_financial_services.Services.History.{Platform}
use hs_financial_services.Services.History.Days.{IsDigits-IsNumber}
use hs_financial_services.Services.Trade.{build_order_ack, handle_buy_order}
use hs_financial_services.Services.Trade.Ack.{Reads, build_order_ack-Reads}
use hs_financial_services.Services.Catalog.Table.{server_router, register_services-empty}
use hs_financial_services.Router.Dispatch.{dispatch-found, dispatch-IsResponse}
use hs_financial_services.Ui.Socket.{Arrivals}
use hs_financial_services.Ui.Socket.Chunks.{IsOpen, joined}
use hs_financial_services.Ui.Worker.{Desktop, Worker, log_lines}
use hs_financial_services.Ui.Worker.Exchange.{elapsed}
use hs_financial_services.Ui.Commands.{banner}
use hs_financial_services.Ui.Commands.Served.{IsServed, asked, request_command-served}
use hs_financial_services.Ui.Commands.Trade.{
  order_request, order_announced, acknowledged, show_ack, run_order, run_buy_order,
}

-- The members of the request behind the symbol.
abbrev request_fields : Bytes → Bytes → Bytes → List Field
request_fields qty price account =
    raw (codes "qty") qty ∷ raw (codes "price") price ∷ str (codes "account") account ∷ []

abbrev pub buy_message : Bytes → ℕ → Bytes → Bytes → Message
buy_message symbol qty price account =
    make buy_order (order_request symbol (pos qty) price account) 0

buy-found :
    (p : Platform) (payload : Bytes) (s : ServiceState)
    → (dispatch (server_router p) (make buy_order payload 0) s).0
      ≡ respond buy_order (build_order_ack (codes "BUY") payload s).0
unfolding handle_buy_order make
buy-found p payload s =
    ap (λ q. q.0)
      (dispatch-found (server_router p) (make buy_order payload 0) s handle_buy_order
        ((register_services-empty p).1 buy_order))

show_ack-Reads :
    (d : Desktop) (title symbol : Bytes) (elapsed : ℕ) (ack order_id side account qty price : Bytes)
    → Reads ack order_id symbol side account qty price
    → show_ack d title symbol elapsed 0x8002 ack
      ≡ acknowledged d title elapsed order_id side symbol qty price (codes "FILLED")
unfolding show_ack
show_ack-Reads d title symbol elapsed ack order_id side account qty price r =
    rw (r.reads_order_id, r.reads_side, r.reads_qty, r.reads_price, r.reads_status)

module _ (symbol price account : Bytes) (qty : ℕ) (hs : symbol ≢ []) (cs : Lacks quote symbol)
    (hp : price ≢ []) (np : IsNumber price) (ca : Lacks quote account) where
  abbrev request : Bytes
  request = order_request symbol (pos qty) price account

  request-AllFields :
      AllFields (str (codes "symbol") symbol ∷ request_fields (to_string qty) price account)
  request-AllFields = (
    (ground arith, cs),
    (
      (ground arith, IsDigits-IsNumber _ (to_string-IsDigits qty)),
      ((ground arith, np), ((ground arith, ca), tt)),
    ),
  )

  read_symbol : default_to (codes "UNKNOWN") (extract_string request (codes "symbol")) ≡ symbol
  read_symbol =
      ap (default_to (codes "UNKNOWN")) (
        extract_string-object (codes "symbol") (str (codes "symbol") symbol)
          (request_fields (to_string qty) price account) (ground arith) request-AllFields)
      ∙ default_to-nonempty (codes "UNKNOWN") symbol hs

  read_price : default_to (codes "0") (extract_number request (codes "price")) ≡ price
  read_price =
      ap (default_to (codes "0")) (
        extract_number-object (codes "price") (str (codes "symbol") symbol)
          (request_fields (to_string qty) price account) (ground arith) request-AllFields)
      ∙ default_to-nonempty (codes "0") price hp

  read_qty : default_to (codes "0") (extract_number request (codes "qty")) ≡ to_string qty
  read_qty =
      ap (default_to (codes "0")) (
        extract_number-object (codes "qty") (str (codes "symbol") symbol)
          (request_fields (to_string qty) price account) (ground arith) request-AllFields)
      ∙ default_to-nonempty (codes "0") (to_string qty) (to_string-nonempty qty)

  -- The acknowledgement of the server, and what the client shows of it.
  acked :
      (d : Desktop) (elapsed : ℕ) (p : Platform) (s : ServiceState)
      → (ack : Bytes) × ((dispatch (server_router p) (make buy_order request 0) s).0
          ≡ respond buy_order (ok ack))
        × (show_ack d (codes "BUY") symbol elapsed 0x8002 ack
            ≡ acknowledged d
                (codes "BUY")
                elapsed
                (codes "ORD-" ++ to_string s.order_counter)
                (codes "BUY")
                symbol
                (to_string qty)
                price
                (codes "FILLED"))
  acked d elapsed p s =
      let (ack, e, reads) = build_order_ack-Reads (codes "BUY") request s (ground arith) in
      (
        ack,
        buy-found p request s ∙ ap (λ q. respond buy_order q.0) e,
        show_ack-Reads d (codes "BUY") symbol elapsed ack _ _ _ _ _
            (rw (read_symbol, read_price, read_qty) at reads),
      )

  shown :
      (d : Desktop) (elapsed : ℕ) (p : Platform) (s : ServiceState)
      → show_ack d
          (codes "BUY")
          symbol
          elapsed
          (dispatch (server_router p) (make buy_order request 0) s).0.header.message_type
          (dispatch (server_router p) (make buy_order request 0) s).0.payload
        ≡ acknowledged d
            (codes "BUY")
            elapsed
            (codes "ORD-" ++ to_string s.order_counter)
            (codes "BUY")
            symbol
            (to_string qty)
            price
            (codes "FILLED")
  unfolding respond make
  shown d elapsed p s =
      let (ack, e, shows) = acked d elapsed p s in
      ap (λ m. show_ack d (codes "BUY") symbol elapsed m.header.message_type m.payload) e ∙ shows

-- A buy order through a server on a host in network order, for a symbol and an account with no
-- quote in them, a symbol and a price that are not empty, and a price printed as a number: on a
-- connection that can send the request and on which the server's response, which is not over the
-- limit, arrives in pieces of whatever sizes, the command logs, behind its banner and its
-- announcement, the acknowledgement with the number of the server's counter, the side `BUY`, the
-- quantity and the price that were asked for, the status `FILLED` and the time between its two
-- readings of the clock; what arrived behind the response is left on the connection.
pub run_buy_order-acknowledged :
    (d : Desktop) (p : Platform) (symbol price account : Bytes) (qty : ℕ) (s : ServiceState)
    (rest : Bytes) (w : Worker)
    → symbol ≢ []
    → Lacks quote symbol
    → price ≢ []
    → IsNumber price
    → Lacks quote account
    → IsServed buy_order
        (order_request symbol (pos qty) price account)
        (dispatch (server_router p) (buy_message symbol qty price account) s).0
        rest
        w
    → (left : Arrivals) × (run_buy_order d symbol (pos qty) price account w
        ≡ log_lines
            (acknowledged d
              (codes "BUY")
              (elapsed w)
              (codes "ORD-" ++ to_string s.order_counter)
              (codes "BUY")
              symbol
              (to_string qty)
              price
              (codes "FILLED"))
            (asked
              (banner (codes "  BUY ORDER"))
              (order_announced d (codes "BUY") symbol (pos qty) price account)
              buy_order
              (order_request symbol (pos qty) price account)
              left
              w))
      × IsOpen left
      × (joined left ≡ rest)
unfolding run_buy_order run_order make
run_buy_order-acknowledged d p symbol price account qty s rest w hs cs hp np ca served =
    request_command-served (banner (codes "  BUY ORDER"))
      (order_announced d (codes "BUY") symbol (pos qty) price account) buy_order
      (order_request symbol (pos qty) price account) (show_ack d (codes "BUY") symbol) _ rest w _
      (shown symbol price account qty hs cs hp np ca d (elapsed w) p s)
      (dispatch-IsResponse (server_router p) (buy_message symbol qty price account) s (omega arith))
      served
