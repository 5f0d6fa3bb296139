-- ===== src/Services/Catalog/Responses.antt =====
-- The types of the server's responses.
use hs_financial_services.Common.{
  ◌≡◌, refl, ap, ◌∙◌, none, some, Option, [], ◌∷◌, if◌then◌else◌, ◌==◌, ok, arith,
}
use hs_financial_services.Common.Text.{Bytes}
use hs_financial_services.Protocol.{
  MessageType, Message, make, sql_query, buy_order, sell_order, get_position, get_price_history,
  ping, sql_result, order_ack, position_result, price_hist_result, pong, error,
}
use hs_financial_services.Router.{Router, ServiceHandler, dispatch, lookup, respond}
use hs_financial_services.Services.{ServiceState}
use hs_financial_services.Services.Sql.{handle_sql_query}
use hs_financial_services.Services.Position.{handle_get_position}
use hs_financial_services.Services.Trade.{handle_buy_order, handle_sell_order}
use hs_financial_services.Services.History.{Platform, handle_get_price_history}
use hs_financial_services.Services.Catalog.{handle_ping}
use hs_financial_services.Services.Catalog.Table.{service, server_router, register_services-empty}

-- The type of the response to a request of a type, by the table of the protocol; the response to a
-- sell order has a type that the protocol does not name.
abbrev pub response_type : MessageType → MessageType
response_type type =
    if type == sql_query
    then sql_result
    else if type == buy_order
    then order_ack
    else if type == sell_order
    then 0x8003
    else if type == get_position
    then position_result
    else if type == get_price_history
    then price_hist_result
    else if type == ping
    then pong
    else error

-- The type of what a looked-up handler's request is answered with.
abbrev type_after :
    Option (ServiceHandler ServiceState) → MessageType → Bytes → ServiceState → MessageType
type_after none type payload s = error
type_after (some handler) type payload s = (respond type (handler payload s).0).header.message_type

dispatch-type_after :
    (r : Router ServiceState) (m : Message) (s : ServiceState)
    → (dispatch r m s).0.header.message_type
      ≡ type_after (lookup m.header.message_type r) m.header.message_type m.payload s
unfolding dispatch make
dispatch-type_after r m s = ground arith

handle_ping-ok :
    (payload : Bytes) (s : ServiceState) → (text : Bytes) × ((handle_ping payload s).0 ≡ ok text)
unfolding handle_ping
handle_ping-ok [] s = (_, refl)
handle_ping-ok (c ∷ payload) s = (_, refl)

service-type_after :
    (p : Platform) (type : MessageType) (payload : Bytes) (s : ServiceState)
    → type_after (service p type) type payload s ≡ response_type type
unfolding handle_sql_query handle_buy_order handle_sell_order handle_get_position
    handle_get_price_history respond make
service-type_after p type payload s = let (text, e) = handle_ping-ok payload s in ground (arith, e)

-- Whatever a request holds, its response has the type that the protocol's table gives for the
-- request's type (0x8003 for a sell order), and the error type for a type that is no request's: no
-- handler of the server throws.
pub dispatch-response_type :
    (p : Platform) (m : Message) (s : ServiceState)
    → (dispatch (server_router p) m s).0.header.message_type ≡ response_type m.header.message_type
dispatch-response_type p m s =
    dispatch-type_after (server_router p) m s
    ∙ ap (λ o. type_after o m.header.message_type m.payload s)
        ((register_services-empty p).1 m.header.message_type)
    ∙ service-type_after p m.header.message_type m.payload s
