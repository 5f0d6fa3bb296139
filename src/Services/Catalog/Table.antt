-- ===== src/Services/Catalog/Table.antt =====
-- The table that `register_services` builds.
use hs_financial_services.Common.{◌≡◌, refl, Option, none, some, [], ◌==◌, if◌then◌else◌, ok, arith}
use hs_financial_services.Protocol.{
  MessageType, sql_query, buy_order, sell_order, get_position, get_price_history, ping,
}
use hs_financial_services.Router.{Router, ServiceHandler, lookup}
use hs_financial_services.Services.{ServiceState}
use hs_financial_services.Services.Sql.{handle_sql_query}
use hs_financial_services.Services.Trade.{handle_buy_order, handle_sell_order}
use hs_financial_services.Services.Position.{handle_get_position}
use hs_financial_services.Services.History.{Platform, handle_get_price_history}
use hs_financial_services.Services.Catalog.{handle_ping, register_services}

-- The six services as a partial function of the type.
abbrev pub service : Platform → MessageType → Option (ServiceHandler ServiceState)
service p type =
    if sql_query == type
    then some handle_sql_query
    else if buy_order == type
    then some handle_buy_order
    else if sell_order == type
    then some handle_sell_order
    else if get_position == type
    then some handle_get_position
    else if get_price_history == type
    then some (handle_get_price_history p)
    else if ping == type
    then some handle_ping
    else none

pub register_services-empty :
    (p : Platform)
    → (register_services p []).0 ≡ ok tt
      × ((type : MessageType) → lookup type (register_services p []).1 ≡ service p type)
unfolding register_services lookup
register_services-empty p = (refl, λ type. ground arith)

-- On an empty router every registration succeeds, and afterwards the six request types, and no
-- others, have their handlers.
pub lookup-register_services :
    (p : Platform) (type : MessageType)
    → ((register_services p []).0 ≡ ok tt)
      × (lookup type (register_services p []).1 ≡ service p type)
lookup-register_services p type =
    ((register_services-empty p).0, (register_services-empty p).1 type)

abbrev pub server_router : Platform → Router ServiceState
server_router p = (register_services p []).1
