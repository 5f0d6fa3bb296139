-- ===== src/Services/Catalog.antt =====
-- register_services (server/src/main.cpp): the router that the server runs with.
pub mod Table
pub mod Orders
pub mod Responses
use hs_financial_services.Common.{[], ◌∷◌, Result, ok, throw}
use hs_financial_services.Common.Text.{Bytes, codes}
use hs_financial_services.Protocol.{
  MessageType, sql_query, buy_order, sell_order, get_position, get_price_history, ping,
}
use hs_financial_services.Router.{Router, ServiceHandler, register_handler}
use hs_financial_services.Services.{ServiceState}
use hs_financial_services.Services.Sql.{handle_sql_query}
use hs_financial_services.Services.Trade.{handle_buy_order, handle_sell_order}
use hs_financial_services.Services.Position.{handle_get_position}
use hs_financial_services.Services.History.{Platform, handle_get_price_history}

-- The lambda registered for pings.
unfoldable pub handle_ping : ServiceHandler ServiceState
handle_ping [] s = (ok (codes "{\"seq\":0}"), s)
handle_ping (c ∷ payload) s = (ok (c ∷ payload), s)

-- A statement that may throw and changes the router, before the next one.
infixl 5 ◌>>◌
abbrev pub ◌>>◌ :
    (Router ServiceState → Result (Unit {0}) × Router ServiceState)
    → (Router ServiceState → Result (Unit {0}) × Router ServiceState)
    → Router ServiceState
    → Result (Unit {0}) × Router ServiceState
◌>>◌ first next r =
    let (result, r') = first r in elim result [ ok _ ↦ next r' | throw what ↦ (throw what, r') ]

unfoldable pub register_services :
    Platform → Router ServiceState → Result (Unit {0}) × Router ServiceState
unfolding register_handler
register_services p = do
  register_handler sql_query handle_sql_query
  register_handler buy_order handle_buy_order
  register_handler sell_order handle_sell_order
  register_handler get_position handle_get_position
  register_handler get_price_history (handle_get_price_history p)
  register_handler ping handle_ping
