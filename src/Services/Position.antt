-- ===== src/Services/Position.antt =====
-- handle_get_position (server/src/services/position_service.cpp).
pub mod Reply
use hs_financial_services.Common.{◌++◌, ok}
use hs_financial_services.Common.Text.{Bytes, codes}
use hs_financial_services.Json.{extract_string}
use hs_financial_services.Router.{ServiceHandler}
use hs_financial_services.Services.{ServiceState, default_to}

-- The synthetic positions, behind the account.
abbrev pub positions : Bytes
positions =
    codes "\"positions\":["
    ++ (codes
          "{\"symbol\":\"AAPL\",\"qty\":500,\"avg_cost\":178.30,\"current\":182.50,\"pnl\":2100.00},"
        ++ (codes
              "{\"symbol\":\"MSFT\",\"qty\":200,\"avg_cost\":305.10,\"current\":310.10,\"pnl\":1000.00},"
            ++ (codes
                  "{\"symbol\":\"GOOGL\",\"qty\":50,\"avg_cost\":138.20,\"current\":140.75,\"pnl\":127.50}"
                ++ (codes "]," ++ (codes "\"cash\":12345.67" ++ codes "}")))))

unfoldable pub position_text : Bytes → Bytes
position_text account = codes "{\"account\":\"" ++ (account ++ (codes "\"," ++ positions))

unfoldable pub handle_get_position : ServiceHandler ServiceState
unfolding position_text
handle_get_position request_json s = (
  ok (position_text (default_to (codes "UNKNOWN") (extract_string request_json (codes "account")))),
  s,
)
