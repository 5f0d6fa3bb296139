-- ===== src/Services/Sql.antt =====
-- handle_sql_query (server/src/services/sql_service.cpp).
pub mod Reply
use hs_financial_services.Common.{[], ◌∷◌, ◌++◌, ok}
use hs_financial_services.Common.Text.{Bytes, codes}
use hs_financial_services.Json.{extract_string, json_escape}
use hs_financial_services.Router.{ServiceHandler}
use hs_financial_services.Services.{ServiceState}

abbrev pub missing_sql : Bytes
missing_sql = codes "{\"error\":\"missing 'sql' field\"}"

-- The rows that stand in for a database, and the start of the member that repeats the query.
abbrev pub rows : Bytes
rows =
    codes "{\"rows\":["
    ++ (codes "{\"symbol\":\"AAPL\",\"price\":182.50,\"volume\":52000000},"
        ++ (codes "{\"symbol\":\"MSFT\",\"price\":310.10,\"volume\":28000000},"
            ++ (codes "{\"symbol\":\"GOOGL\",\"price\":140.75,\"volume\":18000000}"
                ++ codes "],\"affected\":0,\"query\":\"")))

unfoldable pub sql_reply : Bytes → Bytes
sql_reply [] = missing_sql
sql_reply (c ∷ sql) = rows ++ (json_escape (c ∷ sql) ++ codes "\"}")

unfoldable pub handle_sql_query : ServiceHandler ServiceState
unfolding sql_reply
handle_sql_query request_json s = (ok (sql_reply (extract_string request_json (codes "sql"))), s)
