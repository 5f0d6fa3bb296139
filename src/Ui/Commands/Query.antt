-- ===== src/Ui/Commands/Query.antt =====
-- RunSqlQuery (ui_client/src/MainDlg.cpp).
use hs_financial_services.Common.{ℕ, List, [], ◌∷◌, ◌++◌, ◌==◌, if◌then◌else◌}
use hs_financial_services.Common.Text.{Bytes, codes}
use hs_financial_services.Common.Decimal.{to_string}
use hs_financial_services.Ui.Worker.{Line, Desktop, utf8_to_wide, Worker}
use hs_financial_services.Ui.Commands.{
  msg_sql_query, resp_error, banner, server_error, request_command,
}
use hs_financial_services.Ui.Commands.Scan.{count_found}

-- The query is put into the text as it is.
abbrev pub query_text : Bytes → Bytes
query_text sql = codes "{\"sql\":\"" ++ (sql ++ codes "\"}")

abbrev pub query_announced : Desktop → Bytes → List Line
query_announced d sql = (codes "SQL : " ++ utf8_to_wide d sql) ∷ codes "Sending request..." ∷ []

abbrev pub symbol_needle : Bytes
symbol_needle = codes "\"symbol\":"

unfoldable pub query_lines : Desktop → ℕ → ℕ → Bytes → List Line
unfolding count_found
query_lines d elapsed type payload =
    if type == resp_error
    then server_error d payload
    else codes "Response payload:"
      ∷ (codes "  " ++ utf8_to_wide d payload)
      ∷ (codes "✓  Query complete –  "
          ++ (to_string (count_found symbol_needle payload)
              ++ (codes " row(s) returned in " ++ (d.print_ms elapsed ++ codes " ms"))))
      ∷ []
      ∷ []

unfoldable pub run_sql_query : Desktop → Bytes → Worker → Worker
unfolding request_command query_lines
run_sql_query d sql =
    request_command (banner (codes "  SQL QUERY")) (query_announced d sql) msg_sql_query
      (query_text sql) (query_lines d)
