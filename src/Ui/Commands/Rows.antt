-- ===== src/Ui/Commands/Rows.antt =====
-- The rows that RunSqlQuery counts in the server's answer.
use hs_financial_services.Common.{
  ℕ, suc, if◌then◌else◌, ◌≡◌, ◌≢◌, refl, ap, ◌∙◌, inl, inr, none, List, [], ◌∷◌, ◌++◌, ok, arith,
  Bool-cases,
}
use hs_financial_services.Common.Text.{Bytes, codes, Lacks, strip}
use hs_financial_services.Common.Decimal.{to_string}
use hs_financial_services.Json.{quote, json_escape}
use hs_financial_services.Json.Escape.{json_escape-Lacks}
use hs_financial_services.Json.Object.{same}
use hs_financial_services.Json.Object.Members.{strip-quoted}
use hs_financial_services.Protocol.{Message, make, sql_query}
use hs_financial_services.Router.{dispatch, respond}
use hs_financial_services.Router.Dispatch.{dispatch-found, dispatch-IsResponse}
use hs_financial_services.Services.{ServiceState}
use hs_financial_services.Services.Sql.{rows, handle_sql_query}
use hs_financial_services.Services.Sql.Reply.{handle_sql_query-rows}
use hs_financial_services.Services.History.{Platform}
use hs_financial_services.Services.Catalog.Table.{server_router, register_services-empty}
use hs_financial_services.Ui.Socket.{Arrivals}
use hs_financial_services.Ui.Socket.Chunks.{IsOpen, joined}
use hs_financial_services.Ui.Worker.{Line, Desktop, utf8_to_wide, Worker, log_lines}
use hs_financial_services.Ui.Worker.Exchange.{elapsed}
use hs_financial_services.Ui.Commands.{banner}
use hs_financial_services.Ui.Commands.Served.{IsServed, asked, request_command-served}
use hs_financial_services.Ui.Commands.Scan.{count_found}
use hs_financial_services.Ui.Commands.Scan.Count.{
  occurrences, occurrences_skip, count_found-occurrences,
}
use hs_financial_services.Ui.Commands.Query.{
  query_text, query_announced, symbol_needle, query_lines, run_sql_query,
}

-- Behind the rows nothing looks like one more.
echo-occurrences :
    (echo : Bytes)
    → Lacks quote echo
    → occurrences symbol_needle (quote ∷ (echo ++ (quote ∷ codes "}"))) ≡ 0
echo-occurrences echo h =
    let opening = strip-quoted (codes "symbol") echo (codes ":") (codes "}") (ground arith) h in
    let shut : (if same (codes "symbol") echo then strip (codes ":") (codes "}") else none) ≡ none =
      elim (Bool-cases (same (codes "symbol") echo)) [ inl e ↦ rw e refl | inr e ↦ rw e refl ] in
    rw (opening, shut, occurrences)
      (occurrences_skip quote (codes "symbol\":") echo (quote ∷ codes "}") h)

rows-occurrences :
    (echo : Bytes)
    → Lacks quote echo
    → occurrences symbol_needle (rows ++ (echo ++ (quote ∷ codes "}"))) ≡ 3
rows-occurrences echo h = ap (λ n. suc (suc (suc n))) (echo-occurrences echo h)

-- The text of the server's answer.
abbrev pub answer : Bytes → Bytes
answer sql = rows ++ (json_escape sql ++ (quote ∷ codes "}"))

abbrev pub sql_message : Bytes → Message
sql_message sql = make sql_query (query_text sql) 0

answer-dispatch :
    (p : Platform) (sql : Bytes) (s : ServiceState)
    → sql ≢ []
    → Lacks quote sql
    → (dispatch (server_router p) (sql_message sql) s).0 ≡ respond sql_query (ok (answer sql))
unfolding make
answer-dispatch p sql s h h' =
    ap (λ q. q.0)
      (dispatch-found (server_router p) (sql_message sql) s handle_sql_query
        ((register_services-empty p).1 sql_query))
    ∙ ap (λ q. respond sql_query q.0) (handle_sql_query-rows sql s h h')

-- What is logged of an answer with three rows.
abbrev pub three_rows : Desktop → ℕ → Bytes → List Line
three_rows d elapsed payload =
    codes "Response payload:"
    ∷ (codes "  " ++ utf8_to_wide d payload)
    ∷ (codes "✓  Query complete –  3 row(s) returned in " ++ (d.print_ms elapsed ++ codes " ms"))
    ∷ []
    ∷ []

query_lines-three_rows :
    (d : Desktop) (elapsed : ℕ) (sql : Bytes)
    → Lacks quote sql
    → query_lines d elapsed 0x8001 (answer sql) ≡ three_rows d elapsed (answer sql)
unfolding query_lines to_string
query_lines-three_rows d elapsed sql h =
    let three : count_found symbol_needle (answer sql) ≡ 3 =
      count_found-occurrences quote (codes "symbol\":") (answer sql)
      ∙ rows-occurrences (json_escape sql) (json_escape-Lacks sql h) in
    rw three refl

-- A query through a server on a host in network order, whatever the query is that is not empty and
-- has no quote in it: on a connection that can send the request and on which the server's response,
-- which is not over the limit, arrives in pieces of whatever sizes, the command logs, behind its
-- banner and its announcement, the text of the answer, three rows found in it and the time between
-- its two readings of the clock; what arrived behind the response is left on the connection.
pub run_sql_query-three_rows :
    (d : Desktop) (p : Platform) (sql : Bytes) (s : ServiceState) (rest : Bytes) (w : Worker)
    → sql ≢ []
    → Lacks quote sql
    → IsServed sql_query (query_text sql) (dispatch (server_router p) (sql_message sql) s).0 rest w
    → (left : Arrivals) × (run_sql_query d sql w
        ≡ log_lines (three_rows d (elapsed w) (answer sql)) (
            asked
              (banner (codes "  SQL QUERY"))
              (query_announced d sql)
              sql_query
              (query_text sql)
              left
              w))
      × IsOpen left
      × (joined left ≡ rest)
unfolding run_sql_query make respond
run_sql_query-three_rows d p sql s rest w h h' served =
    let shows =
      ap (λ m. query_lines d (elapsed w) m.header.message_type m.payload)
        (answer-dispatch p sql s h h')
      ∙ query_lines-three_rows d (elapsed w) sql h' in
    request_command-served (banner (codes "  SQL QUERY")) (query_announced d sql) sql_query
      (query_text sql) (query_lines d) _ rest w _ shows
      (dispatch-IsResponse (server_router p) (sql_message sql) s (omega arith)) served
