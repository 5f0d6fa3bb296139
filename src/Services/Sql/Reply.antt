-- ===== src/Services/Sql/Reply.antt =====
-- What a client gets back for a query.
use hs_financial_services.Common.{
  ◌≡◌, ◌≢◌, refl, ap, sym, ◌∙◌, false, none, some, if◌then◌else◌, [], ◌∷◌, ◌++◌, ok, arith,
  All-append, append_assoc,
}
use hs_financial_services.Common.Text.{Bytes, codes, Lacks}
use hs_financial_services.Json.{quote, json_escape, extract_string}
use hs_financial_services.Json.Extract.{
  extract_string-seek, or_empty, until_quote, until_quote-append,
}
use hs_financial_services.Json.Escape.{read_string, is_readable, read_string-json_escape}
use hs_financial_services.Json.Object.{str, object}
use hs_financial_services.Json.Object.Lookup.{extract_string-object}
use hs_financial_services.Services.{ServiceState}
use hs_financial_services.Services.Sql.{handle_sql_query, sql_reply, rows}

-- The request that carries a query and no other member.
abbrev pub sql_request : Bytes → Bytes
sql_request sql = object (str (codes "sql") sql) []

sql_request-extract :
    (sql : Bytes) → Lacks quote sql → extract_string (sql_request sql) (codes "sql") ≡ sql
sql_request-extract sql h =
    extract_string-object (codes "sql") (str (codes "sql") sql) [] (ground arith) (ground arith)

sql_reply-rows :
    (sql : Bytes) → sql ≢ [] → sql_reply sql ≡ rows ++ (json_escape sql ++ (quote ∷ codes "}"))
unfolding sql_reply
sql_reply-rows [] h = absurd (h refl)
sql_reply-rows (c ∷ sql) h = refl

pub handle_sql_query-rows :
    (sql : Bytes) (s : ServiceState)
    → sql ≢ []
    → Lacks quote sql
    → handle_sql_query (sql_request sql) s
      ≡ (ok (rows ++ (json_escape sql ++ (quote ∷ codes "}"))), s)
unfolding handle_sql_query
handle_sql_query-rows sql s h h' =
    ap (λ reply. (ok reply, s)) (ap sql_reply (sql_request-extract sql h') ∙ sql_reply-rows sql h)

-- A query that is not empty and has no quote in it is answered with the rows, and the state of the
-- services stays as it was. Behind the rows a JSON reader reads the query back when the query has no
-- control character but line feeds, carriage returns and tabs; otherwise it refuses the reply there.
pub handle_sql_query-echo :
    (sql : Bytes) (s : ServiceState)
    → sql ≢ []
    → Lacks quote sql
    → (echo : Bytes) × (handle_sql_query (sql_request sql) s ≡ (ok (rows ++ echo), s))
      × (read_string false echo [] ≡ (if is_readable sql then some (sql, codes "}") else none))
handle_sql_query-echo sql s h h' = (
  json_escape sql ++ (quote ∷ codes "}"),
  handle_sql_query-rows sql s h h',
  read_string-json_escape sql (codes "}"),
)

-- A query whose first quote is written with a backslash before it, as JSON has it, is cut there,
-- with the backslash left at its end.
pub extract_string-cut :
    (sql rest : Bytes)
    → Lacks quote sql
    → extract_string (codes "{\"sql\":\"" ++ (sql ++ (b'\\' ∷ quote ∷ rest))) (codes "sql")
      ≡ sql ++ b'\\' ∷ []
extract_string-cut sql rest h =
    let cut = sql ++ b'\\' ∷ [] in
    let clean = All-append (λ c. c ≢ quote) sql (b'\\' ∷ []) h (ground arith) in
    extract_string-seek (codes "{\"sql\":\"" ++ (sql ++ (b'\\' ∷ quote ∷ rest))) (codes "sql")
    ∙ ap or_empty (
        ap until_quote (sym (append_assoc sql (b'\\' ∷ []) (quote ∷ rest)))
        ∙ until_quote-append cut rest clean)
