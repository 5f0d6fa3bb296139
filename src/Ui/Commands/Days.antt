-- ===== src/Ui/Commands/Days.antt =====
-- The candles that RunGetPriceHistory counts in the server's answer.
pub mod Candles
use hs_financial_services.Common.{
  ℕ, zero, suc, ◌+◌, ◌≤◌, ◌≡◌, ◌≢◌, refl, ap, ◌∙◌, inl, inr, none, [], ◌∷◌, ◌++◌, ok, arith,
  Bool-cases, append_assoc, if◌then◌else◌,
}
use hs_financial_services.Common.Int.{ℤ, pos}
use hs_financial_services.Common.Text.{Bytes, codes, Lacks, strip}
use hs_financial_services.Common.Decimal.{
  value, value-to_string, to_string, to_string-IsDigits, to_string-nonempty, IsDigits,
}
use hs_financial_services.Json.{quote}
use hs_financial_services.Json.Object.{same}
use hs_financial_services.Json.Object.Members.{strip-quoted}
use hs_financial_services.Protocol.{Message, make, get_price_history}
use hs_financial_services.Router.{dispatch, respond}
use hs_financial_services.Router.Dispatch.{dispatch-found, dispatch-IsResponse}
use hs_financial_services.Services.{ServiceState}
use hs_financial_services.Services.History.{
  Platform, Day, day, day_text, candle, walk_base, handle_get_price_history,
}
use hs_financial_services.Services.History.Days.{
  rounds, joined, behind_commas, handle_get_price_history-rounds,
}
use hs_financial_services.Services.Catalog.Table.{server_router, register_services-empty}
use hs_financial_services.Ui.Socket.{Arrivals}
use hs_financial_services.Ui.Socket.Chunks
use hs_financial_services.Ui.Socket.Chunks.{IsOpen}
use hs_financial_services.Ui.Worker.{Desktop, Worker, log_lines}
use hs_financial_services.Ui.Worker.Exchange.{elapsed}
use hs_financial_services.Ui.Commands.{banner}
use hs_financial_services.Ui.Commands.Served.{IsServed, asked, request_command-served}
use hs_financial_services.Ui.Commands.Scan.Count.{
  occurrences, occurrences_skip, count_found-occurrences,
}
use hs_financial_services.Ui.Commands.Candles.{
  date_needle, days_text, candles_lines, history_lines, history_announced, run_get_price_history,
}
use hs_financial_services.Ui.Commands.Days.Candles.{count, skip-quoted, rounds-count}

-- The text of the server's answer.
abbrev pub history : Platform → Bytes → ℕ → ℕ → Bytes
history p symbol now n =
    codes "{\"symbol\":\""
    ++ (symbol ++ codes "\",\"history\":[")
    ++ joined (rounds p (walk_base p (p.decimal 1825 1) symbol) now n)
    ++ codes "]}"

history-count :
    (p : Platform) (symbol : Bytes) (now n : ℕ)
    → ((t : ℤ) → Lacks quote (p.format_date t))
    → ((x : p.Double) → Lacks quote (p.print_double x))
    → Lacks quote symbol
    → count (history p symbol now n) ≡ n
history-count p symbol now n dates numbers h =
    let days = joined (rounds p (walk_base p (p.decimal 1825 1) symbol) now n) in
    let behind = codes "\",\"history\":[" in
    ap (λ text. count (codes "{\"symbol\":\"" ++ text))
      (append_assoc (symbol ++ behind) days (codes "]}")
        ∙ append_assoc symbol behind (days ++ codes "]}"))
    ∙ skip-quoted symbol (codes "\"history\":[" ++ (days ++ codes "]}")) h
    ∙ rounds-count p dates numbers (walk_base p (p.decimal 1825 1) symbol) now n (codes "]}")
    ∙ omega arith

abbrev pub history_message : Bytes → ℕ → Message
history_message symbol n = make get_price_history (days_text symbol (pos n)) 0

history-dispatch :
    (p : Platform) (symbol : Bytes) (n : ℕ) (s : ServiceState)
    → symbol ≢ []
    → Lacks quote symbol
    → 1 ≤ n
    → n ≤ 365
    → (dispatch (server_router p) (history_message symbol n) s).0
      ≡ respond get_price_history (ok (history p symbol s.clock n))
unfolding make
history-dispatch p symbol n s hs hq lo hi =
    let same : value 0 (to_string n) ≡ n = value-to_string n (omega (arith, hi)) in
    ap (λ q. q.0)
      (dispatch-found (server_router p) (history_message symbol n) s (handle_get_price_history p)
        ((register_services-empty p).1 get_price_history))
    ∙ ap (λ q. respond get_price_history q.0)
        (handle_get_price_history-rounds p symbol (to_string n) s hs hq (to_string-nonempty n)
          (to_string-IsDigits n) (omega (arith, same, lo)) (omega (arith, same, hi)))
    ∙ ap (λ m. respond get_price_history (ok (history p symbol s.clock m))) same

-- A request for the price history of a symbol, which is not empty and has no quote in it, over 1 to
-- 365 days, through a server on a host in network order whose dates and prices are printed with no
-- quote in them: on a connection that can send the request and on which the server's response,
-- which is not over the limit, arrives in pieces of whatever sizes, the command counts just so many
-- candles as days were asked for, and logs its lines for them behind its banner and its
-- announcement; what arrived behind the response is left on the connection.
pub run_get_price_history-counts :
    (d : Desktop) (p : Platform) (symbol : Bytes) (n : ℕ) (s : ServiceState) (rest : Bytes)
    (w : Worker)
    → ((t : ℤ) → Lacks quote (p.format_date t))
    → ((x : p.Double) → Lacks quote (p.print_double x))
    → symbol ≢ []
    → Lacks quote symbol
    → 1 ≤ n
    → n ≤ 365
    → IsServed get_price_history
        (days_text symbol (pos n))
        (dispatch (server_router p) (history_message symbol n) s).0
        rest
        w
    → (left : Arrivals) × (run_get_price_history d symbol (pos n) w
        ≡ log_lines (candles_lines d (elapsed w) n (history p symbol s.clock n)) (
            asked
              (banner (codes "  PRICE HISTORY"))
              (history_announced d symbol (pos n))
              get_price_history
              (days_text symbol (pos n))
              left
              w))
      × IsOpen left
      × (Chunks.joined left ≡ rest)
unfolding run_get_price_history make respond history_lines
run_get_price_history-counts d p symbol n s rest w dates numbers hs hq lo hi served =
    let counted =
      count_found-occurrences quote (codes "date\":") (history p symbol s.clock n)
      ∙ history-count p symbol s.clock n dates numbers hq in
    let shows =
      ap (λ m. history_lines d (elapsed w) m.header.message_type m.payload)
        (history-dispatch p symbol n s hs hq lo hi)
      ∙ ap (λ k. candles_lines d (elapsed w) k (history p symbol s.clock n)) counted in
    request_command-served (banner (codes "  PRICE HISTORY")) (history_announced d symbol (pos n))
      get_price_history (days_text symbol (pos n)) (history_lines d) _ rest w _ shows
      (dispatch-IsResponse (server_router p) (history_message symbol n) s (omega arith)) served
