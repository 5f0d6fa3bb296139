-- ===== src/Tests/Histories.antt =====
-- A price history of the UI client and its answer.
use hs_financial_services.Common.{ℕ, ◌+◌, ◌≡◌, ◌≤◌, refl, [], ◌∷◌, ◌++◌, length, arith, sym, subst}
use hs_financial_services.Common.Int.{ℤ, pos, negsuc}
use hs_financial_services.Common.Text.{Bytes, codes, Lacks}
use hs_financial_services.Common.Decimal.{to_string, to_string-IsDigits}
use hs_financial_services.Json.{quote, extract_string, extract_int}
use hs_financial_services.Protocol.{make, get_price_history, encode_header}
use hs_financial_services.Protocol.Endian.{network_host}
use hs_financial_services.Router.{dispatch}
use hs_financial_services.Services.History.{handle_get_price_history}
use hs_financial_services.Services.Catalog.{register_services}
use hs_financial_services.Services.Catalog.Table.{server_router}
use hs_financial_services.Ui.Socket.{Arrivals, send_msg, max_payload}
use hs_financial_services.Ui.Socket.Chunks.{IsOpen, joined}
use hs_financial_services.Ui.Worker.{log_lines}
use hs_financial_services.Ui.Commands.{banner}
use hs_financial_services.Ui.Commands.Served.{IsServed, asked}
use hs_financial_services.Ui.Commands.Candles.{
  days_text, candles_lines, history_announced, run_get_price_history,
}
use hs_financial_services.Ui.Commands.Days.Candles.{IsDigits-Lacks}
use hs_financial_services.Ui.Commands.Days.{history, history_message, run_get_price_history-counts}
use hs_financial_services.Tests.{whole_numbers, at_start, plain_text, worker_with}

abbrev candles_json : Bytes
candles_json =
    codes
      "{\"symbol\":\"MSFT\",\"history\":[{\"date\":\"999913600\",\"open\":182,\"high\":182,\"low\":182,\"close\":182,\"volume\":35000000},{\"date\":\"1000000000\",\"open\":182,\"high\":182,\"low\":182,\"close\":182,\"volume\":20000000}]}"

candles_response :
    (dispatch (server_router whole_numbers) (history_message (codes "MSFT") 2) at_start).0
    ≡ make 0x8005 candles_json 0
unfolding dispatch make register_services handle_get_price_history to_string extract_string
    extract_int
candles_response = refl

abbrev candles_arrivals : Arrivals
candles_arrivals = (0 ∷ 0 ∷ 0 ∷ 196 ∷ 0x80 ∷ 5 ∷ 0 ∷ 0 ∷ []) ∷ (candles_json ++ 0 ∷ []) ∷ []

candles_arrive :
    joined candles_arrivals
    ≡ encode_header network_host
        (dispatch
          (server_router whole_numbers)
          (history_message (codes "MSFT") 2)
          at_start).0.header
      ++ ((dispatch
            (server_router whole_numbers)
            (history_message (codes "MSFT") 2)
            at_start).0.payload
          ++ 0 ∷ [])
unfolding encode_header make
candles_arrive = rw candles_response refl

candles_fit :
    length
      (dispatch (server_router whole_numbers) (history_message (codes "MSFT") 2) at_start).0.payload
    ≤ max_payload
unfolding make
candles_fit = subst (λ m. length m.payload ≤ max_payload) (sym candles_response) (omega arith)

candles-IsServed :
    IsServed get_price_history
      (days_text (codes "MSFT") (pos 2))
      (dispatch (server_router whole_numbers) (history_message (codes "MSFT") 2) at_start).0
      (0 ∷ [])
      (worker_with candles_arrivals)
unfolding send_msg to_string
candles-IsServed = record {
  connected = refl;
  sent = refl;
  fits = candles_fit;
  is_open = ground arith;
  arrived = candles_arrive;
}

format_date-Lacks : (t : ℤ) → Lacks quote (whole_numbers.format_date t)
format_date-Lacks (pos n) = IsDigits-Lacks (to_string n) (to_string-IsDigits n)
format_date-Lacks (negsuc n) =
    (ground arith, IsDigits-Lacks (to_string (n + 1)) (to_string-IsDigits (n + 1)))

print_double-Lacks : (x : ℕ) → Lacks quote (whole_numbers.print_double x)
print_double-Lacks x = IsDigits-Lacks (to_string x) (to_string-IsDigits x)

run_get_price_history-counts_example :
    (left : Arrivals) × (run_get_price_history plain_text
        (codes "MSFT")
        (pos 2)
        (worker_with candles_arrivals)
      ≡ log_lines
          (candles_lines plain_text 250 2 (history whole_numbers (codes "MSFT") at_start.clock 2))
          (asked
            (banner (codes "  PRICE HISTORY"))
            (history_announced plain_text (codes "MSFT") (pos 2))
            get_price_history
            (days_text (codes "MSFT") (pos 2))
            left
            (worker_with candles_arrivals)))
    × IsOpen left
    × (joined left ≡ 0 ∷ [])
run_get_price_history-counts_example =
    run_get_price_history-counts plain_text whole_numbers (codes "MSFT") 2 at_start (0 ∷ [])
      (worker_with candles_arrivals) format_date-Lacks print_double-Lacks (ground arith)
      (ground arith) (omega arith) (omega arith) candles-IsServed
