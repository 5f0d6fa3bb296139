-- ===== src/Ui/Commands/Candles.antt =====
-- RunGetPriceHistory (ui_client/src/MainDlg.cpp).
use hs_financial_services.Common.{
  ℕ, zero, suc, ◌-◌, none, some, List, [], ◌∷◌, ◌++◌, ◌==◌, ltb, if◌then◌else◌, take,
}
use hs_financial_services.Common.Int.{ℤ}
use hs_financial_services.Common.Text.{Bytes, codes}
use hs_financial_services.Common.Decimal.{to_string}
use hs_financial_services.Json.{extract_field}
use hs_financial_services.Ui.Worker.{Line, Desktop, utf8_to_wide, Worker}
use hs_financial_services.Ui.Commands.{
  msg_price_hist, resp_error, print_int, banner, server_error, request_command,
}
use hs_financial_services.Ui.Commands.Scan.{count_found, next_entry}

abbrev pub days_text : Bytes → ℤ → Bytes
days_text symbol days =
    codes "{\"symbol\":\"" ++ (symbol ++ (codes "\",\"days\":" ++ (print_int days ++ codes "}")))

abbrev pub date_needle : Bytes
date_needle = codes "\"date\":"

abbrev pub candle_needle : Bytes
candle_needle = codes "{\"date\":"

-- A number is cut after seven characters.
unfoldable pub candle_line : Desktop → Bytes → Line
candle_line d entry =
    codes "  "
    ++ (utf8_to_wide d (extract_field entry (codes "date"))
        ++ (codes "  O="
            ++ (take 7 (utf8_to_wide d (extract_field entry (codes "open")))
                ++ (codes "  H="
                    ++ (take 7 (utf8_to_wide d (extract_field entry (codes "high")))
                        ++ (codes "  L="
                            ++ (take 7 (utf8_to_wide d (extract_field entry (codes "low")))
                                ++ (codes "  C="
                                    ++ (take 7
                                          (utf8_to_wide d (extract_field entry (codes "close")))
                                        ++ (codes "  Vol="
                                            ++ utf8_to_wide d
                                                (extract_field entry (codes "volume"))))))))))))

-- The loop `while (shown < 5)`, with the rounds that are left.
unfoldable pub shown_loop : Desktop → ℕ → Bytes → ℕ → List Line
unfolding next_entry candle_line
shown_loop d zero text p = []
shown_loop d (suc left) text p = elim (next_entry candle_needle text p) [
  | none ↦ []
  | some (entry, p') ↦ candle_line d entry ∷ shown_loop d left text p'
]

-- The lines of an answer in which so many candles were counted.
unfoldable pub candles_lines : Desktop → ℕ → ℕ → Bytes → List Line
unfolding shown_loop
candles_lines d elapsed candles payload =
    codes "OHLCV Data (first 5 candles):"
    ∷ (shown_loop d 5 payload 0
        ++ ((if ltb 5 candles
              then (codes "  ... ("
                  ++ (to_string (candles - 5) ++ codes " more candles omitted) ..."))
                ∷ []
              else [])
            ++ ((codes "✓  Price history complete –  "
                  ++ (to_string candles
                      ++ (codes " candles received in " ++ (d.print_ms elapsed ++ codes " ms"))))
                ∷ []
                ∷ [])))

unfoldable pub history_lines : Desktop → ℕ → ℕ → Bytes → List Line
unfolding count_found candles_lines
history_lines d elapsed type payload =
    if type == resp_error
    then server_error d payload
    else candles_lines d elapsed (count_found date_needle payload) payload

abbrev pub history_announced : Desktop → Bytes → ℤ → List Line
history_announced d symbol days =
    (codes "  Symbol: "
      ++ (utf8_to_wide d symbol ++ (codes "  Period: " ++ (print_int days ++ codes " days"))))
    ∷ codes "Sending PRICE HISTORY request..."
    ∷ []

unfoldable pub run_get_price_history : Desktop → Bytes → ℤ → Worker → Worker
unfolding request_command history_lines
run_get_price_history d symbol days =
    request_command (banner (codes "  PRICE HISTORY")) (history_announced d symbol days)
      msg_price_hist (days_text symbol days) (history_lines d)
