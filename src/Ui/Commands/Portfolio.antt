-- ===== src/Ui/Commands/Portfolio.antt =====
-- RunGetPosition (ui_client/src/MainDlg.cpp).
use hs_financial_services.Common.{
  ℕ, zero, suc, ◌+◌, none, some, List, [], ◌∷◌, ◌++◌, ◌==◌, if◌then◌else◌, length,
}
use hs_financial_services.Common.Text.{Bytes, codes}
use hs_financial_services.Common.Decimal.{to_string}
use hs_financial_services.Json.{extract_field}
use hs_financial_services.Ui.Worker.{Line, Desktop, utf8_to_wide, Worker}
use hs_financial_services.Ui.Commands.{
  msg_get_pos, resp_error, banner, server_error, request_command,
}
use hs_financial_services.Ui.Commands.Scan.{next_entry}

abbrev pub account_text : Bytes → Bytes
account_text account = codes "{\"account\":\"" ++ (account ++ codes "\"}")

abbrev pub entry_needle : Bytes
entry_needle = codes "{\"symbol\":"

unfoldable pub position_line : Desktop → ℕ → Bytes → Line
position_line d idx entry =
    codes "  ["
    ++ (to_string idx
        ++ (codes "] "
            ++ (utf8_to_wide d (extract_field entry (codes "symbol"))
                ++ (codes "  qty="
                    ++ (utf8_to_wide d (extract_field entry (codes "qty"))
                        ++ (codes "  avg=$"
                            ++ (utf8_to_wide d (extract_field entry (codes "avg_cost"))
                                ++ (codes "  cur=$"
                                    ++ (utf8_to_wide d (extract_field entry (codes "current"))
                                        ++ (codes "  P&L=$"
                                            ++ utf8_to_wide d
                                                (extract_field entry (codes "pnl"))))))))))))

-- The lines of the rounds that are left, and the number of positions at the end.
unfoldable pub positions_loop : Desktop → ℕ → Bytes → ℕ → ℕ → List Line × ℕ
unfolding next_entry position_line
positions_loop d zero text p idx = ([], idx)
positions_loop d (suc fuel) text p idx = elim (next_entry entry_needle text p) [
  | none ↦ ([], idx)
  | some (entry, p') ↦
      let (lines, count) = positions_loop d fuel text p' (idx + 1) in
      (position_line d (idx + 1) entry ∷ lines, count)
]

-- Each entry ends behind its start, so one more round than the text has bytes is enough.
unfoldable pub position_lines : Desktop → ℕ → ℕ → Bytes → List Line
unfolding positions_loop
position_lines d elapsed type payload =
    let (lines, count) = positions_loop d (length payload + 1) payload 0 0 in
    if type == resp_error
    then server_error d payload
    else codes "Portfolio Snapshot:"
      ∷ (lines
          ++ ((codes "  Cash balance : $" ++ utf8_to_wide d (extract_field payload (codes "cash")))
              ∷ (codes "✓  Position query complete –  "
                  ++ (to_string count
                      ++ (codes " position(s) in " ++ (d.print_ms elapsed ++ codes " ms"))))
              ∷ []
              ∷ []))

unfoldable pub run_get_position : Desktop → Bytes → Worker → Worker
unfolding request_command position_lines
run_get_position d account =
    request_command (banner (codes "  GET POSITION"))
      ((codes "Account : " ++ utf8_to_wide d account)
        ∷ codes "Sending GET POSITION request..."
        ∷ [])
      msg_get_pos (account_text account) (position_lines d)
