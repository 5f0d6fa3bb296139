-- ===== src/Ui/Commands/Entries.antt =====
-- The loop of RunGetPosition (ui_client/src/MainDlg.cpp) on the text of the server's answer.
use hs_financial_services.Common.{
  ℕ, zero, suc, ◌+◌, ◌≡◌, refl, ap, sym, ◌∙◌, inl, inr, Option, none, some, List, [], ◌∷◌, ◌++◌,
  length, drop, arith, Option-cases,
}
use hs_financial_services.Json.{quote, extract_field, string_needle, number_needle}
use hs_financial_services.Json.Extract.{extract_field-seek}
use hs_financial_services.Json.Object.Members.{seek-str, seek-str_number}
use hs_financial_services.Common.Decimal.{to_string}
use hs_financial_services.Common.Text.{Bytes, codes, Lacks, find_from, find, seek}
use hs_financial_services.Services.Position.{position_text, positions}
use hs_financial_services.Services.Position.Reply.{positions-Behind}
use hs_financial_services.Ui.Worker.{Line, Desktop, utf8_to_wide}
use hs_financial_services.Ui.Commands.Scan.{next_entry}
use hs_financial_services.Ui.Commands.Scan.Count.{drop-drop}
use hs_financial_services.Ui.Commands.Scan.Suffix.{
  find_from-Lacks, next_entry-find, next_entry-drop,
}
use hs_financial_services.Ui.Commands.Portfolio.{entry_needle, position_line, positions_loop}

-- The loop over a text with the answer of a round given.
abbrev round : Desktop → ℕ → Bytes → ℕ → Option (Bytes × ℕ) → List Line × ℕ
round d fuel text idx none = ([], idx)
round d fuel text idx (some (entry, p)) =
    let (lines, count) = positions_loop d fuel text p (idx + 1) in
    (position_line d (idx + 1) entry ∷ lines, count)

module _ (d : Desktop) where
  positions_loop-drop :
      (fuel : ℕ) (text : Bytes) (p idx : ℕ)
      → positions_loop d fuel text p idx ≡ positions_loop d fuel (drop p text) 0 idx
  unfolding positions_loop
  positions_loop-drop zero text p idx = refl
  positions_loop-drop (suc fuel) text p idx =
      ap (round d fuel text idx) (next_entry-drop entry_needle text p)
      ∙ elim (Option-cases (next_entry entry_needle (drop p text) 0)) [
        | inl e ↦ rw (e, positions_loop) refl
        | inr ((entry, k), e) ↦
            rw (e, positions_loop)
              (ap (λ (q : List Line × ℕ). (position_line d (idx + 1) entry ∷ q.0, q.1))
                (positions_loop-drop fuel text (p + k) (idx + 1)
                  ∙ ap (λ s. positions_loop d fuel s 0 (idx + 1)) (sym (drop-drop p k text))
                  ∙ sym (positions_loop-drop fuel (drop p text) k (idx + 1))))
      ]

-- The answer behind the account.
abbrev pub behind_account : Bytes
behind_account = codes "\"," ++ positions

drop-length : (s rest : Bytes) → drop (length s) (s ++ rest) ≡ rest
drop-length [] rest = refl
drop-length (c ∷ s) rest = drop-length s rest

-- The line of a position, by the texts of its members.
abbrev pub listed : Desktop → Bytes → Bytes → Bytes → Bytes → Bytes → Bytes → Line
listed d number symbol qty avg_cost current pnl =
    codes "  ["
    ++ (number
        ++ (codes "] "
            ++ (utf8_to_wide d symbol
                ++ (codes "  qty="
                    ++ (utf8_to_wide d qty
                        ++ (codes "  avg=$"
                            ++ (utf8_to_wide d avg_cost
                                ++ (codes "  cur=$"
                                    ++ (utf8_to_wide d current
                                        ++ (codes "  P&L=$" ++ utf8_to_wide d pnl))))))))))

abbrev pub three_positions : Desktop → List Line
three_positions d =
    listed d (codes "1") (codes "AAPL") (codes "500") (codes "178.30") (codes "182.50")
      (codes "2100.00")
    ∷ listed d (codes "2") (codes "MSFT") (codes "200") (codes "305.10") (codes "310.10")
        (codes "1000.00")
    ∷ listed d (codes "3") (codes "GOOGL") (codes "50") (codes "138.20") (codes "140.75")
        (codes "127.50")
    ∷ []

positions_loop-behind :
    (d : Desktop) (fuel : ℕ)
    → positions_loop d (suc (suc (suc (suc fuel)))) behind_account 0 0 ≡ (three_positions d, 3)
unfolding positions_loop extract_field to_string
positions_loop-behind d fuel = refl

module _ (d : Desktop) (account : Bytes) (clean : Lacks quote account) where
  drop-answer : drop (12 + length account) (position_text account) ≡ behind_account
  unfolding position_text
  drop-answer =
      sym (drop-drop 12 (length account) (position_text account))
      ∙ drop-length account behind_account

  find-answer :
      find (position_text account) entry_needle 0
      ≡ find (position_text account) entry_needle (12 + length account)
  unfolding position_text find find_from
  find-answer =
      find_from-Lacks b'{' (codes "symbol\":") account behind_account 12 clean refl
      ∙ ap (λ s. find_from entry_needle s (12 + length account)) (sym drop-answer)

  pub positions_loop-answer :
      (fuel : ℕ)
      → positions_loop d (suc (suc (suc (suc fuel)))) (position_text account) 0 0
        ≡ (three_positions d, 3)
  unfolding positions_loop
  positions_loop-answer fuel =
      ap (round d (suc (suc (suc fuel))) (position_text account) 0)
        (next_entry-find entry_needle (position_text account) 0 (12 + length account) find-answer)
      ∙ positions_loop-drop d (suc (suc (suc (suc fuel)))) (position_text account)
          (12 + length account) 0
      ∙ ap (λ s. positions_loop d (suc (suc (suc (suc fuel)))) s 0 0) drop-answer
      ∙ positions_loop-behind d fuel

  pub enough :
      length (position_text account) + 1
      ≡ suc (suc (suc (suc (length (account ++ behind_account) + 9))))
  unfolding position_text
  enough = omega arith

  -- The account is no place for a key.
  seek_string-cash : seek (string_needle (codes "cash")) (position_text account) ≡ none
  unfolding position_text
  seek_string-cash =
      seek-str (codes "cash") (codes "account") account (codes "," ++ positions) (ground arith)
        (ground arith) clean positions-Behind

  seek_number-cash :
      seek (number_needle (codes "cash")) (position_text account) ≡ some (codes "12345.67}")
  unfolding position_text
  seek_number-cash =
      seek-str_number (codes "cash") (codes "account") account (codes "," ++ positions)
        (ground arith) (ground arith) clean positions-Behind

  pub cash-answer : extract_field (position_text account) (codes "cash") ≡ codes "12345.67"
  cash-answer =
      extract_field-seek (position_text account) (codes "cash")
      ∙ rw (seek_string-cash, seek_number-cash) refl
