-- ===== src/Ui/Commands/Scan.antt =====
-- The loops of the commands over the text of a response (ui_client/src/MainDlg.cpp).
pub mod Count
pub mod Suffix
use hs_financial_services.Common.{ℕ, zero, suc, ◌+◌, ◌-◌, Option, none, some, List, [], ◌∷◌, length}
use hs_financial_services.Common.Text.{Bytes, codes, find, substr}

-- `while ((p = text.find(needle, p)) != npos) { ++count; ++p; }`, the count of the rounds that are left.
unfoldable pub count_loop : ℕ → Bytes → Bytes → ℕ → ℕ
unfolding find
count_loop zero needle text p = 0
count_loop (suc fuel) needle text p = elim (find text needle p) [
  | none ↦ 0
  | some q ↦ suc (count_loop fuel needle text (q + 1))
]

-- The loop from the start of the text. Each round begins behind the last, so one more round than the
-- text has bytes is enough.
unfoldable pub count_found : Bytes → Bytes → ℕ
unfolding count_loop
count_found needle text = count_loop (length text + 1) needle text 0

-- The text from the next occurrence of the needle up to the next `}`, and the position behind it.
unfoldable pub next_entry : Bytes → Bytes → ℕ → Option (Bytes × ℕ)
unfolding find
next_entry needle text p = elim (find text needle p) [
  | none ↦ none
  | some start ↦ elim (find text (codes "}") start) [
    | none ↦ none
    | some end ↦ some (substr text start (end - start + 1), end + 1)
  ]
]
