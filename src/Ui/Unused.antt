-- ===== src/Ui/Unused.antt =====
-- The helpers of ui_client/src/MainDlg.cpp that nothing calls: LogA, ExtractString, SummariseResponse.
use hs_financial_services.Common.{
  ℕ, zero, suc, ◌+◌, ◌-◌, ◌/◌, ◌%◌, [], ◌∷◌, ◌++◌, ltb, if◌then◌else◌, length, take,
}
use hs_financial_services.Common.Text.{Bytes, codes}
use hs_financial_services.Json.{extract_field}
use hs_financial_services.Ui.Worker.{Line, Desktop, utf8_to_wide}
use hs_financial_services.Ui.Dialog.{Dialog, post_lines}

unfoldable pub log_a : Desktop → Bytes → Dialog → Dialog
log_a d line s = post_lines (utf8_to_wide d line ∷ []) s

unfoldable pub extract_string : Bytes → Bytes → Bytes
extract_string json key = extract_field json key

abbrev pub hex_digit : ℕ → ℕ
hex_digit n = if ltb n 10 then b'0' + n else b'a' + (n - 10)

-- `std::hex`, for a number of at most `fuel` digits.
abbrev pub print_hex : ℕ → ℕ → Bytes → Bytes
print_hex zero n out = out
print_hex (suc fuel) n out =
    let rest = print_hex fuel (n / 16) (hex_digit (n % 16) ∷ out) in
    if ltb n 16 then hex_digit n ∷ out else rest

-- A type of 16 bits has four digits at most.
unfoldable pub summarise_response : Desktop → ℕ → Bytes → Line
summarise_response d type json =
    let shown = if ltb 200 (length json) then take 200 json ++ codes "..." else json in
    codes "[type=0x" ++ (print_hex 4 type [] ++ (codes "] " ++ utf8_to_wide d shown))
