-- ===== src/Services/Position/Reply.antt =====
-- What a client reads in a position reply.
use hs_financial_services.Common.{◌≡◌, refl, ap, ◌∙◌, some, ◌∷◌, ◌++◌, ok, arith}
use hs_financial_services.Common.Text.{Bytes, codes, Lacks, seek}
use hs_financial_services.Json.{quote, extract_string, extract_field, string_needle, number_needle}
use hs_financial_services.Json.Extract.{
  extract_field-seek, field_value, or_empty, until_quote-append,
}
use hs_financial_services.Json.Object.Members.{seek-str, Behind}
use hs_financial_services.Json.Object.Clean.{extract_string-Lacks}
use hs_financial_services.Services.{ServiceState, default_to, default_to-Lacks}
use hs_financial_services.Services.Position.{position_text, handle_get_position, positions}

abbrev account_key : Bytes
account_key = codes "account"

pub positions-Behind : Behind (codes "," ++ positions)
positions-Behind = (b',', positions, refl, refl, ground arith, ground arith)

seek-account :
    (account : Bytes)
    → Lacks quote account
    → seek (string_needle account_key) (position_text account)
      ≡ some (account ++ (quote ∷ (codes "," ++ positions)))
unfolding position_text
seek-account account h =
    seek-str account_key account_key account (codes "," ++ positions) (ground arith) (ground arith)
      h positions-Behind

-- The reply names the account that the request names, or `UNKNOWN`, whatever bytes the request
-- holds, and leaves the state of the services alone.
pub handle_get_position-account :
    (request_json : Bytes) (s : ServiceState)
    → (reply : Bytes) × (handle_get_position request_json s ≡ (ok reply, s))
      × (extract_field reply (codes "account")
          ≡ default_to (codes "UNKNOWN") (extract_string request_json (codes "account")))
unfolding handle_get_position
handle_get_position-account request_json s =
    let account = default_to (codes "UNKNOWN") (extract_string request_json account_key) in
    let clean =
      default_to-Lacks (codes "UNKNOWN") _ (ground arith)
        (extract_string-Lacks request_json account_key) in
    (
      position_text account,
      refl,
      extract_field-seek (position_text account) account_key
          ∙ ap (λ o. field_value o (seek (number_needle account_key) (position_text account)))
              (seek-account account clean)
          ∙ ap or_empty (until_quote-append account _ clean),
    )
