-- ===== src/Services/Trade.antt =====
-- build_order_ack and its two handlers (server/src/services/trade_service.cpp).
pub mod Ack
use hs_financial_services.Common.{ℕ, ◌+◌, ◌%◌, ◌^◌, ◌++◌, ok}
use hs_financial_services.Common.Text.{Bytes, codes}
use hs_financial_services.Common.Decimal.{to_string}
use hs_financial_services.Json.{extract_string, extract_number}
use hs_financial_services.Router.{ServiceHandler}
use hs_financial_services.Services.{ServiceState, default_to}

-- `g_order_counter`, as it is initialised.
abbrev pub first_order : ℕ
first_order = 1

-- What the stream of `build_order_ack` holds at the end.
unfoldable pub ack_text : ℕ → Bytes → Bytes → Bytes → Bytes → Bytes → Bytes
ack_text order_id symbol side account qty_s price_s =
    codes "{\"order_id\":\"ORD-"
    ++ (to_string order_id
        ++ (codes "\",\"symbol\":\""
            ++ (symbol
                ++ (codes "\",\"side\":\""
                    ++ (side
                        ++ (codes "\",\"account\":\""
                            ++ (account
                                ++ (codes "\",\"qty\":"
                                    ++ (qty_s
                                        ++ (codes ",\"price\":"
                                            ++ (price_s
                                                ++ codes ",\"status\":\"FILLED\"}")))))))))))

-- `fetch_add` on the 64-bit counter returns the old value and wraps.
unfoldable pub build_order_ack : Bytes → ServiceHandler ServiceState
unfolding ack_text
build_order_ack side request_json s =
    let symbol = extract_string request_json (codes "symbol") in
    let qty_s = extract_number request_json (codes "qty") in
    let price_s = extract_number request_json (codes "price") in
    let account = extract_string request_json (codes "account") in
    (
      ok (
          ack_text s.order_counter (default_to (codes "UNKNOWN") symbol) side
            (default_to (codes "N/A") account) (default_to (codes "0") qty_s)
            (default_to (codes "0") price_s)),
      record s { order_counter = (s.order_counter + 1) % 2 ^ 64 },
    )

unfoldable pub handle_buy_order : ServiceHandler ServiceState
unfolding build_order_ack
handle_buy_order = build_order_ack (codes "BUY")

unfoldable pub handle_sell_order : ServiceHandler ServiceState
unfolding build_order_ack
handle_sell_order = build_order_ack (codes "SELL")
