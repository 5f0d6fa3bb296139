-- ===== src/Ui/Commands/Trade.antt =====
-- RunBuyOrder and RunSellOrder (ui_client/src/MainDlg.cpp).
use hs_financial_services.Common.{ℕ, List, [], ◌∷◌, ◌++◌, ◌==◌, if◌then◌else◌}
use hs_financial_services.Common.Int.{ℤ}
use hs_financial_services.Common.Text.{Bytes, codes}
use hs_financial_services.Json.{extract_field}
use hs_financial_services.Ui.Worker.{Line, Desktop, utf8_to_wide, Worker}
use hs_financial_services.Ui.Commands.{
  msg_buy_order, msg_sell_order, resp_error, print_int, banner, server_error, request_command,
}

-- The request; `price` is what the streams print for the number.
abbrev pub order_request : Bytes → ℤ → Bytes → Bytes → Bytes
order_request symbol qty price account =
    codes "{\"symbol\":\""
    ++ (symbol
        ++ (codes "\",\"qty\":"
            ++ (print_int qty
                ++ (codes ",\"price\":"
                    ++ (price ++ (codes ",\"account\":\"" ++ (account ++ codes "\"}")))))))

-- The line that the order is announced with.
abbrev pub order_line : Desktop → Bytes → ℤ → Bytes → Bytes → Line
order_line d symbol qty price account =
    codes "  Symbol  : "
    ++ (utf8_to_wide d symbol
        ++ (codes "   Qty: "
            ++ (print_int qty
                ++ (codes "   Price: $"
                    ++ (price ++ (codes "   Account: " ++ utf8_to_wide d account))))))

abbrev pub order_announced : Desktop → Bytes → Bytes → ℤ → Bytes → Bytes → List Line
order_announced d title symbol qty price account =
    order_line d symbol qty price account
    ∷ (codes "Sending " ++ (title ++ codes " request..."))
    ∷ []

-- The lines of an acknowledgement; the symbol is the one that was asked for.
abbrev pub acknowledged :
    Desktop → Bytes → ℕ → Bytes → Bytes → Bytes → Bytes → Bytes → Bytes → List Line
acknowledged d title elapsed order_id side symbol qty price status =
    codes "Order Acknowledgement:"
    ∷ (codes "  Order ID : " ++ utf8_to_wide d order_id)
    ∷ (codes "  Side     : " ++ utf8_to_wide d side)
    ∷ (codes "  Symbol   : " ++ utf8_to_wide d symbol)
    ∷ (codes "  Qty      : " ++ utf8_to_wide d qty)
    ∷ (codes "  Price    : $" ++ utf8_to_wide d price)
    ∷ (codes "  Status   : " ++ utf8_to_wide d status)
    ∷ (codes "✓  "
        ++ (title
            ++ (codes " order "
                ++ (utf8_to_wide d order_id
                    ++ (codes " acknowledged in " ++ (d.print_ms elapsed ++ codes " ms"))))))
    ∷ []
    ∷ []

unfoldable pub show_ack : Desktop → Bytes → Bytes → ℕ → ℕ → Bytes → List Line
show_ack d title symbol elapsed resp_type resp_payload =
    if resp_type == resp_error
    then server_error d resp_payload
    else acknowledged d title elapsed (extract_field resp_payload (codes "order_id"))
        (extract_field resp_payload (codes "side")) symbol
        (extract_field resp_payload (codes "qty")) (extract_field resp_payload (codes "price"))
        (extract_field resp_payload (codes "status"))

-- The two commands differ in the type of the message and in the word for it.
unfoldable pub run_order : Desktop → ℕ → Bytes → Bytes → ℤ → Bytes → Bytes → Worker → Worker
unfolding request_command show_ack
run_order d type title symbol qty price account =
    request_command (banner (codes "  " ++ (title ++ codes " ORDER")))
      (order_announced d title symbol qty price account) type
      (order_request symbol qty price account) (show_ack d title symbol)

unfoldable pub run_buy_order : Desktop → Bytes → ℤ → Bytes → Bytes → Worker → Worker
unfolding run_order
run_buy_order d = run_order d msg_buy_order (codes "BUY")

unfoldable pub run_sell_order : Desktop → Bytes → ℤ → Bytes → Bytes → Worker → Worker
unfolding run_order
run_sell_order d = run_order d msg_sell_order (codes "SELL")
