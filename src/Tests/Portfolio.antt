-- ===== src/Tests/Portfolio.antt =====
-- An example on the positions that the UI client lists.
use hs_financial_services.Common.{◌≤◌, ◌≡◌, refl, sym, subst, [], ◌∷◌, ◌++◌, length, arith}
use hs_financial_services.Common.Text.{Bytes, codes}
use hs_financial_services.Protocol.{make, encode_header, get_position}
use hs_financial_services.Protocol.Endian.{network_host}
use hs_financial_services.Router.{dispatch, respond}
use hs_financial_services.Services.Position.{position_text}
use hs_financial_services.Services.Catalog.Table.{server_router}
use hs_financial_services.Ui.Socket.{Arrivals, send_msg, max_payload}
use hs_financial_services.Ui.Socket.Chunks.{IsOpen, joined}
use hs_financial_services.Ui.Worker.{log_lines}
use hs_financial_services.Ui.Commands.{banner}
use hs_financial_services.Ui.Commands.Portfolio.{account_text, run_get_position}
use hs_financial_services.Ui.Commands.Served.{IsServed, asked}
use hs_financial_services.Ui.Commands.Positions.{
  snapshot, position_message, position_announced, answer-dispatch, run_get_position-listed,
}
use hs_financial_services.Tests.{whole_numbers, at_start, plain_text, worker_with}

abbrev account : Bytes
account = codes "ACC-1"

position_response :
    (dispatch (server_router whole_numbers) (position_message account) at_start).0
    ≡ make 0x8004 (position_text account) 0
unfolding make respond
position_response =
    answer-dispatch plain_text account (ground arith) whole_numbers at_start (ground arith)

-- The answer in one piece behind its header.
abbrev position_arrivals : Arrivals
position_arrivals =
    (0 ∷ 0 ∷ 1 ∷ 23 ∷ 0x80 ∷ 4 ∷ 0 ∷ 0 ∷ [])
    ∷ codes
        "{\"account\":\"ACC-1\",\"positions\":[{\"symbol\":\"AAPL\",\"qty\":500,\"avg_cost\":178.30,\"current\":182.50,\"pnl\":2100.00},{\"symbol\":\"MSFT\",\"qty\":200,\"avg_cost\":305.10,\"current\":310.10,\"pnl\":1000.00},{\"symbol\":\"GOOGL\",\"qty\":50,\"avg_cost\":138.20,\"current\":140.75,\"pnl\":127.50}],\"cash\":12345.67}"
    ∷ []

position_arrives :
    joined position_arrivals
    ≡ encode_header network_host
        (dispatch (server_router whole_numbers) (position_message account) at_start).0.header
      ++ ((dispatch (server_router whole_numbers) (position_message account) at_start).0.payload
          ++ [])
unfolding encode_header make position_text
position_arrives = rw position_response refl

position_fits :
    length (dispatch (server_router whole_numbers) (position_message account) at_start).0.payload
    ≤ max_payload
unfolding make position_text
position_fits = subst (λ m. length m.payload ≤ max_payload) (sym position_response) (omega arith)

position-IsServed :
    IsServed get_position
      (account_text account)
      (dispatch (server_router whole_numbers) (position_message account) at_start).0
      []
      (worker_with position_arrivals)
unfolding send_msg
position-IsServed = record {
  connected = refl;
  sent = refl;
  fits = position_fits;
  is_open = ground arith;
  arrived = position_arrives;
}

run_get_position-listed_example :
    (left : Arrivals) × (run_get_position plain_text account (worker_with position_arrivals)
      ≡ log_lines (snapshot plain_text 250) (
          asked
            (banner (codes "  GET POSITION"))
            (position_announced plain_text account)
            get_position
            (account_text account)
            left
            (worker_with position_arrivals)))
    × IsOpen left
    × (joined left ≡ [])
run_get_position-listed_example =
    run_get_position-listed plain_text account (ground arith) whole_numbers at_start []
      (worker_with position_arrivals) (ground arith) position-IsServed
