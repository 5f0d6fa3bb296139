-- ===== src/Tests/Late.antt =====
-- A pong that is later than the timeout, and the query that takes it for its answer.
use hs_financial_services.Common.{◌≡◌, refl, true, [], ◌∷◌, ◌++◌, ◌≤◌, length, arith}
use hs_financial_services.Common.Text.{codes}
use hs_financial_services.Protocol.{Message, make, encode_header}
use hs_financial_services.Protocol.Endian.{network_host}
use hs_financial_services.Router.Dispatch.{IsResponse}
use hs_financial_services.Ui.Socket.{Arrivals, send_msg, max_payload}
use hs_financial_services.Ui.Socket.Chunks.{joined}
use hs_financial_services.Ui.Worker.{Worker, log_lines}
use hs_financial_services.Ui.Worker.Exchange.{elapsed}
use hs_financial_services.Ui.Commands.{request_command}
use hs_financial_services.Ui.Commands.Served.{asked}
use hs_financial_services.Ui.Commands.Portfolio.{position_lines}
use hs_financial_services.Ui.Commands.Query.{query_text, query_lines}
use hs_financial_services.Ui.Commands.Late.{timed_out, request_command-late}
use hs_financial_services.Tests.{plain_text, worker_with}

abbrev pong_message : Message
pong_message = make 0x8006 (codes "{}") 0

pong_message-IsResponse : IsResponse pong_message
unfolding make
pong_message-IsResponse = omega arith

abbrev pong_pieces : Arrivals
pong_pieces = (0 ∷ 0 ∷ 0 ∷ 2 ∷ 0x80 ∷ 6 ∷ 0 ∷ 0 ∷ []) ∷ (b'{' ∷ b'}' ∷ 7 ∷ []) ∷ []

-- Each of the four calls of `send` takes all that it is given.
abbrev patient : Worker
patient = record (worker_with ([] ∷ pong_pieces)) { accepts = 99 ∷ 99 ∷ 99 ∷ 99 ∷ [] }

pong_arrives :
    joined pong_pieces
    ≡ encode_header network_host pong_message.header ++ (pong_message.payload ++ 7 ∷ [])
unfolding encode_header make
pong_arrives = refl

first_sent : (send_msg 4 (codes "{}") patient.accepts).0 ≡ true
unfolding send_msg
first_sent = refl

second_sent :
    (send_msg 1 (query_text (codes "Q")) (send_msg 4 (codes "{}") patient.accepts).2).0 ≡ true
unfolding send_msg
second_sent = refl

pong_fits : length pong_message.payload ≤ max_payload
unfolding make
pong_fits = omega arith

request_command-late_example :
    (request_command [] [] 4 (codes "{}") (position_lines plain_text) patient
      ≡ timed_out [] [] 4 (codes "{}") pong_pieces patient)
    × (left : Arrivals) × (request_command [] [] 1
          (query_text (codes "Q"))
          (query_lines plain_text)
          (request_command [] [] 4 (codes "{}") (position_lines plain_text) patient)
        ≡ log_lines
            (query_lines plain_text
              (elapsed (timed_out [] [] 4 (codes "{}") pong_pieces patient))
              pong_message.header.message_type
              pong_message.payload)
            (asked [] [] 1
              (query_text (codes "Q"))
              left
              (timed_out [] [] 4 (codes "{}") pong_pieces patient)))
    × (joined left ≡ 7 ∷ [])
request_command-late_example =
    request_command-late [] [] [] [] 4 1 (codes "{}") (query_text (codes "Q"))
      (position_lines plain_text) (query_lines plain_text) pong_message (7 ∷ []) pong_pieces patient
      pong_message-IsResponse refl first_sent second_sent pong_fits refl (ground arith) pong_arrives
