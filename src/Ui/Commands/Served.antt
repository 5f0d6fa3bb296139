-- ===== src/Ui/Commands/Served.antt =====
-- A command whose request is answered by a message of a server on a host in network order.
use hs_financial_services.Common.{
  ℕ, ◌≤◌, ◌≡◌, ap, ◌∙◌, Bool, true, List, ◌++◌, if◌then◌else◌, length,
}
use hs_financial_services.Common.Text.{Bytes}
use hs_financial_services.Protocol
use hs_financial_services.Protocol.{Message}
use hs_financial_services.Protocol.Endian.{network_host}
use hs_financial_services.Router.Dispatch.{IsResponse}
use hs_financial_services.Ui.Socket.{Arrivals, send_msg, max_payload}
use hs_financial_services.Ui.Socket.Chunks.{IsOpen, joined}
use hs_financial_services.Ui.Socket.Responses.{recv_msg-IsResponse}
use hs_financial_services.Ui.Worker.{Line, Worker, log_lines, round_trip}
use hs_financial_services.Ui.Worker.Exchange.{elapsed, exchanged, round_trip-answered}
use hs_financial_services.Ui.Commands.{not_connected, request_failed, request_command}

-- A connection that works: the request can be sent, and what arrives, in pieces of whatever sizes,
-- is the response and then `rest`.
pub record IsServed (type : ℕ) (text : Bytes) (m : Message) (rest : Bytes) (w : Worker)
    : Type 0 where
  pub connected : w.connected ≡ true
  pub sent : (send_msg type text w.accepts).0 ≡ true
  pub fits : length m.payload ≤ max_payload
  pub is_open : IsOpen w.arrivals
  pub arrived :
      joined w.arrivals ≡ Protocol.encode_header network_host m.header ++ (m.payload ++ rest)

-- The worker behind a command that was answered, before the answer is shown.
abbrev pub asked : List Line → List Line → ℕ → Bytes → Arrivals → Worker → Worker
asked opening announced type text left w =
    exchanged type text left (log_lines announced (log_lines opening w))

pub request_command-served :
    (opening announced : List Line) (type : ℕ) (text : Bytes) (show : ℕ → ℕ → Bytes → List Line)
    (m : Message) (rest : Bytes) (w : Worker) (lines : List Line)
    → show (elapsed w) m.header.message_type m.payload ≡ lines
    → IsResponse m
    → IsServed type text m rest w
    → (left : Arrivals) × (request_command opening announced type text show w
        ≡ log_lines lines (asked opening announced type text left w))
      × IsOpen left
      × (joined left ≡ rest)
unfolding request_command
request_command-served opening announced type text show m rest w lines shows r s =
    let (left, got, o, j) = recv_msg-IsResponse m rest w.arrivals r s.fits s.is_open s.arrived in
    (
      left,
      ap
            (λ (b : Bool).
              if b
              then round_trip type text request_failed show
                  (log_lines announced (log_lines opening w))
              else log_lines not_connected (log_lines opening w))
            s.connected
          ∙ round_trip-answered type text request_failed show
              (log_lines announced (log_lines opening w)) left s.sent m.header.message_type
              m.payload got
          ∙ ap (λ lines'. log_lines lines' (asked opening announced type text left w)) shows,
      o,
      j,
    )
