-- ===== src/Ui/Commands/Late.antt =====
-- A command whose response is later than the timeout, and the command behind it.
use hs_financial_services.Common.{
  ℕ, ◌≤◌, ◌≡◌, refl, ap, ◌∙◌, Bool, true, none, List, [], ◌∷◌, ◌++◌, if◌then◌else◌, length,
}
use hs_financial_services.Common.Text.{Bytes}
use hs_financial_services.Protocol
use hs_financial_services.Protocol.{Message}
use hs_financial_services.Protocol.Endian.{network_host}
use hs_financial_services.Router.Dispatch.{IsResponse}
use hs_financial_services.Ui.Socket.{Arrivals, send_msg, recv_msg, max_payload}
use hs_financial_services.Ui.Socket.Chunks.{IsOpen, joined}
use hs_financial_services.Ui.Worker.{
  Line, Worker, read_clock, log_lines, finish_exchange, round_trip,
}
use hs_financial_services.Ui.Worker.Exchange.{elapsed, exchange-answered}
use hs_financial_services.Ui.Commands.{not_connected, request_failed, request_command, request}
use hs_financial_services.Ui.Commands.Served.{asked, request_command-served}

-- The worker behind a command whose receive timed out, with `pieces` still to arrive.
abbrev pub timed_out : List Line → List Line → ℕ → Bytes → Arrivals → Worker → Worker
timed_out opening announced type text pieces w =
    let started = (read_clock (log_lines announced (log_lines opening w))).1 in
    log_lines request_failed (record started {
      accepts = (send_msg type text w.accepts).2;
      sent = w.sent ++ (send_msg type text w.accepts).1;
      arrivals = pieces;
    })

recv_msg-timeout : (pieces : Arrivals) → recv_msg ([] ∷ pieces) ≡ (none, pieces)
unfolding recv_msg
recv_msg-timeout pieces = refl

request_command-timed_out :
    (opening announced : List Line) (type : ℕ) (text : Bytes) (show : ℕ → ℕ → Bytes → List Line)
    (pieces : Arrivals) (w : Worker)
    → w.connected ≡ true
    → (send_msg type text w.accepts).0 ≡ true
    → w.arrivals ≡ [] ∷ pieces
    → request_command opening announced type text show w
      ≡ timed_out opening announced type text pieces w
unfolding request_command request round_trip
request_command-timed_out opening announced type text show pieces w on sent late =
    let started = log_lines announced (log_lines opening w) in
    ap
      (λ (b : Bool).
        if b
        then request announced type text show (log_lines opening w)
        else log_lines not_connected (log_lines opening w))
      on
    ∙ ap (finish_exchange request_failed show (read_clock started).0) (
        exchange-answered type text (read_clock started).1 none pieces sent
          (ap recv_msg late ∙ recv_msg-timeout pieces))

-- Two requests on a connection that can send both: if the receive of the first command times out
-- before any byte of its response has come, that command reports a failure and leaves the
-- connection as it is; and when the response, which is not over the limit, then comes from a host in
-- network order, in pieces of whatever sizes, the second command shows it as the answer to its own
-- request, and leaves on the connection what came behind it.
pub request_command-late :
    (opening announced opening' announced' : List Line) (type type' : ℕ) (text text' : Bytes)
    (show show' : ℕ → ℕ → Bytes → List Line) (m : Message) (rest : Bytes) (pieces : Arrivals)
    (w : Worker)
    → IsResponse m
    → w.connected ≡ true
    → (send_msg type text w.accepts).0 ≡ true
    → (send_msg type' text' (send_msg type text w.accepts).2).0 ≡ true
    → length m.payload ≤ max_payload
    → w.arrivals ≡ [] ∷ pieces
    → IsOpen pieces
    → joined pieces ≡ Protocol.encode_header network_host m.header ++ (m.payload ++ rest)
    → (request_command opening announced type text show w
        ≡ timed_out opening announced type text pieces w)
      × (left : Arrivals) × (request_command opening' announced' type' text' show'
            (request_command opening announced type text show w)
          ≡ log_lines
              (show'
                (elapsed (timed_out opening announced type text pieces w))
                m.header.message_type
                m.payload)
              (asked opening' announced' type' text' left
                (timed_out opening announced type text pieces w)))
      × (joined left ≡ rest)
request_command-late opening announced opening' announced' type type' text text' show show' m rest
      pieces w r on sent sent' fits late open_ arrived =
    let w' = timed_out opening announced type text pieces w in
    let first = request_command-timed_out opening announced type text show pieces w on sent late in
    let (left, e, o, j) =
      request_command-served opening' announced' type' text' show' m rest w' _ refl r (record {
        connected = on;
        sent = sent';
        fits = fits;
        is_open = open_;
        arrived = arrived;
      }) in
    (first, left, ap (request_command opening' announced' type' text' show') first ∙ e, j)
