-- ===== src/Ui/Socket/Responses.antt =====
-- The server's responses as the client receives them.
use hs_financial_services.Common.{◌≤◌, ◌≡◌, ap, ◌∙◌, some, ◌++◌, length, arith}
use hs_financial_services.Common.Text.{Bytes}
use hs_financial_services.Protocol
use hs_financial_services.Protocol.{Message, IsHeader}
use hs_financial_services.Protocol.Endian.{network_host}
use hs_financial_services.Protocol.RoundTrip.{length-encode_header}
use hs_financial_services.Router.Dispatch.{IsResponse}
use hs_financial_services.Ui.Wire.Hosts.{decode_header-network_host}
use hs_financial_services.Ui.Socket.{Arrivals, recv_msg, max_payload}
use hs_financial_services.Ui.Socket.Chunks.{IsOpen, joined, recv_msg-joined}

pub recv_msg-IsResponse :
    (m : Message) (rest : Bytes) (pieces : Arrivals)
    → IsResponse m
    → length m.payload ≤ max_payload
    → IsOpen pieces
    → joined pieces ≡ Protocol.encode_header network_host m.header ++ (m.payload ++ rest)
    → (left : Arrivals) × (recv_msg pieces ≡ (some (m.header.message_type, m.payload), left))
      × IsOpen left
      × (joined left ≡ rest)
recv_msg-IsResponse m rest pieces r fits open_ e =
    let h : IsHeader m.header = omega (arith, r.sized, r.type-lt, r.flags-eq-zero) in
    let size : m.header.payload_length ≡ length m.payload = omega (arith, r.sized) in
    recv_msg-joined (Protocol.encode_header network_host m.header) m.payload rest
      m.header.message_type pieces (length-encode_header network_host m.header)
      ((decode_header-network_host m.header h).1 ∙ ap (λ n. (n, m.header.message_type)) size) fits
      open_ e
