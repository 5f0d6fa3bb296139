-- ===== src/Tests/Sessions.antt =====
-- Examples on the sessions and the server's counters.
use hs_financial_services.Common.{◌≡◌, ◌≤◌, refl, [], ◌∷◌, length}
use hs_financial_services.Protocol.{
  encode_header, decode_header, max_payload_size, header_size, buy_order,
}
use hs_financial_services.Protocol.Endian.{little_endian}
use hs_financial_services.Router.{Router}
use hs_financial_services.Services.{ServiceState}
use hs_financial_services.Services.Catalog.Table.{server_router}
use hs_financial_services.Session.{
  Event, new_session, start, run, destroy, reading_body, completed, success, error,
}
use hs_financial_services.Session.Close.{destroy-run-once}
use hs_financial_services.Session.Buffers.{run-buffers}
use hs_financial_services.Tests.{whole_numbers, at_start}

abbrev router : Router ServiceState
router = server_router whole_numbers

-- A header that announces five bytes, and a connection that then fails.
abbrev header_of_five : Event
header_of_five = completed (
    success (
      encode_header little_endian
        (record { payload_length = 5; message_type = buy_order; flags = 0; reserved = 0 })))

destroy-run-once_example :
    (destroy
      (run little_endian router
        (header_of_five ∷ completed error ∷ [])
        (start new_session)
        at_start).0).on_close_calls
    ≡ 1
destroy-run-once_example =
    destroy-run-once little_endian router (header_of_five ∷ completed error ∷ []) at_start

waits_for_body :
    (run little_endian router (header_of_five ∷ []) (start new_session) at_start).0.pending
    ≡ reading_body
unfolding run start decode_header encode_header
waits_for_body = refl

run-buffers_example :
    (length (run little_endian router (header_of_five ∷ []) (start new_session) at_start).0.body_buf
      ≡ (run little_endian router
          (header_of_five ∷ [])
          (start new_session)
          at_start).0.current_header.payload_length)
    × (length
          (run little_endian router (header_of_five ∷ []) (start new_session) at_start).0.body_buf
        ≤ max_payload_size)
    × (length
          (run little_endian router (header_of_five ∷ []) (start new_session) at_start).0.header_buf
        ≡ header_size)
run-buffers_example = run-buffers little_endian router (header_of_five ∷ []) at_start waits_for_body
