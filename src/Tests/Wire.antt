-- ===== src/Tests/Wire.antt =====
-- Examples on the wire format, the JSON helpers and the router.
use hs_financial_services.Common.{
  ◌^◌, ◌≡◌, ◌<◌, ◌≤◌, length, ltb, if◌then◌else◌, false, none, some, [], ◌∷◌, ◌++◌, ok, throw,
  arith,
}
use hs_financial_services.Common.Text.{codes}
use hs_financial_services.Json.{
  quote, extract_string, extract_number, extract_int, extract_field, json_escape,
}
use hs_financial_services.Json.Escape.{read_string, is_readable, read_string-json_escape}
use hs_financial_services.Json.Object.{Field, str, raw, AllFields}
use hs_financial_services.Json.Object.Searches.{extract-object}
use hs_financial_services.Protocol
use hs_financial_services.Protocol.{
  MessageHeader, IsHeader, buy_order, make, too_long, max_payload_size,
}
use hs_financial_services.Protocol.Endian.{little_endian, network_host, little_endian-IsByteOrder}
use hs_financial_services.Protocol.RoundTrip.{decode_header-encode_header}
use hs_financial_services.Router.{Router, lookup, register_handler, dispatch, duplicate}
use hs_financial_services.Router.Register.{dispatch-register_handler}
use hs_financial_services.Router.Dispatch.{dispatch-decode_header}
use hs_financial_services.Services.{ServiceState}
use hs_financial_services.Services.Catalog.{register_services, handle_ping}
use hs_financial_services.Services.Catalog.Table.{server_router}
use hs_financial_services.Services.Sql.{handle_sql_query}
use hs_financial_services.Ui.Wire
use hs_financial_services.Ui.Wire.Hosts.{decode_header-network_host, decode_header-refuses}
use hs_financial_services.Tests.{whole_numbers, at_start, ping_request}

abbrev order_header : MessageHeader
order_header = record { payload_length = 300; message_type = buy_order; flags = 0; reserved = 0 }

order_header-IsHeader : IsHeader order_header
order_header-IsHeader = omega arith

decode_header-encode_header_example :
    Protocol.decode_header little_endian (Protocol.encode_header little_endian order_header)
    ≡ ok order_header
decode_header-encode_header_example =
    decode_header-encode_header little_endian order_header little_endian-IsByteOrder
      order_header-IsHeader

decode_header-network_host_example :
    (Protocol.decode_header network_host (Wire.encode_header 300 buy_order 0) ≡ ok order_header)
    × (Wire.decode_header (Protocol.encode_header network_host order_header) ≡ (300, buy_order))
decode_header-network_host_example = decode_header-network_host order_header order_header-IsHeader

decode_header-refuses_example :
    Protocol.decode_header little_endian (Wire.encode_header 300 buy_order 0) ≡ throw too_long
decode_header-refuses_example =
    decode_header-refuses order_header order_header-IsHeader (ground arith) (ground arith)

read_string-json_escape_example :
    (read_string false (json_escape (codes "a\"b\n") ++ (quote ∷ codes "}")) []
      ≡ (if is_readable (codes "a\"b\n") then some (codes "a\"b\n", codes "}") else none))
read_string-json_escape_example = read_string-json_escape (codes "a\"b\n") (codes "}")

-- The control character 1 is left as it is, and a JSON reader refuses it.
refused_control : read_string false (json_escape (1 ∷ []) ++ (quote ∷ codes "}")) [] ≡ none
refused_control = read_string-json_escape (1 ∷ []) (codes "}")

abbrev symbol_field : Field
symbol_field = str (codes "symbol") (codes "AAPL")

abbrev days_field : Field
days_field = raw (codes "days") (codes "14")

fields : AllFields (symbol_field ∷ days_field ∷ [])
fields = ground arith

extract-object_example :
    (extract_string (codes "{\"symbol\":\"AAPL\",\"days\":14}") (codes "days") ≡ [])
    × (extract_number (codes "{\"symbol\":\"AAPL\",\"days\":14}") (codes "days") ≡ codes "14")
    × (extract_int (codes "{\"symbol\":\"AAPL\",\"days\":14}") (codes "days") 30 ≡ some 14)
    × (extract_field (codes "{\"symbol\":\"AAPL\",\"days\":14}") (codes "days") ≡ codes "14")
extract-object_example =
    extract-object (codes "days") 30 symbol_field (days_field ∷ []) (ground arith) fields

-- A second registration does not replace the first.
abbrev one_handler : Router ServiceState
one_handler = (6, handle_ping) ∷ []

dispatch-register_handler_example :
    ((register_handler 6 handle_sql_query one_handler).0 ≡ throw duplicate)
    × (dispatch (register_handler 6 handle_sql_query one_handler).1 ping_request at_start
        ≡ dispatch one_handler ping_request at_start)
unfolding lookup
dispatch-register_handler_example =
    dispatch-register_handler 6 handle_sql_query one_handler ping_request at_start

ping_type : ping_request.header.message_type < 2 ^ 16
unfolding make
ping_type = omega arith

short_reply :
    length (dispatch (server_router whole_numbers) ping_request at_start).0.payload < 2 ^ 32
unfolding dispatch make register_services lookup handle_ping
short_reply = omega arith

dispatch-decode_header_example :
    let response = (dispatch (server_router whole_numbers) ping_request at_start).0 in
    let size = length response.payload in
    (0x8000 ≤ response.header.message_type)
    × (response.header.message_type < 2 ^ 16)
    × (response.header.flags ≡ 0)
    × (response.header.payload_length ≡ size)
    × (Protocol.decode_header little_endian (Protocol.encode_header little_endian response.header)
        ≡ (if ltb max_payload_size size then throw too_long else ok response.header))
dispatch-decode_header_example =
    dispatch-decode_header (server_router whole_numbers) ping_request at_start little_endian
      little_endian-IsByteOrder ping_type short_reply
