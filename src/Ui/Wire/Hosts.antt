-- ===== src/Ui/Wire/Hosts.antt =====
-- The client's headers at a server, by the byte order of the server's host.
use hs_financial_services.Common.{◌%◌, ◌≡◌, ◌≢◌, true, ltb, if◌then◌else◌, ok, throw, arith}
use hs_financial_services.Protocol
use hs_financial_services.Protocol.{MessageHeader, IsHeader, max_payload_size, too_long}
use hs_financial_services.Protocol.RoundTrip.{word32, word16}
use hs_financial_services.Protocol.Endian.{little_endian, network_host, swap32, swap16}
use hs_financial_services.Ui.Wire.{encode_header, decode_header}

-- For headers whose fields fit their types, the two codecs agree on a host in network order: the
-- server reads the client's headers, unless the length is over the limit, and the client the
-- server's.
pub decode_header-network_host :
    (h : MessageHeader)
    → IsHeader h
    → (Protocol.decode_header network_host (encode_header h.payload_length h.message_type h.flags)
        ≡ (if ltb max_payload_size h.payload_length
            then throw too_long
            else ok (record h { reserved = 0 })))
      × (decode_header (Protocol.encode_header network_host h) ≡ (h.payload_length, h.message_type))
unfolding Protocol.decode_header Protocol.encode_header encode_header decode_header
decode_header-network_host h v =
    let long = word32 h.payload_length v.payload_length-lt in
    let short = word16 h.message_type v.message_type-lt in (rw (long, short), rw (long, short))

-- On a little-endian host the server puts the least significant byte first, against the protocol's
-- description, and so does not read the client's headers: it takes the bytes of the length and of
-- the type in reverse.
pub decode_header-little_endian :
    (h : MessageHeader)
    → IsHeader h
    → Protocol.decode_header little_endian (encode_header h.payload_length h.message_type h.flags)
      ≡ (if ltb max_payload_size (swap32 h.payload_length)
          then throw too_long
          else ok (record {
            payload_length = swap32 h.payload_length;
            message_type = swap16 h.message_type;
            flags = h.flags;
            reserved = 0;
          }))
unfolding Protocol.decode_header encode_header
decode_header-little_endian h v =
    let long = word32 h.payload_length v.payload_length-lt in
    let short = word16 h.message_type v.message_type-lt in rw (long, short)

-- For headers whose fields fit their types, a server on a little-endian host refuses every header
-- of the client but those of length 1 and of multiples of 256.
pub decode_header-refuses :
    (h : MessageHeader)
    → IsHeader h
    → h.payload_length % 256 ≢ 0
    → h.payload_length ≢ 1
    → Protocol.decode_header little_endian (encode_header h.payload_length h.message_type h.flags)
      ≡ throw too_long
decode_header-refuses h v odd more =
    let over : ltb max_payload_size (swap32 h.payload_length) ≡ true =
      ground (arith, v.payload_length-lt) in
    rw (decode_header-little_endian h v, over)
