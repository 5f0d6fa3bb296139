-- ===== src/Protocol/RoundTrip.antt =====
-- Encoding and decoding headers under any byte order that is as documented.
use hs_financial_services.Common.{
  ℕ, ◌+◌, ◌*◌, ◌/◌, ◌%◌, ◌^◌, ◌<◌, ◌≡◌, refl, ltb, if◌then◌else◌, length, ok, throw, arith,
}
use hs_financial_services.Protocol.{
  MessageHeader, ByteOrder, IsByteOrder, IsHeader, encode_header, decode_header, max_payload_size,
  header_size, too_long, AllBytes,
}

-- The bytes of a 32-bit word, put together again.
pub word32 :
    (x : ℕ)
    → x < 2 ^ 32
    → x / 2 ^ 24 % 256 * 2 ^ 24 + x / 2 ^ 16 % 256 * 2 ^ 16 + x / 2 ^ 8 % 256 * 2 ^ 8 + x % 256 ≡ x
word32 x h = omega arith

pub word16 : (x : ℕ) → x < 2 ^ 16 → x / 2 ^ 8 % 256 * 2 ^ 8 + x % 256 ≡ x
word16 x h = omega arith

-- With lawful byte-order functions, and a header whose fields fit their types, decoding what was
-- encoded gives the header back with its reserved byte cleared, or the exception if the payload
-- length is over the limit.
pub decode_header-encode_header :
    (o : ByteOrder) (h : MessageHeader)
    → IsByteOrder o
    → IsHeader h
    → decode_header o (encode_header o h) ≡ (
        if ltb max_payload_size h.payload_length
        then throw too_long
        else ok (record h { reserved = 0 }))
unfolding encode_header decode_header
decode_header-encode_header o h l v = rw (
  word32 (o.htonl h.payload_length) (l.htonl-lt _ v.payload_length-lt),
  word16 (o.htons h.message_type) (l.htons-lt _ v.message_type-lt),
  l.ntohl-htonl _ v.payload_length-lt,
  l.ntohs-htons _ v.message_type-lt,
)

-- An encoded header is eight bytes.
pub length-encode_header :
    (o : ByteOrder) (h : MessageHeader) → length (encode_header o h) ≡ header_size
unfolding encode_header
length-encode_header o h = refl

pub encode_header-AllBytes :
    (o : ByteOrder) (h : MessageHeader) → IsHeader h → AllBytes (encode_header o h)
unfolding encode_header
encode_header-AllBytes o h v = omega arith
