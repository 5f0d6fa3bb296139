-- ===== src/Protocol.antt =====
-- The wire protocol (server/include/protocol.hpp): header, message, and their serialisation.
-- A byte is a number below 256; `x >> 8 * k & 0xFF` is `x / 256 ^ k % 256`, and an `|` of bytes
-- shifted to different places is their sum.
pub mod RoundTrip
pub mod Endian
use hs_financial_services.Common.{
  ℕ, ◌+◌, ◌*◌, ◌/◌, ◌%◌, ◌^◌, ◌<◌, ◌≡◌, [], ◌∷◌, ltb, if◌then◌else◌, get_or, length, All, Result,
  ok, throw,
}
use hs_financial_services.Common.Text.{Bytes, codes}

abbrev pub max_payload_size : ℕ
max_payload_size = 16 * 1024 * 1024

abbrev pub header_size : ℕ
header_size = 8

-- `enum class MessageType : uint16_t`: `decode_header` casts any 16-bit number to it, so a value is
-- such a number, with names for some.
abbrev pub MessageType : Type 0
MessageType = ℕ

abbrev pub sql_query : MessageType
sql_query = 0x0001

abbrev pub buy_order : MessageType
buy_order = 0x0002

abbrev pub sell_order : MessageType
sell_order = 0x0003

abbrev pub get_position : MessageType
get_position = 0x0004

abbrev pub get_price_history : MessageType
get_price_history = 0x0005

abbrev pub ping : MessageType
ping = 0x0006

abbrev pub sql_result : MessageType
sql_result = 0x8001

abbrev pub order_ack : MessageType
order_ack = 0x8002

abbrev pub position_result : MessageType
position_result = 0x8004

abbrev pub price_hist_result : MessageType
price_hist_result = 0x8005

abbrev pub pong : MessageType
pong = 0x8006

abbrev pub error : MessageType
error = 0xFFFF

pub record MessageHeader : Type 0 where
  pub payload_length : ℕ
  pub message_type : MessageType
  pub flags : ℕ
  pub reserved : ℕ

-- The member initialisers of the struct.
abbrev pub default_header : MessageHeader
default_header = record { payload_length = 0; message_type = ping; flags = 0; reserved = 0 }

pub record Message : Type 0 where
  pub header : MessageHeader
  pub payload : Bytes

-- `Message::make`. The cast of the size to `uint32_t` wraps.
unfoldable pub make : MessageType → Bytes → ℕ → Message
make type json_payload flags = record {
  header = record default_header {
    message_type = type;
    payload_length = length json_payload % 2 ^ 32;
    flags = flags;
  };
  payload = json_payload;
}

-- The byte-order functions of the platform (`arpa/inet.h`, `winsock2.h`), which the code calls.
pub record ByteOrder : Type 0 where
  pub htonl : ℕ → ℕ
  pub ntohl : ℕ → ℕ
  pub htons : ℕ → ℕ
  pub ntohs : ℕ → ℕ

-- Their documentation: words of the same width, and each `ntoh` undoes its `hton`.
pub record IsByteOrder (o : ByteOrder) : Type 0 where
  pub htonl-lt : (x : ℕ) → x < 2 ^ 32 → o.htonl x < 2 ^ 32
  pub htons-lt : (x : ℕ) → x < 2 ^ 16 → o.htons x < 2 ^ 16
  pub ntohl-htonl : (x : ℕ) → x < 2 ^ 32 → o.ntohl (o.htonl x) ≡ x
  pub ntohs-htons : (x : ℕ) → x < 2 ^ 16 → o.ntohs (o.htons x) ≡ x

-- The eight bytes that `encode_header` writes.
unfoldable pub encode_header : ByteOrder → MessageHeader → Bytes
encode_header o hdr =
    let net_len = o.htonl hdr.payload_length in
    let net_type = o.htons hdr.message_type in
    (net_len / 2 ^ 24 % 256)
    ∷ (net_len / 2 ^ 16 % 256)
    ∷ (net_len / 2 ^ 8 % 256)
    ∷ (net_len % 256)
    ∷ (net_type / 2 ^ 8 % 256)
    ∷ (net_type % 256)
    ∷ hdr.flags
    ∷ 0
    ∷ []

abbrev pub too_long : Bytes
too_long = codes "payload_length exceeds kMaxPayloadSize"

-- `in[i]` of the eight-byte buffer
abbrev pub at : Bytes → ℕ → ℕ
at buf i = get_or buf i 0

-- Reads a buffer of eight bytes.
unfoldable pub decode_header : ByteOrder → Bytes → Result MessageHeader
decode_header o buf =
    let net_len = at buf 0 * 2 ^ 24 + at buf 1 * 2 ^ 16 + at buf 2 * 2 ^ 8 + at buf 3 in
    let net_type = at buf 4 * 2 ^ 8 + at buf 5 in
    let hdr : MessageHeader = record {
      payload_length = o.ntohl net_len;
      message_type = o.ntohs net_type;
      flags = at buf 6;
      reserved = at buf 7;
    } in
    if ltb max_payload_size hdr.payload_length then throw too_long else ok hdr

-- The fields of a header fit their C++ types.
pub record IsHeader (h : MessageHeader) : Type 0 where
  pub payload_length-lt : h.payload_length < 2 ^ 32
  pub message_type-lt : h.message_type < 2 ^ 16
  pub flags-lt : h.flags < 256

abbrev pub IsByte : ℕ → Type 0
IsByte b = b < 256

abbrev pub AllBytes : Bytes → Type 0
AllBytes = All IsByte
