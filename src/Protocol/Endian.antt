-- ===== src/Protocol/Endian.antt =====
-- The two byte orders of real hosts, and what each makes of the wire format.
use hs_financial_services.Common.{ℕ, ◌+◌, ◌*◌, ◌/◌, ◌%◌, ◌^◌, arith}
use hs_financial_services.Protocol.{ByteOrder, IsByteOrder}

abbrev pub swap32 : ℕ → ℕ
swap32 x = x % 256 * 2 ^ 24 + x / 2 ^ 8 % 256 * 2 ^ 16 + x / 2 ^ 16 % 256 * 2 ^ 8 + x / 2 ^ 24 % 256

abbrev pub swap16 : ℕ → ℕ
swap16 x = x % 256 * 2 ^ 8 + x / 2 ^ 8 % 256

-- A host whose own order is the network's (big-endian).
abbrev pub network_host : ByteOrder
network_host = record { htonl = λ x. x; ntohl = λ x. x; htons = λ x. x; ntohs = λ x. x }

-- A little-endian host, such as x86-64 or ARM64.
abbrev pub little_endian : ByteOrder
little_endian = record { htonl = swap32; ntohl = swap32; htons = swap16; ntohs = swap16 }

pub network_host-IsByteOrder : IsByteOrder network_host
network_host-IsByteOrder = omega arith

pub little_endian-IsByteOrder : IsByteOrder little_endian
little_endian-IsByteOrder = omega arith
