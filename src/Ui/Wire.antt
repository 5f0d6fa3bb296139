-- ===== src/Ui/Wire.antt =====
-- The client's own header codec (ui_client/src/MainDlg.cpp).
pub mod Hosts
use hs_financial_services.Common.{
  ℕ, zero, suc, ◌+◌, ◌*◌, ◌/◌, ◌%◌, ◌^◌, Bool, true, false, List, [], ◌∷◌, ◌++◌, ltb, if◌then◌else◌,
  length, take, drop, ◌==◌,
}
use hs_financial_services.Common.Text.{Bytes}
use hs_financial_services.Protocol.{at}

-- `EncodeHeader`: big-endian, with no call of the byte-order functions.
unfoldable pub encode_header : ℕ → ℕ → ℕ → Bytes
encode_header payload_len msg_type flags =
    (payload_len / 2 ^ 24 % 256)
    ∷ (payload_len / 2 ^ 16 % 256)
    ∷ (payload_len / 2 ^ 8 % 256)
    ∷ (payload_len % 256)
    ∷ (msg_type / 2 ^ 8 % 256)
    ∷ (msg_type % 256)
    ∷ flags
    ∷ 0
    ∷ []

-- `DecodeHeader`: the payload length and the type.
unfoldable pub decode_header : Bytes → ℕ × ℕ
decode_header buf = (
  at buf 0 * 2 ^ 24 + at buf 1 * 2 ^ 16 + at buf 2 * 2 ^ 8 + at buf 3,
  at buf 4 * 2 ^ 8 + at buf 5,
)
