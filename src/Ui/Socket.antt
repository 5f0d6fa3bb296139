-- ===== src/Ui/Socket.antt =====
-- SendAll, RecvAll, SendMsg and RecvMsg (ui_client/src/MainDlg.cpp).
pub mod Chunks
pub mod Responses
use hs_financial_services.Common.{
  ℕ, zero, suc, ◌+◌, ◌-◌, ◌*◌, ◌%◌, ◌^◌, Bool, true, false, Option, none, some, List, [], ◌∷◌, ◌++◌,
  ltb, leb, if◌then◌else◌, length, take, drop,
}
use hs_financial_services.Common.Text.{Bytes}
use hs_financial_services.Ui.Wire.{encode_header, decode_header}

abbrev pub max_payload : ℕ
max_payload = 16 * 1024 * 1024

-- What the calls of `send` return, one number for each call: how many bytes are taken, at most those
-- offered, and 0 for an error too.
abbrev pub Accepts : Type 0
Accepts = List ℕ

-- Whether everything was sent, the bytes that were, and the calls that are left.
unfoldable pub send_all : Bytes → Accepts → Bool × Bytes × Accepts
send_all [] accepts = (true, [], accepts)
send_all (b ∷ data_) [] = (false, [], [])
send_all (b ∷ data_) (zero ∷ accepts) = (false, [], accepts)
send_all (b ∷ data_) (suc n ∷ accepts) =
    let (done, sent, left) = send_all (drop n data_) accepts in
    (done, b ∷ (take n data_ ++ sent), left)

-- What the calls of `recv` meet: the pieces in which bytes arrive. An empty piece is a call that fails,
-- by the end of the connection or by the timeout, and behind the last piece every call fails.
abbrev pub Arrivals : Type 0
Arrivals = List Bytes

-- `recv` of at most `max` bytes, with `none` for a call that fails, and what is left to arrive.
unfoldable pub recv : ℕ → Arrivals → Option Bytes × Arrivals
recv max [] = (none, [])
recv max ([] ∷ pieces) = (none, pieces)
recv max ((b ∷ piece) ∷ pieces) =
    if leb (length (b ∷ piece)) max
    then (some (b ∷ piece), pieces)
    else (some (take max (b ∷ piece)), drop max (b ∷ piece) ∷ pieces)

-- The bytes of a call that succeeded go behind those received. Such a call yields a byte at least, so
-- `len` calls are enough.
unfoldable pub recv_loop : ℕ → ℕ → Bytes → Arrivals → Option Bytes × Arrivals
unfolding recv
recv_loop fuel zero data_ pieces = (some data_, pieces)
recv_loop zero (suc len) data_ pieces = (none, pieces)
recv_loop (suc fuel) (suc len) data_ pieces =
    let (answer, pieces') = recv (suc len) pieces in
    elim answer [
      | none ↦ (none, pieces')
      | some got ↦ recv_loop fuel (suc len - length got) (data_ ++ got) pieces'
    ]

unfoldable pub recv_all : ℕ → Arrivals → Option Bytes × Arrivals
unfolding recv_loop
recv_all len pieces = recv_loop len len [] pieces

-- The size of the payload is cast to 32 bits.
unfoldable pub send_msg : ℕ → Bytes → Accepts → Bool × Bytes × Accepts
unfolding send_all encode_header
send_msg type payload accepts =
    let (done, sent, left) = send_all (encode_header (length payload % 2 ^ 32) type 0) accepts in
    let (done', sent', left') = send_all payload left in
    if done then (done', sent ++ sent', left') else (false, sent, left)

-- The part of `RecvMsg` behind `DecodeHeader`. A payload over the limit is left where it is.
unfoldable pub recv_payload : ℕ × ℕ → Arrivals → Option (ℕ × Bytes) × Arrivals
unfolding recv_all
recv_payload (payload_len, type) pieces =
    let (answer, pieces') = recv_all payload_len pieces in
    if ltb max_payload payload_len
    then (none, pieces)
    else elim answer [ none ↦ (none, pieces') | some payload ↦ (some (type, payload), pieces') ]

abbrev pub after_header : Option Bytes × Arrivals → Option (ℕ × Bytes) × Arrivals
unfolding recv_payload decode_header
after_header (none, pieces) = (none, pieces)
after_header (some header, pieces) = recv_payload (decode_header header) pieces

unfoldable pub recv_msg : Arrivals → Option (ℕ × Bytes) × Arrivals
unfolding recv_all after_header
recv_msg pieces = after_header (recv_all 8 pieces)
