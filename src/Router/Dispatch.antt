-- ===== src/Router/Dispatch.antt =====
-- What `dispatch` answers.
use Prim.Native.Nat.{bit_or}
use hs_financial_services.Common.{
  ◌+◌, ◌%◌, ◌^◌, ◌≤◌, ◌<◌, ◌≡◌, refl, ap, sym, ◌∙◌, ltb, if◌then◌else◌, inl, inr, none, some,
  length, Result, ok, throw, arith, Option-cases, dec_lt,
}
use hs_financial_services.Common.Bits.{bit_or-top}
use hs_financial_services.Common.Text.{Bytes}
use hs_financial_services.Protocol.{
  MessageType, Message, make, error, ByteOrder, IsByteOrder, IsHeader, encode_header, decode_header,
  max_payload_size, too_long,
}
use hs_financial_services.Protocol.RoundTrip.{decode_header-encode_header}
use hs_financial_services.Router.{Router, ServiceHandler, lookup, respond, dispatch, not_found}

-- The type that a request's response has: the request's with bit 15 set.
pub bit_or-response : (t : MessageType) → t < 2 ^ 15 → bit_or t 0x8000 ≡ t + 0x8000
bit_or-response t h = (bit_or-top 15 t).0 h

pub bit_or-response_set : (t : MessageType) → 2 ^ 15 ≤ t → t < 2 ^ 16 → bit_or t 0x8000 ≡ t
bit_or-response_set t h h' = (bit_or-top 15 t).1 h h'

bit_or-response_range :
    (t : MessageType) → t < 2 ^ 16 → (0x8000 ≤ bit_or t 0x8000) × (bit_or t 0x8000 < 2 ^ 16)
bit_or-response_range t h = elim (dec_lt t (2 ^ 15)) [
  | yes low ↦ omega (arith, bit_or-response t low)
  | no high ↦ omega (arith, bit_or-response_set t (omega arith) h)
]

-- The header of a response: a server type, no flags, and the payload's size, modulo 2 ^ 32.
pub record IsResponse (m : Message) : Type 0 where
  pub server_type : 0x8000 ≤ m.header.message_type
  pub type-lt : m.header.message_type < 2 ^ 16
  pub flags-eq-zero : m.header.flags ≡ 0
  pub reserved-eq-zero : m.header.reserved ≡ 0
  pub sized : m.header.payload_length ≡ length m.payload % 2 ^ 32

respond-IsResponse :
    (t : MessageType) (result : Result Bytes) → t < 2 ^ 16 → IsResponse (respond t result)
unfolding respond make
respond-IsResponse t (ok payload) h = record {
  server_type = (bit_or-response_range t h).0;
  type-lt = (bit_or-response_range t h).1;
  flags-eq-zero = refl;
  reserved-eq-zero = refl;
  sized = refl;
}
respond-IsResponse t (throw what) h = omega arith

unknown-IsResponse : IsResponse (make error not_found 0)
unfolding make
unknown-IsResponse = omega arith

module _ {S : Type 0} (r : Router S) (request : Message) (s : S) where
  pub dispatch-IsResponse :
      request.header.message_type < 2 ^ 16 → IsResponse (dispatch r request s).0
  unfolding dispatch
  dispatch-IsResponse h = elim (Option-cases (lookup request.header.message_type r)) [
    | inl e ↦ rw (e, dispatch) unknown-IsResponse
    | inr (handler, e) ↦ rw (e, dispatch) (respond-IsResponse _ (handler request.payload s).0 h)
  ]

  -- A request of a 16-bit type, with or without a handler, and whether that returns or throws, gets a
  -- response of a server type with no flags; when its payload has fewer than 2 ^ 32 bytes, the length
  -- in its header is that of the payload. On a platform whose byte-order functions are as documented,
  -- the header that is sent then decodes to itself, or, when the payload is longer than
  -- `kMaxPayloadSize`, is refused.
  pub dispatch-decode_header :
      (o : ByteOrder)
      → IsByteOrder o
      → request.header.message_type < 2 ^ 16
      → length (dispatch r request s).0.payload < 2 ^ 32
      → let response = (dispatch r request s).0 in
        let size = length response.payload in
        (0x8000 ≤ response.header.message_type)
        × (response.header.message_type < 2 ^ 16)
        × (response.header.flags ≡ 0)
        × (response.header.payload_length ≡ size)
        × (decode_header o (encode_header o response.header)
            ≡ (if ltb max_payload_size size then throw too_long else ok response.header))
  dispatch-decode_header o lawful h few =
      let response = (dispatch r request s).0 in
      let w = dispatch-IsResponse h in
      let fits : length response.payload % 2 ^ 32 ≡ length response.payload = omega (arith, few) in
      let exact = w.sized ∙ fits in
      let is_header : IsHeader response.header = record {
        payload_length-lt = omega (arith, exact, few);
        message_type-lt = w.type-lt;
        flags-lt = omega (arith, w.flags-eq-zero);
      } in
      (
        w.server_type,
        w.type-lt,
        w.flags-eq-zero,
        exact,
        decode_header-encode_header o response.header lawful is_header
            ∙ ap
                (λ n.
                  if ltb max_payload_size n
                  then throw too_long
                  else ok (record response.header { reserved = 0 }))
                exact
            ∙ ap
                (λ n.
                  if ltb max_payload_size (length response.payload)
                  then throw too_long
                  else ok (record response.header { reserved = n }))
                (sym w.reserved-eq-zero),
      )

  -- A type with no handler is answered with the 404 error and the state stays as it was.
  pub dispatch-unknown :
      lookup request.header.message_type r ≡ none
      → dispatch r request s ≡ (make error not_found 0, s)
  unfolding dispatch
  dispatch-unknown e = rw (e, dispatch)

  pub dispatch-found :
      (handler : ServiceHandler S)
      → lookup request.header.message_type r ≡ some handler
      → dispatch r request s ≡ (
        respond request.header.message_type (handler request.payload s).0,
        (handler request.payload s).1,
      )
  unfolding dispatch
  dispatch-found handler e = rw (e, dispatch)
