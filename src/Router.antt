-- ===== src/Router.antt =====
-- ServiceRouter (server/include/service_router.hpp): handlers by message type, and dispatch.
-- A handler may change the state `S` of the services, also when it throws.
pub mod Register
pub mod Dispatch
use Prim.Native.Nat.{bit_or}
use hs_financial_services.Common.{
  ℕ, Option, none, some, List, [], ◌∷◌, ◌++◌, ◌==◌, if◌then◌else◌, Result, ok, throw,
}
use hs_financial_services.Common.Text.{Bytes, codes}
use hs_financial_services.Protocol.{MessageType, Message, make, error}

-- The result of a call that may change the state, and the new state.
abbrev pub Stateful : Type 0 → Type 0 → Type 0
Stateful S A = S → Result A × S

abbrev pub ServiceHandler : Type 0 → Type 0
ServiceHandler S = Bytes → Stateful S Bytes

-- `handlers_`, as an association list with one entry for each key.
abbrev pub Router : Type 0 → Type 0
Router S = List (ℕ × ServiceHandler S)

module _ {S : Type 0} where
  -- `handlers_.find`
  unfoldable pub lookup : MessageType → Router S → Option (ServiceHandler S)
  lookup type [] = none
  lookup type ((key, handler) ∷ r) = if key == type then some handler else lookup type r

abbrev pub duplicate : Bytes
duplicate = codes "ServiceRouter: duplicate handler for message type"

module _ {S : Type 0} where
  -- `emplace` leaves the table alone if the key is there; then the call throws.
  unfoldable pub register_handler :
      MessageType → ServiceHandler S → Router S → Result (Unit {0}) × Router S
  unfolding lookup
  register_handler type handler r = elim (lookup type r) [
    | some old ↦ (throw duplicate, r)
    | none ↦ (ok tt, (type, handler) ∷ r)
  ]

abbrev pub not_found : Bytes
not_found = codes "{\"code\":404,\"message\":\"Unknown message type\"}"

-- The text of `ex.what()` is not escaped.
abbrev pub failure : Bytes → Bytes
failure what = codes "{\"code\":500,\"message\":\"" ++ (what ++ codes "\"}")

-- The response to a request of a known type, from what its handler returned or threw.
unfoldable pub respond : MessageType → Result Bytes → Message
unfolding make
respond type (ok payload) = make (bit_or type 0x8000) payload 0
respond type (throw what) = make error (failure what) 0

module _ {S : Type 0} where
  unfoldable pub dispatch : Router S → Message → S → Message × S
  unfolding lookup respond make
  dispatch r request s = elim (lookup request.header.message_type r) [
    | none ↦ (make error not_found 0, s)
    | some handler ↦
        let (result, s') = handler request.payload s in
        (respond request.header.message_type result, s')
  ]
