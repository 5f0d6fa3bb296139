-- ===== src/Router/Register.antt =====
-- `register_handler` as an update of a partial function from message types to handlers.
use hs_financial_services.Common.{
  ◌≡◌, refl, ap, sym, ◌∙◌, Bool, Option, none, some, ◌==◌, if◌then◌else◌, ok, throw, Result,
  Option-cases, arith, inl, inr, Bool-cases, ==_iff,
}
use hs_financial_services.Protocol.{MessageType, Message}
use hs_financial_services.Router.{
  Router, ServiceHandler, lookup, register_handler, duplicate, respond, dispatch,
}
use hs_financial_services.Router.Dispatch.{dispatch-found}

module _ {S : Type 0} where
  -- What a registration makes of the answer for a type `t`: the new handler if `t` is its type and
  -- was free, and otherwise the old answer.
  abbrev pub registered :
      MessageType
      → ServiceHandler S
      → MessageType
      → Option (ServiceHandler S)
      → Option (ServiceHandler S)
  registered type handler t (some old) = some old
  registered type handler t none = if type == t then some handler else none

  -- After a registration, whether it throws or not, each type has its first handler.
  pub lookup-register_handler :
      (type t : MessageType) (handler : ServiceHandler S) (r : Router S)
      → lookup t (register_handler type handler r).1 ≡ registered type handler t (lookup t r)
  unfolding register_handler lookup
  lookup-register_handler type t handler r = elim (Bool-cases (type == t)) [
    | inl same ↦ rw (← (==_iff type t).0 same) (ground (arith, ==_iff type type))
    | inr other ↦ ground arith
  ]

  -- What a registration returns, for the answer that its type had.
  abbrev pub told : Option (ServiceHandler S) → Result (Unit {0})
  told none = ok tt
  told (some old) = throw duplicate

  register_handler-told :
      (type : MessageType) (handler : ServiceHandler S) (r : Router S)
      → (register_handler type handler r).0 ≡ told (lookup type r)
  unfolding register_handler
  register_handler-told type handler r = elim (Option-cases (lookup type r)) [
    | inl e ↦ rw (e, register_handler)
    | inr (old, e) ↦ rw (e, register_handler)
  ]

  -- What a request of a type `t` is answered after a registration, from the answer before it.
  abbrev pub answered :
      MessageType
      → ServiceHandler S
      → Option (ServiceHandler S)
      → Message
      → S
      → Message × S
      → Message × S
  answered type handler (some old) m s before = before
  answered type handler none m s before =
      if type == m.header.message_type
      then (respond m.header.message_type (handler m.payload s).0, (handler m.payload s).1)
      else before

  dispatch-lookup :
      (r r' : Router S) (m : Message) (s : S)
      → lookup m.header.message_type r ≡ lookup m.header.message_type r'
      → dispatch r m s ≡ dispatch r' m s
  unfolding dispatch
  dispatch-lookup r r' m s h = rw (h, dispatch) refl

  -- A registration for a free type.
  dispatch-free :
      (type : MessageType) (handler : ServiceHandler S) (r : Router S) (m : Message) (s : S)
      → lookup type r ≡ none
      → dispatch (register_handler type handler r).1 m s
        ≡ answered type handler none m s (dispatch r m s)
  dispatch-free type handler r m s e =
      let mt = m.header.message_type in
      let r' = (register_handler type handler r).1 in
      let found = lookup-register_handler type mt handler r in
      elim (Bool-cases (type == mt)) [
        | inl same ↦
            let free : lookup mt r ≡ none =
              ap (λ t. lookup t r) (sym ((==_iff type mt).0 same)) ∙ e in
            rw same (
              dispatch-found r' m s handler (
                found
                ∙ ap (registered type handler mt) free
                ∙ ap (λ (b : Bool). if b then some handler else none) same))
        | inr other ↦ rw other (
            dispatch-lookup r' r m s (
              found ∙ elim (Option-cases (lookup mt r)) [
                | inl e' ↦ rw e' (ap (λ (b : Bool). if b then some handler else none) other)
                | inr (old, e') ↦ rw e' refl
              ]))
      ]

  -- A registration for a type that has a handler.
  pub register_handler-duplicate :
      (type : MessageType) (old handler : ServiceHandler S) (r : Router S)
      → lookup type r ≡ some old
      → register_handler type handler r ≡ (throw duplicate, r)
  unfolding register_handler
  register_handler-duplicate type old handler r h = rw (h, register_handler)

  -- A registration returns, or throws when its type has a handler already. Behind it a request of that
  -- type is answered by what the new handler makes of its payload, if the type was free, and every
  -- other request, and with a handler in place also those of that type, as before.
  pub dispatch-register_handler :
      (type : MessageType) (handler : ServiceHandler S) (r : Router S) (m : Message) (s : S)
      → ((register_handler type handler r).0 ≡ told (lookup type r))
        × (dispatch (register_handler type handler r).1 m s
            ≡ answered type handler (lookup type r) m s (dispatch r m s))
  dispatch-register_handler type handler r m s = (
    register_handler-told type handler r,
    elim (Option-cases (lookup type r)) [
      | inl e ↦ rw e (dispatch-free type handler r m s e)
      | inr (old, e) ↦
          ap (λ (q : Result (Unit {0}) × Router S). dispatch q.1 m s)
            (register_handler-duplicate type old handler r e)
          ∙ rw e refl
    ],
  )
