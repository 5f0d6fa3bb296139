-- ===== src/Session/Shared/Received.antt =====
-- What a session receives does not depend on what the services answer: its requests are decided by its
-- own events.
use hs_financial_services.Common.{
  ◌+◌, ◌≡◌, refl, true, false, Option, none, some, List, [], ◌∷◌, ◌==◌, if◌then◌else◌, Result, ok,
  throw, inl, inr, Bool-cases,
}
use hs_financial_services.Protocol.{MessageHeader, Message, ByteOrder, decode_header}
use hs_financial_services.Router.{Router}
use hs_financial_services.Session.{
  Session, Pending, nothing, reading_header, reading_body, writing, Completion, error, success,
  Event, completed, stopped, close, fill, accept_header, do_read_body, complete, step,
}
use hs_financial_services.Session.Shared.{request_at, request}

-- The session without what it sends.
abbrev pub erase : Session → Session
erase s = record s { write_buf = []; sent = [] }

close-erase : (s : Session) → erase (close s) ≡ erase (close (erase s))
unfolding close
close-erase s =
    elim s.closed
      as (λ b.
        erase (if b then s else record s { closed = true; on_close_calls = s.on_close_calls + 1 })
        ≡ erase (
            if b
            then erase s
            else record (erase s) { closed = true; on_close_calls = s.on_close_calls + 1 })) [
              | true ↦ refl
              | false ↦ refl
            ]

abbrev pub and_then : Option Message → List Message → List Message
and_then none ms = ms
and_then (some m) ms = m ∷ ms

module _ (o : ByteOrder) where
  -- A session's step alone, with no services behind it.
  unfoldable pub receive : Event → Session → Session
  unfolding step
  receive e s = erase (step {S = Unit {0}} o [] e s tt).0

  abbrev pub requests : List Event → Session → List Message
  requests [] s = []
  requests (e ∷ es) s = and_then (request o e s) (requests es (receive e s))

  request_at-erase :
      (p : Pending) (c : Completion) (s : Session) → request_at o p c (erase s) ≡ request_at o p c s
  request_at-erase reading_header error s = refl
  request_at-erase reading_header (success bytes) s = refl
  request_at-erase reading_body error s = refl
  request_at-erase reading_body (success bytes) s = refl
  request_at-erase nothing c s = refl
  request_at-erase writing c s = refl

  pub request-erase : (e : Event) (s : Session) → request o e (erase s) ≡ request o e s
  request-erase (completed c) s = request_at-erase s.pending c s
  request-erase stopped s = refl

  module _ {S : Type 0} (router : Router S) where
    accept_header-erase :
        (r : Result MessageHeader) (s : Session) (st : S)
        → erase (accept_header o router r s st).0
          ≡ erase (accept_header {S = Unit {0}} o [] r (erase s) tt).0
    unfolding accept_header
    accept_header-erase (throw what) s st = close-erase s
    accept_header-erase (ok h) s st = elim (Bool-cases (h.payload_length == 0)) [
      | inl e ↦ rw (e, do_read_body) refl
      | inr e ↦ rw (e, do_read_body) refl
    ]

    complete-erase :
        (p : Pending) (c : Completion) (s : Session) (st : S)
        → erase (complete o router p c s st).0
          ≡ erase (complete {S = Unit {0}} o [] p c (erase s) tt).0
    unfolding complete
    complete-erase nothing c s st = refl
    complete-erase reading_header error s st = close-erase (record s { pending = nothing })
    complete-erase reading_header (success bytes) s st =
        accept_header-erase (decode_header o (fill s.header_buf bytes))
          (record s { header_buf = fill s.header_buf bytes; pending = nothing }) st
    complete-erase reading_body error s st = close-erase (record s { pending = nothing })
    complete-erase reading_body (success bytes) s st = refl
    complete-erase writing error s st = close-erase (record s { pending = nothing })
    complete-erase writing (success bytes) s st = refl

    -- The received part of a step is the step of the received part.
    pub step-erase :
        (e : Event) (s : Session) (st : S) → erase (step o router e s st).0 ≡ receive e (erase s)
    unfolding step receive
    step-erase (completed c) s st = complete-erase s.pending c s st
    step-erase stopped s st = close-erase s
