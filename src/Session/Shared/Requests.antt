-- ===== src/Session/Shared/Requests.antt =====
-- A session's requests when its peer sends well-formed messages one after the other.
use hs_financial_services.Common.{
  ◌≡◌, refl, ap, sym, ◌∙◌, List, [], ◌∷◌, ◌++◌, ◌==◌, ok, inl, inr, Bool-cases, All, length,
}
use hs_financial_services.Protocol.{Message, ByteOrder, IsByteOrder, encode_header, header_size}
use hs_financial_services.Protocol.RoundTrip.{length-encode_header}
use hs_financial_services.Router.{Router, dispatch}
use hs_financial_services.Session.{
  Session, Pending, reading_header, reading_body, Completion, success, Event, completed, complete,
  resize,
}
use hs_financial_services.Session.Buffers.{length-resize}
use hs_financial_services.Session.Serve.{
  fill_all, IsRequest, exchange, exchanges, decode-request, step-pending, received_empty,
  reads_body, received_body, no_payload, filled, writes, awaits, answered,
}
use hs_financial_services.Session.Shared.{request_in, request_at, request}
use hs_financial_services.Session.Shared.Received.{erase, receive, requests}

-- Where a session stands between two exchanges.
abbrev pub Ready : Session → Type 0
Ready s = (s.pending ≡ reading_header) × (length s.header_buf ≡ header_size)

-- No service is registered.
abbrev pub nobody : Router (Unit {0})
nobody = []

module _ (o : ByteOrder) where
  request-pending :
      (p : Pending) (c : Completion) (s : Session)
      → s.pending ≡ p
      → request o (completed c) s ≡ request_at o p c s
  request-pending p c s e = ap (λ q. request_at o q c s) e

  module _ (l : IsByteOrder o) (m : Message) (r : IsRequest m) (s : Session) (ready : Ready s) where
    abbrev head : Event
    head = completed (success (encode_header o m.header))

    request-head : request o head s ≡ request_in (ok m.header)
    request-head =
        request-pending reading_header (success (encode_header o m.header)) s ready.0
        ∙ rw (filled o nobody l m r s tt ready.1) (ap request_in (decode-request o m l r))

    abbrev response : Message
    response = (dispatch nobody m tt).0

    received :
        {q : Session × Unit {0}}
        → complete o nobody reading_header (success (encode_header o m.header)) s tt ≡ q
        → receive o head s ≡ erase q.0
    unfolding receive
    received p =
        ap (λ (q : Session × Unit {0}). erase q.0)
          (step-pending o nobody reading_header (success (encode_header o m.header)) s tt ready.0
            ∙ p)

    abbrev after_exchange : Session
    after_exchange = erase (answered o nobody m response s)

    body_received :
        receive o (completed (success m.payload)) (erase (awaits o nobody l m r s tt ready.1))
        ≡ erase (writes o nobody m response (erase s))
    unfolding receive
    body_received =
        ap (λ (q : Session × Unit {0}). erase q.0)
          (step-pending o nobody reading_body (success m.payload)
              (awaits o nobody l m r (erase s) tt ready.1) tt refl
            ∙ received_body o nobody l m r (erase s) tt ready.1)

    requests-exchange :
        (es : List Event) → requests o (exchange o m ++ es) s ≡ m ∷ requests o es after_exchange
    unfolding receive
    requests-exchange es = elim (Bool-cases (m.header.payload_length == 0)) [
      | inl e ↦
          rw (request-head, received (received_empty o nobody l m r s tt ready.1 e))
            (rw e (
              ap (λ v. record { header = m.header; payload = v } ∷ requests o es after_exchange)
                (sym (no_payload o nobody l m r s tt ready.1 e))))
      | inr e ↦
          rw (request-head, received (reads_body o nobody l m r s tt ready.1 e))
            (rw e (
              ap
                (λ v.
                  record { header = m.header; payload = v }
                  ∷ requests o es (
                      receive o (completed (success [])) (
                        receive o (completed (success m.payload))
                          (erase (awaits o nobody l m r s tt ready.1)))))
                (fill_all (resize m.header.payload_length s.body_buf) m.payload
                  (length-resize m.header.payload_length s.body_buf ∙ r.sized))
              ∙ ap (λ t. m ∷ requests o es (receive o (completed (success [])) t)) body_received))
    ]

module _ (o : ByteOrder) where
  -- Of well-formed messages each is a request, in their order, and the session waits for the next.
  pub requests-exchanges :
      (ms : List Message) (s : Session)
      → IsByteOrder o
      → All IsRequest ms
      → Ready s
      → requests o (exchanges o ms) s ≡ ms
  requests-exchanges [] s l rs ready = refl
  requests-exchanges (m ∷ ms) s l rs ready =
      requests-exchange o l m rs.0 s ready (exchanges o ms)
      ∙ ap (◌∷◌ m) (
          requests-exchanges ms (after_exchange o l m rs.0 s ready) l rs.1
            (refl, length-encode_header o m.header))
