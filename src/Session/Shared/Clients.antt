-- ===== src/Session/Shared/Clients.antt =====
-- A client that keeps to the protocol, among any others.
use hs_financial_services.Common.{
  ℕ, ◌≡◌, refl, ap, sym, ◌∙◌, false, inl, inr, List, [], ◌∷◌, ◌==◌, Bool-cases, All,
}
use hs_financial_services.Protocol.{Message, ByteOrder, IsByteOrder}
use hs_financial_services.Router.{Router}
use hs_financial_services.Session.{Session, reading_header, Event, run, step, start, new_session}
use hs_financial_services.Session.Serve.{IsRequest, exchanges, run-exchanges, serve, wires}
use hs_financial_services.Session.Shared.{update, step_at, run_sessions, events_of}
use hs_financial_services.Session.Shared.Received.{erase, receive, requests, step-erase}
use hs_financial_services.Session.Shared.Requests.{Ready, nobody, requests-exchanges}
use hs_financial_services.Session.Shared.Delivery.{Delivered-reading}
use hs_financial_services.Session.Shared.Serial.{
  request_log, messages, asked_by, addressed_to, run_sessions-serial, same_number,
}

module _ (o : ByteOrder) where
  abbrev receive_all : List Event → Session → Session
  receive_all [] s = s
  receive_all (e ∷ es) s = receive_all es (receive o e s)

  module _ {S : Type 0} (router : Router S) where
    run-erase :
        (es : List Event) (s : Session) (st : S)
        → erase (run o router es s st).0 ≡ receive_all es (erase s)
    unfolding run
    run-erase [] s st = refl
    run-erase (e ∷ es) s st =
        run-erase es (step o router e s st).0 (step o router e s st).1
        ∙ ap (receive_all es) (step-erase o router e s st)

    -- What a session of many has received depends on its own events only.
    run_sessions-erase :
        (es : List (ℕ × Event)) (sessions : ℕ → Session) (st : S) (k : ℕ)
        → erase ((run_sessions o router es (sessions, st)).0 k)
          ≡ receive_all (events_of k es) (erase (sessions k))
    unfolding run_sessions step_at
    run_sessions-erase [] sessions st k = refl
    run_sessions-erase ((j, e) ∷ es) sessions st k =
        let (s, st') = step o router e (sessions j) st in
        let ih = run_sessions-erase es (update j s sessions) st' k in
        elim (Bool-cases (k == j)) [
          | inl same ↦ rw same (
              (rw same at ih)
              ∙ ap (receive_all (events_of k es)) (
                  step-erase o router e (sessions j) st
                  ∙ ap (λ n. receive o e (erase (sessions n))) (same_number j k same)))
          | inr other ↦ rw other (rw other at ih)
        ]

  nobody_alike :
      (es : List Event)
      → erase (run o nobody es (start new_session) tt).0
        ≡ receive_all es (erase (start new_session))
  nobody_alike es = run-erase nobody es (start new_session) tt

  start-Ready : Ready (start new_session)
  unfolding start
  start-Ready = (refl, refl)

  alone_waits :
      (ms : List Message)
      → IsByteOrder o
      → All IsRequest ms
      → let s = (run o nobody (exchanges o ms) (start new_session) tt).0 in
        (s.pending ≡ reading_header) × (s.closed ≡ false)
  unfolding start
  alone_waits ms l rs =
      let r = run-exchanges o nobody ms (start new_session) tt l rs refl refl refl in (r.2, r.3)

  module _ {S : Type 0} (router : Router S) where
    -- The session of a client that keeps to the protocol has received the same as it has alone.
    alone :
        (es : List (ℕ × Event)) (st : S) (k : ℕ) (ms : List Message)
        → events_of k es ≡ exchanges o ms
        → erase ((run_sessions o router es (λ j. start new_session, st)).0 k)
          ≡ erase (run o nobody (exchanges o ms) (start new_session) tt).0
    alone es st k ms own =
        run_sessions-erase router es (λ j. start new_session) st k
        ∙ ap (λ l. receive_all l (erase (start new_session))) own
        ∙ sym (nobody_alike (exchanges o ms))

    -- A client whose requests are well formed and come one by one has them all answered, in their
    -- order, whatever the other sessions do meanwhile: the log holds just its requests for it, it has
    -- been sent their responses, and its session waits for the next request. The order of the log, in
    -- which the services take the requests of all clients, is one for all.
    pub run_sessions-exchanges :
        (es : List (ℕ × Event)) (st : S) (k : ℕ) (ms : List Message)
        → IsByteOrder o
        → All IsRequest ms
        → events_of k es ≡ exchanges o ms
        → let log = request_log o es (λ j. start new_session) in
          let (resps, services) = serve router (messages log) st in
          let final = run_sessions o router es (λ j. start new_session, st) in
          (final.1 ≡ services)
          × (asked_by k log ≡ ms)
          × ((final.0 k).sent ≡ wires o (addressed_to k log resps))
          × ((final.0 k).pending ≡ reading_header)
          × ((final.0 k).closed ≡ false)
    run_sessions-exchanges es st k ms l rs own =
        let serial = run_sessions-serial o router es st k in
        let final = (run_sessions o router es (λ j. start new_session, st)).0 k in
        let alike = alone es st k ms own in
        let waits : final.pending ≡ reading_header =
          ap (λ (s : Session). s.pending) alike ∙ (alone_waits ms l rs).0 in
        (
          serial.0,
          serial.1
              ∙ ap (λ es. requests o es (start new_session)) own
              ∙ requests-exchanges o ms (start new_session) l rs start-Ready,
          Delivered-reading o _ final waits serial.2,
          waits,
          ap (λ (s : Session). s.closed) alike ∙ (alone_waits ms l rs).1,
        )
