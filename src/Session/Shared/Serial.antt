-- ===== src/Session/Shared/Serial.antt =====
-- Any interleaving of the sessions against one sequence of dispatches.
use hs_financial_services.Common.{
  ℕ, ◌≡◌, refl, ap, sym, subst, ◌∙◌, true, inl, inr, Option, none, some, List, [], ◌∷◌, ◌++◌,
  append_assoc, append-nil, ◌==◌, if◌then◌else◌, Bool-cases, arith,
}
use hs_financial_services.Protocol.{Message, ByteOrder}
use hs_financial_services.Router.{Router, dispatch}
use hs_financial_services.Session.{Session, Event, step, start, new_session}
use hs_financial_services.Session.Serve.{serve}
use hs_financial_services.Session.Shared.{update, step_at, run_sessions, events_of, request}
use hs_financial_services.Session.Shared.Received.{
  erase, receive, requests, and_then, request-erase, step-erase,
}
use hs_financial_services.Session.Shared.Delivery.{Delivered, Outcome, answer, effect, step-Outcome}

-- The requests of all sessions in the order of their dispatch, each with its session's number.
abbrev pub Log : Type 0
Log = List (ℕ × Message)

abbrev pub tag : ℕ → Option Message → Log → Log
tag k none log = log
tag k (some m) log = (k, m) ∷ log

abbrev pub request_log : ByteOrder → List (ℕ × Event) → (ℕ → Session) → Log
request_log o [] sessions = []
request_log o ((k, e) ∷ es) sessions =
    tag k (request o e (sessions k))
      (request_log o es (update k (receive o e (sessions k)) sessions))

abbrev pub messages : Log → List Message
messages [] = []
messages ((k, m) ∷ log) = m ∷ messages log

-- The requests of one session, and the responses to them.
abbrev pub asked_by : ℕ → Log → List Message
asked_by k [] = []
asked_by k ((j, m) ∷ log) = let rest = asked_by k log in if k == j then m ∷ rest else rest

abbrev pub addressed_to : ℕ → Log → List Message → List Message
addressed_to k [] resps = []
addressed_to k (entry ∷ log) [] = []
addressed_to k ((j, m) ∷ log) (resp ∷ resps) =
    let rest = addressed_to k log resps in if k == j then resp ∷ rest else rest

-- The test of two numbers, turned to the order in which the lemmas rewrite.
pub same_number : (j k : ℕ) → (k == j) ≡ true → j ≡ k
same_number j k h = ground arith

asked_by-tag :
    (k j : ℕ) (r : Option Message) (log : Log)
    → asked_by k (tag j r log) ≡ (if k == j then and_then r (asked_by k log) else asked_by k log)
asked_by-tag k j none log = ground arith
asked_by-tag k j (some m) log = refl

module _ (o : ByteOrder) where
  -- In the log the requests of a session are those of its own events.
  asked_by-request_log :
      (es : List (ℕ × Event)) (sessions : ℕ → Session) (k : ℕ)
      → asked_by k (request_log o es sessions) ≡ requests o (events_of k es) (sessions k)
  asked_by-request_log [] sessions k = refl
  asked_by-request_log ((j, e) ∷ es) sessions k =
      let ih = asked_by-request_log es (update j (receive o e (sessions j)) sessions) k in
      elim (Bool-cases (k == j)) [
        | inl same ↦
            asked_by-tag k j (request o e (sessions j)) _
            ∙ rw same (
                ap (and_then (request o e (sessions j))) (rw same at ih)
                ∙ ap
                    (λ n.
                      and_then (request o e (sessions n))
                        (requests o (events_of k es) (receive o e (sessions n))))
                    (same_number j k same))
        | inr other ↦ asked_by-tag k j (request o e (sessions j)) _ ∙ rw other (rw other at ih)
      ]

  module _ {S : Type 0} (router : Router S) where
    -- A step in the log: the session it is of gets the answer.
    abbrev grown : ℕ → Option Message → S → (ℕ → List Message) → ℕ → List Message
    grown k r st ws j = if j == k then ws k ++ answer router r st else ws j

    serve-tag :
        (k : ℕ) (r : Option Message) (log : Log) (st : S)
        → (serve router (messages (tag k r log)) st).1
          ≡ (serve router (messages log) (effect router r st)).1
    serve-tag k none log st = refl
    serve-tag k (some m) log st = refl

    addressed_to-tag :
        (k j : ℕ) (r : Option Message) (log : Log) (st : S) (ws : ℕ → List Message)
        → grown k r st ws j
            ++ addressed_to j log (serve router (messages log) (effect router r st)).0
          ≡ ws j ++ addressed_to j (tag k r log) (serve router (messages (tag k r log)) st).0
    addressed_to-tag k j none log st ws = elim (Bool-cases (j == k)) [
      | inl same ↦ rw same (
          ap (λ l. l ++ addressed_to j log (serve router (messages log) st).0)
            (append-nil (ws k) ∙ ap ws (same_number k j same)))
      | inr other ↦ rw other refl
    ]
    addressed_to-tag k j (some m) log st ws = elim (Bool-cases (j == k)) [
      | inl same ↦
          let (resp, st') = dispatch router m st in
          let rest = addressed_to j log (serve router (messages log) st').0 in
          rw same (
            append_assoc (ws k) (resp ∷ []) rest
            ∙ ap (λ n. ws n ++ (resp ∷ rest)) (same_number k j same))
      | inr other ↦ rw other refl
    ]

    -- What holds of the sessions, for the responses that each has got so far.
    record Serving (ws : ℕ → List Message) (received sessions : ℕ → Session) : Type 0 where
      pub alike : (k : ℕ) → erase (sessions k) ≡ received k
      pub delivered : (k : ℕ) → Delivered o (sessions k).pending (ws k) (sessions k)

    outcome :
        (k : ℕ) (e : Event) (ws : ℕ → List Message) (received sessions : ℕ → Session) (st : S)
        → Serving ws received sessions
        → Outcome o router (request o e (received k)) (ws k) st (step o router e (sessions k) st)
    outcome k e ws received sessions st v =
        subst (λ r. Outcome o router r (ws k) st (step o router e (sessions k) st))
          (sym (request-erase o e (sessions k)) ∙ ap (request o e) (v.alike k))
          (step-Outcome o router e (ws k) (sessions k) st (v.delivered k))

    services-step :
        (k : ℕ) (e : Event) (ws : ℕ → List Message) (received sessions : ℕ → Session) (st : S)
        → Serving ws received sessions
        → (step_at o router k e (sessions, st)).1 ≡ effect router (request o e (received k)) st
    unfolding step_at
    services-step k e ws received sessions st v = (outcome k e ws received sessions st v).services

    step_at-Serving :
        (k : ℕ) (e : Event) (ws : ℕ → List Message) (received sessions : ℕ → Session) (st : S)
        → Serving ws received sessions
        → Serving
            (grown k (request o e (received k)) st ws)
            (update k (receive o e (received k)) received)
            (step_at o router k e (sessions, st)).0
    unfolding step_at
    step_at-Serving k e ws received sessions st v = record {
      alike = λ j. elim (Bool-cases (j == k)) [
        | inl same ↦ rw same (step-erase o router e (sessions k) st ∙ ap (receive o e) (v.alike k))
        | inr other ↦ rw other (v.alike j)
      ];
      delivered = λ j. elim (Bool-cases (j == k)) [
        | inl same ↦ rw same (outcome k e ws received sessions st v).delivered
        | inr other ↦ rw other (v.delivered j)
      ];
    }

    -- A run is one sequence of dispatches: the services end as it leaves them, and each session has got
    -- the responses of it that are addressed to the session.
    run_sessions-Serving :
        (es : List (ℕ × Event)) (ws : ℕ → List Message) (received sessions : ℕ → Session) (st : S)
        → Serving ws received sessions
        → let log = request_log o es received in
          let final = run_sessions o router es (sessions, st) in
          (final.1 ≡ (serve router (messages log) st).1)
          × ((k : ℕ)
              → Delivered o
                  (final.0 k).pending
                  (ws k ++ addressed_to k log (serve router (messages log) st).0)
                  (final.0 k))
    unfolding run_sessions
    run_sessions-Serving [] ws received sessions st v =
        (refl, λ k. rw (append-nil (ws k)) (v.delivered k))
    run_sessions-Serving ((k, e) ∷ es) ws received sessions st v =
        let r = request o e (received k) in
        let next = update k (receive o e (received k)) received in
        let log = request_log o es next in
        let final = step_at o router k e (sessions, st) in
        let services : final.1 ≡ effect router r st = services-step k e ws received sessions st v in
        let ih =
          run_sessions-Serving es (grown k r st ws) next final.0 final.1
            (step_at-Serving k e ws received sessions st v) in
        (
          ih.0 ∙ ap (λ t. (serve router (messages log) t).1) services ∙ sym (serve-tag k r log st),
          λ j.
              subst
                (λ l.
                  Delivered o ((run_sessions o router es final).0 j).pending l
                    ((run_sessions o router es final).0 j))
                (ap (λ t. grown k r st ws j ++ addressed_to j log (serve router (messages log) t).0)
                    services
                  ∙ addressed_to-tag k j r log st ws)
                (ih.1 j),
        )

module _ {S : Type 0} (o : ByteOrder) (router : Router S) where
  started-Serving : Serving o router (λ k. []) (λ k. start new_session) (λ k. start new_session)
  unfolding start
  started-Serving = record { alike = λ k. refl; delivered = λ k. refl }

  -- Sessions that have just started, on a server whose threads take their events in any order, and which
  -- may fail, end or misuse the protocol at any event: the requests that they dispatch form one sequence
  -- such that the services end as this sequence leaves them when it is dispatched alone. The requests of
  -- each session in it are those that its own events hold, and the session has sent the responses to
  -- these in their order: all while it reads, all but the last while it writes, and either once it is
  -- closed.
  pub run_sessions-serial :
      (es : List (ℕ × Event)) (st : S) (k : ℕ)
      → let log = request_log o es (λ j. start new_session) in
        let (resps, services) = serve router (messages log) st in
        let final = run_sessions o router es (λ j. start new_session, st) in
        (final.1 ≡ services)
        × (asked_by k log ≡ requests o (events_of k es) (start new_session))
        × Delivered o (final.0 k).pending (addressed_to k log resps) (final.0 k)
  run_sessions-serial es st k =
      let v =
        run_sessions-Serving o router es (λ j. []) (λ j. start new_session) (λ j. start new_session)
          st started-Serving in
      (v.0, asked_by-request_log o es (λ j. start new_session) k, v.1 k)
