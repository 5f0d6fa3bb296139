-- ===== src/Tests/Shared.antt =====
-- Examples on several sessions of one server.
use hs_financial_services.Common.{ℕ, ◌+◌, ◌≤◌, ◌≡◌, refl, false, List, [], ◌∷◌, length, arith}
use hs_financial_services.Protocol.{Message, make, encode_header}
use hs_financial_services.Protocol.Endian.{little_endian, little_endian-IsByteOrder}
use hs_financial_services.Router.{Router}
use hs_financial_services.Services.{ServiceState}
use hs_financial_services.Services.Catalog.Table.{server_router}
use hs_financial_services.Session.{
  Session, Event, new_session, start, reading_header, completed, success, error, stopped,
}
use hs_financial_services.Session.Serve.{IsRequest, serve, wires, exchanges}
use hs_financial_services.Session.Shared.{run_sessions, events_of}
use hs_financial_services.Session.Shared.Received.{requests}
use hs_financial_services.Session.Shared.Delivery.{Delivered}
use hs_financial_services.Session.Shared.Serial.{
  Log, request_log, messages, asked_by, addressed_to, run_sessions-serial,
}
use hs_financial_services.Session.Shared.Clients.{run_sessions-exchanges}
use hs_financial_services.Server.{default_config}
use hs_financial_services.Server.Count.{opening}
use hs_financial_services.Server.Ids.{Distinct}
use hs_financial_services.Server.Running
use hs_financial_services.Server.Running.{
  Running, new_running, accepted, goes_on, at, dropped, open_ids,
}
use hs_financial_services.Server.Running.Runs.{Steps, served, session_events, run-Reach, run-counts}
use hs_financial_services.Tests.{whole_numbers, at_start, buy_request, ping_request}

abbrev router : Router ServiceState
router = server_router whole_numbers

abbrev arrives : Message → Event
arrives m = completed (success (encode_header little_endian m.header))

abbrev body : Message → Event
body m = completed (success m.payload)

abbrev written : Event
written = completed (success [])

-- Session 1 takes an order while session 0 is at one, and session 2 fails and is stopped.
abbrev mixed : List (ℕ × Event)
mixed =
    (0, arrives buy_request)
    ∷ (1, arrives buy_request)
    ∷ (2, arrives ping_request)
    ∷ (1, body buy_request)
    ∷ (2, completed error)
    ∷ (0, body buy_request)
    ∷ (2, stopped)
    ∷ (0, written)
    ∷ (1, written)
    ∷ []

abbrev fresh : ℕ → Session
fresh k = start new_session

abbrev mixed_log : Log
mixed_log = request_log little_endian mixed fresh

abbrev mixed_final : (ℕ → Session) × ServiceState
mixed_final = run_sessions little_endian router mixed (fresh, at_start)

buy_request-IsRequest : IsRequest buy_request
unfolding make
buy_request-IsRequest = omega arith

first_client : events_of 0 mixed ≡ exchanges little_endian (buy_request ∷ [])
unfolding make
first_client = refl

run_sessions-exchanges_example :
    (mixed_final.1 ≡ (serve router (messages mixed_log) at_start).1)
    × (asked_by 0 mixed_log ≡ buy_request ∷ [])
    × ((mixed_final.0 0).sent
        ≡ wires little_endian
            (addressed_to 0 mixed_log (serve router (messages mixed_log) at_start).0))
    × ((mixed_final.0 0).pending ≡ reading_header)
    × ((mixed_final.0 0).closed ≡ false)
run_sessions-exchanges_example =
    run_sessions-exchanges little_endian router mixed at_start 0 (buy_request ∷ [])
      little_endian-IsByteOrder (buy_request-IsRequest, tt) first_client

run_sessions-serial_example :
    (mixed_final.1 ≡ (serve router (messages mixed_log) at_start).1)
    × (asked_by 2 mixed_log ≡ requests little_endian (events_of 2 mixed) (start new_session))
    × Delivered little_endian
        (mixed_final.0 2).pending
        (addressed_to 2 mixed_log (serve router (messages mixed_log) at_start).0)
        (mixed_final.0 2)
run_sessions-serial_example = run_sessions-serial little_endian router mixed at_start 2

-- A server takes a connection, whose session answers a ping, fails, and is dropped, while the handler
-- admits a second.
abbrev day_of_work : List Running.Event
day_of_work =
    accepted
    ∷ goes_on
    ∷ goes_on
    ∷ goes_on
    ∷ goes_on
    ∷ at 0 (arrives ping_request)
    ∷ at 0 written
    ∷ accepted
    ∷ at 0 (completed error)
    ∷ dropped 0
    ∷ goes_on
    ∷ []

abbrev worked : Running ServiceState
worked = Running.run little_endian router day_of_work (new_running default_config at_start)

run-Reach_example :
    Steps little_endian router default_config 11 worked
    × (served little_endian router worked
        ≡ run_sessions little_endian router
            (session_events little_endian router day_of_work (new_running default_config at_start))
            (fresh, at_start))
run-Reach_example = run-Reach little_endian router default_config at_start day_of_work

run-counts_example :
    (worked.active_connections
      ≡ length (open_ids worked.made worked.ids worked.sessions) + opening worked.accept)
    × (worked.active_connections ≤ default_config.max_connections)
    × Distinct (open_ids worked.made worked.ids worked.sessions)
run-counts_example =
    run-counts little_endian router default_config at_start day_of_work (omega arith) (omega arith)
