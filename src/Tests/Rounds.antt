-- ===== src/Tests/Rounds.antt =====
-- A request of the load generator and its answer.
use hs_financial_services.Common.{
  ◌+◌, ◌/◌, ◌≤◌, ◌≡◌, refl, ap, ◌∙◌, sym, subst, false, length, arith,
}
use hs_financial_services.Common.Text.{codes}
use hs_financial_services.Common.Decimal.{to_string}
use hs_financial_services.Json.{extract_string, json_escape}
use hs_financial_services.Protocol.{Message, make, sql_query, max_payload_size, header_size}
use hs_financial_services.Protocol.Endian.{little_endian, little_endian-IsByteOrder}
use hs_financial_services.Router.{dispatch}
use hs_financial_services.Services.Sql.{handle_sql_query}
use hs_financial_services.Services.Catalog.{register_services}
use hs_financial_services.Services.Catalog.Table.{server_router}
use hs_financial_services.Session
use hs_financial_services.Session.Serve.{wire, IsRequest, exchange, answered}
use hs_financial_services.Common.Int.{pos}
use hs_financial_services.Loadgen.Scenario.{Machine}
use hs_financial_services.Loadgen.Scenario.{default_scenario, next_request, seed}
use hs_financial_services.Loadgen.Metrics.{new_metrics, record_success}
use hs_financial_services.Loadgen.ClientSession.{ClientSession, new_client, do_send_request, run}
use hs_financial_services.Loadgen.Round.{request_of, answers, got, do_send_request-answered}
use hs_financial_services.Tests.{whole_numbers, at_start}

abbrev machine : Machine
machine = record { print_price = λ k. to_string (100 + k / 100); overflowed = λ x y. pos 0 }

abbrev client : ClientSession
client = new_client default_scenario 0

abbrev request : Message
request = request_of little_endian machine client

abbrev sent_request : Message
sent_request =
    make sql_query (codes "{\"sql\":\"SELECT symbol, price FROM quotes WHERE symbol='TSLA'\"}") 0

request_sent : request ≡ sent_request
unfolding next_request make to_string seed
request_sent = refl

sent_request-IsRequest : IsRequest sent_request
unfolding make
sent_request-IsRequest = omega arith

request-IsRequest : IsRequest request
request-IsRequest = subst IsRequest (sym request_sent) sent_request-IsRequest

sent_length : length (dispatch (server_router whole_numbers) sent_request at_start).0.payload ≡ 240
unfolding dispatch make register_services handle_sql_query extract_string json_escape
sent_length = refl

response_fits :
    length (dispatch (server_router whole_numbers) request at_start).0.payload ≤ max_payload_size
response_fits =
    let size =
      ap (λ m. length (dispatch (server_router whole_numbers) m at_start).0.payload) request_sent
      ∙ sent_length in
    omega (arith, size)

abbrev session : Session.Session
session = Session.start Session.new_session

session_waits : session.pending ≡ Session.reading_header
unfolding Session.start
session_waits = refl

session_sized : length session.header_buf ≡ header_size
unfolding Session.start
session_sized = refl

do_send_request-answered_example :
    ((do_send_request little_endian machine false 10 (client, new_metrics)).0.write_buf
      ≡ wire little_endian request)
    × (Session.run little_endian
          (server_router whole_numbers)
          (exchange little_endian request)
          session
          at_start
        ≡ (
          answered little_endian
              (server_router whole_numbers)
              request
              (dispatch (server_router whole_numbers) request at_start).0
              session,
          (dispatch (server_router whole_numbers) request at_start).1,
        ))
    × (run little_endian machine
          (answers little_endian machine
            (dispatch (server_router whole_numbers) request at_start).0
            260
            false)
          (do_send_request little_endian machine false 10 (client, new_metrics))
        ≡ do_send_request little_endian machine false 260 (
          got little_endian machine
              (dispatch (server_router whole_numbers) request at_start).0
              10
              client,
          record_success 250 new_metrics,
        ))
do_send_request-answered_example =
    do_send_request-answered little_endian machine (server_router whole_numbers) client new_metrics
      session at_start 10 260 false little_endian-IsByteOrder request-IsRequest response_fits refl
      session_sized session_waits
