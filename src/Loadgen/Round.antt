-- ===== src/Loadgen/Round.antt =====
-- A request of a client of the load generator and its answer by a session of the server.
use hs_financial_services.Common.{
  ℕ, ◌+◌, ◌-◌, ◌≤◌, ◌≡◌, refl, ap, sym, ◌∙◌, Bool, true, false, List, [], ◌∷◌, ◌==◌, if◌then◌else◌,
  length, arith,
}
use hs_financial_services.Protocol.{
  Message, ByteOrder, IsByteOrder, encode_header, decode_header, header_size, max_payload_size,
}
use hs_financial_services.Protocol.RoundTrip.{length-encode_header}
use hs_financial_services.Router.{Router, dispatch}
use hs_financial_services.Router.Dispatch.{IsResponse, dispatch-IsResponse}
use hs_financial_services.Session
use hs_financial_services.Session.{Session, Completion, success, fill, resize}
use hs_financial_services.Session.Buffers.{length-resize}
use hs_financial_services.Session.Serve.{
  wire, IsRequest, exchange, decode-request, fill_all, answered, run-exchange,
}
use hs_financial_services.Loadgen.Scenario.{Machine, next_request}
use hs_financial_services.Loadgen.Metrics.{MetricsCollector, record_success}
use hs_financial_services.Loadgen.ClientSession.{
  ClientSession, nothing, sending, reading_body, Event, do_send_request, succeed, accept_header,
  on_header, on_body, on_sent, complete, step, run,
}

-- A response within the limit is a message that the codec gives back.
IsResponse-IsRequest :
    (m : Message) → IsResponse m → length m.payload ≤ max_payload_size → IsRequest m
IsResponse-IsRequest m r fits = record {
  header_fits = omega (arith, r.sized, r.type-lt, r.flags-eq-zero, r.reserved-eq-zero);
  sized = omega (arith, r.sized, fits);
  bounded = fits;
  reserved-eq-zero = r.reserved-eq-zero;
}

module _ (o : ByteOrder) (machine : Machine) where
  -- The request that a client sends next.
  abbrev pub request_of : ClientSession → Message
  request_of c = (next_request machine c.scenario c.rng_state).0

  -- The client's completions while its request is taken and the response comes in.
  abbrev pub answers : Message → ℕ → Bool → List Event
  answers resp now stop_flag =
      record { completion = success []; now = now; stop_flag = stop_flag }
      ∷ record {
        completion = success (encode_header o resp.header);
        now = now;
        stop_flag = stop_flag;
      }
      ∷ (if resp.header.payload_length == 0
          then []
          else record { completion = success resp.payload; now = now; stop_flag = stop_flag } ∷ [])

  -- The client that sent a request at the time `t0`, and when it has got the response.
  abbrev pub asking : ℕ → ClientSession → ClientSession
  asking t0 c = record c {
    rng_state = (next_request machine c.scenario c.rng_state).1;
    write_buf = wire o (request_of c);
    request_start = t0;
    requests = c.requests + 1;
    pending = sending;
  }

  abbrev pub got : Message → ℕ → ClientSession → ClientSession
  got resp t0 c = record (asking t0 c) {
    header_buf = encode_header o resp.header;
    body_buf = if resp.header.payload_length == 0 then c.body_buf else resp.payload;
    resp_header = resp.header;
    pending = nothing;
  }

  module _ (l : IsByteOrder o) (resp : Message) (r : IsRequest resp) (t0 now : ℕ) (stop_flag : Bool)
      (c : ClientSession) (m : MetricsCollector) (sized : length c.header_buf ≡ header_size) where
    filled : fill c.header_buf (encode_header o resp.header) ≡ encode_header o resp.header
    filled = fill_all c.header_buf _ (sized ∙ sym (length-encode_header o resp.header))

    abbrev entered : ClientSession
    entered = record (asking t0 c) {
      header_buf = encode_header o resp.header;
      resp_header = resp.header;
      pending = nothing;
    }

    abbrev body_event : Event
    body_event = record { completion = success resp.payload; now = now; stop_flag = stop_flag }

    -- Behind the header, by whether the response is empty.
    behind_header :
        (empty : Bool)
        → run o machine (if empty then [] else body_event ∷ []) (
            if empty then succeed o machine stop_flag now (entered, m) else (
              record entered {
                body_buf = resize resp.header.payload_length c.body_buf;
                pending = reading_body;
              },
              m,
            ))
          ≡ do_send_request o machine stop_flag now (
            record entered { body_buf = if empty then c.body_buf else resp.payload },
            record_success (now - t0) m,
          )
    unfolding run step complete succeed on_body
    behind_header true = refl
    behind_header false =
        ap
          (λ body.
            do_send_request o machine stop_flag now
              (record entered { body_buf = body }, record_success (now - t0) m))
          (fill_all (resize resp.header.payload_length c.body_buf) resp.payload
            (length-resize resp.header.payload_length c.body_buf ∙ r.sized))

    answers-got :
        run o machine (answers resp now stop_flag) (asking t0 c, m)
        ≡ do_send_request o machine stop_flag now (got resp t0 c, record_success (now - t0) m)
    unfolding run step complete on_sent on_header accept_header
    answers-got =
        let rest = if resp.header.payload_length == 0 then [] else body_event ∷ [] in
        ap
          (λ buf. run o machine rest (
            accept_header o machine (decode_header o buf) stop_flag now
              (record (asking t0 c) { header_buf = buf; pending = nothing }, m)))
          filled
        ∙ ap
            (λ result. run o machine rest (
              accept_header o machine result stop_flag now (
                record (asking t0 c) {
                  header_buf = encode_header o resp.header;
                  pending = nothing;
                },
                m,
              )))
            (decode-request o resp l r)
        ∙ behind_header (resp.header.payload_length == 0)

-- A client and a session that waits for a header, on hosts with the same lawful byte order and a
-- connection that works, for a request that fits the protocol and a response within the limit: the
-- client's bytes are the request as it goes over the wire; the session answers them with the
-- dispatcher's response, leaves the services in the dispatcher's state and waits for the next header;
-- and when the client has got these bytes, it has recorded one success with the time since it sent
-- the request, and goes on to its next request, or ends if the stop flag is set.
pub do_send_request-answered :
    {S : Type 0} (o : ByteOrder) (machine : Machine) (router : Router S) (c : ClientSession)
    (m : MetricsCollector) (s : Session) (st : S) (t0 now : ℕ) (stop_flag : Bool)
    → IsByteOrder o
    → IsRequest (request_of o machine c)
    → length (dispatch router (request_of o machine c) st).0.payload ≤ max_payload_size
    → length c.header_buf ≡ header_size
    → length s.header_buf ≡ header_size
    → s.pending ≡ Session.reading_header
    → ((do_send_request o machine false t0 (c, m)).0.write_buf ≡ wire o (request_of o machine c))
      × (Session.run o router (exchange o (request_of o machine c)) s st ≡ (
        answered o router
            (request_of o machine c)
            (dispatch router (request_of o machine c) st).0
            s,
        (dispatch router (request_of o machine c) st).1,
      ))
      × (run o machine
            (answers o machine (dispatch router (request_of o machine c) st).0 now stop_flag)
            (do_send_request o machine false t0 (c, m))
          ≡ do_send_request o machine stop_flag now (
            got o machine (dispatch router (request_of o machine c) st).0 t0 c,
            record_success (now - t0) m,
          ))
unfolding do_send_request
do_send_request-answered o machine router c m s st t0 now stop_flag l req fits sized sized' waits =
    let resp = (dispatch router (request_of o machine c) st).0 in
    let r =
      dispatch-IsResponse router (request_of o machine c) st req.header_fits.message_type-lt in
    (
      refl,
      run-exchange o router l (request_of o machine c) req s st sized' waits,
      answers-got o machine l resp (IsResponse-IsRequest resp r fits) t0 now stop_flag c m sized,
    )
