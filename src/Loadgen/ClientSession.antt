-- ===== src/Loadgen/ClientSession.antt =====
-- ClientSession (load_generator/src/client_session.cpp): one simulated client. As for the server's
-- session, each completion handler is a function, and the network's part comes as events.
pub mod Account
use hs_financial_services.Common.{
  ℕ, zero, suc, ◌+◌, ◌-◌, Bool, true, false, List, [], ◌∷◌, ◌++◌, ◌==◌, if◌then◌else◌, Result, ok,
  throw,
}
use hs_financial_services.Common.Text.{Bytes}
use hs_financial_services.Protocol.{
  MessageHeader, default_header, Message, ByteOrder, encode_header, decode_header, header_size,
}
use hs_financial_services.Session.{Completion, error, success, zeros, resize, fill}
use hs_financial_services.Loadgen.Scenario.{ScenarioConfig, Machine, seed, next_request}
use hs_financial_services.Loadgen.Metrics.{MetricsCollector, record_success, record_error}

-- The asynchronous operation that a client waits for.
pub data Waiting : Type 0 where
  nothing resolving connecting sending reading_header reading_body : Waiting

-- `requests` counts the requests that the client began to send, and `done_calls` the calls of its
-- callback.
pub record ClientSession : Type 0 where
  pub scenario : ScenarioConfig
  pub rng_state : ℕ
  pub header_buf : Bytes
  pub body_buf : Bytes
  pub write_buf : Bytes
  pub resp_header : MessageHeader
  pub request_start : ℕ
  pub pending : Waiting
  pub requests : ℕ
  pub done_calls : ℕ

-- The constructor; `client_id` is below 2 ^ 32.
abbrev pub new_client : ScenarioConfig → ℕ → ClientSession
new_client scenario client_id = record {
  scenario = scenario;
  rng_state = seed client_id;
  header_buf = zeros header_size;
  body_buf = [];
  write_buf = [];
  resp_header = default_header;
  request_start = 0;
  pending = nothing;
  requests = 0;
  done_calls = 0;
}

-- `start`, which only calls `do_connect`.
unfoldable pub start : ClientSession → ClientSession
start c = record c { pending = resolving }

-- Closing the socket ignores its errors.
unfoldable pub finish : ClientSession → ClientSession
finish c = record c { done_calls = c.done_calls + 1 }

-- A completion of the pending operation, the time on the steady clock in microseconds when its
-- handler runs, and what the handler reads from the stop flag.
pub record Event : Type 0 where
  pub completion : Completion
  pub now : ℕ
  pub stop_flag : Bool

-- A client and the metrics, which clients share.
abbrev pub Run : Type 0
Run = ClientSession × MetricsCollector

unfoldable pub fail : Run → Run
unfolding finish record_error
fail (c, m) = (finish c, record_error m)

module _ (o : ByteOrder) (machine : Machine) where
  unfoldable pub do_send_request : Bool → ℕ → Run → Run
  unfolding finish next_request
  do_send_request stop_flag now (c, m) =
      let (req, rng) = next_request machine c.scenario c.rng_state in
      if stop_flag then (finish c, m) else (
        record c {
          rng_state = rng;
          write_buf = encode_header o req.header ++ req.payload;
          request_start = now;
          requests = c.requests + 1;
          pending = sending;
        },
        m,
      )

  -- The response is complete: record it and send the next request.
  unfoldable pub succeed : Bool → ℕ → Run → Run
  unfolding do_send_request record_success
  succeed stop_flag now (c, m) =
      do_send_request stop_flag now (c, record_success (now - c.request_start) m)

  -- The handler of `do_read_response_header` behind `decode_header`.
  unfoldable pub accept_header : Result MessageHeader → Bool → ℕ → Run → Run
  unfolding fail succeed
  accept_header (throw what) stop_flag now r = fail r
  accept_header (ok h) stop_flag now (c, m) =
      let next : ClientSession = record c { resp_header = h } in
      if h.payload_length == 0 then succeed stop_flag now (next, m) else (
        record next { body_buf = resize h.payload_length c.body_buf; pending = reading_body },
        m,
      )

  unfoldable pub on_header : Completion → Bool → ℕ → Run → Run
  unfolding fail accept_header
  on_header error stop_flag now r = fail r
  on_header (success bytes) stop_flag now (c, m) =
      let buf = fill c.header_buf bytes in
      accept_header (decode_header o buf) stop_flag now (record c { header_buf = buf }, m)

  unfoldable pub on_body : Completion → Bool → ℕ → Run → Run
  unfolding fail succeed
  on_body error stop_flag now r = fail r
  on_body (success bytes) stop_flag now (c, m) =
      succeed stop_flag now (record c { body_buf = fill c.body_buf bytes }, m)

  -- The handlers of the resolver, of the connection and of the write.
  unfoldable pub on_resolved : Completion → Run → Run
  unfolding fail
  on_resolved error r = fail r
  on_resolved (success bytes) (c, m) = (record c { pending = connecting }, m)

  unfoldable pub on_connected : Completion → Bool → ℕ → Run → Run
  unfolding fail do_send_request
  on_connected error stop_flag now r = fail r
  on_connected (success bytes) stop_flag now r = do_send_request stop_flag now r

  unfoldable pub on_sent : Completion → Run → Run
  unfolding fail
  on_sent error r = fail r
  on_sent (success bytes) (c, m) = (record c { pending = reading_header }, m)

  -- The handler of the operation that was pending, which is so no longer.
  unfoldable pub complete : Waiting → Event → Run → Run
  unfolding on_resolved on_connected on_sent on_header on_body
  complete nothing e r = r
  complete resolving e r = on_resolved e.completion r
  complete connecting e r = on_connected e.completion e.stop_flag e.now r
  complete sending e r = on_sent e.completion r
  complete reading_header e r = on_header e.completion e.stop_flag e.now r
  complete reading_body e r = on_body e.completion e.stop_flag e.now r

  unfoldable pub step : Event → Run → Run
  unfolding complete
  step e (c, m) = complete c.pending e (record c { pending = nothing }, m)

  unfoldable pub run : List Event → Run → Run
  unfolding step
  run [] r = r
  run (e ∷ es) r = run es (step e r)
