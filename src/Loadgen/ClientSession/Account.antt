-- ===== src/Loadgen/ClientSession/Account.antt =====
-- What a client leaves in the metrics, and how it ends.
use hs_financial_services.Common.{
  ℕ, ◌+◌, ◌-◌, ◌≡◌, ◌≤◌, ◌⊎◌, inl, inr, refl, Bool, true, false, List, [], ◌∷◌, ◌==◌, Result, ok,
  throw, length, length-append, arith, Bool-cases,
}
use hs_financial_services.Protocol.{MessageHeader, ByteOrder, decode_header}
use hs_financial_services.Session.{Completion, error, success, fill}
use hs_financial_services.Loadgen.Scenario.{ScenarioConfig, Machine}
use hs_financial_services.Loadgen.Metrics.{MetricsCollector, new_metrics, record_success}
use hs_financial_services.Loadgen.ClientSession.{
  Waiting, nothing, resolving, connecting, sending, reading_header, reading_body, ClientSession,
  new_client, start, Event, Run, fail, do_send_request, succeed, accept_header, on_header, on_body,
  on_resolved, on_connected, on_sent, complete, step, run,
}

-- The account of a client by what it waits for, with the requests, the samples, the errors and the
-- calls of the callback: before the first request; with a request outstanding; and at the end, where
-- the requests are all answered, or one error is counted and at most one request has no answer.
abbrev pub Balance : Waiting → ℕ → ℕ → ℕ → ℕ → Type 0
Balance nothing requests samples errors done =
    (done ≡ 1)
    × (((errors ≡ 0) × (requests ≡ samples))
        ⊎ ((errors ≡ 1) × (samples ≤ requests) × (requests ≤ samples + 1)))
Balance resolving requests samples errors done =
    (done ≡ 0) × (errors ≡ 0) × (requests ≡ 0) × (samples ≡ 0)
Balance connecting requests samples errors done =
    (done ≡ 0) × (errors ≡ 0) × (requests ≡ 0) × (samples ≡ 0)
Balance sending requests samples errors done = (done ≡ 0) × (errors ≡ 0) × (requests ≡ samples + 1)
Balance reading_header requests samples errors done =
    (done ≡ 0) × (errors ≡ 0) × (requests ≡ samples + 1)
Balance reading_body requests samples errors done =
    (done ≡ 0) × (errors ≡ 0) × (requests ≡ samples + 1)

abbrev pub IsBalanced : Run → Type 0
IsBalanced (c, m) = Balance c.pending c.requests (length m.samples_us) m.errors c.done_calls

-- No operation pending, the callback not called, no error, and every request but the last answered.
abbrev Outstanding : ℕ → Run → Type 0
Outstanding n (c, m) =
    (c.pending ≡ nothing)
    × (c.done_calls ≡ 0)
    × (m.errors ≡ 0)
    × (c.requests ≡ length m.samples_us + n)

fail-IsBalanced : (n : ℕ) (r : Run) → n ≤ 1 → Outstanding n r → IsBalanced (fail r)
unfolding fail
fail-IsBalanced n (c, m) le h =
    rw (h.0) (omega (arith, h.1), inr (omega (arith, h.2), omega (arith, h.3), omega (arith, h.3)))

module _ (o : ByteOrder) (machine : Machine) where
  do_send_request-IsBalanced :
      (stop_flag : Bool) (now : ℕ) (r : Run)
      → Outstanding 0 r
      → IsBalanced (do_send_request o machine stop_flag now r)
  unfolding do_send_request
  do_send_request-IsBalanced true now (c, m) h =
      rw (h.0) (omega (arith, h.1), inl (h.2, omega (arith, h.3)))
  do_send_request-IsBalanced false now (c, m) h = (h.1, h.2, omega (arith, h.3))

  succeed-IsBalanced :
      (stop_flag : Bool) (now : ℕ) (r : Run)
      → Outstanding 1 r
      → IsBalanced (succeed o machine stop_flag now r)
  unfolding succeed
  succeed-IsBalanced stop_flag now (c, m) h =
      do_send_request-IsBalanced stop_flag now (c, record_success (now - c.request_start) m)
        (
          h.0,
          h.1,
          h.2,
          omega (arith, h.3, length-append m.samples_us ((now - c.request_start) ∷ [])),
        )

  accept_header-IsBalanced :
      (result : Result MessageHeader) (stop_flag : Bool) (now : ℕ) (r : Run)
      → Outstanding 1 r
      → IsBalanced (accept_header o machine result stop_flag now r)
  unfolding accept_header
  accept_header-IsBalanced (throw what) stop_flag now r h = fail-IsBalanced 1 r (omega arith) h
  accept_header-IsBalanced (ok hdr) stop_flag now (c, m) h =
      elim (Bool-cases (hdr.payload_length == 0)) [
        | inl e ↦
            rw (e, accept_header)
              (succeed-IsBalanced stop_flag now (record c { resp_header = hdr }, m) h)
        | inr e ↦ rw (e, accept_header) (h.1, h.2, h.3)
      ]

  on_resolved-IsBalanced :
      (x : Completion) (r : Run)
      → Outstanding 0 r
      → r.0.requests ≡ 0
      → IsBalanced (on_resolved o machine x r)
  unfolding on_resolved
  on_resolved-IsBalanced error r h z = fail-IsBalanced 0 r (omega arith) h
  on_resolved-IsBalanced (success bytes) (c, m) h z = (h.1, h.2, z, omega (arith, h.3, z))

  on_connected-IsBalanced :
      (x : Completion) (stop_flag : Bool) (now : ℕ) (r : Run)
      → Outstanding 0 r
      → IsBalanced (on_connected o machine x stop_flag now r)
  unfolding on_connected
  on_connected-IsBalanced error stop_flag now r h = fail-IsBalanced 0 r (omega arith) h
  on_connected-IsBalanced (success bytes) stop_flag now r h =
      do_send_request-IsBalanced stop_flag now r h

  on_sent-IsBalanced :
      (x : Completion) (r : Run) → Outstanding 1 r → IsBalanced (on_sent o machine x r)
  unfolding on_sent
  on_sent-IsBalanced error r h = fail-IsBalanced 1 r (omega arith) h
  on_sent-IsBalanced (success bytes) (c, m) h = (h.1, h.2, h.3)

  on_header-IsBalanced :
      (x : Completion) (stop_flag : Bool) (now : ℕ) (r : Run)
      → Outstanding 1 r
      → IsBalanced (on_header o machine x stop_flag now r)
  unfolding on_header
  on_header-IsBalanced error stop_flag now r h = fail-IsBalanced 1 r (omega arith) h
  on_header-IsBalanced (success bytes) stop_flag now (c, m) h =
      accept_header-IsBalanced (decode_header o (fill c.header_buf bytes)) stop_flag now
        (record c { header_buf = fill c.header_buf bytes }, m) h

  on_body-IsBalanced :
      (x : Completion) (stop_flag : Bool) (now : ℕ) (r : Run)
      → Outstanding 1 r
      → IsBalanced (on_body o machine x stop_flag now r)
  unfolding on_body
  on_body-IsBalanced error stop_flag now r h = fail-IsBalanced 1 r (omega arith) h
  on_body-IsBalanced (success bytes) stop_flag now (c, m) h =
      succeed-IsBalanced stop_flag now (record c { body_buf = fill c.body_buf bytes }, m) h

  complete-IsBalanced :
      (w : Waiting) (e : Event) (c : ClientSession) (m : MetricsCollector)
      → Balance w c.requests (length m.samples_us) m.errors c.done_calls
      → IsBalanced (complete o machine w e (record c { pending = nothing }, m))
  unfolding complete
  complete-IsBalanced nothing e c m h = h
  complete-IsBalanced resolving e c m h =
      on_resolved-IsBalanced e.completion _ (refl, h.0, h.1, omega (arith, h.2, h.3)) h.2
  complete-IsBalanced connecting e c m h =
      on_connected-IsBalanced e.completion e.stop_flag e.now _
        (refl, h.0, h.1, omega (arith, h.2, h.3))
  complete-IsBalanced sending e c m h = on_sent-IsBalanced e.completion _ (refl, h.0, h.1, h.2)
  complete-IsBalanced reading_header e c m h =
      on_header-IsBalanced e.completion e.stop_flag e.now _ (refl, h.0, h.1, h.2)
  complete-IsBalanced reading_body e c m h =
      on_body-IsBalanced e.completion e.stop_flag e.now _ (refl, h.0, h.1, h.2)

  run_lem : (es : List Event) (r : Run) → IsBalanced r → IsBalanced (run o machine es r)
  unfolding run step
  run_lem [] r h = h
  run_lem (e ∷ es) (c, m) h = run_lem es _ (complete-IsBalanced c.pending e c m h)

  -- Whatever the network does and whenever the stop flag is set, the account of a client balances:
  -- while it runs, its callback has not been called, no error is counted, and each request but the
  -- outstanding one has one sample; when it has ended, the callback has been called once, and either
  -- every request has its sample, or there is one error and at most one request without a sample.
  pub run-IsBalanced :
      (es : List Event) (scenario : ScenarioConfig) (client_id : ℕ)
      → IsBalanced (run o machine es (start (new_client scenario client_id), new_metrics))
  unfolding start
  run-IsBalanced es scenario client_id = run_lem es _ (refl, refl, refl, refl)
