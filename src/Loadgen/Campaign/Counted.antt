-- ===== src/Loadgen/Campaign/Counted.antt =====
-- The count of successes, against the samples.
use hs_financial_services.Common.{
  ℕ, suc, zero, ◌%◌, ◌^◌, ◌≡◌, refl, inl, inr, Bool, true, false, List, [], ◌∷◌, ◌==◌, Result, ok,
  throw, length, length-append, arith, Bool-cases,
}
use hs_financial_services.Protocol.{MessageHeader, ByteOrder, decode_header}
use hs_financial_services.Session.{Completion, error, success, fill}
use hs_financial_services.Loadgen.Scenario.{ScenarioConfig, Machine}
use hs_financial_services.Loadgen.Metrics.{MetricsCollector, record_success, record_error}
use hs_financial_services.Loadgen.ClientSession
use hs_financial_services.Loadgen.ClientSession.{
  Waiting, nothing, resolving, connecting, sending, reading_header, reading_body, ClientSession,
  Run, fail, do_send_request, succeed, accept_header, on_header, on_body, on_resolved, on_connected,
  on_sent, complete,
}
use hs_financial_services.Loadgen.Campaign.{
  Campaign, new_campaign, Event, completes, timer, complete_at, step, run,
}

-- The 64-bit counter of successes counts the samples.
abbrev pub IsCounted : MetricsCollector → Type 0
IsCounted m = m.successes ≡ length m.samples_us % 2 ^ 64

record_success-IsCounted :
    (us : ℕ) (m : MetricsCollector) → IsCounted m → IsCounted (record_success us m)
unfolding record_success
record_success-IsCounted us m h = omega (arith, h, length-append m.samples_us (us ∷ []))

fail-IsCounted :
    (c : ClientSession) (m : MetricsCollector) → IsCounted m → IsCounted (fail (c, m)).1
unfolding fail record_error
fail-IsCounted c m h = h

module _ (o : ByteOrder) (machine : Machine) where
  do_send_request-IsCounted :
      (stop_flag : Bool) (now : ℕ) (c : ClientSession) (m : MetricsCollector)
      → IsCounted m
      → IsCounted (do_send_request o machine stop_flag now (c, m)).1
  unfolding do_send_request
  do_send_request-IsCounted true now c m h = h
  do_send_request-IsCounted false now c m h = h

  succeed-IsCounted :
      (stop_flag : Bool) (now : ℕ) (c : ClientSession) (m : MetricsCollector)
      → IsCounted m
      → IsCounted (succeed o machine stop_flag now (c, m)).1
  unfolding succeed
  succeed-IsCounted stop_flag now c m h =
      do_send_request-IsCounted stop_flag now c _ (record_success-IsCounted _ m h)

  accept_header-IsCounted :
      (result : Result MessageHeader) (stop_flag : Bool) (now : ℕ) (c : ClientSession)
      (m : MetricsCollector)
      → IsCounted m
      → IsCounted (accept_header o machine result stop_flag now (c, m)).1
  unfolding accept_header
  accept_header-IsCounted (throw what) stop_flag now c m h = fail-IsCounted c m h
  accept_header-IsCounted (ok hdr) stop_flag now c m h =
      elim (Bool-cases (hdr.payload_length == 0)) [
        | inl e ↦ rw (e, accept_header) (succeed-IsCounted stop_flag now _ m h)
        | inr e ↦ rw (e, accept_header) h
      ]

  on_header-IsCounted :
      (x : Completion) (stop_flag : Bool) (now : ℕ) (c : ClientSession) (m : MetricsCollector)
      → IsCounted m
      → IsCounted (on_header o machine x stop_flag now (c, m)).1
  unfolding on_header
  on_header-IsCounted error stop_flag now c m h = fail-IsCounted c m h
  on_header-IsCounted (success bytes) stop_flag now c m h =
      accept_header-IsCounted (decode_header o (fill c.header_buf bytes)) stop_flag now _ m h

  on_body-IsCounted :
      (x : Completion) (stop_flag : Bool) (now : ℕ) (c : ClientSession) (m : MetricsCollector)
      → IsCounted m
      → IsCounted (on_body o machine x stop_flag now (c, m)).1
  unfolding on_body
  on_body-IsCounted error stop_flag now c m h = fail-IsCounted c m h
  on_body-IsCounted (success bytes) stop_flag now c m h = succeed-IsCounted stop_flag now _ m h

  on_connected-IsCounted :
      (x : Completion) (stop_flag : Bool) (now : ℕ) (c : ClientSession) (m : MetricsCollector)
      → IsCounted m
      → IsCounted (on_connected o machine x stop_flag now (c, m)).1
  unfolding on_connected
  on_connected-IsCounted error stop_flag now c m h = fail-IsCounted c m h
  on_connected-IsCounted (success bytes) stop_flag now c m h =
      do_send_request-IsCounted stop_flag now c m h

  on_resolved-IsCounted :
      (x : Completion) (c : ClientSession) (m : MetricsCollector)
      → IsCounted m
      → IsCounted (on_resolved o machine x (c, m)).1
  unfolding on_resolved
  on_resolved-IsCounted error c m h = fail-IsCounted c m h
  on_resolved-IsCounted (success bytes) c m h = h

  on_sent-IsCounted :
      (x : Completion) (c : ClientSession) (m : MetricsCollector)
      → IsCounted m
      → IsCounted (on_sent o machine x (c, m)).1
  unfolding on_sent
  on_sent-IsCounted error c m h = fail-IsCounted c m h
  on_sent-IsCounted (success bytes) c m h = h

  complete-IsCounted :
      (w : Waiting) (e : ClientSession.Event) (c : ClientSession) (m : MetricsCollector)
      → IsCounted m
      → IsCounted (complete o machine w e (c, m)).1
  unfolding complete
  complete-IsCounted nothing e c m h = h
  complete-IsCounted resolving e c m h = on_resolved-IsCounted e.completion c m h
  complete-IsCounted connecting e c m h =
      on_connected-IsCounted e.completion e.stop_flag e.now c m h
  complete-IsCounted sending e c m h = on_sent-IsCounted e.completion c m h
  complete-IsCounted reading_header e c m h =
      on_header-IsCounted e.completion e.stop_flag e.now c m h
  complete-IsCounted reading_body e c m h = on_body-IsCounted e.completion e.stop_flag e.now c m h

  complete_at-IsCounted :
      (i : ℕ) (e : ClientSession.Event) (cs : List ClientSession) (m : MetricsCollector)
      → IsCounted m
      → IsCounted (complete_at o machine i e cs m).1
  unfolding complete_at ClientSession.step
  complete_at-IsCounted i e [] m h = h
  complete_at-IsCounted zero e (c ∷ cs) m h = complete-IsCounted c.pending e _ m h
  complete_at-IsCounted (suc i) e (c ∷ cs) m h = complete_at-IsCounted i e cs m h

  run_lem :
      (es : List Event) (s : Campaign)
      → IsCounted s.metrics
      → IsCounted (run o machine es s).metrics
  unfolding run step
  run_lem [] s h = h
  run_lem (completes i x now ∷ es) s h =
      run_lem es _ (complete_at-IsCounted i _ s.clients s.metrics h)
  run_lem (timer ∷ es) s h = run_lem es _ h

  pub run-IsCounted :
      (es : List Event) (scenario : ScenarioConfig) (n : ℕ)
      → IsCounted (run o machine es (new_campaign scenario n)).metrics
  unfolding new_campaign
  run-IsCounted es scenario n = run_lem es _ refl
