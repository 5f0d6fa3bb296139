-- ===== src/Loadgen/Campaign/Account.antt =====
-- What one step of a client adds to the accounts.
use hs_financial_services.Common.{
  ℕ, ◌+◌, ◌-◌, ◌^◌, ◌<◌, ◌≤◌, ◌≡◌, refl, sym, ap, inl, inr, Bool, true, false, [], ◌∷◌, ◌==◌,
  Result, ok, throw, length, length-append, arith, Bool-cases,
}
use hs_financial_services.Protocol.{MessageHeader, ByteOrder, decode_header}
use hs_financial_services.Session.{Completion, error, success, fill}
use hs_financial_services.Loadgen.Scenario.{Machine}
use hs_financial_services.Loadgen.Metrics.{MetricsCollector, record_success}
use hs_financial_services.Loadgen.ClientSession.{
  Waiting, nothing, resolving, connecting, sending, reading_header, reading_body, ClientSession,
  Event, Run, fail, do_send_request, succeed, accept_header, on_header, on_body, on_resolved,
  on_connected, on_sent, complete, step,
}

-- Whether a client has not ended, and whether one of its requests has no answer yet.
abbrev pub running : Waiting → ℕ
running nothing = 0
running other = 1

abbrev pub unanswered : Waiting → ℕ
unanswered sending = 1
unanswered reading_header = 1
unanswered reading_body = 1
unanswered other = 0

-- How many completions a client can still take once the stop flag is set.
abbrev pub steps_left : Waiting → ℕ
steps_left nothing = 0
steps_left resolving = 2
steps_left connecting = 1
steps_left sending = 3
steps_left reading_header = 2
steps_left reading_body = 1

-- From a client that waited for `w` and the metrics to those behind a handler: the callback is called
-- when the client ends and only then; the requests grow with the samples and the unanswered, but
-- for those that an error ends; an error ends the client; and with the stop flag set fewer steps
-- are left.
pub record Adds (w : Waiting) (stop_flag : Bool) (c : ClientSession) (m : MetricsCollector)
    (r : Run) : Type 0 where
  pub called : r.0.done_calls + running r.0.pending ≡ c.done_calls + running w
  pub answered :
      length r.1.samples_us + unanswered r.0.pending + c.requests
      ≤ r.0.requests + length m.samples_us + unanswered w
  pub lost :
      r.0.requests + length m.samples_us + unanswered w + m.errors
      ≤ length r.1.samples_us + unanswered r.0.pending + c.requests + r.1.errors
  pub failed : r.1.errors + running r.0.pending ≤ m.errors + running w
  pub ending : running r.0.pending ≤ running w
  pub nearer : stop_flag ≡ true → steps_left r.0.pending + running w ≤ steps_left w

-- A handler's client before it waits again: nothing is pending and nothing is counted.
abbrev Entered : ClientSession → ClientSession → Type 0
Entered c c' = (c'.pending ≡ nothing) × (c'.done_calls ≡ c.done_calls) × (c'.requests ≡ c.requests)

-- What holds of every operation that can complete.
abbrev Pends : Waiting → Type 0
Pends w = (running w ≡ 1) × (1 ≤ steps_left w) × (unanswered w ≤ 1)

module _ (w : Waiting) (stop_flag : Bool) (c : ClientSession) (m : MetricsCollector)
    (pends : Pends w) (few : m.errors + 1 < 2 ^ 64) where
  fail-Adds : (c' : ClientSession) → Entered c c' → Adds w stop_flag c m (fail (c', m))
  unfolding fail
  fail-Adds c' (e, done, same) = rw e (record {
    called = omega (arith, done, pends.0);
    answered = omega (arith, same);
    lost = omega (arith, same, pends.2, few);
    failed = omega (arith, pends.0, few);
    ending = omega (arith, pends.0);
    nearer = λ _. omega (arith, pends.0, pends.1);
  })

  -- The next operation of the same request, or the next one before the first request.
  waits-Adds :
      (v : Waiting) (c' : ClientSession)
      → (running v ≡ 1) × (unanswered v ≡ unanswered w) × (steps_left v + 1 ≤ steps_left w)
      → c'.pending ≡ v
      → c'.done_calls ≡ c.done_calls
      → c'.requests ≡ c.requests
      → Adds w stop_flag c m (c', m)
  waits-Adds v c' (on, request, left) e done same = record {
    called = omega (arith, done, pends.0, on, ap running e);
    answered = omega (arith, same, request, ap unanswered e);
    lost = omega (arith, same, request, ap unanswered e);
    failed = omega (arith, pends.0, on, ap running e);
    ending = omega (arith, pends.0, on, ap running e);
    nearer = λ _. omega (arith, pends.0, left, ap steps_left e);
  }

  module _ (o : ByteOrder) (machine : Machine) where
    do_send_request-Adds :
        (stop_flag' : Bool) (now : ℕ) (c' : ClientSession) (m' : MetricsCollector)
        → stop_flag ≡ stop_flag'
        → Entered c c'
        → length m'.samples_us ≡ length m.samples_us + unanswered w
        → m'.errors ≡ m.errors
        → Adds w stop_flag c m (do_send_request o machine stop_flag' now (c', m'))
    unfolding do_send_request
    do_send_request-Adds true now c' m' flag (e, done, same) more errs = rw e (record {
      called = omega (arith, done, pends.0);
      answered = omega (arith, same, more);
      lost = omega (arith, same, more, errs);
      failed = omega (arith, pends.0, errs);
      ending = omega (arith, pends.0);
      nearer = λ _. omega (arith, pends.0, pends.1);
    })
    do_send_request-Adds false now c' m' flag (e, done, same) more errs = record {
      called = omega (arith, done, pends.0);
      answered = omega (arith, same, more);
      lost = omega (arith, same, more, errs);
      failed = omega (arith, pends.0, errs);
      ending = omega (arith, pends.0);
      nearer = λ on. cc;
    }

    succeed-Adds :
        (now : ℕ) (c' : ClientSession)
        → unanswered w ≡ 1
        → Entered c c'
        → Adds w stop_flag c m (succeed o machine stop_flag now (c', m))
    unfolding succeed record_success
    succeed-Adds now c' one entered =
        let us = now - c'.request_start in
        do_send_request-Adds stop_flag now c' (record_success us m) refl entered
          (omega (arith, one, length-append m.samples_us (us ∷ []))) refl

    accept_header-Adds :
        (result : Result MessageHeader) (now : ℕ) (c' : ClientSession)
        → w ≡ reading_header
        → Entered c c'
        → Adds w stop_flag c m (accept_header o machine result stop_flag now (c', m))
    unfolding accept_header
    accept_header-Adds (throw what) now c' at entered = fail-Adds c' entered
    accept_header-Adds (ok h) now c' at entered = elim (Bool-cases (h.payload_length == 0)) [
      | inl e ↦
          rw (e, accept_header)
            (succeed-Adds now (record c' { resp_header = h }) (ap unanswered at) entered)
      | inr e ↦
          rw (e, accept_header)
            (waits-Adds reading_body _
              (refl, ap unanswered (sym at), omega (arith, ap steps_left at)) refl entered.1
              entered.2)
    ]

-- The handler of each operation on the client that waited for it.
module _ (o : ByteOrder) (machine : Machine) (stop_flag : Bool) (now : ℕ) (c : ClientSession)
    (m : MetricsCollector) (few : m.errors + 1 < 2 ^ 64) where
  abbrev entered : ClientSession
  entered = record c { pending = nothing }

  on_resolved-Adds :
      (x : Completion) → Adds resolving stop_flag c m (on_resolved o machine x (entered, m))
  unfolding on_resolved
  on_resolved-Adds error =
      fail-Adds resolving stop_flag c m (refl, omega arith, omega arith) few entered
        (refl, refl, refl)
  on_resolved-Adds (success bytes) =
      waits-Adds resolving stop_flag c m (refl, omega arith, omega arith) few connecting
        (record c { pending = connecting }) (refl, refl, omega arith) refl refl refl

  on_connected-Adds :
      (x : Completion)
      → Adds connecting stop_flag c m (on_connected o machine x stop_flag now (entered, m))
  unfolding on_connected
  on_connected-Adds error =
      fail-Adds connecting stop_flag c m (refl, omega arith, omega arith) few entered
        (refl, refl, refl)
  on_connected-Adds (success bytes) =
      do_send_request-Adds connecting stop_flag c m (refl, omega arith, omega arith) few o machine
        stop_flag now entered m refl (refl, refl, refl) (omega arith) refl

  on_sent-Adds : (x : Completion) → Adds sending stop_flag c m (on_sent o machine x (entered, m))
  unfolding on_sent
  on_sent-Adds error =
      fail-Adds sending stop_flag c m (refl, omega arith, omega arith) few entered
        (refl, refl, refl)
  on_sent-Adds (success bytes) =
      waits-Adds sending stop_flag c m (refl, omega arith, omega arith) few reading_header
        (record c { pending = reading_header }) (refl, refl, omega arith) refl refl refl

  on_header-Adds :
      (x : Completion)
      → Adds reading_header stop_flag c m (on_header o machine x stop_flag now (entered, m))
  unfolding on_header
  on_header-Adds error =
      fail-Adds reading_header stop_flag c m (refl, omega arith, omega arith) few entered
        (refl, refl, refl)
  on_header-Adds (success bytes) =
      let buf = fill c.header_buf bytes in
      accept_header-Adds reading_header stop_flag c m (refl, omega arith, omega arith) few o machine
        (decode_header o buf) now (record entered { header_buf = buf }) refl (refl, refl, refl)

  on_body-Adds :
      (x : Completion)
      → Adds reading_body stop_flag c m (on_body o machine x stop_flag now (entered, m))
  unfolding on_body
  on_body-Adds error =
      fail-Adds reading_body stop_flag c m (refl, omega arith, omega arith) few entered
        (refl, refl, refl)
  on_body-Adds (success bytes) =
      succeed-Adds reading_body stop_flag c m (refl, omega arith, omega arith) few o machine now
        (record entered { body_buf = fill c.body_buf bytes }) refl (refl, refl, refl)

module _ (o : ByteOrder) (machine : Machine) (e : Event) (c : ClientSession) (m : MetricsCollector)
    (few : m.errors + 1 < 2 ^ 64) where
  complete-Adds :
      (w : Waiting)
      → Adds w e.stop_flag c m (complete o machine w e (record c { pending = nothing }, m))
  unfolding complete
  complete-Adds nothing = record {
    called = refl;
    answered = omega arith;
    lost = omega arith;
    failed = omega arith;
    ending = omega arith;
    nearer = λ _. omega arith;
  }
  complete-Adds resolving = on_resolved-Adds o machine e.stop_flag e.now c m few e.completion
  complete-Adds connecting = on_connected-Adds o machine e.stop_flag e.now c m few e.completion
  complete-Adds sending = on_sent-Adds o machine e.stop_flag e.now c m few e.completion
  complete-Adds reading_header = on_header-Adds o machine e.stop_flag e.now c m few e.completion
  complete-Adds reading_body = on_body-Adds o machine e.stop_flag e.now c m few e.completion

  pub step-Adds : Adds c.pending e.stop_flag c m (step o machine e (c, m))
  unfolding step
  step-Adds = complete-Adds c.pending
