-- ===== src/Server/Running/Total.antt =====
-- The count of all connections, and that of the requests.
use hs_financial_services.Common.{
  ℕ, ◌+◌, ◌^◌, ◌≤◌, ◌<◌, ◌≡◌, inl, inr, List, [], ◌∷◌, ltb, Bool-cases, length, refl, ◌∙◌, arith,
}
use hs_financial_services.Protocol.{ByteOrder}
use hs_financial_services.Router.{Router}
use hs_financial_services.Session
use hs_financial_services.Session.{Session, destroy}
use hs_financial_services.Server.{
  ServerConfig, Accept, waiting, admitted, counted, opened, numbered,
}
use hs_financial_services.Server.Running.{
  Running, new_running, Event, accept_failed, accepted, goes_on, at, dropped, after_event,
  on_accept, go_on, step, run,
}

-- A connection that is counted and has no session yet.
abbrev pub begun : Accept → ℕ
begun counted = 1
begun opened = 1
begun (numbered id) = 1
begun other = 0

record Totals {S : Type 0} (n : ℕ) (r : Running S) : Type 0 where
  pub total : r.total_connections ≡ r.made + begun r.accept
  pub few : r.total_connections ≤ n

module _ {S : Type 0} {n : ℕ} (small : n + 1 < 2 ^ 64) where
  go_on-Totals :
      (a : Accept) (r : Running S) → r.accept ≡ a → Totals n r → Totals (n + 1) (go_on a r)
  unfolding go_on
  go_on-Totals waiting r e t = record { total = t.total; few = omega (arith, t.few) }
  go_on-Totals admitted r e t = ground (arith, t.total, t.few)
  go_on-Totals counted r e t = ground (arith, t.total, t.few)
  go_on-Totals opened r e t = ground (arith, t.total, t.few)
  go_on-Totals (numbered id) r e t = ground (arith, t.total, t.few)

  on_accept-Totals :
      (a : Accept) (r : Running S) → r.accept ≡ a → Totals n r → Totals (n + 1) (on_accept a r)
  unfolding on_accept
  on_accept-Totals waiting r e t = ground (arith, t.total, t.few)
  on_accept-Totals admitted r e t = record { total = t.total; few = omega (arith, t.few) }
  on_accept-Totals counted r e t = record { total = t.total; few = omega (arith, t.few) }
  on_accept-Totals opened r e t = record { total = t.total; few = omega (arith, t.few) }
  on_accept-Totals (numbered id) r e t = record { total = t.total; few = omega (arith, t.few) }

  after_event-Totals :
      (k : ℕ) (s : Session) (st : S) (r : Running S)
      → Totals n r
      → Totals (n + 1) (after_event k s st r)
  unfolding after_event
  after_event-Totals k s st r t = record { total = t.total; few = omega (arith, t.few) }

  later-Totals : (r : Running S) → Totals n r → Totals (n + 1) r
  later-Totals r t = record { total = t.total; few = omega (arith, t.few) }

  step-Totals :
      (o : ByteOrder) (router : Router S) (e : Event) (r : Running S)
      → Totals n r
      → Totals (n + 1) (step o router e r)
  unfolding step
  step-Totals o router accept_failed r t = later-Totals r t
  step-Totals o router accepted r t = on_accept-Totals r.accept r refl t
  step-Totals o router goes_on r t = go_on-Totals r.accept r refl t
  step-Totals o router (at k e) r t =
      let (s, st) = Session.step o router e (r.sessions k) r.services in
      elim (Bool-cases (ltb k r.made)) [
        | inl made ↦ rw made (after_event-Totals k s st r t)
        | inr not_yet ↦ rw not_yet (later-Totals r t)
      ]
  step-Totals o router (dropped k) r t = elim (Bool-cases (ltb k r.made)) [
    | inl made ↦ rw made (after_event-Totals k (destroy (r.sessions k)) r.services r t)
    | inr not_yet ↦ rw not_yet (later-Totals r t)
  ]

module _ {S : Type 0} (o : ByteOrder) (router : Router S) where
  run-Totals :
      (es : List Event) (n : ℕ) (r : Running S)
      → n + length es < 2 ^ 64
      → Totals n r
      → Totals (n + length es) (run o router es r)
  unfolding run
  run-Totals [] n r small t = record { total = t.total; few = omega (arith, t.few) }
  run-Totals (e ∷ es) n r small t =
      let rest =
        run-Totals es (n + 1) (step o router e r) (omega (arith, small))
          (step-Totals (omega (arith, small)) o router e r t) in
      record { total = rest.total; few = omega (arith, rest.few) }

  -- The counter of all connections is the number of sessions made and of those begun.
  pub run_total :
      (c : ServerConfig) (st : S) (es : List Event)
      → length es < 2 ^ 64
      → let r = run o router es (new_running c st) in r.total_connections ≡ r.made + begun r.accept
  run_total c st es small =
      (run-Totals es 0 (new_running c st) (omega (arith, small))
        (record { total = omega arith; few = omega arith })).total

-- Nothing that happens to the server counts a request.
module _ {S : Type 0} where
  go_on_requests : (a : Accept) (r : Running S) → (go_on a r).total_requests ≡ r.total_requests
  unfolding go_on
  go_on_requests waiting r = refl
  go_on_requests admitted r = refl
  go_on_requests counted r = refl
  go_on_requests opened r = refl
  go_on_requests (numbered id) r = refl

  on_accept_requests :
      (a : Accept) (r : Running S) → (on_accept a r).total_requests ≡ r.total_requests
  unfolding on_accept
  on_accept_requests waiting r = ground arith
  on_accept_requests admitted r = refl
  on_accept_requests counted r = refl
  on_accept_requests opened r = refl
  on_accept_requests (numbered id) r = refl

module _ {S : Type 0} (o : ByteOrder) (router : Router S) where
  step_total_requests :
      (e : Event) (r : Running S) → (step o router e r).total_requests ≡ r.total_requests
  unfolding step on_accept go_on after_event
  step_total_requests accept_failed r = refl
  step_total_requests accepted r = on_accept_requests r.accept r
  step_total_requests goes_on r = go_on_requests r.accept r
  step_total_requests (at k e) r = elim (Bool-cases (ltb k r.made)) [
    | inl made ↦ rw made refl
    | inr not_yet ↦ rw not_yet refl
  ]
  step_total_requests (dropped k) r = elim (Bool-cases (ltb k r.made)) [
    | inl made ↦ rw made refl
    | inr not_yet ↦ rw not_yet refl
  ]

  pub run_total_requests :
      (es : List Event) (r : Running S) → (run o router es r).total_requests ≡ r.total_requests
  unfolding run
  run_total_requests [] r = refl
  run_total_requests (e ∷ es) r =
      run_total_requests es (step o router e r) ∙ step_total_requests e r
