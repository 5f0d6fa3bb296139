-- ===== src/Server/Running/Runs.antt =====
-- Whole runs of the server.
use hs_financial_services.Common.{
  ℕ, suc, ◌+◌, ◌^◌, ◌≤◌, ◌<◌, ◌≡◌, refl, ap, subst, ◌∙◌, inl, inr, false, List, [], ◌∷◌, ltb,
  if◌then◌else◌, Bool-cases, length, arith, ltb→lt,
}
use hs_financial_services.Protocol.{ByteOrder}
use hs_financial_services.Router.{Router}
use hs_financial_services.Session
use hs_financial_services.Session.{Session, start, new_session, destroy, stopped, close}
use hs_financial_services.Session.Close.{
  CalledOnce, close-CalledOnce, close-closed, step-CalledOnce, step-closed,
}
use hs_financial_services.Session.Shared.{run_sessions}
use hs_financial_services.Server.{
  Accept, waiting, admitted, counted, opened, numbered, ServerConfig, Reach, begin, later,
}
use hs_financial_services.Server.Count.{opening, active_connections-bounded}
use hs_financial_services.Server.Ids.{Distinct, session_ids-Distinct}
use hs_financial_services.Server.Running.{
  Running, new_running, Event, accept_failed, accepted, goes_on, at, dropped, after_event,
  on_accept, go_on, step, run, open_ids, view,
}
use hs_financial_services.Server.Running.Refines.{
  Sound, Advances, go_on-Advances, on_accept-Advances, after_event-Advances, after_event-Sound,
  go_on-Sound, on_accept-Sound,
}

start-CalledOnce : CalledOnce (start new_session)
unfolding start
start-CalledOnce = refl

start_open : (start new_session).closed ≡ false
unfolding start
start_open = refl

new_running-Sound : {S : Type 0} (c : ServerConfig) (st : S) → Sound (new_running c st)
new_running-Sound c st = record { called = λ k. start-CalledOnce; to_come = λ k above. start_open }

module _ {S : Type 0} (o : ByteOrder) (router : Router S) where
  step-Sound : (e : Event) (r : Running S) → Sound r → Sound (step o router e r)
  unfolding step
  step-Sound accept_failed r v = v
  step-Sound accepted r v = on_accept-Sound r.accept r v
  step-Sound goes_on r v = go_on-Sound r.accept r v
  step-Sound (at k e) r v = elim (Bool-cases (ltb k r.made)) [
    | inl made ↦
        let (s, st) = Session.step o router e (r.sessions k) r.services in
        rw made (
          after_event-Sound k s st r v (ltb→lt k r.made made)
            (step-CalledOnce o router e (r.sessions k) r.services (v.called k)))
    | inr not_yet ↦ rw not_yet v
  ]
  step-Sound (dropped k) r v = elim (Bool-cases (ltb k r.made)) [
    | inl made ↦ rw made (
        after_event-Sound k (destroy (r.sessions k)) r.services r v (ltb→lt k r.made made)
          (close-CalledOnce (r.sessions k) (v.called k)))
    | inr not_yet ↦ rw not_yet v
  ]

  step-Advances :
      (e : Event) (r : Running S) → Sound r → Advances (view r) (view (step o router e r))
  unfolding step
  step-Advances accept_failed r v = inl refl
  step-Advances accepted r v = on_accept-Advances r.accept r refl
  step-Advances goes_on r v = go_on-Advances r.accept r v refl
  step-Advances (at k e) r v = elim (Bool-cases (ltb k r.made)) [
    | inl made ↦
        let (s, st) = Session.step o router e (r.sessions k) r.services in
        rw made (
          after_event-Advances k s st r v (ltb→lt k r.made made)
            (step-CalledOnce o router e (r.sessions k) r.services (v.called k))
            (step-closed o router e (r.sessions k) r.services))
    | inr not_yet ↦ rw not_yet (inl refl)
  ]
  step-Advances (dropped k) r v = elim (Bool-cases (ltb k r.made)) [
    | inl made ↦ rw made (
        after_event-Advances k (destroy (r.sessions k)) r.services r v (ltb→lt k r.made made)
          (close-CalledOnce (r.sessions k) (v.called k)) (λ was. close-closed (r.sessions k)))
    | inr not_yet ↦ rw not_yet (inl refl)
  ]

  run-Sound : (es : List Event) (r : Running S) → Sound r → Sound (run o router es r)
  unfolding run
  run-Sound [] r v = v
  run-Sound (e ∷ es) r v = run-Sound es (step o router e r) (step-Sound e r v)

  -- The steps of the counters' machine that events make.
  pub record Steps (c : ServerConfig) (bound : ℕ) (r : Running S) : Type 0 where
    pub steps : ℕ
    pub within : steps ≤ bound
    pub reached : Reach c steps (view r)

  step-Steps :
      {c : ServerConfig} {n : ℕ} {r : Running S} (e : Event)
      → Sound r
      → Steps c n r
      → Steps c (suc n) (step o router e r)
  step-Steps {c} {n} {r} e v w = elim (step-Advances e r v) [
    | inl same ↦ record {
      steps = w.steps;
      within = omega (arith, w.within);
      reached = subst (Reach c w.steps) same w.reached;
    }
    | inr move ↦ record {
      steps = suc w.steps;
      within = omega (arith, w.within);
      reached = later w.reached move;
    }
  ]

  run-Steps :
      {c : ServerConfig} (es : List Event) (n : ℕ) (r : Running S)
      → Sound r
      → Steps c n r
      → Steps c (n + length es) (run o router es r)
  unfolding run
  run-Steps {c} [] n r v w = record {
    steps = w.steps;
    within = omega (arith, w.within);
    reached = w.reached;
  }
  run-Steps {c} (e ∷ es) n r v w =
      let rest =
        run-Steps {c = c} es (suc n) (step o router e r) (step-Sound e r v) (step-Steps e v w) in
      record { steps = rest.steps; within = omega (arith, rest.within); reached = rest.reached }

  -- The events that reach the sessions; a session whose last pointer is dropped closes as if stopped.
  abbrev pub session_events : List Event → Running S → List (ℕ × Session.Event)
  session_events [] r = []
  session_events (at k e ∷ es) r =
      let rest = session_events es (step o router (at k e) r) in
      if ltb k r.made then (k, e) ∷ rest else rest
  session_events (dropped k ∷ es) r =
      let rest = session_events es (step o router (dropped k) r) in
      if ltb k r.made then (k, stopped) ∷ rest else rest
  session_events (e ∷ es) r = session_events es (step o router e r)

  abbrev pub served : Running S → (ℕ → Session) × S
  served r = (r.sessions, r.services)

  on_accept-served : (a : Accept) (r : Running S) → served (on_accept a r) ≡ served r
  unfolding on_accept
  on_accept-served waiting r = ground arith
  on_accept-served admitted r = refl
  on_accept-served counted r = refl
  on_accept-served opened r = refl
  on_accept-served (numbered id) r = refl

  go_on-served : (a : Accept) (r : Running S) → served (go_on a r) ≡ served r
  unfolding go_on
  go_on-served waiting r = refl
  go_on-served admitted r = refl
  go_on-served counted r = refl
  go_on-served opened r = refl
  go_on-served (numbered id) r = refl

  run-served :
      (es : List Event) (r : Running S)
      → served (run o router es r) ≡ run_sessions o router (session_events es r) (served r)
  unfolding run run_sessions after_event destroy Session.step
  run-served [] r = refl
  run-served (accept_failed ∷ es) r = run-served es r
  run-served (accepted ∷ es) r =
      run-served es (on_accept r.accept r)
      ∙ ap (run_sessions o router (session_events es (on_accept r.accept r)))
          (on_accept-served r.accept r)
  run-served (goes_on ∷ es) r =
      run-served es (go_on r.accept r)
      ∙ ap (run_sessions o router (session_events es (go_on r.accept r))) (go_on-served r.accept r)
  run-served (at k e ∷ es) r = elim (Bool-cases (ltb k r.made)) [
    | inl made ↦
        let (s, st) = Session.step o router e (r.sessions k) r.services in
        rw (made, run) (run-served es (after_event k s st r))
    | inr not_yet ↦ rw (not_yet, run) (run-served es r)
  ]
  run-served (dropped k ∷ es) r = elim (Bool-cases (ltb k r.made)) [
    | inl made ↦
        rw (made, run) (run-served es (after_event k (destroy (r.sessions k)) r.services r))
    | inr not_yet ↦ rw (not_yet, run) (run-served es r)
  ]

  -- Whatever accepts, requests, errors, stops and dropped sessions a new server sees, in any order:
  -- its counters make at most one operation for each event, each one that the machine of the counters
  -- alone can make, and its sessions and services are those of the same session events with no server
  -- around them.
  pub run-Reach :
      (c : ServerConfig) (st : S) (es : List Event)
      → let r = run o router es (new_running c st) in
        Steps c (length es) r
        × (served r
            ≡ run_sessions o router
                (session_events es (new_running c st))
                (λ k. start new_session, st))
  run-Reach c st es =
      let w =
        run-Steps {c = c} es 0 (new_running c st) (new_running-Sound c st)
          (record { steps = 0; within = omega arith; reached = begin }) in
      (
        record { steps = w.steps; within = omega (arith, w.within); reached = w.reached },
        run-served es (new_running c st),
      )

  -- For a limit below 2 ^ 64 and fewer than 2 ^ 64 - 1 events, whatever the sessions do: the counter of
  -- active connections is the number of sessions that are made and not closed and of those being
  -- opened, it is not over the limit, and the open sessions have different numbers.
  pub run-counts :
      (c : ServerConfig) (st : S) (es : List Event)
      → c.max_connections < 2 ^ 64
      → length es + 1 < 2 ^ 64
      → let r = run o router es (new_running c st) in
        let open_ = open_ids r.made r.ids r.sessions in
        (r.active_connections ≡ length open_ + opening r.accept)
        × (r.active_connections ≤ c.max_connections)
        × Distinct open_
  run-counts c st es small few =
      let w = (run-Reach c st es).0 in
      let counts = active_connections-bounded small w.reached in
      (counts.0, counts.1, (session_ids-Distinct (omega (arith, w.within)) w.reached).0)
