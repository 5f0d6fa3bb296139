-- ===== src/Server/Running.antt =====
-- The server with its sessions (server/src/server.cpp, server/src/session.cpp): the accept handler
-- makes them, they serve, and the callback of each counts it as gone when it closes.
pub mod Open
pub mod Refines
pub mod Runs
pub mod Total
use hs_financial_services.Common.{
  ℕ, zero, suc, ◌+◌, ◌-◌, ◌≡◌, Bool, List, [], ◌∷◌, ◌==◌, ltb, if◌then◌else◌,
}
use hs_financial_services.Protocol.{ByteOrder}
use hs_financial_services.Router.{Router}
use hs_financial_services.Session
use hs_financial_services.Session.{Session, new_session, start, destroy}
use hs_financial_services.Session.Shared.{update}
use hs_financial_services.Server.{
  ServerConfig, Accept, waiting, admitted, counted, opened, numbered, Server, add_one, sub_one,
}

-- The sessions are numbered by their making: `made` of them are made, `ids` has the number that each
-- was given, and those to come stand as they start.
pub record Running (S : Type 0) : Type 0 where
  pub max_connections : ℕ
  pub total_connections : ℕ
  pub total_requests : ℕ
  pub active_connections : ℕ
  pub next_session_id : ℕ
  pub accept : Accept
  pub made : ℕ
  pub ids : ℕ → ℕ
  pub sessions : ℕ → Session
  pub services : S

abbrev pub new_running : {S : Type 0} → ServerConfig → S → Running S
new_running c st = record {
  max_connections = c.max_connections;
  total_connections = 0;
  total_requests = 0;
  active_connections = 0;
  next_session_id = 1;
  accept = waiting;
  made = 0;
  ids = λ k. 0;
  sessions = λ k. start new_session;
  services = st;
}

-- What happens: an accept fails or brings a connection, the accept handler goes on to its next
-- operation, something happens to a session, or the last pointer to one is dropped.
pub data Event : Type 0 where
  accept_failed accepted goes_on : Event
  at : ℕ → Session.Event → Event
  dropped : ℕ → Event

-- The close callback, as often as it was called.
abbrev pub call_back : ℕ → ℕ → ℕ
call_back zero active = active
call_back (suc calls) active = call_back calls (sub_one active)

-- `on_request`, the only operation on the counter of requests; no code calls it.
abbrev pub on_request : {S : Type 0} → Running S → Running S
on_request r = record r { total_requests = add_one r.total_requests }

module _ {S : Type 0} where
  -- A session that an event left as `s`, with the services as `st`.
  unfoldable pub after_event : ℕ → Session → S → Running S → Running S
  after_event k s st r = record r {
    sessions = update k s r.sessions;
    services = st;
    active_connections =
        call_back (s.on_close_calls - (r.sessions k).on_close_calls) r.active_connections;
  }

  -- The handler's operations behind its test, by where it stands.
  unfoldable pub go_on : Accept → Running S → Running S
  go_on waiting r = r
  go_on admitted r = record r { accept = counted; total_connections = add_one r.total_connections }
  go_on counted r = record r { accept = opened; active_connections = add_one r.active_connections }
  go_on opened r = record r {
    accept = numbered r.next_session_id;
    next_session_id = add_one r.next_session_id;
  }
  go_on (numbered id) r = record r {
    accept = waiting;
    made = suc r.made;
    ids = λ k. if k == r.made then id else r.ids k;
  }

  -- The test of the limit; over it the socket is closed.
  unfoldable pub on_accept : Accept → Running S → Running S
  on_accept waiting r =
      if ltb r.active_connections r.max_connections then record r { accept = admitted } else r
  on_accept other r = r

  module _ (o : ByteOrder) (router : Router S) where
    unfoldable pub step : Event → Running S → Running S
    unfolding after_event go_on on_accept Session.step destroy
    step accept_failed r = r
    step accepted r = on_accept r.accept r
    step goes_on r = go_on r.accept r
    step (at k e) r =
        let (s, st) = Session.step o router e (r.sessions k) r.services in
        if ltb k r.made then after_event k s st r else r
    step (dropped k) r =
        if ltb k r.made then after_event k (destroy (r.sessions k)) r.services r else r

    unfoldable pub run : List Event → Running S → Running S
    unfolding step
    run [] r = r
    run (e ∷ es) r = run es (step e r)

-- The numbers of the sessions that are made and not closed, the last made first.
abbrev pub open_ids : ℕ → (ℕ → ℕ) → (ℕ → Session) → List ℕ
open_ids zero ids sessions = []
open_ids (suc n) ids sessions =
    let rest = open_ids n ids sessions in if (sessions n).closed then rest else ids n ∷ rest

-- The counters' view of the server.
abbrev pub view : {S : Type 0} → Running S → Server
view r = record {
  max_connections = r.max_connections;
  total_connections = r.total_connections;
  active_connections = r.active_connections;
  next_session_id = r.next_session_id;
  accept = r.accept;
  live = open_ids r.made r.ids r.sessions;
}
