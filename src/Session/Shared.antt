-- ===== src/Session/Shared.antt =====
-- The sessions of one server (server/src/session.cpp), which share its router and its services. They
-- run on several threads, and a step of one session makes at most one access to what they share: the
-- runs are the interleavings of their steps.
pub mod Received
pub mod Requests
pub mod Delivery
pub mod Serial
pub mod Clients
use hs_financial_services.Common.{
  ℕ, ◌≡◌, Bool, Option, none, some, List, [], ◌∷◌, ◌++◌, ◌==◌, if◌then◌else◌, Result, ok, throw,
}
use hs_financial_services.Protocol.{MessageHeader, Message, ByteOrder, decode_header}
use hs_financial_services.Router.{Router}
use hs_financial_services.Session.{
  Session, Pending, nothing, reading_header, reading_body, writing, Completion, error, success,
  Event, completed, stopped, fill, step,
}

-- The sessions by their numbers, with one of them replaced.
abbrev pub update : ℕ → Session → (ℕ → Session) → ℕ → Session
update k s sessions n = if n == k then s else sessions n

module _ {S : Type 0} (o : ByteOrder) (router : Router S) where
  unfoldable pub step_at : ℕ → Event → (ℕ → Session) × S → (ℕ → Session) × S
  unfolding step
  step_at k e (sessions, st) =
      let (s, st') = step o router e (sessions k) st in (update k s sessions, st')

  unfoldable pub run_sessions : List (ℕ × Event) → (ℕ → Session) × S → (ℕ → Session) × S
  unfolding step_at
  run_sessions [] all = all
  run_sessions ((k, e) ∷ es) all = run_sessions es (step_at k e all)

-- The events of one session.
abbrev pub events_of : ℕ → List (ℕ × Event) → List Event
events_of k [] = []
events_of k ((j, e) ∷ es) = let rest = events_of k es in if k == j then e ∷ rest else rest

-- The request that a header completes, if it announces no payload.
abbrev pub request_in : Result MessageHeader → Option Message
request_in (throw what) = none
request_in (ok h) =
    if h.payload_length == 0 then some (record { header = h; payload = [] }) else none

module _ (o : ByteOrder) where
  -- The request that an event completes, and that the session dispatches then.
  abbrev pub request_at : Pending → Completion → Session → Option Message
  request_at reading_header (success bytes) s =
      request_in (decode_header o (fill s.header_buf bytes))
  request_at reading_body (success bytes) s =
      some (record { header = s.current_header; payload = fill s.body_buf bytes })
  request_at p c s = none

  abbrev pub request : Event → Session → Option Message
  request (completed c) s = request_at s.pending c s
  request stopped s = none
