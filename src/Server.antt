-- ===== src/Server.antt =====
-- Server (server/include/server.hpp, server/src/server.cpp): the counters, and the accept handler
-- against the sessions that close on other threads. Each atomic operation is a step of its own; one
-- accept is outstanding at a time, so the handler is one sequence of steps.
pub mod Count
pub mod Ids
pub mod Running
pub mod Main
use hs_financial_services.Common.{
  ℕ, zero, suc, ◌+◌, ◌-◌, ◌%◌, ◌^◌, ◌≤◌, ◌<◌, ◌≡◌, List, [], ◌∷◌, ◌++◌, ◌==◌, if◌then◌else◌,
}
use hs_financial_services.Common.Text.{Bytes, codes}

pub record ServerConfig : Type 0 where
  pub address : Bytes
  pub port : ℕ
  pub thread_count : ℕ
  pub max_connections : ℕ

-- The member initialisers, which the command line's defaults repeat.
abbrev pub default_config : ServerConfig
default_config = record {
  address = codes "0.0.0.0";
  port = 9000;
  thread_count = 0;
  max_connections = 50000;
}

-- The number of threads that the constructor settles on; the hardware may report 0.
unfoldable pub thread_count : ℕ → ℕ → ℕ
thread_count configured hardware =
    let n = if configured == 0 then hardware else configured in if n == 0 then 1 else n

-- A 64-bit `fetch_add(1)` and `fetch_sub(1)`.
abbrev pub add_one : ℕ → ℕ
add_one n = (n + 1) % 2 ^ 64

abbrev pub sub_one : ℕ → ℕ
sub_one n = (n + 2 ^ 64 - 1) % 2 ^ 64

-- Where the accept handler stands: between two accepts, behind its test of the limit, behind the
-- count of all connections, behind the count of active ones, and with the new session's number.
pub data Accept : Type 0 where
  waiting admitted counted opened : Accept
  numbered : ℕ → Accept

-- `live` lists the numbers of the sessions whose close callback has not run.
pub record Server : Type 0 where
  pub max_connections : ℕ
  pub total_connections : ℕ
  pub active_connections : ℕ
  pub next_session_id : ℕ
  pub accept : Accept
  pub live : List ℕ

abbrev pub new_server : ServerConfig → Server
new_server c = record {
  max_connections = c.max_connections;
  total_connections = 0;
  active_connections = 0;
  next_session_id = 1;
  accept = waiting;
  live = [];
}

-- The acceptor is never closed, so the handler's test of that always passes. A handler step depends on
-- where the handler stands, given first.
pub data Move (s : Server) : Accept → Server → Type 0 where
  -- an accept that failed, or one over the limit whose socket is closed at once
  failed : Move s waiting s
  rejected : s.max_connections ≤ s.active_connections → Move s waiting s
  -- the test passed
  admits :
      s.active_connections < s.max_connections → Move s waiting (record s { accept = admitted })
  counts :
      Move s admitted
        (record s { accept = counted; total_connections = add_one s.total_connections })
  opens :
      Move s counted
        (record s { accept = opened; active_connections = add_one s.active_connections })
  numbers : Move s opened (record s {
    accept = numbered s.next_session_id;
    next_session_id = add_one s.next_session_id;
  })
  -- the session is made and started, and the next accept begins
  starts : {id : ℕ} → Move s (numbered id) (record s { accept = waiting; live = id ∷ s.live })

-- The handler moves, or a live session runs its close callback.
pub data Step (s : Server) : Server → Type 0 where
  moves : {t : Server} → Move s s.accept t → Step s t
  closes :
      (id : ℕ) (before after : List ℕ)
      → s.live ≡ before ++ (id ∷ after)
      → Step s
          (record s { live = before ++ after; active_connections = sub_one s.active_connections })

-- The states of a server after `n` steps.
pub data Reach (c : ServerConfig) : ℕ → Server → Type 0 where
  begin : Reach c 0 (new_server c)
  later : {n : ℕ} {s t : Server} → Reach c n s → Step s t → Reach c (suc n) t
