-- ===== src/Server/Count.antt =====
-- The count of active connections.
use hs_financial_services.Common.{
  ℕ, suc, ◌+◌, ◌^◌, ◌≤◌, ◌<◌, ◌≡◌, refl, ap, ◌∷◌, length, length-append, arith,
}
use hs_financial_services.Server.{
  Accept, admitted, counted, opened, numbered, Server, ServerConfig, Move, failed, rejected, admits,
  counts, opens, numbers, starts, Step, moves, closes, Reach, begin, later,
}

-- Connections that are counted as active and are not yet live sessions, and those admitted but not
-- yet counted.
abbrev pub opening : Accept → ℕ
opening opened = 1
opening (numbered id) = 1
opening other = 0

abbrev pub due : Accept → ℕ
due admitted = 1
due counted = 1
due other = 0

pub record Counted (limit : ℕ) (s : Server) : Type 0 where
  pub same_limit : s.max_connections ≡ limit
  pub active : s.active_connections ≡ length s.live + opening s.accept
  pub room : s.active_connections + due s.accept ≤ limit

Move-Counted :
    {limit : ℕ} {s t : Server} {a : Accept}
    → limit < 2 ^ 64
    → s.accept ≡ a
    → Move s a t
    → Counted limit s
    → Counted limit t
Move-Counted h e failed c = c
Move-Counted h e (rejected g) c = c
Move-Counted h e (admits g) c = ground arith
Move-Counted h e counts c = ground arith
Move-Counted h e opens c = ground arith
Move-Counted h e numbers c = ground arith
Move-Counted h e starts c = ground arith

Step-Counted :
    {limit : ℕ} {s t : Server} → limit < 2 ^ 64 → Step s t → Counted limit s → Counted limit t
Step-Counted h (moves mv) c = Move-Counted h refl mv c
Step-Counted {limit} {s} h (closes id before after split) c =
    let longer : length s.live ≡ length before + suc (length after) =
      omega (arith, ap length split, length-append {0} before (id ∷ after)) in
    let shorter = length-append {0} before after in
    record {
      same_limit = c.same_limit;
      active = omega (arith, c.active, c.room);
      room = omega (arith, c.active, c.room);
    }

Reach-Counted :
    {cfg : ServerConfig} {n : ℕ} {s : Server}
    → cfg.max_connections < 2 ^ 64
    → Reach cfg n s
    → Counted cfg.max_connections s
Reach-Counted h begin = omega arith
Reach-Counted h (later r st) = Step-Counted h st (Reach-Counted h r)

-- For a limit below 2 ^ 64 and in every reachable state, whatever sessions close while the accept
-- handler runs, the counter of active connections is the number of live sessions and of those being
-- opened, and it is not over the limit: it never wraps.
pub active_connections-bounded :
    {cfg : ServerConfig} {n : ℕ} {s : Server}
    → cfg.max_connections < 2 ^ 64
    → Reach cfg n s
    → (s.active_connections ≡ length s.live + opening s.accept)
      × (s.active_connections ≤ cfg.max_connections)
active_connections-bounded h r = let c = Reach-Counted h r in (c.active, omega (arith, c.room))
