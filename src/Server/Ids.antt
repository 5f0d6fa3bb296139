-- ===== src/Server/Ids.antt =====
-- The numbers of the sessions.
use hs_financial_services.Common.{
  ℕ, suc, ◌+◌, ◌^◌, ◌≤◌, ◌<◌, ◌≡◌, ◌≢◌, refl, subst, List, [], ◌∷◌, ◌++◌, All, arith,
}
use hs_financial_services.Server.{
  Accept, admitted, numbered, Server, ServerConfig, Move, failed, rejected, admits, counts, opens,
  numbers, starts, Step, moves, closes, Reach, begin, later, add_one,
}

abbrev pub Distinct : List ℕ → Type 0
Distinct [] = Unit
Distinct (x ∷ xs) = All (λ y. y ≢ x) xs × Distinct xs

All-remove {κ} :
    (P : ℕ → Type κ) (before after : List ℕ) (id : ℕ)
    → All P (before ++ (id ∷ after))
    → All P (before ++ after)
All-remove P [] after id h = h.1
All-remove P (x ∷ before) after id h = (h.0, All-remove P before after id h.1)

Distinct-remove :
    (before after : List ℕ) (id : ℕ)
    → Distinct (before ++ (id ∷ after))
    → Distinct (before ++ after)
Distinct-remove [] after id h = h.1
Distinct-remove (x ∷ before) after id h =
    (All-remove (λ y. y ≢ x) before after id h.0, Distinct-remove before after id h.1)

-- A bound that all numbers are under, raised by one.
below_suc : (n : ℕ) (xs : List ℕ) → All (λ x. x < n) xs → All (λ x. x < n + 1) xs
below_suc n [] h = tt
below_suc n (x ∷ xs) h = (omega arith, below_suc n xs h.1)

below-ne : (n : ℕ) (xs : List ℕ) → All (λ x. x < n) xs → All (λ x. x ≢ n) xs
below-ne n [] h = tt
below-ne n (x ∷ xs) h = (omega arith, below-ne n xs h.1)

-- The number that the handler holds is new.
abbrev pub Held : List ℕ → ℕ → Accept → Type 0
Held live next (numbered id) = (id < next) × All (λ x. x ≢ id) live
Held live next other = Unit {0}

pub record Fresh (n : ℕ) (s : Server) : Type 0 where
  pub few : s.next_session_id ≤ n + 1
  pub below : All (λ x. x < s.next_session_id) s.live
  pub distinct : Distinct s.live
  pub held : Held s.live s.next_session_id s.accept

-- A step that leaves the numbers alone.
later-Fresh :
    {n : ℕ} {s : Server} (a : Accept)
    → Held s.live s.next_session_id a
    → Fresh n s
    → Fresh (suc n) (record s { accept = a })
later-Fresh a held f = record {
  few = omega (arith, f.few);
  below = f.below;
  distinct = f.distinct;
  held = held;
}

Move-Fresh :
    {n : ℕ} {s t : Server} {a : Accept}
    → n + 2 < 2 ^ 64
    → s.accept ≡ a
    → Move s a t
    → Fresh n s
    → Fresh (suc n) t
Move-Fresh {n} {s} h e failed f = later-Fresh s.accept f.held f
Move-Fresh {n} {s} h e (rejected g) f = later-Fresh s.accept f.held f
Move-Fresh h e (admits g) f = later-Fresh admitted tt f
Move-Fresh h e counts f = record {
  few = omega (arith, f.few);
  below = f.below;
  distinct = f.distinct;
  held = tt;
}
Move-Fresh h e opens f = record {
  few = omega (arith, f.few);
  below = f.below;
  distinct = f.distinct;
  held = tt;
}
Move-Fresh {n} {s} h e numbers f =
    let next : s.next_session_id + 1 ≡ add_one s.next_session_id = omega (arith, f.few) in
    record {
      few = omega (arith, f.few, next);
      below = rw (← next) (below_suc s.next_session_id s.live f.below);
      distinct = f.distinct;
      held = (omega (arith, next), below-ne s.next_session_id s.live f.below);
    }
Move-Fresh {n} {s} h e (starts {id}) f =
    let held = subst (Held s.live s.next_session_id) e f.held in
    record {
      few = omega (arith, f.few);
      below = (held.0, f.below);
      distinct = (held.1, f.distinct);
      held = tt;
    }

Held-remove :
    (before after : List ℕ) (id next : ℕ) (a : Accept)
    → Held (before ++ (id ∷ after)) next a
    → Held (before ++ after) next a
Held-remove before after id next (numbered k) h = (h.0, All-remove (λ x. x ≢ k) before after id h.1)
Held-remove before after id next other h = tt

Step-Fresh : {n : ℕ} {s t : Server} → n + 2 < 2 ^ 64 → Step s t → Fresh n s → Fresh (suc n) t
Step-Fresh h (moves mv) f = Move-Fresh h refl mv f
Step-Fresh {n} {s} h (closes id before after split) f = record {
  few = omega (arith, f.few);
  below =
      All-remove (λ x. x < s.next_session_id) before after id
        (subst (All (λ x. x < s.next_session_id)) split f.below);
  distinct = Distinct-remove before after id (subst Distinct split f.distinct);
  held =
      Held-remove before after id s.next_session_id s.accept
        (subst (λ live. Held live s.next_session_id s.accept) split f.held);
}

Reach-Fresh : {cfg : ServerConfig} {n : ℕ} {s : Server} → n + 1 < 2 ^ 64 → Reach cfg n s → Fresh n s
Reach-Fresh h begin = record { few = omega arith; below = tt; distinct = tt; held = tt }
Reach-Fresh h (later r st) = Step-Fresh (omega arith) st (Reach-Fresh (omega arith) r)

-- Within 2 ^ 64 - 2 steps, so that the 64-bit counter cannot have wrapped, the live sessions have
-- different numbers, and the next number is greater than all of them.
pub session_ids-Distinct :
    {cfg : ServerConfig} {n : ℕ} {s : Server}
    → n + 1 < 2 ^ 64
    → Reach cfg n s
    → Distinct s.live × All (λ x. x < s.next_session_id) s.live
session_ids-Distinct h r = let f = Reach-Fresh h r in (f.distinct, f.below)
