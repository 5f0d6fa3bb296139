-- ===== src/Common/Process.antt =====
-- What the two main functions share: options of a command line, the threads, and the end of a process.
pub mod Ends
use Prim.Native.Nat.{ℕ, zero, suc, ◌-◌}
use mathlib.Core.Option.{Option, none, some}
use mathlib.Core.List.{[], ◌++◌}
use mathlib.Core.Path.{◌≡◌, refl}
use mathlib.Core.Logic.{◌⊎◌, inl, inr}
use hs_financial_services.Common.Tests.{Result, ok, throw}
use hs_financial_services.Common.Text.{Bytes, codes}

-- `default_value`
abbrev pub or_default : {A : Type 0} → A → Option A → A
or_default value none = value
or_default value (some given) = given

-- The value that main returns, or `none` where `std::terminate` ends the process, and what the program
-- has written on the two streams.
pub record Outcome : Type 0 where
  pub code : Option ℕ
  pub out : Bytes
  pub err : Bytes

-- main's handler of `std::exception`, with `out` written before.
unfoldable pub fatal_after : Bytes → Bytes → Outcome
fatal_after out what = record {
  code = some 1;
  out = out;
  err = codes "[Fatal] " ++ (what ++ codes "\n");
}

-- The same with nothing written before.
abbrev pub fatal : Bytes → Outcome
fatal = fatal_after []

abbrev pub terminated : Bytes → Outcome
terminated out = record { code = none; out = out; err = [] }

-- What the standard library does about threads, and how the handlers end that `io_context::run` calls
-- on each: they are stopped or none is left, or one of them throws.
pub record Threads : Type 0 where
  pub reserve : ℕ → Result (Unit {0})
  pub create_thread : ℕ → Result (Unit {0})
  pub ended : Result (Unit {0})

-- The loop that creates threads, from number `i` on: the number and the exception of the first that
-- cannot be created.
abbrev pub create_threads : (ℕ → Result (Unit {0})) → ℕ → ℕ → Option (ℕ × Bytes)
create_threads create_thread zero i = none
create_threads create_thread (suc left) i = elim (create_thread i) [
  | throw what ↦ some (i, what)
  | ok _ ↦ create_threads create_thread left (suc i)
]

-- An exception on the way to main's handler while so many threads are joinable: the destructor of a
-- joinable thread calls `std::terminate`, and so does a thread whose own function throws.
unfoldable pub unwind : Bytes → ℕ → Bytes → Outcome
unfolding fatal_after
unwind out zero what = fatal_after out what
unwind out (suc joinable) what = terminated out

unfoldable pub run_threads : Option (ℕ × Bytes) → Result (Unit {0}) → ℕ → Bytes → Bytes → Outcome
unfolding unwind
run_threads (some (i, what)) ended n before after = unwind before (i - 1) what
run_threads none (throw what) n before after = unwind before (n - 1) what
run_threads none (ok _) n before after = record { code = some 0; out = before ++ after; err = [] }

-- The threads 1 to `n - 1` are created, all and the main thread run the handlers, and all are joined;
-- `before` is written at the start and `after` at the end.
unfoldable pub with_threads : Threads → ℕ → Bytes → Bytes → Outcome
unfolding run_threads
with_threads t n before after =
    run_threads (create_threads t.create_thread (n - 1) 1) t.ended n before after

-- A call that may throw, with `written` before it and no thread yet.
abbrev pub or_fatal : Result (Unit {0}) → Bytes → Outcome → Outcome
or_fatal (throw what) written next = fatal_after written what
or_fatal (ok _) written next = next

pub Result-cases :
    {A : Type 0} (r : Result A) → ((what : Bytes) × (r ≡ throw what)) ⊎ ((a : A) × (r ≡ ok a))
Result-cases (throw what) = inl (what, refl)
Result-cases (ok a) = inr (a, refl)
