-- ===== src/Common/Process/Ends.antt =====
-- How a program with threads ends.
use Prim.Native.Nat.{ℕ, zero, suc, ◌+◌, ◌-◌, ◌≤◌, ◌<◌}
use mathlib.Core.Option.{Option, none, some}
use mathlib.Core.List.{[], ◌++◌}
use mathlib.Core.Path.{◌≡◌, refl, ap, ◌∙◌, subst}
use mathlib.Core.Logic.{◌⊎◌, inl, inr}
use native.Mathlib.Omega.{arith}
use native.Mathlib.Decide.{dec_lt}
use hs_financial_services.Common.Tests.{Result, ok, throw}
use hs_financial_services.Common.Text.{Bytes}
use hs_financial_services.Common.Process.{
  fatal_after, terminated, Threads, create_threads, unwind, run_threads, with_threads, Result-cases,
}

-- All threads are created, or there is a first that cannot be.
create_threads-cases :
    (create_thread : ℕ → Result (Unit {0})) (left i : ℕ)
    → (create_threads create_thread left i ≡ none)
      ⊎ ((k : ℕ) × (what : Bytes) × (create_threads create_thread left i ≡ some (k, what))
          × (i ≤ k)
          × (k < i + left)
          × (create_thread k ≡ throw what))
create_threads-cases create_thread zero i = inl refl
create_threads-cases create_thread (suc left) i = elim (Result-cases (create_thread i)) [
  | inl (what, e) ↦ inr (i, what, rw (e, create_threads) refl, omega arith, omega arith, e)
  | inr (_, e) ↦ elim (create_threads-cases create_thread left (suc i)) [
    | inl all ↦ inl (rw (e, create_threads) all)
    | inr (k, what, f, lo, hi, g) ↦
        inr (k, what, rw (e, create_threads) f, omega arith, omega arith, g)
  ]
]

unwind-terminated :
    (out : Bytes) (joinable : ℕ) (what : Bytes)
    → 0 < joinable
    → unwind out joinable what ≡ terminated out
unfolding unwind
unwind-terminated out zero what h = absurd (omega arith)
unwind-terminated out (suc joinable) what h = refl

unwind-fatal_after :
    (out : Bytes) (joinable : ℕ) (what : Bytes)
    → joinable ≡ 0
    → unwind out joinable what ≡ fatal_after out what
unfolding unwind
unwind-fatal_after out joinable what h = ap (λ k. unwind out k what) h

-- If every thread can be created, all are.
pub create_threads-none :
    (create_thread : ℕ → Result (Unit {0})) (left i : ℕ)
    → ((k : ℕ) → i ≤ k → k < i + left → create_thread k ≡ ok tt)
    → create_threads create_thread left i ≡ none
create_threads-none create_thread zero i h = refl
create_threads-none create_thread (suc left) i h =
    rw (h i (omega arith) (omega arith), create_threads)
      (create_threads-none create_thread left (suc i) (λ k lo hi. h k (omega arith) (omega arith)))

module _ (t : Threads) (n : ℕ) where
  -- An exception that main's handler gets: the first thread cannot be created, or a handler throws with
  -- no thread beside the main one.
  abbrev pub Catches : Bytes → Type 0
  Catches what = ((1 < n) × (t.create_thread 1 ≡ throw what)) ⊎ ((n ≤ 1) × (t.ended ≡ throw what))

  -- An exception that ends the process: a later thread cannot be created, or a handler throws with
  -- other threads there.
  abbrev pub Terminates : Type 0
  Terminates =
      (what : Bytes) × (1 < n)
      × (((i : ℕ) × (1 < i) × (i < n) × (t.create_thread i ≡ throw what)) ⊎ (t.ended ≡ throw what))

  -- The ways in which `with_threads` ends.
  pub with_threads-cases :
      (before after : Bytes)
      → let end = with_threads t n before after in
        (end ≡ record { code = some 0; out = before ++ after; err = [] })
        ⊎ (((what : Bytes) × (end ≡ fatal_after before what) × Catches what)
            ⊎ ((end ≡ terminated before) × Terminates))
  unfolding with_threads run_threads
  with_threads-cases before after =
      let run = λ (c : Option (ℕ × Bytes)). run_threads c t.ended n before after in
      elim (create_threads-cases t.create_thread (n - 1) 1) [
        | inr (k, what, f, lo, hi, g) ↦ elim (dec_lt 1 k) [
          | yes later ↦ inr (
              inr (
                ap run f ∙ unwind-terminated before (k - 1) what (omega arith),
                (what, omega arith, inl (k, later, omega arith, g)),
              ))
          | no first ↦
              let at_first : k ≡ 1 = omega arith in
              inr (
                inl (
                  what,
                  ap run f ∙ unwind-fatal_after before (k - 1) what (omega arith),
                  inl (omega arith, subst (λ i. t.create_thread i ≡ throw what) at_first g),
                ))
        ]
        | inl all ↦ elim (Result-cases t.ended) [
          | inr (_, e) ↦ inl (ap run all ∙ ap (λ r. run_threads none r n before after) e)
          | inl (what, e) ↦
              let thrown = ap run all ∙ ap (λ r. run_threads none r n before after) e in
              elim (dec_lt 1 n) [
                | yes many ↦ inr (
                    inr (
                      thrown ∙ unwind-terminated before (n - 1) what (omega arith),
                      (what, many, inr e),
                    ))
                | no single ↦ inr (
                    inl (
                      what,
                      thrown ∙ unwind-fatal_after before (n - 1) what (omega arith),
                      inr (omega arith, e),
                    ))
              ]
        ]
      ]

  -- Where all goes well, both texts are written.
  pub with_threads-ok :
      (before after : Bytes)
      → ((i : ℕ) → 0 < i → i < n → t.create_thread i ≡ ok tt)
      → t.ended ≡ ok tt
      → with_threads t n before after ≡ record { code = some 0; out = before ++ after; err = [] }
  unfolding with_threads run_threads
  with_threads-ok before after created ended =
      ap (λ c. run_threads c t.ended n before after)
        (create_threads-none t.create_thread (n - 1) 1
          (λ k lo hi. created k (omega arith) (omega arith)))
      ∙ ap (λ r. run_threads none r n before after) ended
