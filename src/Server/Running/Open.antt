-- ===== src/Server/Running/Open.antt =====
-- The list of open sessions when one closes.
use hs_financial_services.Common.{
  ℕ, zero, suc, ◌<◌, ◌≡◌, refl, ap, sym, ◌∙◌, subst, Bool, true, false, inl, inr, List, [], ◌∷◌,
  ◌++◌, ◌==◌, if◌then◌else◌, Bool-cases, arith,
}
use hs_financial_services.Session.{Session}
use hs_financial_services.Session.Shared.{update}
use hs_financial_services.Session.Shared.Serial.{same_number}
use hs_financial_services.Server.Running.{open_ids}

-- Which sessions are open does not depend on those not made.
pub open_ids-cong :
    (n : ℕ) (ids ids' : ℕ → ℕ) (f g : ℕ → Session)
    → ((j : ℕ) → j < n → (ids j ≡ ids' j) × ((f j).closed ≡ (g j).closed))
    → open_ids n ids f ≡ open_ids n ids' g
open_ids-cong zero ids ids' f g same = refl
open_ids-cong (suc n) ids ids' f g same =
    let ih = open_ids-cong n ids ids' f g (λ j h. same j (omega arith)) in
    let here = same n (omega arith) in
    ap (λ (b : Bool). if b then open_ids n ids f else ids n ∷ open_ids n ids f) here.1
    ∙ ap (λ rest. if (g n).closed then rest else ids n ∷ rest) ih
    ∙ ap (λ i. if (g n).closed then open_ids n ids' g else i ∷ open_ids n ids' g) here.0

pub update-closed :
    (k j : ℕ) (s : Session) (f : ℕ → Session)
    → s.closed ≡ (f k).closed
    → (f j).closed ≡ (update k s f j).closed
update-closed k j s f same = elim (Bool-cases (j == k)) [
  | inl e ↦ rw e (ap (λ n. (f n).closed) (sym (same_number k j e)) ∙ sym same)
  | inr e ↦ rw e refl
]

-- One more session in front of two lists.
cons_if :
    (b : Bool) (id : ℕ) (rest before tail : List ℕ)
    → rest ≡ before ++ tail
    → (if b then rest else id ∷ rest) ≡ (if b then before else id ∷ before) ++ tail
cons_if true id rest before tail e = e
cons_if false id rest before tail e = ap (◌∷◌ id) e

close_last :
    (n : ℕ) (ids : ℕ → ℕ) (f : ℕ → Session) (s : Session)
    → s.closed ≡ true
    → open_ids (suc n) ids (update n s f) ≡ open_ids n ids f
close_last n ids f s now =
    let itself : (n == n) ≡ true = ground arith in
    let rest =
      open_ids-cong n ids ids (update n s f) f
        (λ j h. (refl, let other : (j == n) ≡ false = ground arith in rw other refl)) in
    rw itself (
      ap
        (λ (b : Bool).
          if b then open_ids n ids (update n s f) else ids n ∷ open_ids n ids (update n s f))
        now
      ∙ rest)

-- A session that closes leaves the list at one place.
pub open_ids-close :
    (n k : ℕ) (ids : ℕ → ℕ) (f : ℕ → Session) (s : Session)
    → k < n
    → (f k).closed ≡ false
    → s.closed ≡ true
    → (before : List ℕ) × (after : List ℕ) × (open_ids n ids f ≡ before ++ (ids k ∷ after))
      × (open_ids n ids (update k s f) ≡ before ++ after)
open_ids-close zero k ids f s h was now = elim h [ ]
open_ids-close (suc n) k ids f s h was now = elim (Bool-cases (n == k)) [
  | inl e ↦
      subst
        (λ j.
          (f j).closed ≡ false
          → (before : List ℕ) × (after : List ℕ) × (open_ids (suc n) ids f
              ≡ before ++ (ids j ∷ after))
            × (open_ids (suc n) ids (update j s f) ≡ before ++ after))
        (sym (same_number k n e))
        (λ open_. (
          [],
          open_ids n ids f,
          ap (λ (b : Bool). if b then open_ids n ids f else ids n ∷ open_ids n ids f) open_,
          close_last n ids f s now,
        ))
        was
  | inr e ↦
      let (before, after, split, rest) = open_ids-close n k ids f s (ground arith) was now in
      (
        if (f n).closed then before else ids n ∷ before,
        after,
        cons_if (f n).closed (ids n) (open_ids n ids f) before (ids k ∷ after) split,
        rw e (cons_if (f n).closed (ids n) (open_ids n ids (update k s f)) before after rest),
      )
]
