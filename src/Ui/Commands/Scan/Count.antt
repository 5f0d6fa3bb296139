-- ===== src/Ui/Commands/Scan/Count.antt =====
-- The counting loop finds every occurrence.
use hs_financial_services.Common.{
  ℕ, zero, suc, ◌+◌, ◌<◌, ◌≡◌, refl, ap, sym, ◌∙◌, ◌⊎◌, inl, inr, Option, none, some, [], ◌∷◌, ◌++◌,
  length, drop, arith, Option-cases,
}
use hs_financial_services.Common.Text.{Bytes, Lacks, strip, find_from, find}
use hs_financial_services.Ui.Commands.Scan.{count_loop, count_found}

-- The number of positions at which the text goes on with the needle, for a needle that is not empty.
abbrev pub occurrences : Bytes → Bytes → ℕ
occurrences needle [] = 0
occurrences needle (c ∷ s) = elim (strip needle (c ∷ s)) [
  | none ↦ occurrences needle s
  | some rest ↦ suc (occurrences needle s)
]

-- Either there is none, or the search gives the position of the first and the others stand behind it.
abbrev Next : Bytes → Bytes → ℕ → Option ℕ → Type 0
Next needle s i o =
    ((o ≡ none) × (occurrences needle s ≡ 0))
    ⊎ ((k : ℕ) × (o ≡ some (i + k))
        × (k < length s)
        × (occurrences needle s ≡ suc (occurrences needle (drop (suc k) s))))

find_from-Next : (n : ℕ) (ns s : Bytes) (i : ℕ) → Next (n ∷ ns) s i (find_from (n ∷ ns) s i)
unfolding find_from
find_from-Next n ns [] i = inl (refl, refl)
find_from-Next n ns (c ∷ s) i = elim (Option-cases (strip (n ∷ ns) (c ∷ s))) [
  | inl e ↦ elim (find_from-Next n ns s (i + 1)) [
    | inl (f, g) ↦ inl (rw (e, find_from) f, rw (e, occurrences) g)
    | inr (k, f, h, g) ↦ inr (
      suc k,
      rw (e, find_from) (f ∙ ap some (omega arith)),
      omega (arith, h),
      rw (e, occurrences) g,
    )
  ]
  | inr (r, e) ↦
      inr (0, rw (e, find_from) (ap some (omega arith)), omega arith, rw (e, occurrences))
]

drop-nil : (n : ℕ) → drop {A = ℕ} n [] ≡ []
drop-nil zero = refl
drop-nil (suc n) = refl

pub drop-drop : (i k : ℕ) (s : Bytes) → drop k (drop i s) ≡ drop (i + k) s
drop-drop zero k s = ap (λ m. drop m s) (omega arith)
drop-drop (suc i) k [] = drop-nil k ∙ sym (drop-nil (suc i + k))
drop-drop (suc i) k (c ∷ s) =
    let sum : suc (i + k) ≡ suc i + k = omega arith in
    drop-drop i k s ∙ ap (λ m. drop m (c ∷ s)) sum

length-drop-suc : (k : ℕ) (s : Bytes) → k < length s → length (drop (suc k) s) < length s
length-drop-suc k [] h = absurd (omega (arith, h))
length-drop-suc zero (c ∷ s) h = omega arith
length-drop-suc (suc k) (c ∷ s) h = omega (arith, length-drop-suc k s (omega (arith, h)))

count_loop-occurrences :
    (n : ℕ) (ns : Bytes) (fuel : ℕ) (text : Bytes) (p : ℕ)
    → length (drop p text) < fuel
    → count_loop fuel (n ∷ ns) text p ≡ occurrences (n ∷ ns) (drop p text)
unfolding count_loop find
count_loop-occurrences n ns zero text p h = absurd (omega (arith, h))
count_loop-occurrences n ns (suc fuel) text p h = elim (find_from-Next n ns (drop p text) p) [
  | inl (f, g) ↦ rw (f, count_loop) (sym g)
  | inr (k, f, k-lt, g) ↦
      let there : drop (suc k) (drop p text) ≡ drop (p + k + 1) text =
        drop-drop p (suc k) text ∙ ap (λ m. drop m text) (omega arith) in
      let shorter = length-drop-suc k (drop p text) k-lt in
      let left : length (drop (p + k + 1) text) < fuel =
        omega (arith, ap length there, shorter, h) in
      rw (f, count_loop)
        (ap suc (
            count_loop-occurrences n ns fuel text (p + k + 1) left
            ∙ ap (occurrences (n ∷ ns)) (sym there))
          ∙ sym g)
]

-- For a needle that is not empty, the counting loop ends and gives the number of positions at which
-- the text goes on with the needle, overlapping ones included.
pub count_found-occurrences :
    (n : ℕ) (ns text : Bytes) → count_found (n ∷ ns) text ≡ occurrences (n ∷ ns) text
unfolding count_found
count_found-occurrences n ns text =
    count_loop-occurrences n ns (length text + 1) text 0 (omega arith)

-- A text with no `q` in it holds no start of a needle that begins with `q`.
pub occurrences_skip :
    (q : ℕ) (ns t rest : Bytes)
    → Lacks q t
    → occurrences (q ∷ ns) (t ++ rest) ≡ occurrences (q ∷ ns) rest
occurrences_skip q ns [] rest h = refl
occurrences_skip q ns (c ∷ t) rest h = ground (arith, occurrences_skip q ns t rest h.1)
