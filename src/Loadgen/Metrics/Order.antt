-- ===== src/Loadgen/Metrics/Order.antt =====
-- The order of the percentiles.
use hs_financial_services.Common.{
  ℕ, zero, suc, ◌-◌, ◌^◌, ◌≤◌, ◌⊎◌, ◌∙◌, ◌<◌, ◌≡◌, ◌≢◌, refl, ap, List, [], ◌∷◌, leb, get_or,
  length, All, arith, inl, inr, Bool-cases, subst,
}
use hs_financial_services.Loadgen.Metrics.{
  MetricsCollector, insert, sort, Doubles, Stats, with_samples, compute,
}

-- Each number is at most those behind it.
abbrev IsSorted : List ℕ → Type 0
IsSorted [] = Unit
IsSorted (x ∷ xs) = All (λ y. x ≤ y) xs × IsSorted xs

All-insert : (P : ℕ → Type 0) (x : ℕ) (ys : List ℕ) → P x → All P ys → All P (insert x ys)
All-insert P x [] h hs = (h, tt)
All-insert P x (y ∷ ys) h hs = elim (Bool-cases (leb x y)) [
  | inl e ↦ rw (e, insert) (h, hs)
  | inr e ↦ rw (e, insert) (hs.0, All-insert P x ys h hs.1)
]

All-insert_back : (P : ℕ → Type 0) (x : ℕ) (ys : List ℕ) → All P (insert x ys) → P x × All P ys
All-insert_back P x [] h = h
All-insert_back P x (y ∷ ys) h = elim (Bool-cases (leb x y)) [
  | inl e ↦ rw (e, insert) at h
  | inr e ↦
      let h' : P y × All P (insert x ys) = rw (e, insert) at h in
      let (a, b) = All-insert_back P x ys h'.1 in (a, (h'.0, b))
]

All-sort : (P : ℕ → Type 0) (xs : List ℕ) → All P xs → All P (sort xs)
All-sort P [] h = tt
All-sort P (x ∷ xs) h = All-insert P x (sort xs) h.0 (All-sort P xs h.1)

All-sort_back : (P : ℕ → Type 0) (xs : List ℕ) → All P (sort xs) → All P xs
All-sort_back P [] h = tt
All-sort_back P (x ∷ xs) h =
    let (a, b) = All-insert_back P x (sort xs) h in (a, All-sort_back P xs b)

All-le : (a b : ℕ) (ys : List ℕ) → a ≤ b → All (λ y. b ≤ y) ys → All (λ y. a ≤ y) ys
All-le a b [] h hs = tt
All-le a b (y ∷ ys) h hs = (omega arith, All-le a b ys h hs.1)

insert-IsSorted : (x : ℕ) (ys : List ℕ) → IsSorted ys → IsSorted (insert x ys)
insert-IsSorted x [] h = (tt, tt)
insert-IsSorted x (y ∷ ys) h = elim (Bool-cases (leb x y)) [
  | inl e ↦ let less : x ≤ y = ground arith in rw (e, insert) ((less, All-le x y ys less h.0), h)
  | inr e ↦
      rw (e, insert) (All-insert (λ z. y ≤ z) x ys (ground arith) h.0, insert-IsSorted x ys h.1)
]

sort-IsSorted : (xs : List ℕ) → IsSorted (sort xs)
sort-IsSorted [] = tt
sort-IsSorted (x ∷ xs) = insert-IsSorted x (sort xs) (sort-IsSorted xs)

length-insert : (x : ℕ) (ys : List ℕ) → length (insert x ys) ≡ suc (length ys)
length-insert x [] = refl
length-insert x (y ∷ ys) = ground (arith, length-insert x ys)

length-sort : (xs : List ℕ) → length (sort xs) ≡ length xs
length-sort [] = refl
length-sort (x ∷ xs) = length-insert x (sort xs) ∙ ap suc (length-sort xs)

get_or-All : (P : ℕ → Type 0) (xs : List ℕ) (i : ℕ) → i < length xs → All P xs → P (get_or xs i 0)
get_or-All P [] i h hs = absurd (omega arith)
get_or-All P (x ∷ xs) zero h hs = hs.0
get_or-All P (x ∷ xs) (suc i) h hs = get_or-All P xs i (omega arith) hs.1

-- Within a sorted list, a later number is not less.
get_or-le :
    (xs : List ℕ) (i j : ℕ) → IsSorted xs → i ≤ j → j < length xs → get_or xs i 0 ≤ get_or xs j 0
get_or-le [] i j s h h' = absurd (omega arith)
get_or-le (x ∷ xs) zero zero s h h' = omega arith
get_or-le (x ∷ xs) zero (suc j) s h h' = get_or-All (λ y. x ≤ y) xs j (omega arith) s.0
get_or-le (x ∷ xs) (suc i) zero s h h' = absurd (omega arith)
get_or-le (x ∷ xs) (suc i) (suc j) s h h' = get_or-le xs i j s.1 (omega arith) (omega arith)

-- The last of a sorted list is its greatest.
All-last :
    (x : ℕ) (xs : List ℕ)
    → IsSorted (x ∷ xs)
    → All (λ y. y ≤ get_or (x ∷ xs) (length xs) 0) (x ∷ xs)
All-last x [] s = (omega arith, tt)
All-last x (y ∷ ys) s = let ih = All-last y ys s.1 in (omega (arith, s.0.0, ih.0), ih)

-- The index of the percentile `k / 100` among `n + 1` samples.
abbrev index_of : Doubles → ℕ → ℕ → ℕ
index_of d k n = d.to_index (d.mul (d.decimal k 2) (d.of_int n))

-- What the conversions of `double` give for the indices of the three percentiles, where a `double`
-- holds the last index exactly: they are in their order, and the greatest is at most the last index.
pub record IsIndexing (d : Doubles) : Type 0 where
  pub half_first : (n : ℕ) → n < 2 ^ 53 → index_of d 50 n ≤ index_of d 90 n
  pub ninety_first : (n : ℕ) → n < 2 ^ 53 → index_of d 90 n ≤ index_of d 99 n
  pub in_range : (n : ℕ) → n < 2 ^ 53 → index_of d 99 n ≤ n

-- One of the numbers is `x`.
abbrev pub IsAmong : ℕ → List ℕ → Type 0
IsAmong x [] = ⊥
IsAmong x (y ∷ ys) = (x ≡ y) ⊎ IsAmong x ys

All-later : (y : ℕ) (zs ys : List ℕ) → All (λ z. IsAmong z ys) zs → All (λ z. IsAmong z (y ∷ ys)) zs
All-later y [] ys h = tt
All-later y (z ∷ zs) ys h = (inr h.0, All-later y zs ys h.1)

All-IsAmong : (xs : List ℕ) → All (λ x. IsAmong x xs) xs
All-IsAmong [] = tt
All-IsAmong (x ∷ xs) = (inl refl, All-later x xs xs (All-IsAmong xs))

-- Statistics that show five samples in their order, the least and the greatest among them.
pub record IsOrdered (d : Doubles) (samples : List ℕ) (s : Stats d) : Type 0 where
  pub least : ℕ
  pub half : ℕ
  pub ninety : ℕ
  pub ninety_nine : ℕ
  pub greatest : ℕ
  pub min_us-eq : s.min_us ≡ d.of_int least
  pub p50_us-eq : s.p50_us ≡ d.of_int half
  pub p90_us-eq : s.p90_us ≡ d.of_int ninety
  pub p99_us-eq : s.p99_us ≡ d.of_int ninety_nine
  pub max_us-eq : s.max_us ≡ d.of_int greatest
  pub ordered : (least ≤ half) × (half ≤ ninety) × (ninety ≤ ninety_nine) × (ninety_nine ≤ greatest)
  pub all_samples :
      IsAmong least samples
      × IsAmong half samples
      × IsAmong ninety samples
      × IsAmong ninety_nine samples
      × IsAmong greatest samples
  pub all_between : All (λ x. (least ≤ x) × (x ≤ greatest)) samples

All-pair : (P Q : ℕ → Type 0) (xs : List ℕ) → All P xs → All Q xs → All (λ x. P x × Q x) xs
All-pair P Q [] h h' = tt
All-pair P Q (x ∷ xs) h h' = ((h.0, h'.0), All-pair P Q xs h.1 h'.1)

module _ (d : Doubles) (l : IsIndexing d) where
  sorted-IsOrdered :
      (sorted samples : List ℕ) (s : Stats d)
      → IsSorted sorted
      → sorted ≢ []
      → length sorted ≤ 2 ^ 53
      → All (λ x. IsAmong x samples) sorted
      → ((P : ℕ → Type 0) → All P sorted → All P samples)
      → IsOrdered d samples (with_samples d sorted s)
  unfolding with_samples
  sorted-IsOrdered [] samples s sd h few among all = absurd (h refl)
  sorted-IsOrdered (x ∷ xs) samples s sd h few among all =
      let n = length (x ∷ xs) - 1 in
      let last : length xs ≡ n = omega arith in
      let value_at = λ (k : ℕ). get_or (x ∷ xs) (index_of d k n) 0 in
      let is_sample = λ (i : ℕ) (h : i < length (x ∷ xs)).
        get_or-All (λ y. IsAmong y samples) (x ∷ xs) i h among in
      let lower : All (λ y. x ≤ y) (x ∷ xs) = (omega arith, sd.0) in
      let i99 = l.in_range n (omega arith) in
      let i90 = l.ninety_first n (omega arith) in
      let i50 = l.half_first n (omega arith) in
      record {
        least = x;
        half = value_at 50;
        ninety = value_at 90;
        ninety_nine = value_at 99;
        greatest = get_or (x ∷ xs) n 0;
        min_us-eq = refl;
        p50_us-eq = refl;
        p90_us-eq = refl;
        p99_us-eq = refl;
        max_us-eq = refl;
        ordered = (
          get_or-le (x ∷ xs) 0 (index_of d 50 n) sd (omega arith) (omega arith),
          get_or-le (x ∷ xs) (index_of d 50 n) (index_of d 90 n) sd i50 (omega arith),
          get_or-le (x ∷ xs) (index_of d 90 n) (index_of d 99 n) sd i90 (omega arith),
          get_or-le (x ∷ xs) (index_of d 99 n) n sd i99 (omega arith),
        );
        all_samples = (
          is_sample 0 (omega arith),
          is_sample (index_of d 50 n) (omega arith),
          is_sample (index_of d 90 n) (omega arith),
          is_sample (index_of d 99 n) (omega arith),
          is_sample n (omega arith),
        );
        all_between =
            all (λ y. (x ≤ y) × (y ≤ get_or (x ∷ xs) n 0))
              (All-pair (λ y. x ≤ y) (λ y. y ≤ get_or (x ∷ xs) n 0) (x ∷ xs) lower
                (subst (λ i. All (λ y. y ≤ get_or (x ∷ xs) i 0) (x ∷ xs)) last (All-last x xs sd)));
      }

  sort-nonempty : (samples : List ℕ) → samples ≢ [] → sort samples ≢ []
  sort-nonempty [] h e = h e
  sort-nonempty (x ∷ xs) h e =
      let long : length (sort (x ∷ xs)) ≡ 0 = ap length e in
      omega (arith, length-insert x (sort xs))

  -- When there are samples, 2 ^ 53 of them at most, and `double` takes the three percentages to indices
  -- in range and in order, the statistics of a run show five of the samples: the least and the greatest
  -- of all, and between these the percentiles in their order.
  pub compute-IsOrdered :
      (m : MetricsCollector) (elapsed_seconds : d.Double)
      → m.samples_us ≢ []
      → length m.samples_us ≤ 2 ^ 53
      → IsOrdered d m.samples_us (compute d m elapsed_seconds)
  unfolding compute
  compute-IsOrdered m elapsed_seconds h few =
      let xs = m.samples_us in
      sorted-IsOrdered (sort xs) xs _ (sort-IsSorted xs) (sort-nonempty xs h)
        (omega (arith, length-sort xs)) (All-sort (λ x. IsAmong x xs) xs (All-IsAmong xs))
        (λ P. All-sort_back P xs)
