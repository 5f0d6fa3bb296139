-- ===== src/Ui/Commands/Scan/Suffix.antt =====
-- A search from a position on is a search of the text behind it.
use hs_financial_services.Common.{
  ℕ, ◌+◌, ◌-◌, ◌≡◌, refl, ap, sym, ◌∙◌, inl, inr, Option, none, some, [], ◌∷◌, ◌++◌, length, drop,
  take, arith, Option-cases, Bool-cases, ◌==◌,
}
use hs_financial_services.Json.{quote}
use hs_financial_services.Common.Text.{Bytes, Lacks, codes, strip, find_from, find, substr}
use hs_financial_services.Ui.Commands.Scan.{next_entry}
use hs_financial_services.Ui.Commands.Scan.Count.{drop-drop}

abbrev pub shift : ℕ → Option ℕ → Option ℕ
shift p none = none
shift p (some k) = some (p + k)

pub find_from-shift :
    (p : ℕ) (needle s : Bytes) (i : ℕ) → find_from needle s (p + i) ≡ shift p (find_from needle s i)
unfolding find_from
find_from-shift p needle [] i = elim (Option-cases (strip needle [])) [
  | inl e ↦ rw (e, find_from) refl
  | inr (r, e) ↦ rw (e, find_from) refl
]
find_from-shift p needle (c ∷ s) i = elim (Option-cases (strip needle (c ∷ s))) [
  | inl e ↦
      rw (e, find_from) (ap (find_from needle s) (omega arith) ∙ find_from-shift p needle s (i + 1))
  | inr (r, e) ↦ rw (e, find_from) refl
]

pub find-drop :
    (needle text : Bytes) (p k : ℕ)
    → find text needle (p + k) ≡ shift p (find (drop p text) needle k)
unfolding find
find-drop needle text p k =
    find_from-shift p needle (drop (p + k) text) k
    ∙ ap (λ s. shift p (find_from needle s k)) (sym (drop-drop p k text))

-- In a text with no quote, a needle whose second byte is a quote begins at the last byte at most.
strip-Lacks :
    (ns pre s : Bytes)
    → Lacks quote pre
    → strip (quote ∷ ns) s ≡ none
    → strip (quote ∷ ns) (pre ++ s) ≡ none
strip-Lacks ns [] s h e = e
strip-Lacks ns (c ∷ pre) s h e = ground (arith, h.0)

pub find_from-Lacks :
    (n : ℕ) (ns pre s : Bytes) (i : ℕ)
    → Lacks quote pre
    → strip (quote ∷ ns) s ≡ none
    → find_from (n ∷ quote ∷ ns) (pre ++ s) i ≡ find_from (n ∷ quote ∷ ns) s (i + length pre)
unfolding find_from
find_from-Lacks n ns [] s i h e = ap (find_from (n ∷ quote ∷ ns) s) (omega arith)
find_from-Lacks n ns (c ∷ pre) s i h e =
    let passed : strip (n ∷ quote ∷ ns) (c ∷ (pre ++ s)) ≡ none = elim (Bool-cases (n == c)) [
      | inl same ↦ rw same (strip-Lacks ns pre s h.1 e)
      | inr other ↦ rw other refl
    ] in
    rw (passed, find_from)
      (find_from-Lacks n ns pre s (i + 1) h.1 e ∙ ap (find_from (n ∷ quote ∷ ns) s) (omega arith))

abbrev pub move : ℕ → Option (Bytes × ℕ) → Option (Bytes × ℕ)
move p none = none
move p (some (entry, k)) = some (entry, p + k)

-- The entry that starts at a position, for the end that is found.
abbrev closing : Bytes → ℕ → Option ℕ → Option (Bytes × ℕ)
closing text start none = none
closing text start (some end) = some (substr text start (end - start + 1), end + 1)

closing-move :
    (text : Bytes) (p k : ℕ) (end : Option ℕ)
    → closing text (p + k) (shift p end) ≡ move p (closing (drop p text) k end)
closing-move text p k none = refl
closing-move text p k (some end) =
    let size : p + end - (p + k) + 1 ≡ end - k + 1 = omega arith in
    let behind : p + end + 1 ≡ p + (end + 1) = omega arith in
    rw size (
      ap (λ s. some (take (end - k + 1) s, p + end + 1)) (sym (drop-drop p k text))
      ∙ ap (λ n. some (take (end - k + 1) (drop k (drop p text)), n)) behind)

closing-drop :
    (text : Bytes) (p k : ℕ)
    → closing text (p + k) (find text (codes "}") (p + k))
      ≡ move p (closing (drop p text) k (find (drop p text) (codes "}") k))
closing-drop text p k =
    ap (closing text (p + k)) (find-drop (codes "}") text p k)
    ∙ closing-move text p k (find (drop p text) (codes "}") k)

-- The search for the entry depends on where the needle is found first.
pub next_entry-find :
    (needle text : Bytes) (p q : ℕ)
    → find text needle p ≡ find text needle q
    → next_entry needle text p ≡ next_entry needle text q
unfolding next_entry
next_entry-find needle text p q e =
    ap (λ o. elim o [ none ↦ none | some start ↦ closing text start (find text (codes "}") start) ])
      e

-- The next entry behind a position.
pub next_entry-drop :
    (needle text : Bytes) (p : ℕ)
    → next_entry needle text p ≡ move p (next_entry needle (drop p text) 0)
unfolding next_entry
next_entry-drop needle text p =
    let first : find text needle p ≡ shift p (find (drop p text) needle 0) =
      ap (find text needle) (omega arith) ∙ find-drop needle text p 0 in
    let second = closing-drop text p in
    elim (Option-cases (find (drop p text) needle 0)) [
      | inl e ↦ rw (first, e, next_entry) refl
      | inr (k, e) ↦ rw (first, e, next_entry) (second k)
    ]
