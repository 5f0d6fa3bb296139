-- ===== src/Common/Text.antt =====
-- Texts as lists of bytes (`std::string`), and the searches of the standard library on them.
use Prim.Native.Char.{code}
use Prim.Native.String.{String}
use Prim.Native.Nat.{ℕ, ◌+◌}
use mathlib.Core.Path.{◌≡◌, refl, ap, ◌∙◌}
use mathlib.Core.Logic.{◌≢◌, ◌⊎◌, inl, inr}
use mathlib.Core.Option.{Option, none, some}
use mathlib.Core.List.{List, [], ◌∷◌, ◌++◌}
use native.Mathlib.Omega.{arith}
use hs_financial_services.Common.Tests.{◌==◌, if◌then◌else◌, Option-cases}
use hs_financial_services.Common.Lists.{length, take, drop, All}

abbrev pub Bytes : Type 0
Bytes = List ℕ

-- The code points of a literal; these are its bytes, as the literals here are ASCII.
abbrev pub codes : String → Bytes
codes String.[] = []
codes (String.◌∷◌ c s) = code c ∷ codes s

abbrev pub Lacks : ℕ → Bytes → Type 0
Lacks b = All (λ c. c ≢ b)

-- What is left of the text behind `needle`, if it starts with it.
abbrev pub strip : Bytes → Bytes → Option Bytes
strip [] s = some s
strip (n ∷ ns) [] = none
strip (n ∷ ns) (c ∷ s) = if n == c then strip ns s else none

-- The position of the first occurrence at or after the start of the text, which stands at `i`.
unfoldable pub find_from : Bytes → Bytes → ℕ → Option ℕ
find_from needle [] i = elim (strip needle []) [ some r ↦ some i | none ↦ none ]
find_from needle (c ∷ s) i = elim (strip needle (c ∷ s)) [
  | some r ↦ some i
  | none ↦ find_from needle s (i + 1)
]

-- `s.find(needle, pos)`, with `none` for `npos`
unfoldable pub find : Bytes → Bytes → ℕ → Option ℕ
unfolding find_from
find s needle pos = find_from needle (drop pos s) pos

-- `s.substr(pos, n)`, for `pos` at most the size of `s`
abbrev pub substr : Bytes → ℕ → ℕ → Bytes
substr s pos n = take n (drop pos s)

-- The text behind the first occurrence of `needle`: the searches with no positions.
abbrev pub seek : Bytes → Bytes → Option Bytes
seek needle [] = strip needle []
seek needle (c ∷ s) = elim (strip needle (c ∷ s)) [ some r ↦ some r | none ↦ seek needle s ]

pub strip_sound : (needle s r : Bytes) → strip needle s ≡ some r → s ≡ needle ++ r
strip_sound [] s r h = ground arith
strip_sound (n ∷ ns) [] r h = cc
strip_sound (n ∷ ns) (c ∷ s) r h = ground (arith, strip_sound ns s r)

-- Either both searches fail, or they agree on where the first occurrence stands.
abbrev pub Found : Bytes → Bytes → ℕ → Option ℕ → Type 0
Found needle s i o =
    ((o ≡ none) × (seek needle s ≡ none))
    ⊎ ((pre : Bytes) × (rest : Bytes) × (o ≡ some (i + length pre))
        × (s ≡ pre ++ (needle ++ rest))
        × (seek needle s ≡ some rest))

pub find_from-Found : (needle s : Bytes) (i : ℕ) → Found needle s i (find_from needle s i)
unfolding find_from
find_from-Found needle [] i = elim (Option-cases (strip needle [])) [
  | inl e ↦ inl (rw (e, find_from), e)
  | inr (r, e) ↦
      inr ([], r, rw (e, find_from) (ap some (omega arith)), strip_sound needle [] r e, e)
]
find_from-Found needle (c ∷ s) i = elim (Option-cases (strip needle (c ∷ s))) [
  | inl e ↦ elim (find_from-Found needle s (i + 1)) [
    | inl (f, g) ↦ inl (rw (e, find_from) f, rw (e, seek) g)
    | inr (pre, r, f, split, g) ↦ inr (
      c ∷ pre,
      r,
      rw (e, find_from) (f ∙ ap some (omega arith)),
      ap (◌∷◌ c) split,
      rw (e, seek) g,
    )
  ]
  | inr (r, e) ↦ inr (
    [],
    r,
    rw (e, find_from) (ap some (omega arith)),
    strip_sound needle (c ∷ s) r e,
    rw (e, seek),
  )
]

-- A search for a text that begins with `q` passes over what lacks `q`.
pub seek_skip :
    (q : ℕ) (ns t rest : Bytes) → Lacks q t → seek (q ∷ ns) (t ++ rest) ≡ seek (q ∷ ns) rest
seek_skip q ns [] rest h = refl
seek_skip q ns (c ∷ t) rest h = ground (arith, seek_skip q ns t rest h.1)
