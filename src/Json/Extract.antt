-- ===== src/Json/Extract.antt =====
-- The key searches with no positions, and what they find in texts of the expected form.
use hs_financial_services.Common.{
  ℕ, zero, suc, ◌+◌, ◌-◌, ◌≡◌, refl, ap, ◌∙◌, ◌⊎◌, inl, inr, Bool, true, false, Option, none, some,
  [], ◌∷◌, ◌++◌, append_assoc, ◌==◌, if◌then◌else◌, length, take, drop, length-append, drop-append,
  arith, Bool-cases, All,
}
use native.Mathlib.Nat.{zero-add, suc-add}
use hs_financial_services.Common.Text.{Bytes, codes, find, find_from, seek, find_from-Found, Lacks}
use hs_financial_services.Json.{
  quote, string_needle, number_needle, extract_string, extract_number, extract_int, extract_field,
  span, scan_value, is_bare, is_space, int_or, cut_value, is_blank, is_numeric,
}

-- The text before the first quote.
abbrev pub until_quote : Bytes → Option Bytes
until_quote [] = none
until_quote (c ∷ s) =
    if quote == c then some [] else elim (until_quote s) [ none ↦ none | some r ↦ some (c ∷ r) ]

abbrev pub or_empty : Option Bytes → Bytes
or_empty none = []
or_empty (some s) = s

abbrev Cut : Bytes → ℕ → Option ℕ → Option Bytes → Type 0
Cut s i o u =
    ((o ≡ none) × (u ≡ none))
    ⊎ ((pre : Bytes) × (o ≡ some (i + length pre)) × (u ≡ some pre) × (take (length pre) s ≡ pre))

find_from-until : (s : Bytes) (i : ℕ) → Cut s i (find_from (quote ∷ []) s i) (until_quote s)
unfolding find_from
find_from-until [] i = inl (refl, refl)
find_from-until (c ∷ s) i = elim (Bool-cases (quote == c)) [
  | inl hit ↦ inr ([], rw (hit, find_from) (ap some (omega arith)), rw (hit, until_quote), refl)
  | inr miss ↦ elim (find_from-until s (i + 1)) [
    | inl (f, g) ↦ inl (rw (miss, find_from) f, rw (miss, until_quote, g))
    | inr (pre, f, g, h) ↦ inr (
      c ∷ pre,
      rw (miss, find_from) (f ∙ ap some (omega arith)),
      rw (miss, until_quote, g),
      ap (◌∷◌ c) h,
    )
  ]
]

drop_found :
    (pre needle rest json : Bytes)
    → json ≡ pre ++ (needle ++ rest)
    → drop (0 + length pre + length needle) json ≡ rest
drop_found pre needle rest json split =
    let sum : 0 + length pre + length needle ≡ length (pre ++ needle) =
      omega (arith, length-append {0} pre needle) in
    rw (split, sum, ← append_assoc pre needle rest) (drop-append (pre ++ needle) rest)

cut_value-until :
    (json : Bytes) (pos : ℕ) → cut_value json pos ≡ or_empty (until_quote (drop pos json))
unfolding cut_value find
cut_value-until json pos = elim (find_from-until (drop pos json) pos) [
  | inl (f, g) ↦ rw (f, cut_value, g)
  | inr (pre, f, g, h) ↦
      let n : pos + length pre - pos ≡ length pre = omega arith in rw (f, cut_value, g) (rw (n, h))
]

-- The rest of a text behind blanks, and the longest start of a text that passes a test.
abbrev pub skip_blanks : Bytes → Bytes
skip_blanks s = drop (span is_blank s) s

abbrev pub take_while : (ℕ → Bool) → Bytes → Bytes
take_while p s = take (span p s) s

drop-drop : (m n : ℕ) (s : Bytes) → drop (m + n) s ≡ drop n (drop m s)
drop-drop zero n s = rw (zero-add n)
drop-drop (suc m) zero [] = rw (suc-add m 0)
drop-drop (suc m) (suc n) [] = rw (suc-add m (suc n))
drop-drop (suc m) n (c ∷ s) = rw (suc-add m n) (drop-drop m n s)

scan_value-take_while :
    (p : ℕ → Bool) (json : Bytes) (pos : ℕ)
    → scan_value p json pos ≡ take_while p (skip_blanks (drop pos json))
unfolding scan_value
scan_value-take_while p json pos =
    rw drop-drop let n : (a b : ℕ) → a + b - a ≡ b = λ a b. omega arith in rw n

-- What the helpers make of the text behind their needle, if there is one.
abbrev pub quoted_value : Option Bytes → Bytes
quoted_value none = []
quoted_value (some rest) = or_empty (until_quote rest)

abbrev pub number_value : Option Bytes → Bytes
number_value none = codes "0"
number_value (some rest) = take_while is_numeric (skip_blanks rest)

abbrev pub int_value : ℕ → Option Bytes → Option ℕ
int_value def none = some def
int_value def (some rest) = int_or def (drop (span is_space rest) rest)

abbrev pub field_value : Option Bytes → Option Bytes → Bytes
field_value (some rest) other = or_empty (until_quote rest)
field_value none none = []
field_value none (some rest) = take_while is_bare (skip_blanks rest)

-- `extract_string` is the text between the first needle and the next quote, or empty.
pub extract_string-seek :
    (json key : Bytes) → extract_string json key ≡ quoted_value (seek (string_needle key) json)
unfolding extract_string
extract_string-seek json key = elim (find_from-Found (string_needle key) json 0) [
  | inl (f, g) ↦ rw (f, extract_string, g)
  | inr (pre, rest, f, split, g) ↦
      rw (f, extract_string, g)
        (cut_value-until json _
          ∙ ap (λ r. or_empty (until_quote r)) (drop_found pre (string_needle key) rest json split))
]

-- `extract_number` is the numeric text behind the first needle and blanks, or "0".
pub extract_number-seek :
    (json key : Bytes) → extract_number json key ≡ number_value (seek (number_needle key) json)
unfolding extract_number
extract_number-seek json key = elim (find_from-Found (number_needle key) json 0) [
  | inl (f, g) ↦ rw (f, extract_number, g)
  | inr (pre, rest, f, split, g) ↦
      rw (f, extract_number, g)
        (scan_value-take_while is_numeric json _
          ∙ ap (λ r. take_while is_numeric (skip_blanks r))
              (drop_found pre (number_needle key) rest json split))
]

-- `extract_int` reads the digits behind the first needle and spaces, or gives the default.
pub extract_int-seek :
    (json key : Bytes) (def : ℕ)
    → extract_int json key def ≡ int_value def (seek (number_needle key) json)
unfolding extract_int
extract_int-seek json key def = elim (find_from-Found (number_needle key) json 0) [
  | inl (f, g) ↦ rw (f, extract_int, g)
  | inr (pre, rest, f, split, g) ↦
      rw (f, extract_int, g)
        (rw drop-drop (
          ap (λ r. int_or def (drop (span is_space r) r))
            (drop_found pre (number_needle key) rest json split)))
]

-- `ExtractField` prefers a string value, and otherwise takes what stands before `,` or `}`.
pub extract_field-seek :
    (json key : Bytes)
    → extract_field json key
      ≡ field_value (seek (string_needle key) json) (seek (number_needle key) json)
unfolding extract_field
extract_field-seek json key = elim (find_from-Found (string_needle key) json 0) [
  | inl (f, g) ↦ elim (find_from-Found (number_needle key) json 0) [
    | inl (f', g') ↦ rw (f, f', extract_field, g, g')
    | inr (pre, rest, f', split, g') ↦
        rw (f, f', extract_field, g, g')
          (scan_value-take_while is_bare json _
            ∙ ap (λ r. take_while is_bare (skip_blanks r))
                (drop_found pre (number_needle key) rest json split))
  ]
  | inr (pre, rest, f, split, g) ↦
      rw (f, extract_field, g)
        (cut_value-until json _
          ∙ ap (λ r. or_empty (until_quote r)) (drop_found pre (string_needle key) rest json split))
]

-- A value with no quote is read whole.
pub until_quote-append :
    (v rest : Bytes) → Lacks quote v → until_quote (v ++ (quote ∷ rest)) ≡ some v
until_quote-append [] rest h = refl
until_quote-append (c ∷ v) rest h = ground (arith, until_quote-append v rest h.1)

-- What passes a test is taken whole, up to a character that does not pass.
pub take_while-append :
    (p : ℕ → Bool) (v rest : Bytes) (c : ℕ)
    → All (λ x. p x ≡ true) v
    → p c ≡ false
    → take_while p (v ++ (c ∷ rest)) ≡ v
take_while-append p [] rest c h e = rw e
take_while-append p (x ∷ v) rest c h e = rw h.0 (ap (◌∷◌ x) (take_while-append p v rest c h.1 e))
