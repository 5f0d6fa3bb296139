-- ===== src/Json/Object/Clean.antt =====
-- What the helpers return, whatever the request holds: texts with no quote, and numbers.
use hs_financial_services.Common.{
  ℕ, ◌≡◌, inl, inr, Bool, true, Option, none, some, [], ◌∷◌, ◌==◌, All, arith, Bool-cases,
  Option-cases,
}
use hs_financial_services.Common.Text.{Bytes, Lacks, seek}
use hs_financial_services.Json.{
  quote, string_needle, number_needle, extract_string, extract_number, is_numeric,
}
use hs_financial_services.Json.Extract.{
  extract_string-seek, extract_number-seek, until_quote, or_empty, quoted_value, number_value,
  take_while, skip_blanks,
}
use hs_financial_services.Json.Object.{IsNumber}

until_quote-Lacks : (s : Bytes) → Lacks quote (or_empty (until_quote s))
until_quote-Lacks [] = tt
until_quote-Lacks (c ∷ s) = elim (Bool-cases (quote == c)) [
  | inl hit ↦ rw (hit, until_quote) tt
  | inr miss ↦ elim (Option-cases (until_quote s)) [
    | inl e ↦ rw (miss, e, until_quote) tt
    | inr (r, e) ↦
        let ih : Lacks quote r = rw e at (until_quote-Lacks s) in
        rw (miss, e, until_quote) (ground arith, ih)
  ]
]

quoted_value-Lacks : (o : Option Bytes) → Lacks quote (quoted_value o)
quoted_value-Lacks none = tt
quoted_value-Lacks (some rest) = until_quote-Lacks rest

-- `extract_string` never returns a quote.
pub extract_string-Lacks : (json key : Bytes) → Lacks quote (extract_string json key)
extract_string-Lacks json key =
    rw (extract_string-seek json key) (quoted_value-Lacks (seek (string_needle key) json))

take_while-All : (p : ℕ → Bool) (s : Bytes) → All (λ c. p c ≡ true) (take_while p s)
take_while-All p [] = tt
take_while-All p (c ∷ s) = elim (Bool-cases (p c)) [
  | inl more ↦ rw more (more, take_while-All p s)
  | inr done ↦ rw done tt
]

number_value-IsNumber : (o : Option Bytes) → IsNumber (number_value o)
number_value-IsNumber none = ground arith
number_value-IsNumber (some rest) = take_while-All is_numeric (skip_blanks rest)

-- `extract_number` returns digits, `.` and `-` only.
pub extract_number-IsNumber : (json key : Bytes) → IsNumber (extract_number json key)
extract_number-IsNumber json key =
    rw (extract_number-seek json key) (number_value-IsNumber (seek (number_needle key) json))
