-- ===== src/Common/Decimal.antt =====
-- `std::to_string` and `operator<<` on unsigned 64-bit integers, which have at most 20 digits.
use Prim.Native.Nat.{ℕ, zero, suc, ◌+◌, ◌-◌, ◌*◌, ◌/◌, ◌%◌, ◌^◌, ◌<◌}
use mathlib.Core.Path.{◌≡◌, ap, sym, ◌∙◌}
use mathlib.Core.Logic.{◌≢◌, inl, inr}
use mathlib.Core.Bool.{true, ◌&&◌}
use mathlib.Core.List.{[], ◌∷◌}
use native.Mathlib.Nat.{pow-suc}
use native.Mathlib.Omega.{arith}
use hs_financial_services.Common.Tests.{ltb, leb, if◌then◌else◌, Bool-cases}
use hs_financial_services.Common.Lists.{All}
use hs_financial_services.Common.Text.{Bytes}

-- The digits of `n` before `out`; `fuel` is the number of digits that there is room for.
unfoldable pub print : ℕ → ℕ → Bytes → Bytes
print zero n out = out
print (suc fuel) n out =
    let rest = print fuel (n / 10) ((b'0' + n % 10) ∷ out) in
    if ltb n 10 then (b'0' + n) ∷ out else rest

unfoldable pub to_string : ℕ → Bytes
unfolding print
to_string n = print 20 n []

-- The number that digits spell behind `n`.
abbrev pub value : ℕ → Bytes → ℕ
value n [] = n
value n (c ∷ s) = value (n * 10 + (c - b'0')) s

abbrev pub IsDigits : Bytes → Type 0
IsDigits = All (λ c. (leb b'0' c && leb c b'9') ≡ true)

value-print : (fuel n : ℕ) (out : Bytes) → n < 10 ^ fuel → value 0 (print fuel n out) ≡ value n out
unfolding print
value-print zero n out h = let z : n ≡ 0 = omega arith in rw z
value-print (suc fuel) n out h =
    let low : n / 10 < 10 ^ fuel = omega (arith, pow-suc 10 fuel) in
    let ih = value-print fuel (n / 10) ((b'0' + n % 10) ∷ out) low in
    elim (Bool-cases (ltb n 10)) [
      | inl one_digit ↦
          let e : b'0' + n - b'0' ≡ n = omega arith in
          rw (one_digit, print) (ap (λ d. value d out) (omega arith))
      | inr more ↦
          let e : n / 10 * 10 + (b'0' + n % 10 - b'0') ≡ n = omega arith in
          rw (more, print) (ih ∙ ap (λ d. value d out) e)
    ]

print-IsDigits : (fuel n : ℕ) (out : Bytes) → IsDigits out → IsDigits (print fuel n out)
unfolding print
print-IsDigits zero n out h = h
print-IsDigits (suc fuel) n out h =
    let digit : (leb b'0' (b'0' + n % 10) && leb (b'0' + n % 10) b'9') ≡ true = ground arith in
    let ih = print-IsDigits fuel (n / 10) ((b'0' + n % 10) ∷ out) (digit, h) in
    elim (Bool-cases (ltb n 10)) [
      | inl one_digit ↦
          let last : (leb b'0' (b'0' + n) && leb (b'0' + n) b'9') ≡ true = ground arith in
          rw (one_digit, print) (last, h)
      | inr more ↦ rw (more, print) ih
    ]

-- The print of a 64-bit number spells it.
pub value-to_string : (n : ℕ) → n < 2 ^ 64 → value 0 (to_string n) ≡ n
unfolding to_string
value-to_string n h = value-print 20 n [] (omega arith)

-- It has digits only.
pub to_string-IsDigits : (n : ℕ) → IsDigits (to_string n)
unfolding to_string
to_string-IsDigits n = print-IsDigits 20 n [] tt

-- So different numbers have different prints.
pub to_string-injective : (m n : ℕ) → m < 2 ^ 64 → n < 2 ^ 64 → to_string m ≡ to_string n → m ≡ n
to_string-injective m n hm hn e = sym (value-to_string m hm) ∙ ap (value 0) e ∙ value-to_string n hn

print-nonempty : (fuel n : ℕ) (out : Bytes) → out ≢ [] → print fuel n out ≢ []
unfolding print
print-nonempty zero n out h = h
print-nonempty (suc fuel) n out h =
    let ih = print-nonempty fuel (n / 10) ((b'0' + n % 10) ∷ out) (ground arith) in
    elim (Bool-cases (ltb n 10)) [
      | inl one_digit ↦ rw (one_digit, print) (ground arith)
      | inr more ↦ rw (more, print) ih
    ]

-- A number has at least one digit.
pub to_string-nonempty : (n : ℕ) → to_string n ≢ []
unfolding to_string print
to_string-nonempty n =
    let ih = print-nonempty 19 (n / 10) ((b'0' + n % 10) ∷ []) (ground arith) in
    elim (Bool-cases (ltb n 10)) [
      | inl one_digit ↦ rw (one_digit, print) (ground arith)
      | inr more ↦ rw (more, print) ih
    ]
