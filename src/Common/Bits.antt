-- ===== src/Common/Bits.antt =====
-- `x | 2 ^ k` at variables, from the digit recursion that the native `bit_or` stands for.
use Prim.Native.Nat.{
  ℕ, zero, suc, ◌+◌, ◌*◌, ◌/◌, ◌%◌, ◌^◌, ◌≤◌, ◌<◌, max, bit_or, digits, bit_or-bitwise,
}
use mathlib.Core.Path.{◌≡◌, refl, ap}
use native.Mathlib.Nat.{pow-suc}
use native.Mathlib.Omega.{arith}

abbrev or_digits : ℕ → ℕ → ℕ → ℕ
or_digits fuel x y = digits (λ low. low) max fuel x y

-- Any fuel that is not less than the first number gives the same.
or_digits_fuel :
    (x y fuel fuel' : ℕ) → x ≤ fuel → x ≤ fuel' → or_digits fuel x y ≡ or_digits fuel' x y
or_digits_fuel zero y zero zero h h' = refl
or_digits_fuel zero y zero (suc fuel') h h' = refl
or_digits_fuel zero y (suc fuel) zero h h' = refl
or_digits_fuel zero y (suc fuel) (suc fuel') h h' = refl
or_digits_fuel (suc x) y zero fuel' h h' = absurd (omega arith)
or_digits_fuel (suc x) y (suc fuel) zero h h' = absurd (omega arith)
or_digits_fuel (suc x) y (suc fuel) (suc fuel') h h' =
    let half = suc x / 2 in
    let small : half ≤ fuel = omega arith in
    let small' : half ≤ fuel' = omega arith in
    omega (arith, or_digits_fuel half (y / 2) fuel fuel' small small')

zero-bit_or : (y : ℕ) → bit_or 0 y ≡ y
zero-bit_or y = bit_or-bitwise 0 y

-- The recursion on the digits: the halves, and the last digit.
bit_or-halves : (x y : ℕ) → bit_or x y ≡ max (x % 2) (y % 2) + 2 * bit_or (x / 2) (y / 2)
bit_or-halves zero y = omega (arith, zero-bit_or (y / 2), zero-bit_or y)
bit_or-halves (suc x) y =
    let half = suc x / 2 in
    let small : half ≤ x = omega arith in
    let enough : half ≤ half = omega arith in
    omega (
      arith,
      or_digits_fuel half (y / 2) x half small enough,
      bit_or-bitwise half (y / 2),
      bit_or-bitwise (suc x) y,
    )

bit_or-pow_suc : (k x : ℕ) → bit_or x (2 ^ suc k) ≡ bit_or (x / 2) (2 ^ k) * 2 + x % 2
bit_or-pow_suc k x =
    let half : 2 ^ suc k / 2 ≡ 2 ^ k = omega (arith, pow-suc 2 k) in
    let even : max (x % 2) (2 ^ suc k % 2) ≡ x % 2 = omega (arith, pow-suc 2 k) in
    omega (arith, bit_or-halves x (2 ^ suc k), even, ap (bit_or (x / 2)) half)

-- Setting a bit above the number adds it; setting the top bit again changes nothing.
pub bit_or-top :
    (k x : ℕ)
    → (x < 2 ^ k → bit_or x (2 ^ k) ≡ x + 2 ^ k)
      × (2 ^ k ≤ x → x < 2 * 2 ^ k → bit_or x (2 ^ k) ≡ x)
bit_or-top zero zero = (λ h. refl, λ h. absurd (omega arith))
bit_or-top zero (suc zero) = (λ h. absurd (omega arith), λ h h'. refl)
bit_or-top zero (suc (suc x)) = (λ h. absurd (omega arith), λ h h'. absurd (omega arith))
bit_or-top (suc k) x =
    let ih = bit_or-top k (x / 2) in
    (
      λ h.
          let low : x / 2 < 2 ^ k = omega (arith, pow-suc 2 k) in
          omega (arith, bit_or-pow_suc k x, ih.0 low, pow-suc 2 k),
      λ h h'.
          let low : 2 ^ k ≤ x / 2 = omega (arith, pow-suc 2 k) in
          let high : x / 2 < 2 * 2 ^ k = omega (arith, pow-suc 2 k) in
          omega (arith, bit_or-pow_suc k x, ih.1 low high),
    )
