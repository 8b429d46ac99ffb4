-- ===== src/Prelude/Bits/Fields.antt =====
-- `|` of fields that do not overlap and `&` with a mask of low bits, on numbers of any size.
use Prim.Native.Nat.{
  ℕ, zero, suc, ◌+◌, ◌*◌, ◌/◌, ◌%◌, ◌^◌, ◌≤◌, ◌<◌, min, max, bit_and, bit_or, digits,
  bit_and-bitwise, bit_or-bitwise,
}
use mathlib.Core.Path.{◌≡◌, refl, ap, ◌∙◌}
use native.Mathlib.Nat.{pow-suc}
use native.Mathlib.Omega.{arith}

abbrev or_digits : ℕ → ℕ → ℕ → ℕ
or_digits n a b = digits (λ b. b) max n a b

abbrev and_digits : ℕ → ℕ → ℕ → ℕ
and_digits n a b = digits (λ b. zero) min n a b

double : (q k : ℕ) → q * 2 ^ suc k ≡ 2 * (q * 2 ^ k)
double q k = omega (arith, ap (λ (t : ℕ). q * t) (pow-suc 2 k))

-- The count of digits to go bounds the upper number.
or_digits_fields : (n k a q r : ℕ) → a ≤ n → a ≡ q * 2 ^ k → r < 2 ^ k → or_digits n a r ≡ a + r
or_digits_fields zero k zero q r h e small = omega arith
or_digits_fields zero k (suc a) q r h e small = absurd (omega arith)
or_digits_fields (suc n) k zero q r h e small = omega arith
or_digits_fields (suc n) zero (suc a) q r h e small = omega (
  arith,
  or_digits_fields n zero (suc a / 2) (suc a / 2) (r / 2) (omega arith) (omega arith) (omega arith),
)
or_digits_fields (suc n) (suc k) (suc a) q r h e small =
    let half : suc a / 2 ≡ q * 2 ^ k = omega (arith, double q k) in
    omega (
      arith,
      double q k,
      or_digits_fields n k (suc a / 2) q (r / 2) (omega arith) half (omega (arith, pow-suc 2 k)),
    )

-- `(q << k) | r` is a sum where `r` fits in `k` bits.
pub bit_or_fields : (k q r : ℕ) → r < 2 ^ k → bit_or (q * 2 ^ k) r ≡ q * 2 ^ k + r
bit_or_fields k q r h =
    (λ i. bit_or-bitwise (q * 2 ^ k) r i)
    ∙ or_digits_fields (q * 2 ^ k) k (q * 2 ^ k) q r (omega arith) refl h

and_digits_mask :
    (n k a m q r : ℕ) → a ≤ n → m + 1 ≡ 2 ^ k → a ≡ q * 2 ^ k + r → r < 2 ^ k → and_digits n a m ≡ r
and_digits_mask zero k zero m q r h mask e small = omega arith
and_digits_mask zero k (suc a) m q r h mask e small = absurd (omega arith)
and_digits_mask (suc n) k zero m q r h mask e small = omega arith
and_digits_mask (suc n) zero (suc a) m q r h mask e small = omega (
  arith,
  and_digits_mask n zero (suc a / 2) (m / 2) (suc a / 2) (r / 2) (omega arith) (omega arith)
      (omega arith) (omega arith),
)
and_digits_mask (suc n) (suc k) (suc a) m q r h mask e small =
    let half : suc a / 2 ≡ q * 2 ^ k + r / 2 = omega (arith, double q k) in
    omega (
      arith,
      double q k,
      pow-suc 2 k,
      and_digits_mask n k (suc a / 2) (m / 2) q (r / 2) (omega arith) (omega (arith, pow-suc 2 k))
          half (omega (arith, pow-suc 2 k)),
    )

-- `a & 0xff`
pub bit_and_byte : (a : ℕ) → bit_and a 0xff ≡ a % 256
bit_and_byte a =
    (λ i. bit_and-bitwise a 0xff i)
    ∙ and_digits_mask a 8 a 0xff (a / 256) (a % 256) (omega arith) refl (omega arith) (omega arith)
