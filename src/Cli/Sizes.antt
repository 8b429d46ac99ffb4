-- ===== src/Cli/Sizes.antt =====
-- Sizes as decimal numerals.
use securekit.Prelude.{
  ℕ, suc, ◌+◌, ◌-◌, ◌*◌, ◌^◌, ◌<◌, ◌≡◌, ◌↔◌, refl, sym, ap, ◌∙◌, true, false, List, [], ◌∷◌, length,
  All, arith, Bool-cases, inl, inr, ◌==◌,
}
use securekit.Cli.{Outcome, returned}
use securekit.Cli.Values.{is_digit, scan, from_chars, parse_size, in_range, size_of}

abbrev pub IsDigit : ℕ → Type 0
IsDigit c = is_digit c ≡ true

-- The number that a numeral stands for, by the place values.
abbrev pub numeral : List ℕ → ℕ
numeral [] = 0
numeral (c ∷ text) = (c - b'0') * 10 ^ length text + numeral text

scan-digits :
    (text : List ℕ) (value : ℕ)
    → All IsDigit text
    → scan value text ≡ (value * 10 ^ length text + numeral text, [])
scan-digits [] value h = let e : value ≡ value * 10 ^ 0 + 0 = omega arith in ap (λ v. (v, [])) e
scan-digits (c ∷ text) value h =
    let e : (10 * value + (c - b'0')) * 10 ^ length text + numeral text
        ≡ value * 10 ^ suc (length text) + ((c - b'0') * 10 ^ length text + numeral text) =
      shift value (c - b'0') (10 ^ length text) (numeral text) (10 ^ suc (length text))
        (omega arith) in
    rw h.0 (scan-digits text (10 * value + (c - b'0')) h.1 ∙ ap (λ v. (v, [])) e)
  where
    shift : (v d p m q : ℕ) → q ≡ 10 * p → (10 * v + d) * p + m ≡ v * q + (d * p + m)
    shift v d p m q h = rw h (grind arith)

scan-IsDigit : (text : List ℕ) (value v : ℕ) → scan value text ≡ (v, []) → All IsDigit text
scan-IsDigit [] value v h = tt
scan-IsDigit (c ∷ text) value v h = elim (Bool-cases (is_digit c)) [
  | inl digit ↦ (digit, scan-IsDigit text (10 * value + (c - b'0')) v (rw digit at h))
  | inr other ↦ absurd (ground (arith, h, other))
]

abbrev scanned : ℕ × List ℕ → Outcome ℕ
scanned r = size_of (in_range r)

scanned_iff :
    (r : ℕ × List ℕ) (n : ℕ) → (scanned r ≡ returned n) ↔ ((r ≡ (n, [])) × (0 < n) × (n < 2 ^ 64))
scanned_iff (value, []) n =
    (λ h. ground (arith, h), λ (e, pos, small). ground (arith, ap (λ (r : ℕ × List ℕ). r.0) e))
scanned_iff (value, c ∷ rest) n = (
  λ h. absurd (ground (arith, h)),
  λ (e, pos, small). absurd (ground (arith, ap (λ (r : ℕ × List ℕ). length r.1) e)),
)

not_zero : (n : ℕ) → (suc n == 0) ≡ false
not_zero n = ground arith

parse_size-scanned :
    (c : ℕ) (text : List ℕ)
    → is_digit c ≡ true
    → parse_size (c ∷ text) ≡ scanned (scan 0 (c ∷ text))
unfolding parse_size from_chars
parse_size-scanned c text h = rw (not_zero (length text), h) refl

-- `parse_size` accepts a text exactly when it consists of decimal digits and the numeral is
-- positive and below 2^64, and it returns the value of the numeral by its places.
pub parse_size_iff :
    (text : List ℕ) (n : ℕ)
    → (parse_size text ≡ returned n)
      ↔ (All IsDigit text × (numeral text ≡ n) × (0 < n) × (n < 2 ^ 64))
unfolding parse_size from_chars
parse_size_iff [] n =
    (λ h. absurd (ground (arith, h)), λ (h, e, pos, small). absurd (omega (arith, e, pos)))
parse_size_iff (c ∷ text) n = (
  λ h. elim (Bool-cases (is_digit c)) [
    | inl digit ↦
        let (e, pos, small) =
          (scanned_iff (scan 0 (c ∷ text)) n).0 (sym (parse_size-scanned c text digit) ∙ h) in
        let digits = scan-IsDigit (c ∷ text) 0 n e in
        (
          digits,
          omega (arith, ap (λ (r : ℕ × List ℕ). r.0) (sym (scan-digits (c ∷ text) 0 digits) ∙ e)),
          pos,
          small,
        )
    | inr other ↦ absurd (ground (arith, h, other))
  ],
  λ (digits, e, pos, small).
      let value : 0 * 10 ^ length (c ∷ text) + numeral (c ∷ text) ≡ n = omega (arith, e) in
      parse_size-scanned c text digits.0
      ∙ (scanned_iff (scan 0 (c ∷ text)) n).1
          (scan-digits (c ∷ text) 0 digits ∙ ap (λ v. (v, [])) value, pos, small),
)
