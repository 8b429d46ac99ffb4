-- ===== src/Compare/Equality.antt =====
-- The accumulated difference is zero exactly when nothing differs.
use Prim.Native.Nat.{
  ℕ, zero, suc, ◌/◌, ◌%◌, ◌≤◌, max, bit_or, bit_xor, digits, bit_or-bitwise, bit_xor-bitwise,
  differ,
}
use securekit.Prelude.{◌≡◌, refl, ap, sym, ◌∙◌, ◌↔◌, true, List, [], ◌∷◌, length, arith, ==_iff}
use securekit.Compare.{compare_loop, constant_time_equal}

abbrev or_digits : ℕ → ℕ → ℕ → ℕ
or_digits n a b = digits (λ b. b) max n a b

abbrev xor_digits : ℕ → ℕ → ℕ → ℕ
xor_digits n a b = digits (λ b. b) differ n a b

or_digits_zero : (n a b : ℕ) → a ≤ n → or_digits n a b ≡ 0 → (a ≡ 0) × (b ≡ 0)
or_digits_zero zero zero b h e = (refl, e)
or_digits_zero zero (suc a) b h e = absurd (omega arith)
or_digits_zero (suc n) zero b h e = (refl, e)
or_digits_zero (suc n) (suc a) b h e =
    let (ha, hb) = or_digits_zero n (suc a / 2) (b / 2) (omega arith) (omega (arith, e)) in
    (omega (arith, e, ha), omega (arith, e, hb))

differ_zero : (x y : ℕ) → differ x y ≡ 0 → x ≡ y
differ_zero zero y e = sym e
differ_zero (suc x) zero e = e
differ_zero (suc x) (suc y) e = ap suc (differ_zero x y e)

differ_same : (x : ℕ) → differ x x ≡ 0
differ_same zero = refl
differ_same (suc x) = differ_same x

xor_digits_zero : (n a b : ℕ) → a ≤ n → xor_digits n a b ≡ 0 → a ≡ b
xor_digits_zero zero zero b h e = sym e
xor_digits_zero zero (suc a) b h e = absurd (omega arith)
xor_digits_zero (suc n) zero b h e = sym e
xor_digits_zero (suc n) (suc a) b h e =
    let half = xor_digits_zero n (suc a / 2) (b / 2) (omega arith) (omega (arith, e)) in
    omega (arith, half, differ_zero (suc a % 2) (b % 2) (omega (arith, e)))

xor_digits_same : (n a : ℕ) → a ≤ n → xor_digits n a a ≡ 0
xor_digits_same zero zero h = refl
xor_digits_same zero (suc a) h = absurd (omega arith)
xor_digits_same (suc n) zero h = refl
xor_digits_same (suc n) (suc a) h =
    omega (arith, xor_digits_same n (suc a / 2) (omega arith), differ_same (suc a % 2))

bit_or_zero : (a b : ℕ) → bit_or a b ≡ 0 → (a ≡ 0) × (b ≡ 0)
bit_or_zero a b e = or_digits_zero a a b (omega arith) (sym (λ i. bit_or-bitwise a b i) ∙ e)

bit_xor_zero : (a b : ℕ) → bit_xor a b ≡ 0 → a ≡ b
bit_xor_zero a b e = xor_digits_zero a a b (omega arith) (sym (λ i. bit_xor-bitwise a b i) ∙ e)

bit_xor_same : (a : ℕ) → bit_xor a a ≡ 0
bit_xor_same a = (λ i. bit_xor-bitwise a a i) ∙ xor_digits_same a a (omega arith)

compare_loop_inv :
    (diff : ℕ) (left right : List ℕ)
    → compare_loop diff left right ≡ 0
    → (diff ≡ 0) × (length left ≡ length right → left ≡ right)
unfolding compare_loop
compare_loop_inv diff [] [] e = (e, λ h. refl)
compare_loop_inv diff [] (r ∷ right) e = (e, λ h. absurd (omega (arith, h)))
compare_loop_inv diff (l ∷ left) [] e = (e, λ h. absurd (omega (arith, h)))
compare_loop_inv diff (l ∷ left) (r ∷ right) e =
    let (zero_diff, tail) = compare_loop_inv (bit_or diff (bit_xor l r)) left right e in
    let (none_before, none_here) = bit_or_zero diff (bit_xor l r) zero_diff in
    (none_before, λ h. rw (bit_xor_zero l r none_here, tail (omega (arith, h))))

compare_loop_same : (left : List ℕ) → compare_loop 0 left left ≡ 0
unfolding compare_loop
compare_loop_same [] = refl
compare_loop_same (l ∷ left) = rw (bit_xor_same l) (compare_loop_same left)

-- `constant_time_equal` answers true exactly when its two arguments are equal, sizes included.
pub constant_time_equal_iff :
    (left right : List ℕ) → (constant_time_equal left right ≡ true) ↔ (left ≡ right)
unfolding constant_time_equal
constant_time_equal_iff left right = (
  λ e.
      let (sizes, same) =
        compare_loop_inv (bit_xor (length left) (length right)) left right ((==_iff _ 0).0 e) in
      same (bit_xor_zero (length left) (length right) sizes),
  λ e. rw (← e) ((==_iff _ 0).1 (rw (bit_xor_same (length left)) (compare_loop_same left))),
)
