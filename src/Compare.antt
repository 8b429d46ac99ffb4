-- ===== src/Compare.antt =====
-- src/compare.cpp
pub mod Equality
use securekit.Prelude.{ℕ, Bool, List, [], ◌∷◌, length, bit_or, bit_xor, ◌==◌}

-- The loop over the common size.
unfoldable pub compare_loop : ℕ → List ℕ → List ℕ → ℕ
compare_loop diff [] right = diff
compare_loop diff (l ∷ left) [] = diff
compare_loop diff (l ∷ left) (r ∷ right) = compare_loop (bit_or diff (bit_xor l r)) left right

unfoldable pub constant_time_equal : List ℕ → List ℕ → Bool
constant_time_equal left right = compare_loop (bit_xor (length left) (length right)) left right == 0
