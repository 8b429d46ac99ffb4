-- ===== src/Prelude/Bits.antt =====
-- Bit operations on bytes as arithmetic: each fact is a table that is checked by evaluation. Those on
-- wider words are in the child module.
pub mod Fields
use Prim.Native.Nat.{ℕ, zero, suc, ◌<◌}
use mathlib.Core.Path.{◌≡◌, refl}
use mathlib.Core.Bool.{Bool, true, ◌&&◌}
use native.Mathlib.Omega.{arith}
use securekit.Prelude.Tests.{◌==◌, ==_iff}

unfoldable pub holds_below : ℕ → (ℕ → Bool) → Bool
holds_below zero test = true
holds_below (suc bound) test = holds_below bound test && test bound

pub holds_below-elim :
    (bound : ℕ) (test : ℕ → Bool) (i : ℕ)
    → i < bound
    → holds_below bound test ≡ true
    → test i ≡ true
unfolding holds_below
holds_below-elim zero test i below h = absurd (omega arith)
holds_below-elim (suc bound) test i below h = ground (arith, holds_below-elim bound test i)

-- Two functions that agree on every number below `n`.
abbrev pub agree : ℕ → (ℕ → ℕ) → (ℕ → ℕ) → Bool
agree n f g = holds_below n (λ x. f x == g x)

pub agree→eq : (n : ℕ) (f g : ℕ → ℕ) → agree n f g ≡ true → (x : ℕ) → x < n → f x ≡ g x
agree→eq n f g h x lt = (==_iff _ _).0 (holds_below-elim n _ x lt h)

-- The same for two arguments.
abbrev pub agree₂ : ℕ → ℕ → (ℕ → ℕ → ℕ) → (ℕ → ℕ → ℕ) → Bool
agree₂ n m f g = holds_below n (λ x. agree m (f x) (g x))

pub agree₂→eq :
    (n m : ℕ) (f g : ℕ → ℕ → ℕ) → agree₂ n m f g ≡ true → (x y : ℕ) → x < n → y < m → f x y ≡ g x y
agree₂→eq n m f g h x y p q = agree→eq m (f x) (g x) (holds_below-elim n _ x p h) y q
