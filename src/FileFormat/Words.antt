-- ===== src/FileFormat/Words.antt =====
-- The big-endian words of the format.
use securekit.Prelude.{ℕ, ◌+◌, ◌*◌, ◌/◌, ◌%◌, ◌^◌, ◌<◌, ◌≡◌, ◌∙◌, [], ◌∷◌, IsByte, arith}
use securekit.Prelude.Bits.Fields.{bit_or_fields, bit_and_byte}
use securekit.FileFormat.{u32_be, read_u32_be}

-- The arithmetic of a word.
pub u32_be_lem :
    (v : ℕ) → u32_be v ≡ v / 2 ^ 24 % 256 ∷ v / 2 ^ 16 % 256 ∷ v / 2 ^ 8 % 256 ∷ v % 256 ∷ []
unfolding u32_be
u32_be_lem v = simp bit_and_byte

pub read_u32_be_lem :
    (a b c d : ℕ)
    → IsByte a
    → IsByte b
    → IsByte c
    → IsByte d
    → read_u32_be (a ∷ b ∷ c ∷ d ∷ []) ≡ a * 2 ^ 24 + b * 2 ^ 16 + c * 2 ^ 8 + d
unfolding read_u32_be
read_u32_be_lem a b c d ha hb hc hd = ground (
  arith,
  bit_or_fields 24 a (b * 2 ^ 16) (omega arith),
  bit_or_fields 16 (a * 256 + b) (c * 256) (omega arith),
  bit_or_fields 8 (a * 65536 + b * 256 + c) d (omega arith),
)

pub read_u32_be-u32_be : (v : ℕ) → v < 2 ^ 32 → read_u32_be (u32_be v) ≡ v
read_u32_be-u32_be v h =
    rw u32_be_lem (
      read_u32_be_lem _ _ _ _ (omega arith) (omega arith) (omega arith) (omega arith) ∙ omega arith)

pub u32_be-read_u32_be :
    (a b c d : ℕ)
    → IsByte a
    → IsByte b
    → IsByte c
    → IsByte d
    → u32_be (read_u32_be (a ∷ b ∷ c ∷ d ∷ [])) ≡ a ∷ b ∷ c ∷ d ∷ []
u32_be-read_u32_be a b c d ha hb hc hd =
    rw (read_u32_be_lem a b c d ha hb hc hd, u32_be_lem) (ground arith)
