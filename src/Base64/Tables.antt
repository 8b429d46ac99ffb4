-- ===== src/Base64/Tables.antt =====
-- The characters and the bit fields of a group, by evaluation over their ranges.
use securekit.Prelude.{
  ℕ, ◌+◌, ◌*◌, ◌/◌, ◌%◌, ◌^◌, ◌<◌, ◌≡◌, refl, false, not, bit_and, bit_or, ◌==◌, get_or, shl, sar,
  to_byte, arith,
}
use securekit.Prelude.Bits.{holds_below, holds_below-elim, agree→eq, agree₂→eq}
use securekit.Base64.{alphabet, decode_char, char0, char1, char2, char3}

abbrev letter : ℕ → ℕ
letter v = get_or alphabet v 0

decode_char-letter : (v : ℕ) → v < 64 → decode_char (letter v) ≡ v
unfolding holds_below decode_char
decode_char-letter = agree→eq 64 (λ v. decode_char (letter v)) (λ v. v) refl

letter_ne_pad : (v : ℕ) → v < 64 → (letter v == b'=') ≡ false
unfolding holds_below
letter_ne_pad v h = ground (arith, holds_below-elim 64 (λ v. not (letter v == b'=')) v h refl)

index0 : (b : ℕ) → b < 256 → bit_and (b / 2 ^ 2) 0x3f ≡ b / 4
unfolding holds_below
index0 = agree→eq 256 (λ b. bit_and (b / 2 ^ 2) 0x3f) (λ b. b / 4) refl

index1 : (b q : ℕ) → b < 256 → q < 16 → bit_and (bit_or (shl b 4) q) 0x3f ≡ b % 4 * 16 + q
unfolding holds_below
index1 = agree₂→eq 256 16 (λ b q. bit_and (bit_or (shl b 4) q) 0x3f) (λ b q. b % 4 * 16 + q) refl

index2 : (b q : ℕ) → b < 256 → q < 4 → bit_and (bit_or (shl b 2) q) 0x3f ≡ b % 16 * 4 + q
unfolding holds_below
index2 = agree₂→eq 256 4 (λ b q. bit_and (bit_or (shl b 2) q) 0x3f) (λ b q. b % 16 * 4 + q) refl

index3 : (b : ℕ) → b < 256 → bit_and b 0x3f ≡ b % 64
unfolding holds_below
index3 = agree→eq 256 (λ b. bit_and b 0x3f) (λ b. b % 64) refl

-- The six bits that each character of a group carries; none is the padding character.
pub decode_char-char0 :
    (b : ℕ) → b < 256 → (decode_char (char0 b) ≡ b / 4) × ((char0 b == b'=') ≡ false)
unfolding char0
decode_char-char0 b h =
    ground (arith, index0 b h, decode_char-letter (b / 4), letter_ne_pad (b / 4))

pub decode_char-char1 :
    (b c : ℕ)
    → b < 256
    → c < 256
    → (decode_char (char1 b c) ≡ b % 4 * 16 + c / 16) × ((char1 b c == b'=') ≡ false)
unfolding char1
decode_char-char1 b c h k = ground (
  arith,
  index1 b (c / 16) h,
  decode_char-letter (b % 4 * 16 + c / 16),
  letter_ne_pad (b % 4 * 16 + c / 16),
)

pub decode_char-char2 :
    (b c : ℕ)
    → b < 256
    → c < 256
    → (decode_char (char2 b c) ≡ b % 16 * 4 + c / 64) × ((char2 b c == b'=') ≡ false)
unfolding char2
decode_char-char2 b c h k = ground (
  arith,
  index2 b (c / 64) h,
  decode_char-letter (b % 16 * 4 + c / 64),
  letter_ne_pad (b % 16 * 4 + c / 64),
)

pub decode_char-char3 :
    (b : ℕ) → b < 256 → (decode_char (char3 b) ≡ b % 64) × ((char3 b == b'=') ≡ false)
unfolding char3
decode_char-char3 b h =
    ground (arith, index3 b h, decode_char-letter (b % 64), letter_ne_pad (b % 64))

-- The bytes that the decoder joins from six-bit values.
pub byte0 :
    (c0 c1 : ℕ) → c0 < 64 → c1 < 64 → to_byte (bit_or (shl c0 2) (sar c1 4)) ≡ c0 * 4 + c1 / 16
unfolding holds_below
byte0 =
    agree₂→eq 64 64 (λ c0 c1. to_byte (bit_or (shl c0 2) (sar c1 4))) (λ c0 c1. c0 * 4 + c1 / 16)
      refl

pub byte1 :
    (c1 c2 : ℕ)
    → c1 < 64
    → c2 < 64
    → to_byte (bit_or (shl (bit_and c1 0x0f) 4) (sar c2 2)) ≡ c1 % 16 * 16 + c2 / 4
unfolding holds_below
byte1 =
    agree₂→eq 64 64 (λ c1 c2. to_byte (bit_or (shl (bit_and c1 0x0f) 4) (sar c2 2)))
      (λ c1 c2. c1 % 16 * 16 + c2 / 4) refl

pub byte2 :
    (c2 c3 : ℕ)
    → c2 < 64
    → c3 < 64
    → to_byte (bit_or (shl (bit_and c2 0x03) 6) c3) ≡ c2 % 4 * 64 + c3
unfolding holds_below
byte2 =
    agree₂→eq 64 64 (λ c2 c3. to_byte (bit_or (shl (bit_and c2 0x03) 6) c3))
      (λ c2 c3. c2 % 4 * 64 + c3) refl
