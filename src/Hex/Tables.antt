-- ===== src/Hex/Tables.antt =====
-- The nibble functions on every character, by evaluation over the byte range.
use securekit.Prelude.{
  ℕ, ◌+◌, ◌*◌, ◌/◌, ◌%◌, ◌<◌, ◌≡◌, refl, true, false, ◌&&◌, ◌||◌, bit_or, leb, ◌==◌, if◌then◌else◌,
  is_negative, shl, arith,
}
use securekit.Prelude.Bits.{holds_below, holds_below-elim, agree→eq, agree₂→eq}
use securekit.Hex.{encode_nibble, decode_nibble}

-- The lower-case form of a character of a hexadecimal text.
unfoldable pub to_lower : ℕ → ℕ
to_lower c = if leb b'A' c && leb c b'Z' then c + 32 else c

pub high_nibble : (v : ℕ) → v < 256 → decode_nibble (encode_nibble (v / 16)) ≡ v / 16
unfolding holds_below encode_nibble decode_nibble
high_nibble = agree→eq 256 (λ v. decode_nibble (encode_nibble (v / 16))) (λ v. v / 16) refl

pub low_nibble : (v : ℕ) → v < 256 → decode_nibble (encode_nibble v) ≡ v % 16
unfolding holds_below encode_nibble decode_nibble
low_nibble = agree→eq 256 (λ v. decode_nibble (encode_nibble v)) (λ v. v % 16) refl

pub join_nibbles : (h l : ℕ) → h < 16 → l < 16 → bit_or (shl h 4) l ≡ h * 16 + l
unfolding holds_below
join_nibbles = agree₂→eq 16 16 (λ h l. bit_or (shl h 4) l) (λ h l. h * 16 + l) refl

pub encode_nibble-join : (h l : ℕ) → h < 16 → l < 16 → encode_nibble (h * 16 + l) ≡ encode_nibble l
unfolding holds_below encode_nibble
encode_nibble-join =
    agree₂→eq 16 16 (λ h l. encode_nibble (h * 16 + l)) (λ h l. encode_nibble l) refl

-- A character that is accepted is, up to case, the digit of its value.
pub decode_nibble-small : (c : ℕ) → is_negative (decode_nibble c) ≡ false → decode_nibble c < 16
unfolding decode_nibble
decode_nibble-small c h = ground arith

encode_table :
    (c : ℕ)
    → c < 128
    → (is_negative (decode_nibble c) || (encode_nibble (decode_nibble c) == to_lower c)) ≡ true
unfolding holds_below encode_nibble decode_nibble to_lower
encode_table c h =
    holds_below-elim 128
      (λ c. is_negative (decode_nibble c) || (encode_nibble (decode_nibble c) == to_lower c)) c h
      refl

decode_nibble-ascii : (c : ℕ) → is_negative (decode_nibble c) ≡ false → c < 128
unfolding decode_nibble
decode_nibble-ascii c h = ground arith

pub encode_nibble-decode_nibble :
    (c : ℕ) → is_negative (decode_nibble c) ≡ false → encode_nibble (decode_nibble c) ≡ to_lower c
encode_nibble-decode_nibble c h = ground (arith, encode_table c, decode_nibble-ascii c)

pub to_lower-encode_nibble : (v : ℕ) → v < 256 → to_lower (encode_nibble v) ≡ encode_nibble v
unfolding holds_below encode_nibble to_lower
to_lower-encode_nibble = agree→eq 256 (λ v. to_lower (encode_nibble v)) encode_nibble refl
