-- ===== src/Hex.antt =====
-- src/hex.cpp: hexadecimal text. A text is the list of its bytes; as `char` is compared with ASCII
-- only, its sign does not matter.
pub mod Tables
pub mod RoundTrip
use securekit.Prelude.{
  ℕ, ◌+◌, ◌-◌, ◌/◌, ◌%◌, ◌^◌, not, ◌&&◌, ◌||◌, List, [], ◌∷◌, length, get_or, bit_and, bit_or, ltb,
  leb, ◌==◌, if◌then◌else◌, codes, minus_one, is_negative, shl, to_byte,
}
use securekit.Errors.{
  Error, error, Result, ok, err, ◌>>=◌, ◌>>◌, throw_if, invalid_input, invalid_encoding,
}

abbrev digits : List ℕ
digits = codes "0123456789abcdef"

unfoldable pub encode_nibble : ℕ → ℕ
encode_nibble value = get_or digits (bit_and value 0x0f) 0

unfoldable pub decode_nibble : ℕ → ℕ
decode_nibble value =
    if leb b'0' value && leb value b'9'
    then value - b'0'
    else if leb b'a' value && leb value b'f'
    then value - b'a' + 10
    else if leb b'A' value && leb value b'F'
    then value - b'A' + 10
    else minus_one

-- The loop of `hex_encode`.
unfoldable pub encode_bytes : List ℕ → List ℕ
encode_bytes [] = []
encode_bytes (byte ∷ input) = encode_nibble (byte / 2 ^ 4) ∷ encode_nibble byte ∷ encode_bytes input

-- `max_size` is `std::string::max_size()`.
unfoldable pub hex_encode : ℕ → List ℕ → Result (List ℕ)
hex_encode max_size input = do
  throw_if (ltb (max_size / 2) (length input))
      (error invalid_input "hex input is too large to encode")
  ok (encode_bytes input)

abbrev not_hex : Error
not_hex = error invalid_encoding "hex input contains a non-hexadecimal character"

-- One round of the loop of `hex_decode`: the byte that it appends.
unfoldable pub decode_pair : ℕ → ℕ → Result ℕ
decode_pair a b = do
  let high = decode_nibble a
  let low = decode_nibble b
  throw_if (is_negative high || is_negative low) not_hex
  ok (to_byte (bit_or (shl high 4) low))

-- The loop. `hex_decode` has refused a text of odd length, so no character is met alone.
unfoldable pub decode_pairs : List ℕ → Result (List ℕ)
decode_pairs [] = ok []
decode_pairs (c ∷ []) = err not_hex
decode_pairs (a ∷ b ∷ input) = do
  byte ← decode_pair a b
  result ← decode_pairs input
  ok (byte ∷ result)

unfoldable pub hex_decode : List ℕ → Result (List ℕ)
hex_decode input = do
  throw_if (not (length input % 2 == 0))
      (error invalid_encoding "hex input must contain an even number of characters")
  decode_pairs input
