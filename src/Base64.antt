-- ===== src/Base64.antt =====
-- src/base64.cpp: base64 and base64url. A text is the list of its bytes.
pub mod Tables
pub mod RoundTrip
pub mod Url
use securekit.Prelude.{
  ℕ, zero, suc, ◌+◌, ◌-◌, ◌*◌, ◌/◌, ◌%◌, ◌^◌, not, ◌&&◌, ◌||◌, Bool, true, false, List, [], ◌∷◌,
  ◌++◌, map, length, get_or, drop, replicate, bit_and, bit_or, ltb, leb, ◌==◌, bytes_eq,
  if◌then◌else◌, codes, minus_one, is_negative, shl, sar, to_byte,
}
use mathlib.Core.List.{reverse}
use securekit.Errors.{
  Error, error, Result, ok, err, ◌>>=◌, ◌>>◌, throw_if, invalid_input, invalid_encoding,
}

abbrev alphabet : List ℕ
alphabet = codes "ABCDEFGHIJKLMNOPQRSTUVWXYZabcdefghijklmnopqrstuvwxyz0123456789+/"

unfoldable pub decode_char : ℕ → ℕ
decode_char ch =
    if leb b'A' ch && leb ch b'Z'
    then ch - b'A'
    else if leb b'a' ch && leb ch b'z'
    then ch - b'a' + 26
    else if leb b'0' ch && leb ch b'9'
    then ch - b'0' + 52
    else if ch == b'+'
    then 62
    else if ch == b'/'
    then 63
    else minus_one

unfoldable pub is_base64url_char : ℕ → Bool
is_base64url_char ch =
    leb b'A' ch && leb ch b'Z'
    || leb b'a' ch && leb ch b'z'
    || leb b'0' ch && leb ch b'9'
    || ch == b'-'
    || ch == b'_'

-- The loop of `reject_invalid_base64`; it answers the count of padding characters.
unfoldable pub scan_base64 : List ℕ → Bool → ℕ → Result ℕ
scan_base64 [] seen_padding padding = ok padding
scan_base64 (ch ∷ input) seen_padding padding =
    let at_padding = do
      throw_if (ltb 2 (padding + 1)) (error invalid_encoding "base64 input has too much padding")
      scan_base64 input true (padding + 1)
    in let at_data = do
      throw_if seen_padding (error invalid_encoding "base64 input has data after padding")
      throw_if (is_negative (decode_char ch))
          (error invalid_encoding "base64 input contains an invalid character")
      scan_base64 input seen_padding padding
      in if ch == b'=' then at_padding else at_data

unfoldable pub reject_invalid_base64 : List ℕ → Result (Unit {0})
reject_invalid_base64 input = do
  throw_if (not (length input % 4 == 0))
      (error invalid_encoding "base64 input length must be a multiple of four")
  padding ← scan_base64 input false 0
  throw_if (ltb 0 padding && ltb (length input) 4)
      (error invalid_encoding "base64 padding without data")
  ok tt

-- The loop of `reject_invalid_base64url`.
unfoldable pub scan_base64url : List ℕ → Result (Unit {0})
scan_base64url [] = ok tt
scan_base64url (ch ∷ input) = do
  throw_if (not (is_base64url_char ch))
      (error invalid_encoding "base64url input contains an invalid character")
  scan_base64url input

unfoldable pub reject_invalid_base64url : List ℕ → Result (Unit {0})
reject_invalid_base64url input = do
  throw_if (length input % 4 == 1) (error invalid_encoding "base64url input has invalid length")
  scan_base64url input

-- The four characters of a group; `b1` and `b2` are 0 where the input has ended.
unfoldable pub char0 : ℕ → ℕ
char0 b0 = get_or alphabet (bit_and (b0 / 2 ^ 2) 0x3f) 0

unfoldable pub char1 : ℕ → ℕ → ℕ
char1 b0 b1 = get_or alphabet (bit_and (bit_or (shl b0 4) (b1 / 2 ^ 4)) 0x3f) 0

unfoldable pub char2 : ℕ → ℕ → ℕ
char2 b1 b2 = get_or alphabet (bit_and (bit_or (shl b1 2) (b2 / 2 ^ 6)) 0x3f) 0

unfoldable pub char3 : ℕ → ℕ
char3 b2 = get_or alphabet (bit_and b2 0x3f) 0

-- The loop of `base64_encode`: `i` advances by three, and the last group may be short.
unfoldable pub encode_groups : List ℕ → List ℕ
encode_groups [] = []
encode_groups (b0 ∷ []) = char0 b0 ∷ char1 b0 0 ∷ b'=' ∷ b'=' ∷ []
encode_groups (b0 ∷ b1 ∷ []) = char0 b0 ∷ char1 b0 b1 ∷ char2 b1 0 ∷ b'=' ∷ []
encode_groups (b0 ∷ b1 ∷ b2 ∷ input) =
    char0 b0 ∷ char1 b0 b1 ∷ char2 b1 b2 ∷ char3 b2 ∷ encode_groups input

-- `max_size` is `max_size()` of `std::string` (and of `bytes`, where the source asks for that).
unfoldable pub base64_encode : ℕ → List ℕ → Result (List ℕ)
base64_encode max_size input = do
  let trailing_group = if length input % 3 == 0 then 0 else 1
  let encoded_groups = length input / 3 + trailing_group
  throw_if (ltb (max_size / 4) encoded_groups)
      (error invalid_input "base64 input is too large to encode")
  ok (encode_groups input)

-- The character loop of `base64url_encode`.
unfoldable pub to_url_char : ℕ → ℕ
to_url_char ch = if ch == b'+' then b'-' else if ch == b'/' then b'_' else ch

unfoldable pub keep : ℕ → List ℕ → List ℕ
keep ch [] = if ch == b'=' then [] else ch ∷ []
keep ch (x ∷ rest) = ch ∷ x ∷ rest

-- `while (!output.empty() && output.back() == '=') output.pop_back();`
unfoldable pub pop_padding : List ℕ → List ℕ
pop_padding [] = []
pop_padding (ch ∷ output) = keep ch (pop_padding output)

unfoldable pub base64url_encode : ℕ → List ℕ → Result (List ℕ)
base64url_encode string_max input = do
  output ← base64_encode string_max input
  ok (pop_padding (map to_url_char output))

-- `input.ends_with(suffix)`
unfoldable pub ends_with : List ℕ → List ℕ → Bool
ends_with suffix input =
    leb (length suffix) (length input)
    && bytes_eq (drop (length input - length suffix) input) suffix

-- One round of the loop of `base64_decode`: the bytes that it appends.
unfoldable pub decode_quad : ℕ → ℕ → ℕ → ℕ → List ℕ
decode_quad i0 i1 i2 i3 =
    let c0 = decode_char i0 in
    let c1 = decode_char i1 in
    let c2 = if i2 == b'=' then 0 else decode_char i2 in
    let c3 = if i3 == b'=' then 0 else decode_char i3 in
    to_byte (bit_or (shl c0 2) (sar c1 4))
    ∷ ((if i2 == b'=' then [] else to_byte (bit_or (shl (bit_and c1 0x0f) 4) (sar c2 2)) ∷ [])
        ++ (if i3 == b'=' then [] else to_byte (bit_or (shl (bit_and c2 0x03) 6) c3) ∷ []))

-- The loop. `reject_invalid_base64` has refused a text whose length is no multiple of four.
unfoldable pub decode_groups : List ℕ → List ℕ
decode_groups (i0 ∷ i1 ∷ i2 ∷ i3 ∷ input) = decode_quad i0 i1 i2 i3 ++ decode_groups input
decode_groups _ = []

abbrev not_canonical : Error
not_canonical = error invalid_encoding "base64 input is not in canonical form"

-- What `base64_decode` does with a text that is not empty. `bytes_max` is `bytes::max_size()`.
unfoldable pub decode_canonical : ℕ → ℕ → List ℕ → Result (List ℕ)
decode_canonical string_max bytes_max input = do
  let padding =
      if ends_with (codes "==") input then 2 else if ends_with (codes "=") input then 1 else 0
  let decoded_groups = length input / 4
  let decoded_size = decoded_groups * 3 - padding
  throw_if (ltb bytes_max decoded_size) (error invalid_input "base64 input is too large to decode")
  let output = decode_groups input
  encoded ← base64_encode string_max output
  throw_if (not (bytes_eq encoded input)) not_canonical
  ok output

unfoldable pub base64_decode : ℕ → ℕ → List ℕ → Result (List ℕ)
base64_decode string_max bytes_max input = do
  reject_invalid_base64 input
  elim input [ [] ↦ ok [] | ch ∷ rest ↦ decode_canonical string_max bytes_max (ch ∷ rest) ]

unfoldable pub from_url_char : ℕ → ℕ
from_url_char ch = if ch == b'-' then b'+' else if ch == b'_' then b'/' else ch

-- `while ((padded.size() % 4) != 0) padded.push_back('=');` with fuel: three rounds are enough.
unfoldable pub push_padding : ℕ → List ℕ → List ℕ
push_padding zero padded = padded
push_padding (suc fuel) padded =
    let longer = push_padding fuel (padded ++ (b'=' ∷ [])) in
    if length padded % 4 == 0 then padded else longer

unfoldable pub base64url_decode : ℕ → ℕ → List ℕ → Result (List ℕ)
base64url_decode string_max bytes_max input = do
  reject_invalid_base64url input
  throw_if (ltb (string_max - 3) (length input))
      (error invalid_input "base64url input is too large to decode")
  let padded = push_padding 3 (map from_url_char input)
  output ← base64_decode string_max bytes_max padded
  encoded ← base64url_encode string_max output
  throw_if (not (bytes_eq encoded input))
      (error invalid_encoding "base64url input is not in canonical form")
  ok output
