-- ===== src/Tests/Codecs.antt =====
-- The text encodings, the headers and the random bytes at concrete inputs.
use securekit.Prelude.{
  ℕ, ◌≡◌, length-replicate, ◌+◌, ◌*◌, ◌^◌, ◌<◌, ◌≤◌, refl, List, [], ◌∷◌, length, All, IsByte,
  codes, replicate, map, ap, Bool, arith, true, ◌↔◌,
}
use securekit.Errors.{ok, err, code, error, Error, invalid_encoding}
use securekit.Compare.{constant_time_equal}
use securekit.Compare.Equality.{constant_time_equal_iff}
use securekit.Hex.{
  hex_encode, hex_decode, encode_bytes, encode_nibble, decode_nibble, decode_pairs, decode_pair,
}
use securekit.Hex.Tables.{to_lower}
use securekit.Hex.RoundTrip.{hex_decode_iff, hex_decode_fails}
use securekit.Base64.{
  base64_encode, base64_decode, base64url_encode, base64url_decode, is_base64url_char,
  encode_groups, char0, char1, char2, char3, to_url_char, pop_padding, keep,
}
use securekit.Base64.RoundTrip.{base64_decode_iff}
use securekit.Base64.Url.{base64url_decode_iff, base64url_encode-IsUrlText}
use securekit.FileFormat.{
  header_of, parse_header, make_record_header, parse_record_header, password_header_of,
  parse_password_header, u32_be, salt_size, nonce_prefix_size,
}
use securekit.FileFormat.Headers.{parse_header_iff}
use securekit.FileFormat.Records.{parse_record_header_iff, IsFlag}
use securekit.FileFormat.PasswordHeaders.{parse_password_header-password_header_of}
use securekit.Random.{Generator, random_bytes, fill_random}
use securekit.Random.Laws.{IsFilling, length-random_bytes}

abbrev two_bytes : List ℕ
two_bytes = 0xab ∷ 0x0f ∷ []

hex_runs : hex_encode 100 two_bytes ≡ ok (codes "ab0f")
unfolding hex_encode encode_bytes encode_nibble
hex_runs = refl

hex_mixed_case : hex_decode (codes "aB0F") ≡ ok two_bytes
unfolding hex_decode decode_pairs decode_pair decode_nibble
hex_mixed_case = refl

hex_decode_iff_example :
    (hex_decode (codes "aB0F") ≡ ok two_bytes)
    ↔ (All IsByte two_bytes × (hex_encode 100 two_bytes ≡ ok (map to_lower (codes "aB0F"))))
hex_decode_iff_example = hex_decode_iff 100 (codes "aB0F") two_bytes (omega arith)

abbrev bad_hex : Error
bad_hex = error invalid_encoding "hex input contains a non-hexadecimal character"

hex_refuses : hex_decode (codes "0g") ≡ err bad_hex
unfolding hex_decode decode_pairs decode_pair decode_nibble
hex_refuses = refl

hex_decode_fails_example : code bad_hex ≡ invalid_encoding
hex_decode_fails_example = hex_decode_fails (codes "0g") bad_hex hex_refuses

base64_runs : base64_encode 100 two_bytes ≡ ok (codes "qw8=")
unfolding base64_encode encode_groups char0 char1 char2 char3
base64_runs = refl

base64_decode_iff_example :
    (base64_decode 100 100 (codes "qw8=") ≡ ok two_bytes)
    ↔ (All IsByte two_bytes × (base64_encode 100 two_bytes ≡ ok (codes "qw8=")))
base64_decode_iff_example = base64_decode_iff 100 100 (codes "qw8=") two_bytes (omega arith)

base64_decodes : base64_decode 100 100 (codes "qw8=") ≡ ok two_bytes
base64_decodes = base64_decode_iff_example.1 (omega arith, base64_runs)

abbrev one_byte : List ℕ
one_byte = 0xff ∷ []

base64url_runs : base64url_encode 100 one_byte ≡ ok (codes "_w")
unfolding base64url_encode base64_encode encode_groups char0 char1 to_url_char pop_padding keep
base64url_runs = refl

base64url_decode_iff_example :
    (base64url_decode 100 100 (codes "_w") ≡ ok one_byte)
    ↔ (All IsByte one_byte × (base64url_encode 100 one_byte ≡ ok (codes "_w")))
base64url_decode_iff_example =
    base64url_decode_iff 100 100 (codes "_w") one_byte (omega arith) (omega arith)

base64url_encode-IsUrlText_example : All (λ ch. is_base64url_char ch ≡ true) (codes "_w")
base64url_encode-IsUrlText_example =
    base64url_encode-IsUrlText 100 one_byte (codes "_w") (omega arith) base64url_runs

abbrev salt_32 : List ℕ
salt_32 = replicate 32 7

abbrev prefix_8 : List ℕ
prefix_8 = replicate 8 9

parse_header_iff_example :
    (parse_header (header_of salt_32 prefix_8).serialized ≡ ok (header_of salt_32 prefix_8)) ↔ (
      (salt prefix : List ℕ) × (length salt ≡ salt_size)
      × (length prefix ≡ nonce_prefix_size)
      × (header_of salt_32 prefix_8 ≡ header_of salt prefix)
      × ((header_of salt_32 prefix_8).serialized ≡ (header_of salt_32 prefix_8).serialized))
unfolding header_of u32_be
parse_header_iff_example =
    parse_header_iff (header_of salt_32 prefix_8).serialized (header_of salt_32 prefix_8) refl
      (omega arith)

parse_record_header_iff_example :
    (parse_record_header (0 ∷ 0 ∷ 0 ∷ 5 ∷ 0 ∷ 0 ∷ 1 ∷ 2 ∷ 1 ∷ []) ≡ ok (make_record_header 5 258 1))
    ↔ (((0 ∷ 0 ∷ 0 ∷ 5 ∷ 0 ∷ 0 ∷ 1 ∷ 2 ∷ 1 ∷ []) ≡ (make_record_header 5 258 1).serialized)
        × (make_record_header 5 258 1
            ≡ make_record_header
                (make_record_header 5 258 1).index
                (make_record_header 5 258 1).plaintext_size
                (make_record_header 5 258 1).final_flag)
        × ((make_record_header 5 258 1).index < 2 ^ 32)
        × ((make_record_header 5 258 1).plaintext_size ≤ 1024 * 1024)
        × IsFlag (make_record_header 5 258 1).final_flag)
parse_record_header_iff_example =
    parse_record_header_iff (0 ∷ 0 ∷ 0 ∷ 5 ∷ 0 ∷ 0 ∷ 1 ∷ 2 ∷ 1 ∷ []) (make_record_header 5 258 1)
      refl (omega arith)

parse_password_header-password_header_of_example :
    parse_password_header (password_header_of salt_32 prefix_8).serialized
    ≡ ok (password_header_of salt_32 prefix_8)
parse_password_header-password_header_of_example =
    parse_password_header-password_header_of salt_32 prefix_8 refl refl

abbrev pub counting : Generator
counting = record {
  Source = ℕ;
  rand_bytes = λ n s. (true, replicate n s, s + 1);
  rand_priv_bytes = λ n s. (true, replicate n s, s + 1);
}

pub counting-IsFilling : IsFilling counting
counting-IsFilling = record {
  full = λ n s s' out e.
      let filled : replicate n s ≡ out = ap (λ (t : Bool × List ℕ × ℕ). t.1) e in
      rw (← filled) (length-replicate n s);
}

random_runs : random_bytes counting 3 5 ≡ (ok (5 ∷ 5 ∷ 5 ∷ []), 6)
unfolding random_bytes fill_random
random_runs = refl

length-random_bytes_example : length {A = ℕ} (5 ∷ 5 ∷ 5 ∷ []) ≡ 3
length-random_bytes_example =
    length-random_bytes counting counting-IsFilling 3 (5 ∷ 5 ∷ 5 ∷ []) 5 6 random_runs

abbrev one_two : List ℕ
one_two = 1 ∷ 2 ∷ []

abbrev one_three : List ℕ
one_three = 1 ∷ 3 ∷ []

constant_time_equal_iff_example :
    (constant_time_equal one_two one_three ≡ true) ↔ (one_two ≡ one_three)
constant_time_equal_iff_example = constant_time_equal_iff one_two one_three
