-- ===== src/FileFormat.antt =====
-- src/file_detail.hpp and src/file_crypto.cpp: the SKF1 and SKP1 headers, the record header, the
-- nonce and the authenticated data of a chunk. An array is a list of its size, written in place.
pub mod Words
pub mod Headers
pub mod PasswordHeaders
pub mod Records
use securekit.Prelude.{
  ℕ, ◌+◌, ◌*◌, ◌/◌, ◌^◌, not, ◌&&◌, ◌||◌, List, [], ◌∷◌, ◌++◌, length, get_or, take, drop,
  replicate, copy_at, bit_and, bit_or, ltb, ◌==◌, bytes_eq, codes, shl,
}
use securekit.Errors.{
  Error, error, Result, ok, ◌>>=◌, ◌>>◌, throw_if, invalid_packet, invalid_input,
}

abbrev pub chunk_size : ℕ
chunk_size = 1024 * 1024

abbrev pub header_size : ℕ
header_size = 4 + 1 + 1 + 4 + 32 + 8

abbrev pub password_header_size : ℕ
password_header_size = 4 + 1 + 1 + 1 + 1 + 4 + 32 + 8 + 4 + 4 + 4

abbrev pub salt_size : ℕ
salt_size = 32

abbrev pub nonce_prefix_size : ℕ
nonce_prefix_size = 8

abbrev pub nonce_size : ℕ
nonce_size = 12

abbrev pub tag_size : ℕ
tag_size = 16

abbrev pub record_header_size : ℕ
record_header_size = 4 + 4 + 1

abbrev pub not_final : ℕ
not_final = 0x00

abbrev pub final : ℕ
final = 0x01

abbrev pub magic : List ℕ
magic = codes "SKF1"

abbrev pub password_magic : List ℕ
password_magic = codes "SKP1"

abbrev pub version : ℕ
version = 0x01

abbrev pub algorithm : ℕ
algorithm = 0x01

abbrev pub password_cipher : ℕ
password_cipher = 0x01

abbrev pub password_kdf : ℕ
password_kdf = 0x01

abbrev pub password_flags : ℕ
password_flags = 0x00

abbrev pub default_scrypt_n : ℕ
default_scrypt_n = 32768

abbrev pub default_scrypt_r : ℕ
default_scrypt_r = 8

abbrev pub default_scrypt_p : ℕ
default_scrypt_p = 1

pub record FileHeader : Type 0 where
  pub serialized : List ℕ
  pub salt : List ℕ
  pub nonce_prefix : List ℕ

pub record PasswordFileHeader : Type 0 where
  pub serialized : List ℕ
  pub salt : List ℕ
  pub nonce_prefix : List ℕ
  pub scrypt_n : ℕ
  pub scrypt_r : ℕ
  pub scrypt_p : ℕ

pub record RecordHeader : Type 0 where
  pub serialized : List ℕ
  pub index : ℕ
  pub plaintext_size : ℕ
  pub final_flag : ℕ

abbrev pub bad_packet : Error
bad_packet = error invalid_packet "Invalid file sealing packet"

-- The four bytes that `store_u32_be` writes.
unfoldable pub u32_be : ℕ → List ℕ
u32_be value =
    bit_and (value / 2 ^ 24) 0xff
    ∷ bit_and (value / 2 ^ 16) 0xff
    ∷ bit_and (value / 2 ^ 8) 0xff
    ∷ bit_and value 0xff
    ∷ []

-- `store_u32_be(output + i, value)`
abbrev pub store_u32_be : ℕ → ℕ → List ℕ → List ℕ
store_u32_be i value output = copy_at i (u32_be value) output

-- The span has four bytes by its type.
unfoldable pub read_u32_be : List ℕ → ℕ
read_u32_be (i0 ∷ i1 ∷ i2 ∷ i3 ∷ []) =
    bit_or (bit_or (bit_or (shl i0 24) (shl i1 16)) (shl i2 8)) i3
read_u32_be _ = 0

-- `data.subspan<i, n>()`
abbrev pub subspan : ℕ → ℕ → List ℕ → List ℕ
subspan i n input = take n (drop i input)

-- An array of `n` bytes with the random bytes copied in.
abbrev pub filled : ℕ → List ℕ → List ℕ
filled n source = copy_at 0 source (replicate n 0)

-- `make_header` once the salt and the nonce prefix are drawn.
unfoldable pub header_of : List ℕ → List ℕ → FileHeader
header_of salt nonce_prefix =
    let start = copy_at 0 magic (replicate header_size 0) in
    let ids = copy_at 5 (algorithm ∷ []) (copy_at 4 (version ∷ []) start) in
    let sized = store_u32_be 6 chunk_size ids in
    let own_salt = filled salt_size salt in
    let own_prefix = filled nonce_prefix_size nonce_prefix in
    record {
      serialized = copy_at 42 own_prefix (copy_at 10 own_salt sized);
      salt = own_salt;
      nonce_prefix = own_prefix;
    }

-- `data` has `header_size` bytes by its type.
unfoldable pub parse_header : List ℕ → Result FileHeader
parse_header input = do
  throw_if
      (not (bytes_eq magic (take 4 input))
        || not (get_or input 4 0 == version)
        || not (get_or input 5 0 == algorithm))
      bad_packet
  throw_if (not (read_u32_be (subspan 6 4 input) == chunk_size)) bad_packet
  ok (record { serialized = input; salt = subspan 10 32 input; nonce_prefix = drop 42 input })

-- `make_password_header` once the salt and the nonce prefix are drawn.
unfoldable pub password_header_of : List ℕ → List ℕ → PasswordFileHeader
password_header_of salt nonce_prefix =
    let start = copy_at 0 password_magic (replicate password_header_size 0) in
    let cipher = copy_at 5 (password_cipher ∷ []) (copy_at 4 (version ∷ []) start) in
    let ids = copy_at 7 (password_flags ∷ []) (copy_at 6 (password_kdf ∷ []) cipher) in
    let sized = store_u32_be 8 chunk_size ids in
    let own_salt = filled salt_size salt in
    let own_prefix = filled nonce_prefix_size nonce_prefix in
    let drawn = copy_at 44 own_prefix (copy_at 12 own_salt sized) in
    record {
      serialized =
          store_u32_be 60 default_scrypt_p
            (store_u32_be 56 default_scrypt_r (store_u32_be 52 default_scrypt_n drawn));
      salt = own_salt;
      nonce_prefix = own_prefix;
      scrypt_n = default_scrypt_n;
      scrypt_r = default_scrypt_r;
      scrypt_p = default_scrypt_p;
    }

unfoldable pub parse_password_header : List ℕ → Result PasswordFileHeader
parse_password_header input = do
  throw_if
      (not (bytes_eq password_magic (take 4 input))
        || not (get_or input 4 0 == version)
        || not (get_or input 5 0 == password_cipher)
        || not (get_or input 6 0 == password_kdf)
        || not (get_or input 7 0 == password_flags))
      bad_packet
  throw_if (not (read_u32_be (subspan 8 4 input) == chunk_size)) bad_packet
  let n = read_u32_be (subspan 52 4 input)
  let r = read_u32_be (subspan 56 4 input)
  let p = read_u32_be (subspan 60 4 input)
  throw_if
      (not (n == default_scrypt_n) || not (r == default_scrypt_r) || not (p == default_scrypt_p))
      bad_packet
  ok (record {
    serialized = input;
    salt = subspan 12 32 input;
    nonce_prefix = subspan 44 8 input;
    scrypt_n = n;
    scrypt_r = r;
    scrypt_p = p;
  })

unfoldable pub make_nonce : List ℕ → ℕ → List ℕ
make_nonce nonce_prefix chunk_index =
    store_u32_be nonce_prefix_size chunk_index (filled nonce_size nonce_prefix)

unfoldable pub make_record_header : ℕ → ℕ → ℕ → RecordHeader
make_record_header index plaintext_size final_flag =
    let start = store_u32_be 0 index (replicate record_header_size 0) in
    record {
      serialized = copy_at 8 (final_flag ∷ []) (store_u32_be 4 plaintext_size start);
      index = index;
      plaintext_size = plaintext_size;
      final_flag = final_flag;
    }

unfoldable pub parse_record_header : List ℕ → Result RecordHeader
parse_record_header input = do
  let index = read_u32_be (subspan 0 4 input)
  let plaintext_size = read_u32_be (subspan 4 4 input)
  let final_flag = get_or input 8 0
  throw_if (not (final_flag == not_final) && not (final_flag == final)) bad_packet
  throw_if (ltb chunk_size plaintext_size) bad_packet
  ok (record {
    serialized = input;
    index = index;
    plaintext_size = plaintext_size;
    final_flag = final_flag;
  })

unfoldable pub make_chunk_aad : List ℕ → RecordHeader → List ℕ → List ℕ
make_chunk_aad serialized_header record_header caller_aad =
    (serialized_header ++ record_header.serialized) ++ caller_aad
