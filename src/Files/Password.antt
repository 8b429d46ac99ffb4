-- ===== src/Files/Password.antt =====
-- Files sealed and opened with a password, on healthy streams and a backend that does not fail.
use securekit.Prelude.{
  ℕ, ◌+◌, ◌*◌, ◌^◌, ◌<◌, ◌≤◌, ◌≡◌, ap, ◌∙◌, some, List, ◌++◌, length, length-append, arith, int_max,
}
use securekit.Errors.{Result, ok}
use securekit.Evp.{Evp, Gcm}
use securekit.Hash.{Hashing}
use securekit.Random.{Generator, random_bytes}
use securekit.FileFormat.{
  PasswordFileHeader, password_header_size, salt_size, nonce_prefix_size, chunk_size,
  password_header_of,
}
use securekit.FileFormat.PasswordHeaders.{
  password_header_of_lem, scrypt_fixed, parse_password_header-password_header_of,
}
use securekit.FileCrypto.{
  make_password_header, require_non_empty_password, derive_password_file_key, scrypt_max_memory,
}
use securekit.IoStream.{IStream, Sink}
use securekit.IoStream.Laws.{clean}
use securekit.IoStream.Sinks.{IsSink}
use securekit.FileStream.{seal_stream_payload, open_file_payload}
use securekit.FileStream.Format.{payload}
use securekit.FileStream.Records.{require_exact-append}
use securekit.FileStream.Seal.{seal_stream_payload_lem}
use securekit.FileStream.Open.{open_file_payload-payload}
use securekit.Files.{seal_file_with_password, open_file_with_password, on_io}

length-password_header_of :
    (salt prefix : List ℕ)
    → length salt ≡ salt_size
    → length prefix ≡ nonce_prefix_size
    → length (password_header_of salt prefix).serialized ≡ password_header_size
length-password_header_of salt prefix hs hp =
    rw (password_header_of_lem salt prefix hs hp) (
      omega (arith, hs, hp, length-append salt prefix, length-append (salt ++ prefix) scrypt_fixed))

module _ (evp : Evp) (gcm : Gcm evp) (sink : Sink) (law : IsSink sink) (hashing : Hashing)
    (password file_key salt prefix aad : List ℕ) (present : 0 < length password)
    (hs : length salt ≡ salt_size) (hp : length prefix ≡ nonce_prefix_size)
    (derived : hashing.scrypt password salt 32768 8 1 scrypt_max_memory 32 ≡ some file_key)
    (key_fits : length file_key ≡ 32)
    (aad_fits : password_header_size + 9 + length aad ≤ int_max) where
  open law use {written, Accepting}

  abbrev header : PasswordFileHeader
  header = password_header_of salt prefix

  require_non_empty_password_lem : require_non_empty_password password ≡ ok tt
  unfolding require_non_empty_password
  require_non_empty_password_lem = ground arith

  derive_password_file_key_lem : derive_password_file_key hashing password header ≡ ok file_key
  unfolding derive_password_file_key
  derive_password_file_key_lem =
      rw (password_header_of_lem salt prefix hs hp)
        (ground (arith, require_non_empty_password_lem, derived))

  header_fits : length header.serialized + 9 + length aad ≤ int_max
  header_fits = omega (arith, length-password_header_of salt prefix hs hp)

  prefix_same : header.nonce_prefix ≡ prefix
  prefix_same =
      ap (λ (t : PasswordFileHeader). t.nonce_prefix) (password_header_of_lem salt prefix hs hp)

  open_file_with_password-header_of :
      (t : List ℕ) (o : sink.Out)
      → open_file_with_password evp sink hashing password aad (clean (header.serialized ++ t), o)
        ≡ open_file_payload evp sink header.serialized prefix file_key aad (clean t, o)
  unfolding open_file_with_password
  open_file_with_password-header_of t o =
      rw
        (
          require_non_empty_password_lem,
          require_exact-append password_header_size header.serialized t
              (length-password_header_of salt prefix hs hp),
          parse_password_header-password_header_of salt prefix hs hp,
          derive_password_file_key_lem,
        )
        (ap (λ n. open_file_payload evp sink header.serialized n file_key aad (clean t, o))
          prefix_same)

  -- For a password that is not empty, a key of 32 bytes that scrypt derives from it and the salt
  -- with N = 32768, r = 8 and p = 1, a plaintext of at most 2^32 MiB, associated data of at most
  -- INT_MAX - 73 bytes, a salt and a nonce prefix of 32 and 8 bytes that are drawn, on a backend
  -- that meets the laws of AES-256-GCM, healthy streams and outputs that take the bytes,
  -- `seal_file_with_password` succeeds, and `open_file_with_password` on what it wrote succeeds
  -- and writes the plaintext.
  pub open_file_with_password-seal_file_with_password :
      (gen : Generator) (p : List ℕ) (o o2 : sink.Out) (s s1 s2 : gen.Source)
      → random_bytes gen salt_size s ≡ (ok salt, s1)
      → random_bytes gen nonce_prefix_size s1 ≡ (ok prefix, s2)
      → length p ≤ chunk_size * 2 ^ 32
      → Accepting o
      → Accepting o2
      → (sealed : List ℕ) × (input' : IStream) × (o' : sink.Out) × (s' : IStream × sink.Out)
        × (seal_file_with_password evp sink hashing gen password aad (s, (clean p, o))
            ≡ (ok tt, (s2, (input', o'))))
        × (written o' ≡ written o ++ sealed)
        × (open_file_with_password evp sink hashing password aad (clean sealed, o2) ≡ (ok tt, s'))
        × (written s'.1 ≡ written o2 ++ p)
  unfolding seal_file_with_password make_password_header
  open_file_with_password-seal_file_with_password gen p o o2 s s1 s2 e1 e2 fits ready ready2 =
      let (cs, last, input', o', parts, chunked, tail, e, w) =
        seal_stream_payload_lem evp gcm sink law header.serialized prefix file_key aad hp key_fits
          header_fits p o fits ready in
      let (s', opened, w') =
        open_file_payload-payload evp gcm sink law header.serialized prefix file_key aad hp key_fits
          header_fits cs last o2 chunked ready2 in
      (
        header.serialized ++ payload evp gcm header.serialized prefix file_key aad 0 cs last,
        input',
        o',
        s',
        rw (require_non_empty_password_lem, e1, e2, derive_password_file_key_lem)
            (ap
                (λ n.
                  on_io evp sink hashing gen
                    (seal_stream_payload evp sink header.serialized n file_key aad)
                    (s2, (clean p, o)))
                prefix_same
              ∙ ap (λ (t : Result (Unit {0}) × (IStream × sink.Out)). (t.0, (s2, t.1))) e),
        w,
        open_file_with_password-header_of _ o2 ∙ opened,
        w' ∙ ap (λ b. written o2 ++ b) parts,
      )
