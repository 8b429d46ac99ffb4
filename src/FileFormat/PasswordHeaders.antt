-- ===== src/FileFormat/PasswordHeaders.antt =====
-- The layout of the SKP1 header, and its parser against its writer.
use securekit.Prelude.{
  copy_at_behind, ℕ, drop-drop, ◌≡◌, ap, ◌∙◌, List, [], ◌∷◌, ◌++◌, length, length-append, arith,
  take, drop, take-append, drop-append, replicate, copy_at, copy_at_all, copy_at-append,
  copy_at_skip, append_assoc, bytes_eq,
}
use securekit.Errors.{ok}
use securekit.FileFormat.{
  salt_size, nonce_prefix_size, u32_be, read_u32_be, PasswordFileHeader, password_header_of,
  parse_password_header,
}

-- SKP1, version, cipher, KDF, flags and chunk size.
abbrev pub skp1_fixed : List ℕ
skp1_fixed = b'S' ∷ b'K' ∷ b'P' ∷ b'1' ∷ 1 ∷ 1 ∷ 1 ∷ 0 ∷ 0 ∷ 16 ∷ 0 ∷ 0 ∷ []

-- N, r and p of scrypt.
abbrev pub scrypt_fixed : List ℕ
scrypt_fixed = 0 ∷ 0 ∷ 128 ∷ 0 ∷ 0 ∷ 0 ∷ 0 ∷ 8 ∷ 0 ∷ 0 ∷ 0 ∷ 1 ∷ []

drawn_parts :
    (salt prefix : List ℕ)
    → length salt ≡ 32
    → length prefix ≡ 8
    → copy_at 32 prefix (copy_at 0 salt (replicate 52 0)) ≡ salt ++ (prefix ++ replicate 12 0)
drawn_parts salt prefix hs hp =
    rw
      (
        copy_at-append salt (replicate 32 0) (replicate 20 0) hs,
        copy_at_skip 32 prefix salt (replicate 20 0) hs,
      )
      (ap (λ t. salt ++ t) (copy_at-append prefix (replicate 8 0) (replicate 12 0) hp))

-- The three words written behind the salt and the prefix.
tail_words :
    (front : List ℕ)
    → length front ≡ 40
    → copy_at 48 (0 ∷ 0 ∷ 0 ∷ 1 ∷ []) (
        copy_at 44
          (0 ∷ 0 ∷ 0 ∷ 8 ∷ [])
          (copy_at 40 (0 ∷ 0 ∷ 128 ∷ 0 ∷ []) (front ++ replicate 12 0)))
      ≡ front ++ scrypt_fixed
tail_words front h = rw (
  copy_at_behind 40 0 (0 ∷ 0 ∷ 128 ∷ 0 ∷ []) front (replicate 12 0) (omega arith),
  copy_at_behind 44 4 (0 ∷ 0 ∷ 0 ∷ 8 ∷ []) front _ (omega arith),
  copy_at_behind 48 8 (0 ∷ 0 ∷ 0 ∷ 1 ∷ []) front _ (omega arith),
)

whole_tail :
    (salt prefix : List ℕ)
    → length salt ≡ 32
    → length prefix ≡ 8
    → copy_at 48 (0 ∷ 0 ∷ 0 ∷ 1 ∷ []) (
        copy_at 44
          (0 ∷ 0 ∷ 0 ∷ 8 ∷ [])
          (copy_at 40 (0 ∷ 0 ∷ 128 ∷ 0 ∷ []) (copy_at 32 prefix (copy_at 0 salt (replicate 52 0)))))
      ≡ (salt ++ prefix) ++ scrypt_fixed
whole_tail salt prefix hs hp =
    rw (drawn_parts salt prefix hs hp, ← append_assoc salt prefix (replicate 12 0))
      (tail_words (salt ++ prefix) (omega (arith, length-append salt prefix)))

abbrev pub skp1_header : List ℕ → List ℕ → PasswordFileHeader
skp1_header salt prefix = record {
  serialized = skp1_fixed ++ ((salt ++ prefix) ++ scrypt_fixed);
  salt = salt;
  nonce_prefix = prefix;
  scrypt_n = 32768;
  scrypt_r = 8;
  scrypt_p = 1;
}

pub password_header_of_lem :
    (salt prefix : List ℕ)
    → length salt ≡ salt_size
    → length prefix ≡ nonce_prefix_size
    → password_header_of salt prefix ≡ skp1_header salt prefix
unfolding password_header_of u32_be
password_header_of_lem salt prefix hs hp =
    rw (copy_at_all salt (replicate 32 0) hs, copy_at_all prefix (replicate 8 0) hp)
      (ap (λ (t : List ℕ). record skp1 { serialized = skp1_fixed ++ t })
        (whole_tail salt prefix hs hp))
  where
    skp1 : PasswordFileHeader
    skp1 = skp1_header salt prefix

-- What follows the fixed part decides the fields; the scrypt words must be the fixed ones.
parse_fixed :
    (rest : List ℕ)
    → take 4 (drop 40 rest) ≡ 0 ∷ 0 ∷ 128 ∷ 0 ∷ []
    → take 4 (drop 44 rest) ≡ 0 ∷ 0 ∷ 0 ∷ 8 ∷ []
    → take 4 (drop 48 rest) ≡ 0 ∷ 0 ∷ 0 ∷ 1 ∷ []
    → parse_password_header (skp1_fixed ++ rest)
      ≡ ok (record {
        serialized = skp1_fixed ++ rest;
        salt = take 32 rest;
        nonce_prefix = take 8 (drop 32 rest);
        scrypt_n = 32768;
        scrypt_r = 8;
        scrypt_p = 1;
      })
unfolding parse_password_header bytes_eq read_u32_be
parse_fixed rest hn hr hp = rw (hn, hr, hp)

-- For a 32-byte salt and an 8-byte nonce prefix, `parse_password_header` reads back the header
-- that `make_password_header` wrote.
pub parse_password_header-password_header_of :
    (salt prefix : List ℕ)
    → length salt ≡ salt_size
    → length prefix ≡ nonce_prefix_size
    → parse_password_header (password_header_of salt prefix).serialized
      ≡ ok (password_header_of salt prefix)
parse_password_header-password_header_of salt prefix hs hp =
    let front = salt ++ prefix in
    let size : length front ≡ 40 = omega (arith, length-append salt prefix) in
    let rest = front ++ scrypt_fixed in
    let tail : drop 40 rest ≡ scrypt_fixed = drop-append 40 front scrypt_fixed size in
    let own_salt : take 32 rest ≡ salt =
      rw (append_assoc salt prefix scrypt_fixed)
        (take-append 32 salt (prefix ++ scrypt_fixed) hs) in
    let own_prefix : take 8 (drop 32 rest) ≡ prefix =
      rw (append_assoc salt prefix scrypt_fixed, drop-append 32 salt (prefix ++ scrypt_fixed) hs)
        (take-append 8 prefix scrypt_fixed hp) in
    let parsed =
      parse_fixed rest (ap (take 4) tail) (ap (take 4) (drop-drop 4 40 rest ∙ ap (drop 4) tail))
        (ap (take 4) (drop-drop 8 40 rest ∙ ap (drop 8) tail)) in
    rw (password_header_of_lem salt prefix hs hp) (
      parsed
      ∙ ap
          (λ (t : List ℕ × List ℕ).
            ok (record (skp1_header salt prefix) { salt = t.0; nonce_prefix = t.1 }))
          (λ i. (own_salt i, own_prefix i)))
