-- ===== src/FileCrypto.antt =====
-- src/file_crypto.cpp, from line 41: the keys of a file and the encryption of its chunks.
pub mod Chunks
use securekit.Prelude.{
  ℕ, ◌+◌, ◌*◌, String, Bool, true, false, not, Option, none, some, List, [], ◌∷◌, ◌++◌, length, ltb,
  ◌==◌, codes, take, if◌then◌else◌, int_max,
}
use securekit.Errors.{
  Error, error, Result, ok, err, backend_failure, invalid_input, authentication_failed, throw_if,
}
use securekit.Exec.{Exec, pure, lift, raise_if, ◌>>=◌, ◌>>◌}
use securekit.Evp.{Evp}
use securekit.Aead.{gcm_failed, too_large}
use securekit.Hash.{Hashing, hkdf_sha256}
use securekit.Random.{Generator, random_bytes}
use securekit.FileFormat.{
  FileHeader, PasswordFileHeader, header_of, password_header_of, salt_size, nonce_prefix_size,
  tag_size, filled,
}

abbrev pub not_authentic : Error
not_authentic = error authentication_failed "File authentication failed"

abbrev pub scrypt_max_memory : ℕ
scrypt_max_memory = 64 * 1024 * 1024

pub record EncryptedChunk : Type 0 where
  pub ciphertext : List ℕ
  pub tag : List ℕ

-- `int_size(input.size(), name)`
unfoldable pub int_size : List ℕ → String → Result ℕ
int_size input name = if ltb int_max (length input) then err (too_large name) else ok (length input)

module _ (gen : Generator) where
  open gen use {Source}

  unfoldable pub make_header : Exec Source FileHeader
  make_header = do
    salt ← random_bytes gen salt_size
    nonce_prefix ← random_bytes gen nonce_prefix_size
    pure (header_of salt nonce_prefix)

  unfoldable pub make_password_header : Exec Source PasswordFileHeader
  make_password_header = do
    salt ← random_bytes gen salt_size
    nonce_prefix ← random_bytes gen nonce_prefix_size
    pure (password_header_of salt nonce_prefix)

unfoldable pub require_non_empty_password : List ℕ → Result (Unit {0})
require_non_empty_password password =
    throw_if (length password == 0) (error invalid_input "password must not be empty")

module _ (hashing : Hashing) where
  open hashing use {scrypt}

  -- `bytes_from_literal` is `codes`. The key is filled from the derived bytes.
  unfoldable pub derive_file_key : List ℕ → FileHeader → Result (List ℕ)
  derive_file_key master_key header =
      elim (hkdf_sha256 hashing master_key header.salt (codes "securekit file sealing v1") 32) [
        | err e ↦ err e
        | ok okm ↦ ok (take 32 okm)
      ]

  abbrev key_or_throw : Option (List ℕ) → Result (List ℕ)
  key_or_throw none = err (error backend_failure "OpenSSL scrypt operation failed")
  key_or_throw (some file_key) = ok file_key

  unfoldable pub derive_password_file_key : List ℕ → PasswordFileHeader → Result (List ℕ)
  derive_password_file_key password header = elim (require_non_empty_password password) [
    | err e ↦ err e
    | ok _ ↦ key_or_throw (
        scrypt password header.salt header.scrypt_n header.scrypt_r header.scrypt_p
          scrypt_max_memory 32)
  ]

module _ (evp : Evp) where
  open evp use {
    Ctx, ctx_new, has_aes_256_gcm, encrypt_init_cipher, encrypt_init_key, decrypt_init_cipher,
    decrypt_init_key, set_ivlen, aad_update, encrypt_update, encrypt_final, get_tag, decrypt_update,
    set_tag, decrypt_final,
  }

  unfoldable pub make_context : Result Ctx
  make_context = elim ctx_new [
    | none ↦ err gcm_failed
    | some context ↦ if has_aes_256_gcm then ok context else err gcm_failed
  ]

  -- A call that must return 1, and one that writes to a buffer too.
  abbrev pub require : Error → Bool × Ctx → Result (Unit {0}) × Ctx
  require e (true, c) = (ok tt, c)
  require e (false, c) = (err e, c)

  abbrev pub require_bytes : Error → Bool × List ℕ × Ctx → Result (List ℕ) × Ctx
  require_bytes e (true, out, c) = (ok out, c)
  require_bytes e (false, out, c) = (err e, c)

  unfoldable pub update_aad : List ℕ → Exec Ctx (Unit {0})
  unfolding int_size
  update_aad aad = do
    aad_size ← lift (int_size aad "AAD")
    λ c. if aad_size == 0 then (ok tt, c) else require gcm_failed (aad_update aad c)

  -- The calls that `&&` joins: the first that fails is the last that is made.
  unfoldable pub initialize_encrypt : List ℕ → List ℕ → Exec Ctx (Unit {0})
  initialize_encrypt file_key nonce = do
    λ c. require gcm_failed (encrypt_init_cipher c)
    λ c. require gcm_failed (set_ivlen (length nonce) c)
    λ c. require gcm_failed (encrypt_init_key file_key nonce c)

  unfoldable pub initialize_decrypt : List ℕ → List ℕ → Exec Ctx (Unit {0})
  initialize_decrypt file_key nonce = do
    λ c. require gcm_failed (decrypt_init_cipher c)
    λ c. require gcm_failed (set_ivlen (length nonce) c)
    λ c. require gcm_failed (decrypt_init_key file_key nonce c)

  unfoldable pub encrypt_text : ℕ → List ℕ → Exec Ctx (List ℕ)
  encrypt_text plaintext_size plaintext c =
      if plaintext_size == 0
      then (ok [], c)
      else require_bytes gcm_failed (encrypt_update plaintext c)

  -- `encrypt_chunk` once it has a context.
  unfoldable pub encrypt_in_context :
      ℕ → List ℕ → List ℕ → List ℕ → List ℕ → Exec Ctx EncryptedChunk
  encrypt_in_context plaintext_size plaintext file_key nonce aad = do
    initialize_encrypt file_key nonce
    update_aad aad
    ciphertext ← encrypt_text plaintext_size plaintext
    final_output ← λ c. require_bytes gcm_failed (encrypt_final c)
    raise_if (not (length ciphertext + length final_output == plaintext_size)) gcm_failed
    tag ← λ c. require_bytes gcm_failed (get_tag tag_size c)
    pure (record { ciphertext = ciphertext ++ final_output; tag = tag })

  unfoldable pub encrypt_chunk : List ℕ → List ℕ → List ℕ → List ℕ → Result EncryptedChunk
  encrypt_chunk plaintext file_key nonce aad = elim (int_size plaintext "plaintext") [
    | err e ↦ err e
    | ok plaintext_size ↦ elim make_context [
      | err e ↦ err e
      | ok context ↦ (encrypt_in_context plaintext_size plaintext file_key nonce aad context).0
    ]
  ]

  unfoldable pub decrypt_text : ℕ → List ℕ → Exec Ctx (List ℕ)
  decrypt_text ciphertext_size ciphertext c =
      if ciphertext_size == 0
      then (ok [], c)
      else require_bytes gcm_failed (decrypt_update ciphertext c)

  unfoldable pub decrypt_in_context :
      ℕ → List ℕ → List ℕ → List ℕ → List ℕ → List ℕ → Exec Ctx (List ℕ)
  decrypt_in_context ciphertext_size ciphertext tag file_key nonce aad = do
    initialize_decrypt file_key nonce
    update_aad aad
    plaintext ← decrypt_text ciphertext_size ciphertext
    λ c. require gcm_failed (set_tag (filled tag_size tag) c)
    final_output ← λ c. require_bytes not_authentic (decrypt_final c)
    raise_if (not (length plaintext + length final_output == ciphertext_size)) gcm_failed
    pure (plaintext ++ final_output)

  unfoldable pub decrypt_chunk : List ℕ → List ℕ → List ℕ → List ℕ → List ℕ → Result (List ℕ)
  decrypt_chunk ciphertext tag file_key nonce aad = elim (int_size ciphertext "ciphertext") [
    | err e ↦ err e
    | ok ciphertext_size ↦ elim make_context [
      | err e ↦ err e
      | ok context ↦
          (decrypt_in_context ciphertext_size ciphertext tag file_key nonce aad context).0
    ]
  ]
