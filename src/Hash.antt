-- ===== src/Hash.antt =====
-- src/hash.cpp: SHA-256, HKDF and HMAC. OpenSSL's digests and key derivations are a parameter.
pub mod Laws
use securekit.Prelude.{
  ℕ, String, Bool, true, false, not, Option, none, some, List, [], ◌∷◌, ◌++◌, length, ◌==◌,
  if◌then◌else◌,
}
use securekit.Errors.{Error, error, Result, ok, err, backend_failure, throw_if, ◌>>=◌, ◌>>◌}

-- An `OSSL_PARAM` that the library constructs: its name, and its string, number or octets.
pub data KdfParam : Type 0 where
  digest : String → KdfParam
  extract_and_expand : KdfParam
  key : List ℕ → KdfParam
  salt : List ℕ → KdfParam
  info : List ℕ → KdfParam

pub record Hashing : Type 1 where
  pub Ctx : Type 0
  -- `EVP_MD_CTX_new`; a null pointer is `none`
  pub md_ctx_new : Option Ctx
  -- whether `EVP_sha256()` is not null
  pub has_sha256 : Bool
  pub digest_init : Ctx → Bool × Ctx
  pub digest_update : List ℕ → Ctx → Bool × Ctx
  -- `EVP_DigestFinal_ex`: whether it returned 1, and the bytes that it wrote
  pub digest_final : Ctx → Bool × List ℕ
  -- whether `EVP_KDF_fetch` finds HKDF, and whether `EVP_KDF_CTX_new` returns a context
  pub has_hkdf : Bool
  pub has_kdf_ctx : Bool
  -- `EVP_KDF_derive`: the output of that size, `none` unless it returned 1
  pub kdf_derive : List KdfParam → ℕ → Option (List ℕ)
  -- `EVP_Q_mac` for HMAC with SHA-256 and a buffer of that size: the bytes that it wrote
  pub quick_hmac : List ℕ → List ℕ → ℕ → Option (List ℕ)
  -- `EVP_PBE_scrypt` on the password, the salt, N, r, p, the memory limit and the key's size
  pub scrypt : List ℕ → List ℕ → ℕ → ℕ → ℕ → ℕ → ℕ → Option (List ℕ)

abbrev pub digest_size : ℕ
digest_size = 32

abbrev pub sha256_failed : Error
sha256_failed = error backend_failure "OpenSSL SHA-256 operation failed"

abbrev pub hmac_failed : Error
hmac_failed = error backend_failure "OpenSSL HMAC-SHA-256 operation failed"

abbrev pub hkdf_failed : Error
hkdf_failed = error backend_failure "OpenSSL HKDF-SHA-256 operation failed"

-- `if (bytes.empty()) ... else params[param_count++] = ...`
abbrev pub unless_empty : List ℕ → KdfParam → List KdfParam
unless_empty [] param = []
unless_empty _ param = param ∷ []

unfoldable pub hkdf_params : List ℕ → List ℕ → List ℕ → List KdfParam
hkdf_params key_material salted infos =
    (digest "SHA256" ∷ extract_and_expand ∷ key key_material ∷ [])
    ++ (unless_empty salted (salt salted) ++ unless_empty infos (info infos))

module _ (hashing : Hashing) where
  open hashing use {
    Ctx, md_ctx_new, has_sha256, digest_init, digest_update, digest_final, has_hkdf, has_kdf_ctx,
    kdf_derive, quick_hmac,
  }

  abbrev final_digest : Bool × List ℕ → Result (List ℕ)
  final_digest (false, output) = err sha256_failed
  final_digest (true, output) =
      if length output == digest_size then ok output else err sha256_failed

  -- `input.empty() || EVP_DigestUpdate(...) == 1`
  abbrev take_in : List ℕ → Ctx → Bool × Ctx
  take_in [] context = (true, context)
  take_in input context = digest_update input context

  abbrev digest_with : List ℕ → Ctx → Result (List ℕ)
  digest_with input context =
      let (started, c1) = digest_init context in
      let (updated, c2) = take_in input c1 in
      if not started
      then err sha256_failed
      else if not updated
      then err sha256_failed
      else final_digest (digest_final c2)

  unfoldable pub sha256 : List ℕ → Result (List ℕ)
  sha256 input = elim md_ctx_new [
    | none ↦ err sha256_failed
    | some context ↦ if not has_sha256 then err sha256_failed else digest_with input context
  ]

  abbrev derived : Option (List ℕ) → Result (List ℕ)
  derived none = err hkdf_failed
  derived (some output) = ok output

  unfoldable pub hkdf_sha256 : List ℕ → List ℕ → List ℕ → ℕ → Result (List ℕ)
  hkdf_sha256 key_material salted infos output_size = if output_size == 0 then ok [] else (do
    throw_if (not has_hkdf) hkdf_failed
    throw_if (not has_kdf_ctx) hkdf_failed
    derived (kdf_derive (hkdf_params key_material salted infos) output_size))

  abbrev whole_mac : Option (List ℕ) → Result (List ℕ)
  whole_mac none = err hmac_failed
  whole_mac (some output) = if length output == digest_size then ok output else err hmac_failed

  unfoldable pub hmac_sha256 : List ℕ → List ℕ → Result (List ℕ)
  hmac_sha256 key_bytes input = whole_mac (quick_hmac key_bytes input digest_size)
