-- ===== src/Evp.antt =====
-- OpenSSL's EVP cipher interface as the library calls it. OpenSSL is not part of the repository:
-- its calls are a parameter, and what is relied on of AES-256-GCM is a record of laws.
use securekit.Prelude.{
  ℕ, ◌+◌, ◌-◌, ◌^◌, ◌≤◌, ◌≡◌, Bool, true, Option, some, List, [], ◌++◌, length, bytes_eq,
}

-- A call takes the context and answers whether it returned 1, the bytes that it wrote to the
-- caller's buffer where it has one, and the context after the call, also after a failure.
pub record Evp : Type 1 where
  pub Ctx : Type 0
  -- `EVP_CIPHER_CTX_new`; a null pointer is `none`
  pub ctx_new : Option Ctx
  -- whether `EVP_aes_256_gcm()` is not null
  pub has_aes_256_gcm : Bool
  -- `EVP_EncryptInit_ex(ctx, EVP_aes_256_gcm(), nullptr, nullptr, nullptr)`
  pub encrypt_init_cipher : Ctx → Bool × Ctx
  -- `EVP_EncryptInit_ex(ctx, nullptr, nullptr, key, nonce)`
  pub encrypt_init_key : List ℕ → List ℕ → Ctx → Bool × Ctx
  pub decrypt_init_cipher : Ctx → Bool × Ctx
  pub decrypt_init_key : List ℕ → List ℕ → Ctx → Bool × Ctx
  -- `EVP_CIPHER_CTX_ctrl` with `EVP_CTRL_GCM_SET_IVLEN`
  pub set_ivlen : ℕ → Ctx → Bool × Ctx
  -- `EVP_CipherUpdate` with no output buffer
  pub aad_update : List ℕ → Ctx → Bool × Ctx
  pub encrypt_update : List ℕ → Ctx → Bool × List ℕ × Ctx
  pub encrypt_final : Ctx → Bool × List ℕ × Ctx
  -- `EVP_CIPHER_CTX_ctrl` with `EVP_CTRL_GCM_GET_TAG` and a buffer of that size
  pub get_tag : ℕ → Ctx → Bool × List ℕ × Ctx
  pub decrypt_update : List ℕ → Ctx → Bool × List ℕ × Ctx
  -- `EVP_CIPHER_CTX_ctrl` with `EVP_CTRL_GCM_SET_TAG`
  pub set_tag : List ℕ → Ctx → Bool × Ctx
  pub decrypt_final : Ctx → Bool × List ℕ × Ctx

-- The limits that GCM sets on the text and on the authenticated data of one key and nonce.
abbrev pub max_text : ℕ
max_text = 2 ^ 36 - 32

abbrev pub max_aad : ℕ
max_aad = 2 ^ 61 - 1

-- A cipher context through one message, when no call fails. `Encrypting key nonce aad text c` says
-- that `c` was initialised with the key and the nonce, has taken in `aad`, and has put out `text`;
-- `Decrypting` says the same of a context that has taken `text` in.
pub record Gcm (evp : Evp) : Type 1 where
  -- the key stream at an offset, added to a text
  pub crypt : List ℕ → List ℕ → ℕ → List ℕ → List ℕ
  pub auth_tag : List ℕ → List ℕ → List ℕ → List ℕ → List ℕ
  pub length-crypt : (k n : List ℕ) (i : ℕ) (p : List ℕ) → length (crypt k n i p) ≡ length p
  pub crypt_involutive : (k n : List ℕ) (i : ℕ) (p : List ℕ) → crypt k n i (crypt k n i p) ≡ p
  pub crypt-append :
      (k n : List ℕ) (i : ℕ) (p q : List ℕ)
      → crypt k n i (p ++ q) ≡ crypt k n i p ++ crypt k n (i + length p) q
  pub length-auth_tag : (k n a t : List ℕ) → length (auth_tag k n a t) ≡ 16
  pub Encrypting : List ℕ → List ℕ → List ℕ → List ℕ → evp.Ctx → Type 0
  pub Decrypting : List ℕ → List ℕ → List ℕ → List ℕ → evp.Ctx → Type 0
  pub has_cipher : evp.has_aes_256_gcm ≡ true
  pub new_context : (c : evp.Ctx) × (evp.ctx_new ≡ some c)
  pub encrypt_start :
      (k n : List ℕ) (c : evp.Ctx)
      → evp.ctx_new ≡ some c
      → length k ≡ 32
      → length n ≡ 12
      → (c1 c2 c3 : evp.Ctx) × (evp.encrypt_init_cipher c ≡ (true, c1))
        × (evp.set_ivlen 12 c1 ≡ (true, c2))
        × (evp.encrypt_init_key k n c2 ≡ (true, c3))
        × Encrypting k n [] [] c3
  pub decrypt_start :
      (k n : List ℕ) (c : evp.Ctx)
      → evp.ctx_new ≡ some c
      → length k ≡ 32
      → length n ≡ 12
      → (c1 c2 c3 : evp.Ctx) × (evp.decrypt_init_cipher c ≡ (true, c1))
        × (evp.set_ivlen 12 c1 ≡ (true, c2))
        × (evp.decrypt_init_key k n c2 ≡ (true, c3))
        × Decrypting k n [] [] c3
  pub encrypt_aad :
      (k n a x : List ℕ) (c : evp.Ctx)
      → Encrypting k n a [] c
      → length a + length x ≤ max_aad
      → (c' : evp.Ctx) × (evp.aad_update x c ≡ (true, c')) × Encrypting k n (a ++ x) [] c'
  pub decrypt_aad :
      (k n a x : List ℕ) (c : evp.Ctx)
      → Decrypting k n a [] c
      → length a + length x ≤ max_aad
      → (c' : evp.Ctx) × (evp.aad_update x c ≡ (true, c')) × Decrypting k n (a ++ x) [] c'
  pub encrypt_text :
      (k n a t p : List ℕ) (c : evp.Ctx)
      → Encrypting k n a t c
      → length t + length p ≤ max_text
      → (c' : evp.Ctx) × (evp.encrypt_update p c ≡ (true, crypt k n (length t) p, c'))
        × Encrypting k n a (t ++ crypt k n (length t) p) c'
  pub decrypt_text :
      (k n a t p : List ℕ) (c : evp.Ctx)
      → Decrypting k n a t c
      → length t + length p ≤ max_text
      → (c' : evp.Ctx) × (evp.decrypt_update p c ≡ (true, crypt k n (length t) p, c'))
        × Decrypting k n a (t ++ p) c'
  pub encrypt_end :
      (k n a t : List ℕ) (c : evp.Ctx)
      → Encrypting k n a t c
      → (c1 c2 : evp.Ctx) × (evp.encrypt_final c ≡ (true, [], c1))
        × (evp.get_tag 16 c1 ≡ (true, auth_tag k n a t, c2))
  -- the final call succeeds exactly when the tag that was set is the message's
  pub decrypt_end :
      (k n a t g : List ℕ) (c : evp.Ctx)
      → Decrypting k n a t c
      → length g ≡ 16
      → (c1 c2 : evp.Ctx) × (evp.set_tag g c ≡ (true, c1))
        × (evp.decrypt_final c1 ≡ (bytes_eq g (auth_tag k n a t), [], c2))
