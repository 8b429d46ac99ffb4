-- ===== src/Aead/Context.antt =====
-- src/aead_internal.hpp: the calls that set a cipher context up, for SKT1 packets.
use securekit.Prelude.{ℕ, String, Bool, true, false, ◌&&◌, none, some, List, ◌==◌, if◌then◌else◌}
use securekit.Errors.{Result, ok, err}
use securekit.Exec.{Exec, lift, ◌>>=◌}
use securekit.Evp.{Evp}
use securekit.Aead.{nonce_size, gcm_failed, update_size}

module _ (evp : Evp) where
  open evp use {
    Ctx, ctx_new, has_aes_256_gcm, encrypt_init_cipher, encrypt_init_key, decrypt_init_cipher,
    decrypt_init_key, set_ivlen, aad_update,
  }

  unfoldable pub make_context : Result Ctx
  make_context = elim ctx_new [
    | none ↦ err gcm_failed
    | some context ↦ if has_aes_256_gcm then ok context else err gcm_failed
  ]

  -- All three calls are made, and the answers joined.
  unfoldable pub initialize_encrypt_context : List ℕ → List ℕ → Ctx → Bool × Ctx
  initialize_encrypt_context key nonce context =
      let (cipher_initialized, c1) = encrypt_init_cipher context in
      let (nonce_size_set, c2) = set_ivlen nonce_size c1 in
      let (key_and_nonce_initialized, c3) = encrypt_init_key key nonce c2 in
      (cipher_initialized && nonce_size_set && key_and_nonce_initialized, c3)

  unfoldable pub initialize_decrypt_context : List ℕ → List ℕ → Ctx → Bool × Ctx
  initialize_decrypt_context key nonce context =
      let (cipher_initialized, c1) = decrypt_init_cipher context in
      let (nonce_size_set, c2) = set_ivlen nonce_size c1 in
      let (key_and_nonce_initialized, c3) = decrypt_init_key key nonce c2 in
      (cipher_initialized && nonce_size_set && key_and_nonce_initialized, c3)

  abbrev checked : {A : Type 0} → Bool × Ctx → A → Result A × Ctx
  checked (true, c) a = (ok a, c)
  checked (false, c) a = (err gcm_failed, c)

  add_aad : ℕ → List ℕ → Exec Ctx (Unit {0})
  add_aad aad_size aad context =
      if aad_size == 0 then (ok tt, context) else checked (aad_update aad context) tt

  unfoldable pub update_aad : List ℕ → String → Exec Ctx (Unit {0})
  unfolding add_aad update_size
  update_aad aad name = do aad_size ← lift (update_size aad name); add_aad aad_size aad
