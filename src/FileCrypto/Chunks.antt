-- ===== src/FileCrypto/Chunks.antt =====
-- One chunk of a file, when no call of the backend fails.
use securekit.Prelude.{
  ℕ, ◌≤◌, ◌≡◌, refl, String, some, List, [], ◌∷◌, append-nil, length, bytes_eq, arith, int_max,
  if◌then◌else◌, copy_at_all, replicate,
}
use securekit.Errors.{ok, err}
use securekit.Evp.{Evp, Gcm}
use securekit.PacketStream.Contexts.{crypt_nil}
use securekit.FileFormat.{nonce_size, tag_size}
use securekit.FileCrypto.{
  EncryptedChunk, int_size, make_context, update_aad, initialize_encrypt, initialize_decrypt,
  encrypt_in_context, decrypt_in_context, encrypt_text, decrypt_text, encrypt_chunk, decrypt_chunk,
  not_authentic,
}

int_size_fits : (x : List ℕ) (name : String) → length x ≤ int_max → int_size x name ≡ ok (length x)
unfolding int_size
int_size_fits x name h = ground arith

module _ (evp : Evp) (gcm : Gcm evp) where
  open evp use {Ctx}
  open gcm use {crypt, auth_tag, Encrypting, Decrypting}

  make_context_lem : (c : Ctx) → evp.ctx_new ≡ some c → make_context evp ≡ ok c
  unfolding make_context
  make_context_lem c h = ground (arith, h, gcm.has_cipher)

  update_aad_encrypting :
      (k n x : List ℕ) (c : Ctx)
      → Encrypting k n [] [] c
      → length x ≤ int_max
      → (c' : Ctx) × (update_aad evp x c ≡ (ok tt, c')) × Encrypting k n x [] c'
  unfolding update_aad
  update_aad_encrypting k n [] c h small = (c, refl, h)
  update_aad_encrypting k n (y ∷ x) c h small =
      let (c', step, e) = gcm.encrypt_aad k n [] (y ∷ x) c h (omega (arith, small)) in
      (c', ground (arith, step, small), e)

  update_aad_decrypting :
      (k n x : List ℕ) (c : Ctx)
      → Decrypting k n [] [] c
      → length x ≤ int_max
      → (c' : Ctx) × (update_aad evp x c ≡ (ok tt, c')) × Decrypting k n x [] c'
  unfolding update_aad
  update_aad_decrypting k n [] c h small = (c, refl, h)
  update_aad_decrypting k n (y ∷ x) c h small =
      let (c', step, e) = gcm.decrypt_aad k n [] (y ∷ x) c h (omega (arith, small)) in
      (c', ground (arith, step, small), e)

  abbrev pub sealed : List ℕ → List ℕ → List ℕ → List ℕ → EncryptedChunk
  sealed k n a p = record { ciphertext = crypt k n 0 p; tag = auth_tag k n a (crypt k n 0 p) }

  encrypt_text_lem :
      (k n a p : List ℕ) (c : Ctx)
      → Encrypting k n a [] c
      → length p ≤ int_max
      → (c' : Ctx) × (encrypt_text evp (length p) p c ≡ (ok (crypt k n 0 p), c'))
        × Encrypting k n a (crypt k n 0 p) c'
  unfolding encrypt_text
  encrypt_text_lem k n a [] c h small =
      (c, rw (crypt_nil evp gcm k n 0), rw (crypt_nil evp gcm k n 0) h)
  encrypt_text_lem k n a (x ∷ p) c h small =
      let (c', step, e) = gcm.encrypt_text k n a [] (x ∷ p) c h (omega (arith, small)) in
      (c', ground (arith, step), e)

  decrypt_text_lem :
      (k n a p : List ℕ) (c : Ctx)
      → Decrypting k n a [] c
      → length p ≤ int_max
      → (c' : Ctx) × (decrypt_text evp (length p) p c ≡ (ok (crypt k n 0 p), c'))
        × Decrypting k n a p c'
  unfolding decrypt_text
  decrypt_text_lem k n a [] c h small = (c, rw (crypt_nil evp gcm k n 0), h)
  decrypt_text_lem k n a (x ∷ p) c h small =
      let (c', step, e) = gcm.decrypt_text k n a [] (x ∷ p) c h (omega (arith, small)) in
      (c', ground (arith, step), e)

  encrypt_in_context_lem :
      (k n a p : List ℕ) (c : Ctx)
      → evp.ctx_new ≡ some c
      → length k ≡ 32
      → length n ≡ nonce_size
      → length a ≤ int_max
      → length p ≤ int_max
      → (encrypt_in_context evp (length p) p k n a c).0 ≡ ok (sealed k n a p)
  unfolding encrypt_in_context initialize_encrypt
  encrypt_in_context_lem k n a p c new key_size size small fits =
      let (c1, c2, c3, e1, e2, e3, h3) = gcm.encrypt_start k n c new key_size size in
      let (c4, e4, h4) = update_aad_encrypting k n a c3 h3 small in
      let (c5, e5, h5) = encrypt_text_lem k n a p c4 h4 fits in
      let (c6, c7, e6, e7) = gcm.encrypt_end k n a _ c5 h5 in
      rw (e1, size, e2, e3, e4, e5, e6)
        (ground (arith, e7, gcm.length-crypt k n 0 p, append-nil (crypt k n 0 p)))

  pub encrypt_chunk_lem :
      (k n a p : List ℕ)
      → length k ≡ 32
      → length n ≡ nonce_size
      → length a ≤ int_max
      → length p ≤ int_max
      → encrypt_chunk evp p k n a ≡ ok (sealed k n a p)
  unfolding encrypt_chunk
  encrypt_chunk_lem k n a p key_size size small fits =
      let (c, new) = gcm.new_context in
      ground (
        arith,
        int_size_fits p "plaintext" fits,
        make_context_lem c new,
        encrypt_in_context_lem k n a p c new key_size size small fits,
      )

  decrypt_in_context_lem :
      (k n a x g : List ℕ) (c : Ctx)
      → evp.ctx_new ≡ some c
      → length k ≡ 32
      → length n ≡ nonce_size
      → length a ≤ int_max
      → length x ≤ int_max
      → length g ≡ tag_size
      → (decrypt_in_context evp (length x) x g k n a c).0
        ≡ (if bytes_eq g (auth_tag k n a x) then ok (crypt k n 0 x) else err not_authentic)
  unfolding decrypt_in_context initialize_decrypt
  decrypt_in_context_lem k n a x g c new key_size size small fits tag_fits =
      let (c1, c2, c3, e1, e2, e3, h3) = gcm.decrypt_start k n c new key_size size in
      let (c4, e4, h4) = update_aad_decrypting k n a c3 h3 small in
      let (c5, e5, h5) = decrypt_text_lem k n a x c4 h4 fits in
      let (c6, c7, e6, e7) = gcm.decrypt_end k n a x g c5 h5 tag_fits in
      rw (e1, size, e2, e3, e4, e5, copy_at_all g (replicate 16 0) tag_fits, e6, e7)
        (ground (arith, gcm.length-crypt k n 0 x, append-nil (crypt k n 0 x)))

  -- `decrypt_chunk` is decided by the tag.
  pub decrypt_chunk_lem :
      (k n a x g : List ℕ)
      → length k ≡ 32
      → length n ≡ nonce_size
      → length a ≤ int_max
      → length x ≤ int_max
      → length g ≡ tag_size
      → decrypt_chunk evp x g k n a
        ≡ (if bytes_eq g (auth_tag k n a x) then ok (crypt k n 0 x) else err not_authentic)
  unfolding decrypt_chunk
  decrypt_chunk_lem k n a x g key_size size small fits tag_fits =
      let (c, new) = gcm.new_context in
      ground (
        arith,
        int_size_fits x "ciphertext" fits,
        make_context_lem c new,
        decrypt_in_context_lem k n a x g c new key_size size small fits tag_fits,
      )
