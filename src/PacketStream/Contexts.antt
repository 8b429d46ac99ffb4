-- ===== src/PacketStream/Contexts.antt =====
-- The context calls of a message when no call of the backend fails.
use securekit.Prelude.{
  ℕ, ◌+◌, ◌≤◌, ◌≡◌, refl, ap, String, true, some, List, [], ◌∷◌, ◌++◌, append-nil, length, bytes_eq,
  arith, int_max, if◌then◌else◌,
}
use securekit.Errors.{ok, err}
use securekit.Evp.{Evp, Gcm, max_text, max_aad}
use securekit.Aead.{update_size, check_update_size, make_header, not_authentic, tag_size}
use securekit.Aead.Context.{
  make_context, update_aad, initialize_encrypt_context, initialize_decrypt_context,
}
use securekit.PacketStream.{
  encrypt_chunk, decrypt_chunk, start_encrypt, start_decrypt, finish_encrypt, finish_decrypt,
}

-- The header is SKT1 and the version.
pub make_header_lem : make_header ≡ b'S' ∷ b'K' ∷ b'T' ∷ b'1' ∷ 1 ∷ []
unfolding make_header
make_header_lem = refl

pub update_size_fits :
    (x : List ℕ) (name : String) → length x ≤ int_max → update_size x name ≡ ok (length x)
unfolding update_size check_update_size
update_size_fits x name h = ground arith

nil_of_length : (x : List ℕ) → length x ≡ 0 → x ≡ []
nil_of_length [] h = refl
nil_of_length (y ∷ x) h = absurd (omega arith)

module _ (evp : Evp) (gcm : Gcm evp) where
  open evp use {Ctx}
  open gcm use {crypt, auth_tag, Encrypting, Decrypting}

  update_aad_encrypting :
      (k n a x : List ℕ) (name : String) (c : Ctx)
      → Encrypting k n a [] c
      → length x ≤ int_max
      → length a + length x ≤ max_aad
      → (c' : Ctx) × (update_aad evp x name c ≡ (ok tt, c')) × Encrypting k n (a ++ x) [] c'
  unfolding update_aad
  update_aad_encrypting k n a [] name c h small fits = (c, refl, rw append-nil h)
  update_aad_encrypting k n a (y ∷ x) name c h small fits =
      let (c', step, e) = gcm.encrypt_aad k n a (y ∷ x) c h fits in
      (c', ground (arith, step, small), e)

  update_aad_decrypting :
      (k n a x : List ℕ) (name : String) (c : Ctx)
      → Decrypting k n a [] c
      → length x ≤ int_max
      → length a + length x ≤ max_aad
      → (c' : Ctx) × (update_aad evp x name c ≡ (ok tt, c')) × Decrypting k n (a ++ x) [] c'
  unfolding update_aad
  update_aad_decrypting k n a [] name c h small fits = (c, refl, rw append-nil h)
  update_aad_decrypting k n a (y ∷ x) name c h small fits =
      let (c', step, e) = gcm.decrypt_aad k n a (y ∷ x) c h fits in
      (c', ground (arith, step, small), e)

  pub make_context_lem : (c : Ctx) → evp.ctx_new ≡ some c → make_context evp ≡ ok c
  unfolding make_context
  make_context_lem c h = rw (h, gcm.has_cipher)

  -- A new context, once the encryptor has set it up.
  pub start_encrypt_lem :
      (k n aad : List ℕ) (c : Ctx)
      → evp.ctx_new ≡ some c
      → length k ≡ 32
      → length n ≡ 12
      → length aad ≤ int_max
      → (c' : Ctx) × (start_encrypt evp k aad n c ≡ (ok tt, c'))
        × Encrypting k n (make_header ++ aad) [] c'
  unfolding start_encrypt initialize_encrypt_context
  start_encrypt_lem k n aad c new key_size nonce_size small =
      let (c1, c2, c3, e1, e2, e3, h3) = gcm.encrypt_start k n c new key_size nonce_size in
      let size : length make_header ≡ 5 = ap length make_header_lem in
      let (c4, e4, h4) =
        update_aad_encrypting k n [] make_header "header" c3 h3 (omega (arith, size))
          (omega (arith, size)) in
      let (c5, e5, h5) =
        update_aad_encrypting k n make_header aad "AAD" c4 h4 small (omega (arith, size)) in
      (c5, rw (e1, e2, e3, e4, e5), h5)

  pub start_decrypt_lem :
      (k n header aad : List ℕ) (c : Ctx)
      → evp.ctx_new ≡ some c
      → length k ≡ 32
      → length n ≡ 12
      → length header ≡ 5
      → length aad ≤ int_max
      → (c' : Ctx) × (start_decrypt evp k aad header n c ≡ (ok tt, c'))
        × Decrypting k n (header ++ aad) [] c'
  unfolding start_decrypt initialize_decrypt_context
  start_decrypt_lem k n header aad c new key_size nonce_size size small =
      let (c1, c2, c3, e1, e2, e3, h3) = gcm.decrypt_start k n c new key_size nonce_size in
      let (c4, e4, h4) =
        update_aad_decrypting k n [] header "header" c3 h3 (omega (arith, size))
          (omega (arith, size)) in
      let (c5, e5, h5) =
        update_aad_decrypting k n header aad "AAD" c4 h4 small (omega (arith, size)) in
      (c5, rw (e1, e2, e3, e4, e5), h5)

  pub crypt_nil : (k n : List ℕ) (i : ℕ) → crypt k n i [] ≡ []
  crypt_nil k n i = nil_of_length (crypt k n i []) (gcm.length-crypt k n i [])

  pub encrypt_chunk_lem :
      (k n a t p : List ℕ) (c : Ctx)
      → Encrypting k n a t c
      → length p ≤ int_max
      → length t + length p ≤ max_text
      → (c' : Ctx) × (encrypt_chunk evp p c ≡ (ok (crypt k n (length t) p), c'))
        × Encrypting k n a (t ++ crypt k n (length t) p) c'
  unfolding encrypt_chunk
  encrypt_chunk_lem k n a t [] c h small fits =
      (c, rw (crypt_nil k n (length t)), rw (crypt_nil k n (length t), append-nil) h)
  encrypt_chunk_lem k n a t (x ∷ p) c h small fits =
      let (c', step, e) = gcm.encrypt_text k n a t (x ∷ p) c h fits in
      (c', ground (arith, step, small, gcm.length-crypt k n (length t) (x ∷ p)), e)

  pub decrypt_chunk_lem :
      (k n a t p : List ℕ) (c : Ctx)
      → Decrypting k n a t c
      → length p ≤ int_max
      → length t + length p ≤ max_text
      → (c' : Ctx) × (decrypt_chunk evp p c ≡ (ok (crypt k n (length t) p), c'))
        × Decrypting k n a (t ++ p) c'
  unfolding decrypt_chunk
  decrypt_chunk_lem k n a t [] c h small fits = (c, rw (crypt_nil k n (length t)), rw append-nil h)
  decrypt_chunk_lem k n a t (x ∷ p) c h small fits =
      let (c', step, e) = gcm.decrypt_text k n a t (x ∷ p) c h fits in
      (c', ground (arith, step, small, gcm.length-crypt k n (length t) (x ∷ p)), e)

  pub finish_encrypt_lem :
      (k n a t : List ℕ) (c : Ctx)
      → Encrypting k n a t c
      → (c' : Ctx) × (finish_encrypt evp c ≡ (ok (auth_tag k n a t), c'))
  unfolding finish_encrypt
  finish_encrypt_lem k n a t c h =
      let (c1, c2, e1, e2) = gcm.encrypt_end k n a t c h in (c2, rw (e1, e2))

  -- The tag decides.
  pub finish_decrypt_lem :
      (k n a t g : List ℕ) (c : Ctx)
      → Decrypting k n a t c
      → length g ≡ tag_size
      → (c' : Ctx) × (finish_decrypt evp g c
          ≡ (ok (if bytes_eq g (auth_tag k n a t) then ok [] else err not_authentic, true), c'))
  unfolding finish_decrypt
  finish_decrypt_lem k n a t g c h size =
      let (c1, c2, e1, e2) = gcm.decrypt_end k n a t g c h size in (c2, ground (arith, e1, e2))
