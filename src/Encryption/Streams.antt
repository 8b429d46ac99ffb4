-- ===== src/Encryption/Streams.antt =====
-- The streaming objects against the one-call functions: the division into chunks does not matter.
use securekit.Prelude.{
  ℕ, ◌+◌, ◌≤◌, ◌≡◌, ap, Option, some, List, [], ◌∷◌, ◌++◌, append-nil, append_assoc, length,
  length-append, bytes_eq_refl, All, arith, int_max,
}
use mathlib.Core.List.{flatten}
use securekit.Errors.{ok}
use securekit.Exec.{Exec, pure, ◌>>=◌, ◌>>◌}
use securekit.Evp.{Evp, Gcm, max_text}
use securekit.Aead.{make_header, nonce_size}
use securekit.PacketStream.{
  Packet, encryptor_begin, encryptor_update, encryptor_finalize, decryptor_begin, decryptor_update,
  decryptor_finalize,
}
use securekit.PacketStream.Contexts.{crypt_nil}
use securekit.PacketStream.Messages.{
  busy, fresh, encryptor_begin_lem, encryptor_update_lem, encryptor_finalize_lem,
  decryptor_begin_lem, decryptor_update_lem, decryptor_finalize_lem,
}
use securekit.Encryption.{encrypt}
use securekit.Encryption.Packets.{encrypt-eq-skt1}

abbrev pub FitsUpdate : List ℕ → Type 0
FitsUpdate chunk = length chunk ≤ int_max

module _ (evp : Evp) where
  open evp use {Ctx}

  -- A client that hands a message to `update` chunk by chunk.
  pub encrypt_chunks : List (List ℕ) → Exec (Packet Ctx) (List ℕ)
  encrypt_chunks [] = pure []
  encrypt_chunks (p ∷ ps) = do
    out ← encryptor_update evp p
    rest ← encrypt_chunks ps
    pure (out ++ rest)

  pub decrypt_chunks : List (List ℕ) → Exec (Packet Ctx) (List ℕ)
  decrypt_chunks [] = pure []
  decrypt_chunks (p ∷ ps) = do
    out ← decryptor_update evp p
    rest ← decrypt_chunks ps
    pure (out ++ rest)

  -- A whole session: the packet, or the plaintext with what `finalize` returns.
  pub encrypt_session : Option (List ℕ) → List (List ℕ) → Exec (Packet Ctx) (List ℕ)
  encrypt_session drawn chunks = do
    prefix ← encryptor_begin evp drawn
    ciphertext ← encrypt_chunks chunks
    tag ← encryptor_finalize evp
    pure ((prefix ++ ciphertext) ++ tag)

  pub decrypt_session : List ℕ → List (List ℕ) → List ℕ → Exec (Packet Ctx) (List ℕ)
  decrypt_session prefix chunks tag = do
    decryptor_begin evp prefix
    plaintext ← decrypt_chunks chunks
    trailing ← decryptor_finalize evp tag
    pure (plaintext ++ trailing)

module _ (evp : Evp) (gcm : Gcm evp) (k aad : List ℕ) (key_size : length k ≡ 32)
    (small : length aad ≤ int_max) where
  open evp use {Ctx}
  open gcm use {crypt, auth_tag, Encrypting, Decrypting}

  encrypt_chunks_lem :
      (n t : List ℕ) (chunks : List (List ℕ)) (c : Ctx)
      → Encrypting k n (make_header ++ aad) t c
      → All FitsUpdate chunks
      → length t + length (flatten chunks) ≤ max_text
      → (c' : Ctx) × (encrypt_chunks evp chunks (busy k aad c)
          ≡ (ok (crypt k n (length t) (flatten chunks)), busy k aad c'))
        × Encrypting k n (make_header ++ aad) (t ++ crypt k n (length t) (flatten chunks)) c'
  unfolding encrypt_chunks flatten
  encrypt_chunks_lem n t [] c state sizes fits =
      let nothing = crypt_nil evp gcm k n (length t) in
      (c, rw nothing, rw (nothing, append-nil) state)
  encrypt_chunks_lem n t (p ∷ ps) c state (size, sizes) fits =
      let total = length-append p (flatten ps) in
      let (c1, e1, state1) =
        encryptor_update_lem evp gcm k aad key_size small n t p c state size
          (omega (arith, total)) in
      let out = crypt k n (length t) p in
      let reach : length (t ++ out) ≡ length t + length p =
        omega (arith, length-append t out, gcm.length-crypt k n (length t) p) in
      let (c2, e2, state2) =
        encrypt_chunks_lem n (t ++ out) ps c1 state1 sizes (omega (arith, total, reach)) in
      let whole : crypt k n (length t) (p ++ flatten ps)
          ≡ out ++ crypt k n (length (t ++ out)) (flatten ps) =
        rw reach (gcm.crypt-append k n (length t) p (flatten ps)) in
      (
        c2,
        rw (e1, e2, whole),
        rw (whole, ← append_assoc t out (crypt k n (length (t ++ out)) (flatten ps))) state2,
      )

  decrypt_chunks_lem :
      (n t : List ℕ) (chunks : List (List ℕ)) (c : Ctx)
      → Decrypting k n (make_header ++ aad) t c
      → All FitsUpdate chunks
      → length t + length (flatten chunks) ≤ max_text
      → (c' : Ctx) × (decrypt_chunks evp chunks (busy k aad c)
          ≡ (ok (crypt k n (length t) (flatten chunks)), busy k aad c'))
        × Decrypting k n (make_header ++ aad) (t ++ flatten chunks) c'
  unfolding decrypt_chunks flatten
  decrypt_chunks_lem n t [] c state sizes fits =
      (c, rw (crypt_nil evp gcm k n (length t)), rw append-nil state)
  decrypt_chunks_lem n t (p ∷ ps) c state (size, sizes) fits =
      let total = length-append p (flatten ps) in
      let (c1, e1, state1) =
        decryptor_update_lem evp gcm k aad key_size small n t p c state size
          (omega (arith, total)) in
      let reach = length-append t p in
      let (c2, e2, state2) =
        decrypt_chunks_lem n (t ++ p) ps c1 state1 sizes (omega (arith, total, reach)) in
      (
        c2,
        rw (e1, e2, reach, ← gcm.crypt-append k n (length t) p (flatten ps)),
        rw (← append_assoc t p (flatten ps)) state2,
      )

  -- For a 32-byte key and associated data of at most INT_MAX bytes, on a backend that meets the
  -- laws of AES-256-GCM, with a 12-byte nonce drawn and with every chunk and their concatenation
  -- at most INT_MAX bytes, `begin`, any sequence of `update`s and `finalize` of the streaming
  -- encryptor give the packet that `encrypt` gives for the concatenation of the chunks, however it
  -- is divided.
  pub encrypt_session-eq-encrypt :
      (n : List ℕ) (chunks : List (List ℕ))
      → length n ≡ nonce_size
      → length (flatten chunks) ≤ int_max
      → All FitsUpdate chunks
      → (encrypt_session evp (some n) chunks (fresh k aad)).0
        ≡ encrypt evp (some n) (flatten chunks) k aad
  unfolding encrypt_session
  encrypt_session-eq-encrypt n chunks h fits sizes =
      let (c, e, state) = encryptor_begin_lem evp gcm k aad key_size small n h in
      let (c', e', state') = encrypt_chunks_lem n [] chunks c state sizes (omega arith) in
      let e'' = encryptor_finalize_lem evp gcm k aad key_size small n _ c' state' in
      rw (e, e', e'', encrypt-eq-skt1 evp gcm k aad key_size small n (flatten chunks) h fits)
        (ap ok (simp append_assoc))

  -- For a 32-byte key and associated data of at most INT_MAX bytes, on a backend that meets the
  -- laws of AES-256-GCM, the streaming decryptor, given the prefix, the ciphertext in any division
  -- into chunks of at most INT_MAX bytes, and the tag of the SKT1 packet of a plaintext of at most
  -- INT_MAX bytes under a 12-byte nonce, gives that plaintext back.
  pub decrypt_session-skt1 :
      (n p : List ℕ) (chunks : List (List ℕ))
      → length n ≡ nonce_size
      → length p ≤ int_max
      → All FitsUpdate chunks
      → flatten chunks ≡ crypt k n 0 p
      → (decrypt_session evp
          (make_header ++ n)
          chunks
          (auth_tag k n (make_header ++ aad) (crypt k n 0 p))
          (fresh k aad)).0
        ≡ ok p
  unfolding decrypt_session
  decrypt_session-skt1 n p chunks h fits sizes parts =
      let (c, e, state) = decryptor_begin_lem evp gcm k aad key_size small n h in
      let (c', e', state') =
        decrypt_chunks_lem n [] chunks c state sizes
          (omega (arith, ap length parts, gcm.length-crypt k n 0 p)) in
      let g = auth_tag k n (make_header ++ aad) (crypt k n 0 p) in
      let e'' =
        decryptor_finalize_lem evp gcm k aad key_size small n (flatten chunks) g c' state'
          (gcm.length-auth_tag _ _ _ _) in
      ground (arith, e, e', e'', parts, bytes_eq_refl g, gcm.crypt_involutive k n 0 p, append-nil p)
