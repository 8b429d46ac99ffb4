-- ===== src/PacketStream/Messages.antt =====
-- A message through the streaming objects, in any division into chunks, when no call of the backend
-- fails.
use securekit.Prelude.{
  ℕ, ◌+◌, ◌≤◌, ◌≡◌, ap, some, none, List, [], ◌∷◌, ◌++◌, length, length-append, copy_at_all,
  replicate, take-append, drop-append, bytes_eq, arith, int_max, if◌then◌else◌,
}
use securekit.Errors.{ok, err}
use securekit.Evp.{Evp, Gcm, max_text}
use securekit.Aead.{
  make_header, make_packet_prefix, require_valid_prefix, nonce_size, tag_size, not_authentic,
}
use securekit.PacketStream.{
  Packet, ready, active, finished, construct, encryptor_begin, encryptor_update, encryptor_finalize,
  decryptor_begin, decryptor_update, decryptor_finalize,
}
use securekit.PacketStream.Contexts.{
  make_header_lem, make_context_lem, start_encrypt_lem, start_decrypt_lem, encrypt_chunk_lem,
  decrypt_chunk_lem, finish_encrypt_lem, finish_decrypt_lem,
}

-- An object in the middle of a message, and one after it.
abbrev pub busy : {Ctx : Type 0} → List ℕ → List ℕ → Ctx → Packet Ctx
busy k aad c = some (record { key = k; aad = aad; context = some c; phase = active })

abbrev pub fresh : {Ctx : Type 0} → List ℕ → List ℕ → Packet Ctx
fresh k aad = some (record { key = k; aad = aad; context = none; phase = ready })

abbrev pub done : {Ctx : Type 0} → List ℕ → List ℕ → Packet Ctx
done k aad = some (record { key = k; aad = aad; context = none; phase = finished })

pub header_length : length make_header ≡ 5
header_length = ap length make_header_lem

pub construct_lem :
    {Ctx : Type 0} (k aad : List ℕ)
    → length aad ≤ int_max
    → construct {Ctx = Ctx} k aad ≡ ok (fresh k aad)
unfolding construct
construct_lem k aad h = ground arith

pub make_packet_prefix_lem :
    (n : List ℕ) → length n ≡ nonce_size → make_packet_prefix n ≡ ok (make_header ++ n)
unfolding make_packet_prefix
make_packet_prefix_lem n h = ground (arith, copy_at_all n (replicate 12 0))

pub require_valid_prefix-append :
    (n : List ℕ) → length n ≡ nonce_size → require_valid_prefix (make_header ++ n) ≡ ok tt
unfolding require_valid_prefix make_header bytes_eq
require_valid_prefix-append n h = ground arith

-- A prefix that is accepted is the header and a nonce.
pub require_valid_prefix_inv :
    (x : List ℕ)
    → require_valid_prefix x ≡ ok tt
    → (n : List ℕ) × (length n ≡ nonce_size) × (x ≡ make_header ++ n)
unfolding require_valid_prefix make_header
require_valid_prefix_inv [] h = absurd (ground (arith, h))
require_valid_prefix_inv (a ∷ []) h = absurd (ground (arith, h))
require_valid_prefix_inv (a ∷ b ∷ []) h = absurd (ground (arith, h))
require_valid_prefix_inv (a ∷ b ∷ c ∷ []) h = absurd (ground (arith, h))
require_valid_prefix_inv (a ∷ b ∷ c ∷ d ∷ []) h = absurd (ground (arith, h))
require_valid_prefix_inv (a ∷ b ∷ c ∷ d ∷ e ∷ n) h =
    (n, ground (arith, h), unfold bytes_eq in ground (arith, h))

module _ (evp : Evp) (gcm : Gcm evp) where
  open evp use {Ctx}
  open gcm use {crypt, auth_tag, Encrypting, Decrypting}

  module _ (k aad : List ℕ) (key_size : length k ≡ 32) (small : length aad ≤ int_max) where
    pub encryptor_begin_lem :
        (n : List ℕ)
        → length n ≡ nonce_size
        → (c : Ctx) × (encryptor_begin evp (some n) (fresh k aad)
            ≡ (ok (make_header ++ n), busy k aad c))
          × Encrypting k n (make_header ++ aad) [] c
    unfolding encryptor_begin
    encryptor_begin_lem n h =
        let (c0, new) = gcm.new_context in
        let (c, e, state) = start_encrypt_lem evp gcm k n aad c0 new key_size h small in
        (c, ground (arith, make_context_lem evp gcm c0 new, e, make_packet_prefix_lem n h), state)

    pub decryptor_begin_lem :
        (n : List ℕ)
        → length n ≡ nonce_size
        → (c : Ctx) × (decryptor_begin evp (make_header ++ n) (fresh k aad) ≡ (ok tt, busy k aad c))
          × Decrypting k n (make_header ++ aad) [] c
    unfolding decryptor_begin
    decryptor_begin_lem n h =
        let (c0, new) = gcm.new_context in
        let (c, e, state) =
          start_decrypt_lem evp gcm k n make_header aad c0 new key_size h header_length small in
        (
          c,
          ground (
            arith,
            make_context_lem evp gcm c0 new,
            e,
            require_valid_prefix-append n h,
            take-append 5 make_header n header_length,
            drop-append 5 make_header n header_length,
            length-append make_header n,
            header_length,
          ),
          state,
        )

    pub encryptor_update_lem :
        (n t p : List ℕ) (c : Ctx)
        → Encrypting k n (make_header ++ aad) t c
        → length p ≤ int_max
        → length t + length p ≤ max_text
        → (c' : Ctx) × (encryptor_update evp p (busy k aad c)
            ≡ (ok (crypt k n (length t) p), busy k aad c'))
          × Encrypting k n (make_header ++ aad) (t ++ crypt k n (length t) p) c'
    unfolding encryptor_update
    encryptor_update_lem n t p c h small fits =
        let (c', e, state) = encrypt_chunk_lem evp gcm k n _ t p c h small fits in (c', rw e, state)

    pub decryptor_update_lem :
        (n t p : List ℕ) (c : Ctx)
        → Decrypting k n (make_header ++ aad) t c
        → length p ≤ int_max
        → length t + length p ≤ max_text
        → (c' : Ctx) × (decryptor_update evp p (busy k aad c)
            ≡ (ok (crypt k n (length t) p), busy k aad c'))
          × Decrypting k n (make_header ++ aad) (t ++ p) c'
    unfolding decryptor_update
    decryptor_update_lem n t p c h small fits =
        let (c', e, state) = decrypt_chunk_lem evp gcm k n _ t p c h small fits in (c', rw e, state)

    pub encryptor_finalize_lem :
        (n t : List ℕ) (c : Ctx)
        → Encrypting k n (make_header ++ aad) t c
        → encryptor_finalize evp (busy k aad c)
          ≡ (ok (auth_tag k n (make_header ++ aad) t), done k aad)
    unfolding encryptor_finalize
    encryptor_finalize_lem n t c h = let (c', e) = finish_encrypt_lem evp gcm k n _ t c h in rw e

    pub decryptor_finalize_lem :
        (n t g : List ℕ) (c : Ctx)
        → Decrypting k n (make_header ++ aad) t c
        → length g ≡ tag_size
        → decryptor_finalize evp g (busy k aad c) ≡ (
          (if bytes_eq g (auth_tag k n (make_header ++ aad) t) then ok [] else err not_authentic),
          done k aad,
        )
    unfolding decryptor_finalize
    decryptor_finalize_lem n t g c h size =
        let (c', e) = finish_decrypt_lem evp gcm k n _ t g c h size in ground (arith, e)
