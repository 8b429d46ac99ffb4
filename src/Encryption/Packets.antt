-- ===== src/Encryption/Packets.antt =====
-- `encrypt` and `decrypt` against the SKT1 format, when no call of the backend fails.
use securekit.Prelude.{
  ℕ, ◌+◌, ◌-◌, ◌≤◌, ◌≡◌, ◌↔◌, ◌⊎◌, inl, inr, refl, ap, some, List, [], ◌++◌, append-nil,
  append_assoc, length, length-append, length-drop, take, drop, take-append, drop-append,
  take-append-drop, bytes_eq, bytes_eq→eq, bytes_eq_refl, arith, int_max, if◌then◌else◌,
}
use securekit.Errors.{ok, err}
use securekit.Evp.{Evp, Gcm}
use securekit.Aead.{
  make_header, require_valid_prefix, require_valid_packet, nonce_size, prefix_size, tag_size,
  overhead, not_authentic, bad_packet,
}
use securekit.PacketStream.Messages.{
  header_length, require_valid_prefix_inv, construct_lem, require_valid_prefix-append,
  encryptor_begin_lem, encryptor_update_lem, encryptor_finalize_lem, decryptor_begin_lem,
  decryptor_update_lem, decryptor_finalize_lem,
}
use securekit.Encryption.{
  encrypt_with, encrypt, packet_ciphertext, packet_tag, decrypt_with, decrypt, wrap_key, unwrap_key,
}

-- A packet from its parts: header, nonce, ciphertext, tag.
abbrev pub assemble : List ℕ → List ℕ → List ℕ → List ℕ
assemble n ct g = make_header ++ (n ++ (ct ++ g))

regroup : (n ct g : List ℕ) → ((make_header ++ n) ++ ct) ++ g ≡ assemble n ct g
regroup n ct g = simp append_assoc

-- The cuts of `decrypt` fall between the parts.
prefix_of_assembled :
    (n ct g : List ℕ)
    → length n ≡ nonce_size
    → take prefix_size (assemble n ct g) ≡ make_header ++ n
prefix_of_assembled n ct g h = rw (← append_assoc make_header n (ct ++ g)) (
    take-append 17 (make_header ++ n) (ct ++ g)
      (omega (arith, length-append make_header n, header_length)))

rest_of_assembled :
    (n ct g : List ℕ) → length n ≡ nonce_size → drop prefix_size (assemble n ct g) ≡ ct ++ g
rest_of_assembled n ct g h = rw (← append_assoc make_header n (ct ++ g)) (
    drop-append 17 (make_header ++ n) (ct ++ g)
      (omega (arith, length-append make_header n, header_length)))

length_of_assembled :
    (n ct g : List ℕ)
    → length n ≡ nonce_size
    → length g ≡ tag_size
    → length (assemble n ct g) ≡ length ct + overhead
length_of_assembled n ct g h k = omega (
  arith,
  length-append make_header (n ++ (ct ++ g)),
  length-append n (ct ++ g),
  length-append ct g,
  header_length,
)

ciphertext_of_assembled :
    (n ct g : List ℕ)
    → length n ≡ nonce_size
    → length g ≡ tag_size
    → packet_ciphertext (assemble n ct g) ≡ ct
ciphertext_of_assembled n ct g h k =
    rw (rest_of_assembled n ct g h)
      (take-append _ ct g (omega (arith, length_of_assembled n ct g h k)))

tag_of_assembled :
    (n ct g : List ℕ)
    → length n ≡ nonce_size
    → length g ≡ tag_size
    → packet_tag (assemble n ct g) ≡ g
tag_of_assembled n ct g h k =
    let whole : assemble n ct g ≡ (make_header ++ (n ++ ct)) ++ g = simp append_assoc in
    rw whole (
      drop-append _ (make_header ++ (n ++ ct)) g (
        omega (
          arith,
          length-append (make_header ++ (n ++ ct)) g,
          length_of_assembled n ct g h k,
          ap length whole,
        )))

pub require_valid_packet-assemble :
    (n ct g : List ℕ)
    → length n ≡ nonce_size
    → length g ≡ tag_size
    → require_valid_packet (assemble n ct g) ≡ ok tt
unfolding require_valid_packet
require_valid_packet-assemble n ct g h k = ground (
  arith,
  length_of_assembled n ct g h k,
  prefix_of_assembled n ct g h,
  require_valid_prefix-append n h,
)

-- A packet that is accepted has the four parts.
pub require_valid_packet_inv :
    (packet : List ℕ)
    → require_valid_packet packet ≡ ok tt
    → (n ct g : List ℕ) × (length n ≡ nonce_size)
      × (length g ≡ tag_size)
      × (packet ≡ assemble n ct g)
unfolding require_valid_packet
require_valid_packet_inv packet h =
    let big : overhead ≤ length packet = ground (arith, h) in
    let prefixed : require_valid_prefix (take prefix_size packet) ≡ ok tt = ground (arith, h) in
    let (n, n_size, e) = require_valid_prefix_inv (take prefix_size packet) prefixed in
    let rest = drop prefix_size packet in
    let ct = take (length packet - overhead) rest in
    let g = drop (length packet - overhead) rest in
    (
      n,
      ct,
      g,
      n_size,
      omega (arith, length-drop (length packet - overhead) rest, length-drop 17 packet),
      cc (
        take-append-drop 17 packet,
        e,
        take-append-drop (length packet - overhead) rest,
        append_assoc make_header n rest,
      ),
    )

-- A packet is refused as malformed, or has the four parts.
pub packet_cases :
    (packet : List ℕ)
    → (require_valid_packet packet ≡ err bad_packet) ⊎ (require_valid_packet packet ≡ ok tt)
unfolding require_valid_packet require_valid_prefix
packet_cases packet = ground arith

module _ (evp : Evp) (gcm : Gcm evp) where
  open gcm use {crypt, auth_tag}

  -- The SKT1 packet of a plaintext (docs/FORMAT.md).
  abbrev pub skt1 : List ℕ → List ℕ → List ℕ → List ℕ → List ℕ
  skt1 k n aad p = assemble n (crypt k n 0 p) (auth_tag k n (make_header ++ aad) (crypt k n 0 p))

  module _ (k aad : List ℕ) (key_size : length k ≡ 32) (small : length aad ≤ int_max) where
    -- For a 32-byte key, a 12-byte nonce drawn, and associated data and a plaintext of at most
    -- INT_MAX bytes each, on a backend that meets the laws of AES-256-GCM, `encrypt` returns the
    -- SKT1 packet of the plaintext under that nonce.
    pub encrypt-eq-skt1 :
        (n p : List ℕ)
        → length n ≡ nonce_size
        → length p ≤ int_max
        → encrypt evp (some n) p k aad ≡ ok (skt1 k n aad p)
    unfolding encrypt encrypt_with
    encrypt-eq-skt1 n p h fits =
        let (c, e, state) = encryptor_begin_lem evp gcm k aad key_size small n h in
        let (c', e', state') =
          encryptor_update_lem evp gcm k aad key_size small n [] p c state fits (omega arith) in
        let ct = crypt k n 0 p in
        let g = auth_tag k n (make_header ++ aad) ct in
        ground (
          arith,
          construct_lem {Ctx = evp.Ctx} k aad small,
          e,
          e',
          encryptor_finalize_lem evp gcm k aad key_size small n ct c' state',
          regroup n ct g,
        )

    -- What `decrypt` answers for a packet of four parts: the tag decides.
    pub decrypt-assemble :
        (n ct g : List ℕ)
        → length n ≡ nonce_size
        → length g ≡ tag_size
        → length ct ≤ int_max
        → decrypt evp (assemble n ct g) k aad ≡ (
            if bytes_eq g (auth_tag k n (make_header ++ aad) ct)
            then ok (crypt k n 0 ct)
            else err not_authentic)
    unfolding decrypt decrypt_with
    decrypt-assemble n ct g h size fits =
        let (c, e, state) = decryptor_begin_lem evp gcm k aad key_size small n h in
        let (c', e', state') =
          decryptor_update_lem evp gcm k aad key_size small n [] ct c state fits (omega arith) in
        ground (
          arith,
          require_valid_packet-assemble n ct g h size,
          construct_lem {Ctx = evp.Ctx} k aad small,
          prefix_of_assembled n ct g h,
          ciphertext_of_assembled n ct g h size,
          tag_of_assembled n ct g h size,
          e,
          e',
          decryptor_finalize_lem evp gcm k aad key_size small n ct g c' state' size,
          append-nil (crypt k n 0 ct),
        )

    accepted-IsValid :
        (packet p : List ℕ) → decrypt evp packet k aad ≡ ok p → require_valid_packet packet ≡ ok tt
    unfolding decrypt
    accepted-IsValid packet p h = elim (packet_cases packet) [
      | inl bad ↦ absurd (ground (arith, bad, h))
      | inr fine ↦ fine
    ]

    decrypt_inv :
        (packet p : List ℕ)
        → length packet ≤ int_max
        → decrypt evp packet k aad ≡ ok p
        → (n : List ℕ) × (length n ≡ nonce_size) × (packet ≡ skt1 k n aad p)
    decrypt_inv packet p fits h =
        let (n, ct, g, n_size, g_size, e) =
          require_valid_packet_inv packet (accepted-IsValid packet p h) in
        let right = auth_tag k n (make_header ++ aad) ct in
        let answer : (if bytes_eq g right then ok (crypt k n 0 ct) else err not_authentic) ≡ ok p =
          cc (
            e,
            h,
            decrypt-assemble n ct g n_size g_size
                (omega (arith, ap length e, length_of_assembled n ct g n_size g_size)),
          ) in
        let plain : crypt k n 0 ct ≡ p = ground arith in
        let tag : g ≡ right = ground (arith, bytes_eq→eq g right) in
        (n, n_size, cc (e, tag, plain, gcm.crypt_involutive k n 0 ct))

    -- For a 32-byte key, associated data of at most INT_MAX bytes and a packet of at most INT_MAX
    -- bytes, on a backend that meets the laws of AES-256-GCM, `decrypt` returns a plaintext
    -- exactly when the packet is the SKT1 packet of that plaintext under some 12-byte nonce.
    pub decrypt_iff :
        (packet p : List ℕ)
        → length packet ≤ int_max
        → (decrypt evp packet k aad ≡ ok p)
          ↔ ((n : List ℕ) × (length n ≡ nonce_size) × (packet ≡ skt1 k n aad p))
    decrypt_iff packet p fits = (
      decrypt_inv packet p fits,
      λ (n, size, e).
          let ct = crypt k n 0 p in
          let g = auth_tag k n (make_header ++ aad) ct in
          ground (
            arith,
            e,
            decrypt-assemble n ct g size (gcm.length-auth_tag _ _ _ _),
            bytes_eq_refl g,
            ap length e,
            length_of_assembled n ct g size (gcm.length-auth_tag _ _ _ _),
            gcm.crypt_involutive k n 0 p,
          ),
    )

    -- For a 32-byte wrapping key, a 12-byte nonce drawn, associated data of at most INT_MAX bytes
    -- and a 32-byte key, on a backend that meets the laws of AES-256-GCM, `wrap_key` returns a
    -- packet of 65 bytes from which `unwrap_key` returns the key.
    pub unwrap_key-wrap_key :
        (n key : List ℕ)
        → length n ≡ nonce_size
        → length key ≡ 32
        → (packet : List ℕ) × (wrap_key evp (some n) key k aad ≡ ok packet)
          × (length packet ≡ 65)
          × (unwrap_key evp packet k aad ≡ ok key)
    unfolding wrap_key unwrap_key
    unwrap_key-wrap_key n key h size =
        let ct = crypt k n 0 key in
        let g = auth_tag k n (make_header ++ aad) ct in
        let total : length (skt1 k n aad key) ≡ 65 = omega (
          arith,
          size,
          gcm.length-crypt k n 0 key,
          length_of_assembled n ct g h (gcm.length-auth_tag _ _ _ _),
        ) in
        let opened = (decrypt_iff (skt1 k n aad key) key (omega (arith, total))).1 (n, h, refl) in
        (
          skt1 k n aad key,
          encrypt-eq-skt1 n key h (omega (arith, size)),
          total,
          ground (arith, opened, size),
        )
