-- ===== src/Encryption.antt =====
-- src/aead.cpp and src/key_wrap.cpp: a whole packet in one call. The plaintext that `decrypt` wipes
-- when authentication fails is local to it, so the wiping does not show in the result.
pub mod Packets
pub mod Streams
use securekit.Prelude.{ℕ, ◌-◌, Option, List, ◌++◌, length, take, drop, ◌==◌, if◌then◌else◌}
use securekit.Errors.{error, Result, ok, err, invalid_packet}
use securekit.Exec.{Exec, pure, ◌>>=◌, ◌>>◌}
use securekit.Evp.{Evp}
use securekit.Aead.{prefix_size, tag_size, overhead, require_valid_packet}
use securekit.PacketStream.{
  Packet, construct, encryptor_begin, encryptor_update, encryptor_finalize, decryptor_begin,
  decryptor_update, decryptor_finalize,
}

-- `subspan(prefix_size, size - overhead)` and `last(tag_size)`.
abbrev pub packet_ciphertext : List ℕ → List ℕ
packet_ciphertext packet = take (length packet - overhead) (drop prefix_size packet)

abbrev pub packet_tag : List ℕ → List ℕ
packet_tag packet = drop (length packet - tag_size) packet

module _ (evp : Evp) where
  open evp use {Ctx}

  unfoldable pub encrypt_with : Option (List ℕ) → List ℕ → Exec (Packet Ctx) (List ℕ)
  encrypt_with drawn plaintext = do
    packet ← encryptor_begin evp drawn
    ciphertext ← encryptor_update evp plaintext
    tag ← encryptor_finalize evp
    pure ((packet ++ ciphertext) ++ tag)

  -- `drawn` is the answer of `RAND_bytes`, as in `encryptor_begin`.
  unfoldable pub encrypt : Option (List ℕ) → List ℕ → List ℕ → List ℕ → Result (List ℕ)
  encrypt drawn plaintext key aad = elim (construct key aad) [
    | err e ↦ err e
    | ok encryptor ↦ (encrypt_with drawn plaintext encryptor).0
  ]

  unfoldable pub decrypt_with : List ℕ → List ℕ → List ℕ → Exec (Packet Ctx) (List ℕ)
  decrypt_with prefix ciphertext tag = do
    decryptor_begin evp prefix
    plaintext ← decryptor_update evp ciphertext
    trailing ← decryptor_finalize evp tag
    pure (plaintext ++ trailing)

  decrypt_valid : List ℕ → List ℕ → List ℕ → Result (List ℕ)
  decrypt_valid packet key aad = elim (construct key aad) [
    | err e ↦ err e
    | ok decryptor ↦
        (decrypt_with (take prefix_size packet) (packet_ciphertext packet) (packet_tag packet)
          decryptor).0
  ]

  unfoldable pub decrypt : List ℕ → List ℕ → List ℕ → Result (List ℕ)
  unfolding decrypt_valid
  decrypt packet key aad = elim (require_valid_packet packet) [
    | err e ↦ err e
    | ok _ ↦ decrypt_valid packet key aad
  ]

  -- `key256` is an array of 32 bytes: a list of that length.
  unfoldable pub wrap_key : Option (List ℕ) → List ℕ → List ℕ → List ℕ → Result (List ℕ)
  wrap_key drawn key_to_wrap wrapping_key aad = encrypt drawn key_to_wrap wrapping_key aad

  unfoldable pub unwrap_key : List ℕ → List ℕ → List ℕ → Result (List ℕ)
  unwrap_key packet wrapping_key aad = elim (decrypt packet wrapping_key aad) [
    | err e ↦ err e
    | ok key_bytes ↦
        if length key_bytes == 32
        then ok key_bytes
        else err (error invalid_packet "Invalid wrapped key packet")
  ]
