-- ===== src/Tests/Packets.antt =====
-- Packets and streaming objects at concrete inputs, on the small backend.
use securekit.Prelude.{
  ℕ, ◌≡◌, inl, ◌↔◌, refl, List, [], ◌∷◌, ◌++◌, length, replicate, arith, some, true, bytes_eq,
}
use mathlib.Core.List.{flatten}
use securekit.Errors.{ok, err}
use securekit.Aead.Context.{make_context, initialize_encrypt_context, update_aad}
use securekit.Aead.{make_packet_prefix, nonce_size, make_header, tag_size}
use securekit.PacketStream.{
  Impl, Packet, active, start_encrypt, invalid, encryptor_begin, decryptor_finalize, finish_decrypt,
}
use securekit.PacketStream.Messages.{fresh}
use securekit.PacketStream.Phases.{
  EncryptorCall, DecryptorCall, IsValid, encryptor_calls, decryptor_calls, encryptor_calls-IsValid,
  decryptor_calls-IsValid, encryptor_begin_once, decryptor_finalize_last,
  decryptor_finalize_verifies,
}
use securekit.Encryption.{encrypt, decrypt, wrap_key, unwrap_key}
use securekit.Encryption.Packets.{skt1, decrypt_iff, encrypt-eq-skt1, unwrap_key-wrap_key}
use securekit.Encryption.Streams.{
  encrypt_session, decrypt_session, encrypt_session-eq-encrypt, decrypt_session-skt1,
}
use securekit.Tests.Backend.{Ctx, toy, toy_gcm, fresh_ctx, checksum}

abbrev key_32 : List ℕ
key_32 = replicate 32 5

abbrev nonce_12 : List ℕ
nonce_12 = replicate 12 6

abbrev aad_2 : List ℕ
aad_2 = 1 ∷ 2 ∷ []

abbrev text_3 : List ℕ
text_3 = 10 ∷ 20 ∷ 30 ∷ []

abbrev packet_3 : List ℕ
packet_3 = skt1 toy toy_gcm key_32 nonce_12 aad_2 text_3

encrypt-eq-skt1_example : encrypt toy (some nonce_12) text_3 key_32 aad_2 ≡ ok packet_3
encrypt-eq-skt1_example =
    encrypt-eq-skt1 toy toy_gcm key_32 aad_2 refl (omega arith) nonce_12 text_3 refl (omega arith)

decrypt_iff_example :
    (decrypt toy packet_3 key_32 aad_2 ≡ ok text_3)
    ↔ ((n : List ℕ) × (length n ≡ nonce_size) × (packet_3 ≡ skt1 toy toy_gcm key_32 n aad_2 text_3))
unfolding make_header
decrypt_iff_example =
    decrypt_iff toy toy_gcm key_32 aad_2 refl (omega arith) packet_3 text_3 (omega arith)

decrypts : decrypt toy packet_3 key_32 aad_2 ≡ ok text_3
decrypts = decrypt_iff_example.1 (nonce_12, refl, refl)

unwrap_key-wrap_key_example :
    (packet : List ℕ) × (wrap_key toy (some nonce_12) (replicate 32 9) key_32 aad_2 ≡ ok packet)
    × (length packet ≡ 65)
    × (unwrap_key toy packet key_32 aad_2 ≡ ok (replicate 32 9))
unwrap_key-wrap_key_example =
    unwrap_key-wrap_key toy toy_gcm key_32 aad_2 refl (omega arith) nonce_12 (replicate 32 9) refl
      refl

abbrev chunks : List (List ℕ)
chunks = (10 ∷ []) ∷ [] ∷ (20 ∷ 30 ∷ []) ∷ []

abbrev sealed_chunks : List (List ℕ)
sealed_chunks = (11 ∷ 21 ∷ []) ∷ (31 ∷ []) ∷ []

encrypt_session-eq-encrypt_example :
    (encrypt_session toy (some nonce_12) chunks (fresh key_32 aad_2)).0
    ≡ encrypt toy (some nonce_12) text_3 key_32 aad_2
unfolding flatten
encrypt_session-eq-encrypt_example =
    encrypt_session-eq-encrypt toy toy_gcm key_32 aad_2 refl (omega arith) nonce_12 chunks refl
      (omega arith) (omega arith, (omega arith, (omega arith, tt)))

decrypt_session-skt1_example :
    (decrypt_session toy
      (make_header ++ nonce_12)
      sealed_chunks
      (toy_gcm.auth_tag key_32 nonce_12
        (make_header ++ aad_2)
        (toy_gcm.crypt key_32 nonce_12 0 text_3))
      (fresh key_32 aad_2)).0
    ≡ ok text_3
unfolding flatten
decrypt_session-skt1_example =
    decrypt_session-skt1 toy toy_gcm key_32 aad_2 refl (omega arith) nonce_12 text_3 sealed_chunks
      refl (omega arith) (omega arith, (omega arith, tt)) refl

abbrev object : Packet Ctx
object = fresh key_32 aad_2

encryptor_calls-IsValid_example : IsValid (
    encryptor_calls toy
      (EncryptorCall.begin (some nonce_12)
        ∷ EncryptorCall.update text_3
        ∷ EncryptorCall.finalize
        ∷ [])
      object)
encryptor_calls-IsValid_example =
    encryptor_calls-IsValid toy
      (EncryptorCall.begin (some nonce_12)
        ∷ EncryptorCall.update text_3
        ∷ EncryptorCall.finalize
        ∷ [])
      object refl

decryptor_calls-IsValid_example : IsValid (
    decryptor_calls toy
      (DecryptorCall.begin (make_header ++ nonce_12) ∷ DecryptorCall.finalize [] ∷ [])
      object)
decryptor_calls-IsValid_example =
    decryptor_calls-IsValid toy
      (DecryptorCall.begin (make_header ++ nonce_12) ∷ DecryptorCall.finalize [] ∷ []) object refl

encryptor_begin_once_example :
    encryptor_begin toy (some (replicate 12 0)) (
      encryptor_calls toy
        (EncryptorCall.finalize ∷ [])
        (encryptor_begin toy (some nonce_12) object).1)
    ≡ (
      err (invalid "packet encryptor begin() may only be called once"),
      encryptor_calls toy
          (EncryptorCall.finalize ∷ [])
          (encryptor_begin toy (some nonce_12) object).1,
    )
unfolding encryptor_begin make_context start_encrypt initialize_encrypt_context update_aad
    make_header make_packet_prefix
encryptor_begin_once_example =
    encryptor_begin_once toy (some nonce_12) (some (replicate 12 0)) object
      (encryptor_begin toy (some nonce_12) object).1 (make_header ++ nonce_12)
      (EncryptorCall.finalize ∷ []) refl

abbrev active_object : Packet Ctx
active_object = some (record {
  key = key_32;
  aad = aad_2;
  context = some (fresh_ctx key_32 nonce_12 [] []);
  phase = active;
})

decryptor_finalize_last_example :
    decryptor_calls toy
      (DecryptorCall.update text_3 ∷ [])
      (decryptor_finalize toy [] active_object).1
    ≡ (decryptor_finalize toy [] active_object).1
unfolding decryptor_finalize
decryptor_finalize_last_example =
    decryptor_finalize_last toy [] active_object (DecryptorCall.update text_3 ∷ []) (inl refl)

abbrev right_tag : List ℕ
right_tag = checksum key_32 nonce_12 [] []

decryptor_finalize_verifies_example :
    (impl : Impl Ctx) × (c : Ctx) × (active_object ≡ some impl)
    × (impl.phase ≡ active)
    × (impl.context ≡ some c)
    × (length right_tag ≡ tag_size)
    × ((toy.set_tag right_tag c).0 ≡ true)
    × ((toy.decrypt_final (toy.set_tag right_tag c).1).0 ≡ true)
unfolding decryptor_finalize finish_decrypt bytes_eq
decryptor_finalize_verifies_example =
    decryptor_finalize_verifies toy right_tag [] active_object
      (decryptor_finalize toy right_tag active_object).1 refl
