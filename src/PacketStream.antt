-- ===== src/PacketStream.antt =====
-- src/packet_stream.cpp: the streaming SKT1 encryptor and decryptor. An object is the pointer to its
-- `impl`, null after a move. The source of random bytes is OpenSSL's: `drawn` is what `RAND_bytes`
-- answers to the one request of `begin`, `none` for a failure.
pub mod Contexts
pub mod Messages
pub mod Phases
use securekit.Prelude.{
  ℕ, ◌-◌, String, not, Bool, true, false, Option, none, some, List, [], length, take, drop, ltb,
  ◌==◌, if◌then◌else◌,
}
use securekit.Errors.{Error, error, Result, ok, err, invalid_input}
use securekit.Exec.{Exec, lift, raise_if, ◌>>=◌, ◌>>◌}
use securekit.Evp.{Evp}
use securekit.Aead.{
  header_size, nonce_size, tag_size, gcm_failed, bad_packet, not_authentic, check_update_size,
  update_size, make_header, make_packet_prefix, require_valid_prefix,
}
use securekit.Aead.Context.{
  make_context, initialize_encrypt_context, initialize_decrypt_context, update_aad,
}

pub data Phase : Type 0 where
  ready active finished : Phase

abbrev pub is_ready : Phase → Bool
is_ready ready = true
is_ready _ = false

abbrev pub is_active : Phase → Bool
is_active active = true
is_active _ = false

-- `packet_encryptor::impl` and `packet_decryptor::impl`, which have the same fields.
pub record Impl (Ctx : Type 0) : Type 0 where
  pub key : List ℕ
  pub aad : List ℕ
  pub context : Option Ctx
  pub phase : Phase

abbrev pub invalid : String → Error
invalid message = error invalid_input message

abbrev pub Packet : Type 0 → Type 0
Packet Ctx = Option (Impl Ctx)

-- A method's work on its context. `context_not_null` in PacketStream/Phases shows that no method
-- comes here with a null context.
abbrev pub on_context : {Ctx A : Type 0} → Exec Ctx A → Exec (Impl Ctx) A
on_context m impl = elim impl.context [
  | none ↦ (err gcm_failed, impl)
  | some c ↦ let (r, c') = m c in (r, record impl { context = some c' })
]

-- `impl_->context.reset(); impl_->phase = finished;`
abbrev pub finish : {Ctx : Type 0} → Impl Ctx → Impl Ctx
finish impl = record impl { context = none; phase = finished }

-- `if (impl_ == nullptr) throw` before the rest of a method.
abbrev pub with_state : {Ctx A : Type 0} → Error → Exec (Impl Ctx) A → Exec (Packet Ctx) A
with_state e m none = (err e, none)
with_state e m (some impl) = let (r, impl') = m impl in (r, some impl')

-- The constructors of both classes.
unfoldable pub construct : {Ctx : Type 0} → List ℕ → List ℕ → Result (Packet Ctx)
unfolding check_update_size
construct key aad = elim (check_update_size (length aad) "AAD") [
  | err e ↦ err e
  | ok _ ↦ ok (some (record { key = key; aad = aad; context = none; phase = ready }))
]

module _ (evp : Evp) where
  open evp use {Ctx, encrypt_update, encrypt_final, get_tag, decrypt_update, set_tag, decrypt_final}

  abbrev whole_update : ℕ → Bool × List ℕ × Ctx → Result (List ℕ) × Ctx
  whole_update size (updated, out, c) = (
    if not updated
        then err gcm_failed
        else if not (length out == size)
        then err gcm_failed
        else ok out,
    c,
  )

  encrypt_some : ℕ → List ℕ → Exec Ctx (List ℕ)
  encrypt_some size plaintext c =
      if size == 0 then (ok [], c) else whole_update size (encrypt_update plaintext c)

  unfoldable pub encrypt_chunk : List ℕ → Exec Ctx (List ℕ)
  unfolding encrypt_some update_size
  encrypt_chunk plaintext = do
    plaintext_size ← lift (update_size plaintext "plaintext")
    encrypt_some plaintext_size plaintext

  decrypt_some : ℕ → List ℕ → Exec Ctx (List ℕ)
  decrypt_some size ciphertext c =
      if size == 0 then (ok [], c) else whole_update size (decrypt_update ciphertext c)

  unfoldable pub decrypt_chunk : List ℕ → Exec Ctx (List ℕ)
  unfolding decrypt_some update_size
  decrypt_chunk ciphertext = do
    ciphertext_size ← lift (update_size ciphertext "ciphertext")
    decrypt_some ciphertext_size ciphertext

  -- `begin` of the encryptor once it has a context.
  unfoldable pub start_encrypt : List ℕ → List ℕ → List ℕ → Exec Ctx (Unit {0})
  start_encrypt key aad nonce context =
      let (initialized, c) = initialize_encrypt_context evp key nonce context in
      (do
        raise_if (not initialized) gcm_failed
        update_aad evp make_header "header"
        update_aad evp aad "AAD")
        c

  unfoldable pub start_decrypt : List ℕ → List ℕ → List ℕ → List ℕ → Exec Ctx (Unit {0})
  start_decrypt key aad header nonce context =
      let (initialized, c) = initialize_decrypt_context evp key nonce context in
      (do
        raise_if (not initialized) gcm_failed
        update_aad evp header "header"
        update_aad evp aad "AAD")
        c

  -- What `begin` leaves: the context that was made, and the phase moved on if all went well.
  abbrev started :
      {A : Type 0} → Impl Ctx → Result A → Result (Unit {0}) × Ctx → Result A × Impl Ctx
  started impl answer (ok _, c) = (answer, record impl { context = some c; phase = active })
  started impl answer (err e, c) = (err e, record impl { context = some c })

  encryptor_start : List ℕ → Exec (Impl Ctx) (List ℕ)
  encryptor_start nonce impl = elim (make_context evp) [
    | err e ↦ (err e, impl)
    | ok context ↦
        started impl (make_packet_prefix nonce) (start_encrypt impl.key impl.aad nonce context)
  ]

  unfoldable pub encryptor_begin : Option (List ℕ) → Exec (Packet Ctx) (List ℕ)
  unfolding encryptor_start
  encryptor_begin drawn = with_state (invalid "packet encryptor has no state") λ impl.
      if not (is_ready impl.phase)
      then (err (invalid "packet encryptor begin() may only be called once"), impl)
      else elim drawn [ none ↦ (err gcm_failed, impl) | some nonce ↦ encryptor_start nonce impl ]

  unfoldable pub encryptor_update : List ℕ → Exec (Packet Ctx) (List ℕ)
  encryptor_update plaintext = with_state (invalid "packet encryptor has no state") λ impl.
      if not (is_active impl.phase)
      then (err (invalid "packet encryptor update() requires begin() before finalize()"), impl)
      else on_context (encrypt_chunk plaintext) impl

  -- `finalize` of the encryptor up to the tag.
  unfoldable pub finish_encrypt : Exec Ctx (List ℕ)
  finish_encrypt context =
      let (done, out, c1) = encrypt_final context in
      let (got, tag, c2) = get_tag tag_size c1 in
      if not done
      then (err gcm_failed, c1)
      else if not (length out == 0)
      then (err gcm_failed, c1)
      else if not got
      then (err gcm_failed, c2)
      else (ok tag, c2)

  abbrev finished_if_ok : {A : Type 0} → Result A × Impl Ctx → Result A × Impl Ctx
  finished_if_ok (ok a, impl) = (ok a, finish impl)
  finished_if_ok (err e, impl) = (err e, impl)

  unfoldable pub encryptor_finalize : Exec (Packet Ctx) (List ℕ)
  encryptor_finalize = with_state (invalid "packet encryptor has no state") λ impl.
      if not (is_active impl.phase)
      then (err (invalid "packet encryptor finalize() requires begin() exactly once"), impl)
      else finished_if_ok (on_context finish_encrypt impl)

  -- `last(nonce_size)` of a prefix that has passed `require_valid_prefix`.
  decryptor_start : List ℕ → Exec (Impl Ctx) (Unit {0})
  decryptor_start packet_prefix impl =
      let header = take header_size packet_prefix in
      let nonce = drop (length packet_prefix - nonce_size) packet_prefix in
      elim (make_context evp) [
        | err e ↦ (err e, impl)
        | ok context ↦ started impl (ok tt) (start_decrypt impl.key impl.aad header nonce context)
      ]

  unfoldable pub decryptor_begin : List ℕ → Exec (Packet Ctx) (Unit {0})
  unfolding decryptor_start
  decryptor_begin packet_prefix = with_state (invalid "packet decryptor has no state") λ impl.
      if not (is_ready impl.phase)
      then (err (invalid "packet decryptor begin() may only be called once"), impl)
      else elim (require_valid_prefix packet_prefix) [
        | err e ↦ (err e, impl)
        | ok _ ↦ decryptor_start packet_prefix impl
      ]

  unfoldable pub decryptor_update : List ℕ → Exec (Packet Ctx) (List ℕ)
  decryptor_update ciphertext = with_state (invalid "packet decryptor has no state") λ impl.
      if not (is_active impl.phase)
      then (err (invalid "packet decryptor update() requires begin() before finalize()"), impl)
      else on_context (decrypt_chunk ciphertext) impl

  -- `finalize` of the decryptor from the tag on; the flag says whether the object is finished.
  unfoldable pub finish_decrypt : List ℕ → Exec Ctx (Result (List ℕ) × Bool)
  finish_decrypt tag context =
      let (tag_set, c1) = set_tag tag context in
      let (authentic, trailing, c2) = decrypt_final c1 in
      if not tag_set
      then (ok (err gcm_failed, false), c1)
      else if not authentic
      then (ok (err not_authentic, true), c2)
      else if ltb 1 (length trailing)
      then (ok (err gcm_failed, false), c2)
      else (ok (ok trailing, true), c2)

  abbrev settle : Result (Result (List ℕ) × Bool) × Impl Ctx → Result (List ℕ) × Impl Ctx
  settle (ok (r, done), impl) = (r, if done then finish impl else impl)
  settle (err e, impl) = (err e, impl)

  unfoldable pub decryptor_finalize : List ℕ → Exec (Packet Ctx) (List ℕ)
  decryptor_finalize tag = with_state (invalid "packet decryptor has no state") λ impl.
      if not (is_active impl.phase)
      then (err (invalid "packet decryptor finalize() requires begin() exactly once"), impl)
      else if not (length tag == tag_size)
      then (err bad_packet, finish impl)
      else settle (on_context (finish_decrypt tag) impl)
