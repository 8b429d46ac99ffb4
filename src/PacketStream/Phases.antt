-- ===== src/PacketStream/Phases.antt =====
-- The phases of the streaming objects on any backend, one that fails included.
use securekit.Prelude.{
  ℕ, ◌≡◌, ◌⊎◌, inl, inr, Option-cases, refl, Bool, true, false, Option, none, some, List, [], ◌∷◌,
  length, arith,
}
use securekit.Errors.{Result, ok, err}
use securekit.Evp.{Evp}
use securekit.Aead.{tag_size, bad_packet, not_authentic}
use securekit.PacketStream.{
  Phase, ready, active, finished, Packet, Impl, invalid, encryptor_begin, encryptor_update,
  encryptor_finalize, decryptor_begin, decryptor_update, decryptor_finalize, finish_decrypt,
}

-- An active object has a context, and a finished one has released it.
abbrev fits_phase : {Ctx : Type 0} → Phase → Option Ctx → Bool
fits_phase ready context = true
fits_phase active none = false
fits_phase active (some c) = true
fits_phase finished none = true
fits_phase finished (some c) = false

abbrev pub IsValid : {Ctx : Type 0} → Packet Ctx → Type 0
IsValid none = Unit
IsValid (some impl) = fits_phase impl.phase impl.context ≡ true

-- `begin` has succeeded.
abbrev has_started : Phase → Bool
has_started ready = false
has_started _ = true

abbrev pub IsStarted : {Ctx : Type 0} → Packet Ctx → Type 0
IsStarted none = ⊥
IsStarted (some impl) = has_started impl.phase ≡ true

-- The calls that a client can make on an encryptor, and on a decryptor.
pub data EncryptorCall : Type 0 where
  begin : Option (List ℕ) → EncryptorCall
  update : List ℕ → EncryptorCall
  finalize : EncryptorCall

pub data DecryptorCall : Type 0 where
  begin : List ℕ → DecryptorCall
  update : List ℕ → DecryptorCall
  finalize : List ℕ → DecryptorCall

module _ (evp : Evp) where
  open evp use {Ctx}

  unfoldable pub encryptor_call : EncryptorCall → Packet Ctx → Packet Ctx
  encryptor_call (begin drawn) object = (encryptor_begin evp drawn object).1
  encryptor_call (update plaintext) object = (encryptor_update evp plaintext object).1
  encryptor_call finalize object = (encryptor_finalize evp object).1

  unfoldable pub encryptor_calls : List EncryptorCall → Packet Ctx → Packet Ctx
  encryptor_calls [] object = object
  encryptor_calls (call ∷ calls) object = encryptor_calls calls (encryptor_call call object)

  unfoldable pub decryptor_call : DecryptorCall → Packet Ctx → Packet Ctx
  decryptor_call (begin prefix) object = (decryptor_begin evp prefix object).1
  decryptor_call (update ciphertext) object = (decryptor_update evp ciphertext object).1
  decryptor_call (finalize tag) object = (decryptor_finalize evp tag object).1

  unfoldable pub decryptor_calls : List DecryptorCall → Packet Ctx → Packet Ctx
  decryptor_calls [] object = object
  decryptor_calls (call ∷ calls) object = decryptor_calls calls (decryptor_call call object)

  encryptor_call-IsValid :
      (call : EncryptorCall) (object : Packet Ctx)
      → IsValid object
      → IsValid (encryptor_call call object)
  unfolding encryptor_call encryptor_begin encryptor_update encryptor_finalize
  encryptor_call-IsValid (begin drawn) none h = tt
  encryptor_call-IsValid (update p) none h = tt
  encryptor_call-IsValid finalize none h = tt
  encryptor_call-IsValid (begin drawn) (some impl) h = ground arith
  encryptor_call-IsValid (update p) (some impl) h = ground arith
  encryptor_call-IsValid finalize (some impl) h = ground arith

  -- On any backend, any sequence of calls, failing ones included, keeps the invariant of an
  -- encryptor: an active one has a context, and a finished one has released it.
  pub encryptor_calls-IsValid :
      (calls : List EncryptorCall) (object : Packet Ctx)
      → IsValid object
      → IsValid (encryptor_calls calls object)
  unfolding encryptor_calls
  encryptor_calls-IsValid [] object h = h
  encryptor_calls-IsValid (call ∷ calls) object h =
      encryptor_calls-IsValid calls (encryptor_call call object)
        (encryptor_call-IsValid call object h)

  decryptor_call-IsValid :
      (call : DecryptorCall) (object : Packet Ctx)
      → IsValid object
      → IsValid (decryptor_call call object)
  unfolding decryptor_call decryptor_begin decryptor_update decryptor_finalize
  decryptor_call-IsValid (begin prefix) none h = tt
  decryptor_call-IsValid (update p) none h = tt
  decryptor_call-IsValid (finalize g) none h = tt
  decryptor_call-IsValid (begin prefix) (some impl) h = ground arith
  decryptor_call-IsValid (update p) (some impl) h = ground arith
  decryptor_call-IsValid (finalize g) (some impl) h = ground arith

  -- On any backend, any sequence of calls, failing ones included, keeps the invariant of a
  -- decryptor: an active one has a context, and a finished one has released it.
  pub decryptor_calls-IsValid :
      (calls : List DecryptorCall) (object : Packet Ctx)
      → IsValid object
      → IsValid (decryptor_calls calls object)
  unfolding decryptor_calls
  decryptor_calls-IsValid [] object h = h
  decryptor_calls-IsValid (call ∷ calls) object h =
      decryptor_calls-IsValid calls (decryptor_call call object)
        (decryptor_call-IsValid call object h)

  encryptor_call-IsStarted :
      (call : EncryptorCall) (object : Packet Ctx)
      → IsStarted object
      → IsStarted (encryptor_call call object)
  unfolding encryptor_call encryptor_begin encryptor_update encryptor_finalize
  encryptor_call-IsStarted call none h = absurd h
  encryptor_call-IsStarted (begin drawn) (some impl) h = ground arith
  encryptor_call-IsStarted (update p) (some impl) h = ground arith
  encryptor_call-IsStarted finalize (some impl) h = ground arith

  encryptor_calls-IsStarted :
      (calls : List EncryptorCall) (object : Packet Ctx)
      → IsStarted object
      → IsStarted (encryptor_calls calls object)
  unfolding encryptor_calls
  encryptor_calls-IsStarted [] object h = h
  encryptor_calls-IsStarted (call ∷ calls) object h =
      encryptor_calls-IsStarted calls (encryptor_call call object)
        (encryptor_call-IsStarted call object h)

  begin-IsStarted :
      (drawn : Option (List ℕ)) (object object' : Packet Ctx) (prefix : List ℕ)
      → encryptor_begin evp drawn object ≡ (ok prefix, object')
      → IsStarted object'
  unfolding encryptor_begin
  begin-IsStarted drawn none object' prefix h = absurd (ground (arith, h))
  begin-IsStarted drawn (some impl) object' prefix h = ground (arith, h)

  started_refuses_begin :
      (drawn : Option (List ℕ)) (object : Packet Ctx)
      → IsStarted object
      → encryptor_begin evp drawn object
        ≡ (err (invalid "packet encryptor begin() may only be called once"), object)
  unfolding encryptor_begin
  started_refuses_begin drawn none h = absurd h
  started_refuses_begin drawn (some impl) h = ground arith

  -- On any backend, an encryptor takes one nonce: once `begin` has returned a prefix, whatever is
  -- called afterwards, `begin` is refused as invalid input and changes nothing.
  pub encryptor_begin_once :
      (drawn drawn' : Option (List ℕ)) (object object' : Packet Ctx) (prefix : List ℕ)
      (calls : List EncryptorCall)
      → encryptor_begin evp drawn object ≡ (ok prefix, object')
      → encryptor_begin evp drawn' (encryptor_calls calls object') ≡ (
        err (invalid "packet encryptor begin() may only be called once"),
        encryptor_calls calls object',
      )
  encryptor_begin_once drawn drawn' object object' prefix calls h =
      started_refuses_begin drawn' (encryptor_calls calls object')
        (encryptor_calls-IsStarted calls object' (begin-IsStarted drawn object object' prefix h))

  abbrev IsFinished : Packet Ctx → Type 0
  IsFinished none = ⊥
  IsFinished (some impl) = (impl.phase ≡ finished) × (impl.context ≡ none)

  finished_decryptor_call :
      (call : DecryptorCall) (object : Packet Ctx)
      → IsFinished object
      → decryptor_call call object ≡ object
  unfolding decryptor_call decryptor_begin decryptor_update decryptor_finalize
  finished_decryptor_call call none h = absurd h
  finished_decryptor_call (begin prefix) (some impl) h = ground arith
  finished_decryptor_call (update p) (some impl) h = ground arith
  finished_decryptor_call (finalize g) (some impl) h = ground arith

  finished_decryptor_calls :
      (calls : List DecryptorCall) (object : Packet Ctx)
      → IsFinished object
      → decryptor_calls calls object ≡ object
  unfolding decryptor_calls
  finished_decryptor_calls [] object h = refl
  finished_decryptor_calls (call ∷ calls) object h =
      rw (finished_decryptor_call call object h) (finished_decryptor_calls calls object h)

  -- What `finalize` answers when it is done with the object: the plaintext's rest, a packet that is
  -- malformed, or one that is not authentic.
  abbrev IsVerdict : Result (List ℕ) → Type 0
  IsVerdict (ok _) = Unit
  IsVerdict (err e) = (e ≡ bad_packet) ⊎ (e ≡ not_authentic)

  finalize-IsFinished :
      (tag : List ℕ) (object : Packet Ctx)
      → IsVerdict (decryptor_finalize evp tag object).0
      → IsFinished (decryptor_finalize evp tag object).1
  unfolding decryptor_finalize finish_decrypt
  finalize-IsFinished tag none v = absurd (ground (arith, v))
  finalize-IsFinished tag (some impl) v = ground (arith, v)

  -- On any backend, once a decryptor's `finalize` has accepted, refused the tag's size, or found
  -- the packet not authentic, no later call changes the object any more.
  pub decryptor_finalize_last :
      (tag : List ℕ) (object : Packet Ctx) (calls : List DecryptorCall)
      → IsVerdict (decryptor_finalize evp tag object).0
      → decryptor_calls calls (decryptor_finalize evp tag object).1
        ≡ (decryptor_finalize evp tag object).1
  decryptor_finalize_last tag object calls v =
      finished_decryptor_calls calls (decryptor_finalize evp tag object).1
        (finalize-IsFinished tag object v)

  -- On any backend, a decryptor's `finalize` succeeds only if the tag has 16 bytes, the object was
  -- active with a context, and the backend took the tag and verified it.
  pub decryptor_finalize_verifies :
      (tag trailing : List ℕ) (object object' : Packet Ctx)
      → decryptor_finalize evp tag object ≡ (ok trailing, object')
      → (impl : Impl Ctx) × (c : Ctx) × (object ≡ some impl)
        × (impl.phase ≡ active)
        × (impl.context ≡ some c)
        × (length tag ≡ tag_size)
        × ((evp.set_tag tag c).0 ≡ true)
        × ((evp.decrypt_final (evp.set_tag tag c).1).0 ≡ true)
  unfolding decryptor_finalize finish_decrypt
  decryptor_finalize_verifies tag trailing none object' h = absurd (ground (arith, h))
  decryptor_finalize_verifies tag trailing (some impl) object' h =
      elim (Option-cases impl.context) [
        | inl null ↦ absurd (ground (arith, h, null))
        | inr (c, here) ↦ (
          impl,
          c,
          refl,
          ground (arith, h),
          here,
          ground (arith, h),
          ground (arith, h, here),
          ground (arith, h, here),
        )
      ]
