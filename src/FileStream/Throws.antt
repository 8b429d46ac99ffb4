-- ===== src/FileStream/Throws.antt =====
-- What the rounds of the payload loops throw: never the error that stands for a lack of fuel.
use securekit.Prelude.{
  ℕ, String, ◌≢◌, Bool, true, false, Option, none, some, List, length, ltb, int_max, ◌==◌,
  Bool-cases, inl, inr, if◌then◌else◌,
}
use securekit.Errors.{Error, Result, ok, err}
use securekit.Exec.{Exec, ◌>>=◌, pure, raise_if}
use securekit.Exec.Throws.{Only, Throws, >>=-Throws, lift-Throws, pure-Throws, raise_if-Throws}
use securekit.Evp.{Evp}
use securekit.Aead.{gcm_failed, too_large}
use securekit.FileCrypto.{
  not_authentic, int_size, make_context, require, require_bytes, update_aad, initialize_encrypt,
  initialize_decrypt, encrypt_text, encrypt_in_context, encrypt_chunk, decrypt_text,
  decrypt_in_context, decrypt_chunk,
}
use securekit.FileStream.{out_of_fuel}

-- An error of the program.
abbrev pub Proper : Error → Type 0
Proper e = e ≢ out_of_fuel

abbrev pub ThrowsProper : {S A : Type 0} → Exec S A → Type 0
ThrowsProper = Throws Proper

pub >>=-Proper :
    {S A B : Type 0} (m : Exec S A) (next : A → Exec S B)
    → ThrowsProper m
    → ((a : A) → ThrowsProper (next a))
    → ThrowsProper (m >>= next)
>>=-Proper = >>=-Throws Proper

pub pure-Proper : {S A : Type 0} (a : A) → ThrowsProper {S = S} (pure a)
pure-Proper = pure-Throws Proper

pub raise_if-Proper :
    {S : Type 0} (b : Bool) (e : Error) → Proper e → ThrowsProper {S = S} (raise_if b e)
raise_if-Proper = raise_if-Throws Proper

gcm_failed-Proper : Proper gcm_failed
gcm_failed-Proper h = cc

not_authentic-Proper : Proper not_authentic
not_authentic-Proper h = cc

too_large-Proper : (name : String) → Proper (too_large name)
too_large-Proper name h = cc

int_size-Proper : (input : List ℕ) (name : String) → Only Proper (int_size input name)
unfolding int_size
int_size-Proper input name = elim (Bool-cases (ltb int_max (length input))) [
  | inl h ↦ rw h (too_large-Proper name)
  | inr h ↦ rw h tt
]

module _ (evp : Evp) where
  open evp use {Ctx}

  require-Proper :
      (e : Error) (call : Ctx → Bool × Ctx) → Proper e → ThrowsProper (λ c. require evp e (call c))
  require-Proper e call h c = answered (call c)
    where
      answered : (r : Bool × Ctx) → Only Proper (require evp e r).0
      answered (true, c) = tt
      answered (false, c) = h

  require_bytes-Proper :
      (e : Error) (call : Ctx → Bool × List ℕ × Ctx)
      → Proper e
      → ThrowsProper (λ c. require_bytes evp e (call c))
  require_bytes-Proper e call h c = answered (call c)
    where
      answered : (r : Bool × List ℕ × Ctx) → Only Proper (require_bytes evp e r).0
      answered (true, out, c) = tt
      answered (false, out, c) = h

  unless_zero-Proper :
      {A : Type 0} (b : Bool) (value : A) (call : Exec Ctx A)
      → ThrowsProper call
      → ThrowsProper (λ c. if b then (ok value, c) else call c)
  unless_zero-Proper true value call h c = tt
  unless_zero-Proper false value call h c = h c

  update_aad-Proper : (aad : List ℕ) → ThrowsProper (update_aad evp aad)
  unfolding update_aad
  update_aad-Proper aad = >>=-Proper _ _ (lift-Throws Proper _ (int_size-Proper aad "AAD")) (λ size.
      unless_zero-Proper (size == 0) tt _
        (require-Proper gcm_failed (evp.aad_update aad) gcm_failed-Proper))

  initialize_encrypt-Proper :
      (file_key nonce : List ℕ) → ThrowsProper (initialize_encrypt evp file_key nonce)
  unfolding initialize_encrypt
  initialize_encrypt-Proper file_key nonce =
      search (>>=-Proper, require-Proper, require_bytes-Proper, gcm_failed-Proper)

  initialize_decrypt-Proper :
      (file_key nonce : List ℕ) → ThrowsProper (initialize_decrypt evp file_key nonce)
  unfolding initialize_decrypt
  initialize_decrypt-Proper file_key nonce =
      search (>>=-Proper, require-Proper, require_bytes-Proper, gcm_failed-Proper)

  encrypt_in_context-Proper :
      (n : ℕ) (plaintext file_key nonce aad : List ℕ)
      → ThrowsProper (encrypt_in_context evp n plaintext file_key nonce aad)
  unfolding encrypt_in_context encrypt_text
  encrypt_in_context-Proper n plaintext file_key nonce aad =
      search
        (
          >>=-Proper, require-Proper, require_bytes-Proper, gcm_failed-Proper, not_authentic-Proper,
          unless_zero-Proper, update_aad-Proper, raise_if-Proper, pure-Proper,
          initialize_encrypt-Proper,
        )
        depth 16

  decrypt_in_context-Proper :
      (n : ℕ) (ciphertext tag file_key nonce aad : List ℕ)
      → ThrowsProper (decrypt_in_context evp n ciphertext tag file_key nonce aad)
  unfolding decrypt_in_context decrypt_text
  decrypt_in_context-Proper n ciphertext tag file_key nonce aad =
      search
        (
          >>=-Proper, require-Proper, require_bytes-Proper, gcm_failed-Proper, not_authentic-Proper,
          unless_zero-Proper, update_aad-Proper, raise_if-Proper, pure-Proper,
          initialize_decrypt-Proper,
        )
        depth 16

  make_context-Proper : Only Proper (make_context evp)
  unfolding make_context
  make_context-Proper = found evp.ctx_new evp.has_aes_256_gcm
    where
      found :
          (o : Option Ctx) (b : Bool)
          → Only Proper (elim o [
            | none ↦ err gcm_failed
            | some context ↦ if b then ok context else err gcm_failed
          ])
      found none b = gcm_failed-Proper
      found (some context) true = tt
      found (some context) false = gcm_failed-Proper

  -- A size that is tested, and a context that is made, in front of the calls on it.
  in_context-Proper :
      {A : Type 0} (size : Result ℕ) (context : Result Ctx) (run : ℕ → Exec Ctx A)
      → Only Proper size
      → Only Proper context
      → ((n : ℕ) → ThrowsProper (run n))
      → Only Proper
          (elim size [ err e ↦ err e | ok n ↦ elim context [ err e ↦ err e | ok c ↦ (run n c).0 ] ])
  in_context-Proper (err e) context run h k calls = h
  in_context-Proper (ok n) (err e) run h k calls = k
  in_context-Proper (ok n) (ok c) run h k calls = calls n c

  pub encrypt_chunk-Proper :
      (plaintext file_key nonce aad : List ℕ)
      → Only Proper (encrypt_chunk evp plaintext file_key nonce aad)
  unfolding encrypt_chunk
  encrypt_chunk-Proper plaintext file_key nonce aad =
      in_context-Proper (int_size plaintext "plaintext") (make_context evp)
        (λ n. encrypt_in_context evp n plaintext file_key nonce aad)
        (int_size-Proper plaintext "plaintext") make_context-Proper
        (λ n. encrypt_in_context-Proper n plaintext file_key nonce aad)

  pub decrypt_chunk-Proper :
      (ciphertext tag file_key nonce aad : List ℕ)
      → Only Proper (decrypt_chunk evp ciphertext tag file_key nonce aad)
  unfolding decrypt_chunk
  decrypt_chunk-Proper ciphertext tag file_key nonce aad =
      in_context-Proper (int_size ciphertext "ciphertext") (make_context evp)
        (λ n. decrypt_in_context evp n ciphertext tag file_key nonce aad)
        (int_size-Proper ciphertext "ciphertext") make_context-Proper
        (λ n. decrypt_in_context-Proper n ciphertext tag file_key nonce aad)
