-- ===== src/Random.antt =====
-- src/random.cpp. OpenSSL's generator is a parameter: what it answers, and its state after a call.
pub mod Laws
use securekit.Prelude.{
  ℕ, zero, suc, ◌+◌, ◌-◌, ◌/◌, Bool, true, false, List, [], ◌++◌, min, ◌==◌, int_max, if◌then◌else◌,
}
use securekit.Errors.{Error, error, Result, ok, err, backend_failure, invalid_input}
use securekit.Exec.{Exec, pure, raise, lift, ◌>>=◌}
use securekit.Base64.{base64url_encode}

pub record Generator : Type 1 where
  pub Source : Type 0
  -- `RAND_bytes(buffer, n)`: whether it returned 1, and the bytes that it wrote
  pub rand_bytes : ℕ → Source → Bool × List ℕ × Source
  -- `RAND_priv_bytes`
  pub rand_priv_bytes : ℕ → Source → Bool × List ℕ × Source

abbrev pub rand_failed : Error
rand_failed = error backend_failure "OpenSSL RAND_bytes failed"

module _ (gen : Generator) where
  open gen use {Source, rand_bytes, rand_priv_bytes}

  -- A call that must return 1.
  abbrev drawn : Error → Bool × List ℕ × Source → Result (List ℕ) × Source
  drawn e (true, out, s) = (ok out, s)
  drawn e (false, out, s) = (err e, s)

  -- `while (size > 0)` of `fill_random`, with fuel for the rounds; `output` is what is written so far.
  unfoldable pub fill_loop : ℕ → ℕ → List ℕ → Exec Source (List ℕ)
  fill_loop zero size output = pure output
  fill_loop (suc fuel) size output = elim (size == 0) [
    | true ↦ pure output
    | false ↦ (do
      out ← λ s. drawn rand_failed (rand_bytes (min size int_max) s)
      fill_loop fuel (size - min size int_max) (output ++ out))
  ]

  -- A round takes `int_max` bytes off while there are so many.
  unfoldable pub fill_random : ℕ → Exec Source (List ℕ)
  unfolding fill_loop
  fill_random size = fill_loop (size / int_max + 1) size []

  unfoldable pub random_bytes : ℕ → Exec Source (List ℕ)
  unfolding fill_random
  random_bytes size = if size == 0 then pure [] else fill_random size

  unfoldable pub generate_key : Exec Source (List ℕ)
  generate_key s =
      drawn (error backend_failure "OpenSSL RAND_priv_bytes failed") (rand_priv_bytes 32 s)

  unfoldable pub random_token : ℕ → ℕ → Exec Source (List ℕ)
  random_token string_max byte_size =
      if byte_size == 0
      then raise (error invalid_input "random token byte size must be greater than zero")
      else do bytes ← random_bytes byte_size; lift (base64url_encode string_max bytes)
