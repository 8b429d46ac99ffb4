-- ===== src/Files/Frames.antt =====
-- The payload functions touch their output through `write_all` only: a relation between outputs that
-- writes keep is kept by them, also where they throw.
use securekit.Prelude.{ℕ, zero, suc, ◌+◌, Bool, true, false, List, length, if◌then◌else◌}
use securekit.Errors.{Error, Result, err}
use securekit.Exec.{Exec, lift, raise_if, ◌>>=◌}
use securekit.Exec.Keeps.{Keeps, >>=-Keeps, raise_if-Keeps}
use securekit.Evp.{Evp}
use securekit.Hash.{Hashing}
use securekit.IoStream.{IStream, Sink}
use securekit.Files.{open_file, open_file_with_password}
use securekit.FileStream.{
  Io, on_input, on_output, write_chunk, seal_chunk, seal_loop, seal_stream_payload, open_chunk,
  open_loop, open_file_payload, read_plaintext, read_chunk, out_of_fuel,
}

module _ (evp : Evp) (sink : Sink) (R : sink.Out → sink.Out → Type 0)
    (R-refl : (o : sink.Out) → R o o) (R-trans : (o p q : sink.Out) → R o p → R p q → R o q)
    (write-Keeps : (x : List ℕ) → Keeps R (sink.write_all x)) where
  -- The relation on the output beside any input.
  abbrev pub Beside : Io evp sink → Io evp sink → Type 0
  Beside s t = R s.1 t.1

  bind_out :
      {A B : Type 0} (m : Exec sink.Out A) (next : A → Exec sink.Out B)
      → Keeps R m
      → ((a : A) → Keeps R (next a))
      → Keeps R (m >>= next)
  bind_out = >>=-Keeps R R-refl R-trans

  bind :
      {A B : Type 0} (m : Exec (Io evp sink) A) (next : A → Exec (Io evp sink) B)
      → Keeps Beside m
      → ((a : A) → Keeps Beside (next a))
      → Keeps Beside (m >>= next)
  bind = >>=-Keeps Beside (λ s. R-refl s.1) (λ s t u. R-trans s.1 t.1 u.1)

  returns : {A : Type 0} (r : Result A) → Keeps Beside (lift r)
  returns r s = R-refl s.1

  thrown_if : (b : Bool) (e : Error) → Keeps Beside (raise_if b e)
  thrown_if = raise_if-Keeps Beside (λ s. R-refl s.1) (λ s t u. R-trans s.1 t.1 u.1)

  branch :
      {A : Type 0} (b : Bool) (m n : Exec (Io evp sink) A)
      → Keeps Beside m
      → Keeps Beside n
      → Keeps Beside (if b then m else n)
  branch true m n h k = h
  branch false m n h k = k

  input-Keeps : {A : Type 0} (m : Exec IStream A) → Keeps Beside (on_input evp sink m)
  input-Keeps m s = R-refl s.1

  output-Keeps : (m : Exec sink.Out (Unit {0})) → Keeps R m → Keeps Beside (on_output evp sink m)
  output-Keeps m h s = h s.1

  module _ (header prefix key aad : List ℕ) where
    write_chunk-Keeps :
        (i : ℕ) (plaintext : List ℕ) (is_final : Bool)
        → Keeps R (write_chunk evp sink header prefix key aad i plaintext is_final)
    unfolding write_chunk
    write_chunk-Keeps i plaintext is_final = search (bind_out, R-refl, write-Keeps)

    seal_chunk-Keeps : (i : ℕ) → Keeps Beside (seal_chunk evp sink header prefix key aad i)
    unfolding seal_chunk
    seal_chunk-Keeps i =
        search (bind, input-Keeps read_plaintext, output-Keeps, write_chunk-Keeps, thrown_if)

    seal_loop-Keeps : (fuel i : ℕ) → Keeps Beside (seal_loop evp sink header prefix key aad fuel i)
    unfolding seal_loop
    seal_loop-Keeps zero i = returns {A = Unit {0}} (err out_of_fuel)
    seal_loop-Keeps (suc fuel) i =
        search (bind, seal_chunk-Keeps i, branch, returns, seal_loop-Keeps fuel (i + 1))

    pub seal_stream_payload-Keeps :
        Keeps Beside (seal_stream_payload evp sink header prefix key aad)
    unfolding seal_stream_payload
    seal_stream_payload-Keeps (input, out) =
        bind (on_output evp sink (sink.write_all header))
          (λ _. seal_loop evp sink header prefix key aad (length input.rest + 1) 0)
          (output-Keeps (sink.write_all header) (write-Keeps header))
          (λ _. seal_loop-Keeps (length input.rest + 1) 0) (input, out)

    open_chunk-Keeps : (i : ℕ) → Keeps Beside (open_chunk evp sink header prefix key aad i)
    unfolding open_chunk
    open_chunk-Keeps i = search (
      bind,
      input-Keeps (read_chunk evp header prefix key aad i),
      output-Keeps,
      write-Keeps,
      thrown_if,
    )

    open_loop-Keeps : (fuel i : ℕ) → Keeps Beside (open_loop evp sink header prefix key aad fuel i)
    unfolding open_loop
    open_loop-Keeps zero i = returns {A = Unit {0}} (err out_of_fuel)
    open_loop-Keeps (suc fuel) i =
        search (bind, open_chunk-Keeps i, branch, returns, open_loop-Keeps fuel (i + 1))

    pub open_file_payload-Keeps : Keeps Beside (open_file_payload evp sink header prefix key aad)
    unfolding open_file_payload
    open_file_payload-Keeps s = open_loop-Keeps (length s.0.rest + 1) 0 s

  module _ (hashing : Hashing) where
    pub open_file-Keeps : (key aad : List ℕ) → Keeps Beside (open_file evp sink hashing key aad)
    unfolding open_file
    open_file-Keeps key aad = search (bind, input-Keeps, returns, open_file_payload-Keeps)

    pub open_file_with_password-Keeps :
        (password aad : List ℕ)
        → Keeps Beside (open_file_with_password evp sink hashing password aad)
    unfolding open_file_with_password
    open_file_with_password-Keeps password aad =
        search (bind, input-Keeps, returns, open_file_payload-Keeps)
