-- ===== src/Files.antt =====
-- src/file.cpp: the stream overloads of sealing and opening, with a key and with a password.
pub mod Frames
pub mod Simulation
pub mod Keyed
pub mod Password
use securekit.Prelude.{ℕ, List}
use securekit.Errors.{Result, ok, err}
use securekit.Exec.{Exec, lift, ◌>>=◌, ◌>>◌}
use securekit.Evp.{Evp}
use securekit.Hash.{Hashing}
use securekit.Random.{Generator}
use securekit.FileFormat.{header_size, password_header_size, parse_header, parse_password_header}
use securekit.FileCrypto.{
  make_header, make_password_header, derive_file_key, require_non_empty_password,
  derive_password_file_key,
}
use securekit.IoStream.{Sink}
use securekit.FileStream.{Io, on_input, require_exact, seal_stream_payload, open_file_payload}

module _ (evp : Evp) (sink : Sink) (hashing : Hashing) where
  module _ (gen : Generator) where
    open gen use {Source}

    abbrev pub on_source : {A : Type 0} → Exec Source A → Exec (Source × Io evp sink) A
    on_source m (source, io) = let (r, source') = m source in (r, (source', io))

    abbrev pub on_io : Exec (Io evp sink) (Unit {0}) → Exec (Source × Io evp sink) (Unit {0})
    on_io m (source, io) = let (r, io') = m io in (r, (source, io'))

    unfoldable pub seal_file : List ℕ → List ℕ → Exec (Source × Io evp sink) (Unit {0})
    seal_file key aad = do
      header ← on_source (make_header gen)
      file_key ← lift (derive_file_key hashing key header)
      on_io (seal_stream_payload evp sink header.serialized header.nonce_prefix file_key aad)

    unfoldable pub seal_file_with_password :
        List ℕ → List ℕ → Exec (Source × Io evp sink) (Unit {0})
    seal_file_with_password password aad = do
      lift (require_non_empty_password password)
      header ← on_source (make_password_header gen)
      file_key ← lift (derive_password_file_key hashing password header)
      on_io (seal_stream_payload evp sink header.serialized header.nonce_prefix file_key aad)

  unfoldable pub open_file : List ℕ → List ℕ → Exec (Io evp sink) (Unit {0})
  open_file key aad = do
    header_bytes ← on_input evp sink (require_exact header_size)
    header ← lift (parse_header header_bytes)
    file_key ← lift (derive_file_key hashing key header)
    open_file_payload evp sink header.serialized header.nonce_prefix file_key aad

  unfoldable pub open_file_with_password : List ℕ → List ℕ → Exec (Io evp sink) (Unit {0})
  open_file_with_password password aad = do
    lift (require_non_empty_password password)
    header_bytes ← on_input evp sink (require_exact password_header_size)
    header ← lift (parse_password_header header_bytes)
    file_key ← lift (derive_password_file_key hashing password header)
    open_file_payload evp sink header.serialized header.nonce_prefix file_key aad
