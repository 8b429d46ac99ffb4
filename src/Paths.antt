-- ===== src/Paths.antt =====
-- src/file.cpp: the overloads of sealing and opening that take paths. They write to a temporary file
-- beside the output, and commit it when everything has succeeded.
pub mod Attempts
pub mod Calls
pub mod Safety
pub mod Refinement
pub mod Streams
use securekit.Prelude.{ℕ, List}
use securekit.Errors.{Result, ok, err}
use securekit.Exec.{Exec, lift, ◌>>=◌, ◌>>◌}
use securekit.Evp.{Evp}
use securekit.Hash.{Hashing}
use securekit.Random.{Generator}
use securekit.FileCrypto.{
  make_header, make_password_header, derive_file_key, require_non_empty_password,
  derive_password_file_key,
}
use securekit.IoStream.{IStream}
use securekit.FileStream.{seal_stream_payload}
use securekit.FileSystem.{FileSystem, FilePath}
use securekit.FileIo.{
  OutputFile, Out, output_sink, open_input, flush, close_output, close_quietly, discard,
  remove_quietly, commit_temp_file, ensure_output_does_not_exist, open_unique_temp_output, World,
  from_source, from_system,
}
use securekit.Files.{open_file, open_file_with_password}

module _ (os : FileSystem) where
  open os use {System, File}

  abbrev pub on_system : {A : Type 0} → Exec System A → Exec (Out os) A
  on_system m (out, s) = let (r, s') = m s in (r, (out, s'))

  -- The payload with the input that was opened.
  abbrev pub with_input : Exec (IStream × Out os) (Unit {0}) → IStream → Exec (Out os) (Unit {0})
  with_input payload input out = let (r, io) = payload (input, out) in (r, io.1)

  -- The `try` block that each of the path functions has, up to the commit: `payload` is what
  -- differs.
  unfoldable pub write_temp :
      FilePath → Exec (IStream × Out os) (Unit {0}) → Exec (Out os) (Unit {0})
  write_temp input payload = do
    source ← on_system (open_input os input)
    with_input payload source
    flush os
    close_output os

  unfoldable pub attempt :
      FilePath → FilePath → FilePath → Exec (IStream × Out os) (Unit {0}) → Exec (Out os) (Unit {0})
  attempt temp_path input output payload = do
    write_temp input payload
    on_system (commit_temp_file os temp_path output)

  -- The end of the function: the destructor, or the `catch` block and its `throw`.
  unfoldable pub finish : FilePath → Result (Unit {0}) × Out os → Result (Unit {0}) × System
  finish temp_path (ok done, out) = (ok done, (close_quietly os out).1)
  finish temp_path (err thrown, out) = (err thrown, remove_quietly os temp_path (discard os out).1)

  module _ (gen : Generator) (hashing : Hashing) (evp : Evp) where
    unfoldable pub run_attempt :
        FilePath
        → FilePath
        → Exec (IStream × Out os) (Unit {0})
        → OutputFile File
        → Exec (World os gen) (Unit {0})
    run_attempt input output payload out (source, s) =
        let (r, s') = finish out.path (attempt out.path input output payload (out, s)) in
        (r, (source, s'))

    unfoldable pub through_temp :
        FilePath → FilePath → Exec (IStream × Out os) (Unit {0}) → Exec (World os gen) (Unit {0})
    through_temp input output payload = do
      out ← open_unique_temp_output os gen output
      run_attempt input output payload out

    unfoldable pub seal_file_payload :
        FilePath → FilePath → List ℕ → List ℕ → List ℕ → List ℕ → Exec (World os gen) (Unit {0})
    seal_file_payload input output serialized_header nonce_prefix file_key aad =
        through_temp input output
          (seal_stream_payload evp (output_sink os) serialized_header nonce_prefix file_key aad)

    unfoldable pub seal_path :
        FilePath → FilePath → List ℕ → List ℕ → Exec (World os gen) (Unit {0})
    seal_path input output key aad = do
      from_system os gen (ensure_output_does_not_exist os output)
      header ← from_source os gen (make_header gen)
      file_key ← lift (derive_file_key hashing key header)
      seal_file_payload input output header.serialized header.nonce_prefix file_key aad

    unfoldable pub seal_path_with_password :
        FilePath → FilePath → List ℕ → List ℕ → Exec (World os gen) (Unit {0})
    seal_path_with_password input output password aad = do
      lift (require_non_empty_password password)
      from_system os gen (ensure_output_does_not_exist os output)
      header ← from_source os gen (make_password_header gen)
      file_key ← lift (derive_password_file_key hashing password header)
      seal_file_payload input output header.serialized header.nonce_prefix file_key aad

    -- Behind `open_input`, the code of the two that follow is that of the stream overloads.
    unfoldable pub open_path :
        FilePath → FilePath → List ℕ → List ℕ → Exec (World os gen) (Unit {0})
    open_path input output key aad = do
      from_system os gen (ensure_output_does_not_exist os output)
      through_temp input output (open_file evp (output_sink os) hashing key aad)

    -- The test on the password in the payload passes, as it has passed before.
    unfoldable pub open_path_with_password :
        FilePath → FilePath → List ℕ → List ℕ → Exec (World os gen) (Unit {0})
    open_path_with_password input output password aad = do
      lift (require_non_empty_password password)
      from_system os gen (ensure_output_does_not_exist os output)
      through_temp input output (open_file_with_password evp (output_sink os) hashing password aad)

    -- A call of one of the four: the input, the output, the key or the password, and the
    -- associated data.
    pub data Call : Type 0 where
      sealing opening password_sealing password_opening :
          FilePath → FilePath → List ℕ → List ℕ → Call

    unfoldable pub perform : Call → Exec (World os gen) (Unit {0})
    perform (sealing input output key aad) = seal_path input output key aad
    perform (opening input output key aad) = open_path input output key aad
    perform (password_sealing input output password aad) =
        seal_path_with_password input output password aad
    perform (password_opening input output password aad) =
        open_path_with_password input output password aad
