-- ===== src/FileIo.antt =====
-- src/file_io.cpp: output files, unique temporary files, and their commit under the final path by a
-- hard link, as on Unix.
pub mod Frames
pub mod Temporaries
pub mod Commits
pub mod Tracking
pub mod Leftovers
use securekit.Prelude.{
  ℕ, zero, suc, ◌/◌, ◌^◌, Bool, true, false, ◌&&◌, Option, none, some, List, [], ◌∷◌, ◌++◌, length,
  codes, get_or, bit_and, ◌==◌, if◌then◌else◌, String,
}
use securekit.Errors.{Error, error, Result, ok, err, backend_failure, invalid_input}
use securekit.Exec.{Exec, pure, raise, raise_if, ◌>>=◌, ◌>>◌}
use securekit.Random.{Generator, random_bytes}
use securekit.IoStream.{IStream, Sink, write_failed}
use securekit.FileSystem.{FileSystem, FilePath, Answer, done, exists_already, fails}

-- `file` is `none` for the null pointer: nothing is open.
pub record OutputFile (File : Type 0) : Type 0 where
  pub path : FilePath
  pub file : Option File

pub data ExclusiveOpenResult (File : Type 0) : Type 0 where
  opened : OutputFile File → ExclusiveOpenResult File
  already_exists failed : ExclusiveOpenResult File

-- `throw_backend_failure`
abbrev pub backend : String → Error
backend message = error backend_failure message

abbrev pub output_exists : Error
output_exists = error invalid_input "Output file already exists"

abbrev hex_digits : List ℕ
hex_digits = codes "0123456789abcdef"

unfoldable pub token_digits : List ℕ → List ℕ
token_digits [] = []
token_digits (value ∷ token) =
    get_or hex_digits (bit_and (value / 2 ^ 4) 0x0f) 0
    ∷ get_or hex_digits (bit_and value 0x0f) 0
    ∷ token_digits token

abbrev pub temp_path_of : FilePath → List ℕ → FilePath
temp_path_of output token = output ++ (codes ".securekit." ++ (token_digits token ++ codes ".tmp"))

module _ (os : FileSystem) where
  open os use {
    System, Fd, File, open_exclusive, open_directory, fsync, close, link, fdopen, fileno, fwrite,
    fflush, fclose, exists, remove, ifstream, parent_path,
  }

  abbrev pub Out : Type 0
  Out = OutputFile File × System

  -- Behind a call that must write `expected` bytes.
  abbrev pub after_write : ℕ → OutputFile File → ℕ × System → Result (Unit {0}) × Out
  after_write expected out (count, s) =
      (if count == expected then ok tt else err write_failed, (out, s))

  -- A null file is never written: `write` is called before `close` only.
  abbrev pub write_file : List ℕ → OutputFile File → Option File → System → Result (Unit {0}) × Out
  write_file data_bytes out none s = (err write_failed, (out, s))
  write_file data_bytes out (some file) s =
      after_write (length data_bytes) out (fwrite data_bytes file s)

  -- `OutputFile::write`
  unfoldable pub write_output : List ℕ → Exec Out (Unit {0})
  write_output data_bytes (out, s) =
      if length data_bytes == 0 then (ok tt, (out, s)) else write_file data_bytes out out.file s

  abbrev pub output_sink : Sink
  output_sink = record { Out = Out; write_all = write_output }

  abbrev pub closed : OutputFile File → OutputFile File
  closed out = record { path = out.path; file = none }

  abbrev pub after_close : OutputFile File → Bool × System → Result (Unit {0}) × Out
  after_close out (fine, s) = (if fine then ok tt else err write_failed, (closed out, s))

  abbrev pub close_file : OutputFile File → Option File → System → Result (Unit {0}) × Out
  close_file out none s = (ok tt, (out, s))
  close_file out (some file) s = after_close out (fclose file s)

  -- `OutputFile::close`
  unfoldable pub close_output : Exec Out (Unit {0})
  close_output (out, s) = close_file out out.file s

  abbrev pub sync_file : OutputFile File → File → Bool × System → Result (Unit {0}) × Out
  sync_file out file (false, s) = (err write_failed, (out, s))
  sync_file out file (true, s) =
      let (fine, s') = fsync (fileno file) s in
      (if fine then ok tt else err write_failed, (out, s'))

  abbrev pub flush_file : OutputFile File → Option File → System → Result (Unit {0}) × Out
  flush_file out none s = (ok tt, (out, s))
  flush_file out (some file) s = sync_file out file (fflush file s)

  -- `OutputFile::flush`
  unfoldable pub flush : Exec Out (Unit {0})
  flush (out, s) = flush_file out out.file s

  abbrev pub quiet_file : OutputFile File → Option File → System → Out
  quiet_file out none s = (out, s)
  quiet_file out (some file) s = (closed out, (fclose file s).1)

  -- `OutputFile::close_quietly`, which `discard` and the destructor call.
  unfoldable pub close_quietly : Out → Out
  close_quietly (out, s) = quiet_file out out.file s

  unfoldable pub discard : Out → Out
  unfolding close_quietly
  discard out = close_quietly out

  abbrev pub opened_input : Option IStream → Exec System IStream
  opened_input none s = (err (backend "File open failed"), s)
  opened_input (some input) s = (ok input, s)

  unfoldable pub open_input : FilePath → Exec System IStream
  open_input path s = opened_input (ifstream path s) s

  -- Behind `fdopen`: the descriptor is closed if there is no stream for it.
  abbrev pub wrap_fd : FilePath → Fd → Option File × System → ExclusiveOpenResult File × System
  wrap_fd path fd (none, s) = (failed, (close fd s).1)
  wrap_fd path fd (some file, s) = (opened (record { path = path; file = some file }), s)

  abbrev pub after_open : FilePath → Answer Fd × System → ExclusiveOpenResult File × System
  after_open path (done fd, s) = wrap_fd path fd (fdopen fd s)
  after_open path (exists_already, s) = (already_exists, s)
  after_open path (fails, s) = (failed, s)

  unfoldable pub try_open_output_exclusive : FilePath → System → ExclusiveOpenResult File × System
  try_open_output_exclusive path s = after_open path (open_exclusive path s)

  abbrev pub directory_of : FilePath → FilePath
  directory_of path = if length (parent_path path) == 0 then codes "." else parent_path path

  -- Behind `open` of the directory.
  abbrev pub after_directory : Option Fd × System → Result (Unit {0}) × System
  after_directory (none, s) = (err (backend "Directory open failed"), s)
  after_directory (some fd, s) =
      let (synced, s1) = fsync fd s in
      let (closed, s2) = close fd s1 in
      (if synced && closed then ok tt else err (backend "Directory sync failed"), s2)

  unfoldable pub flush_parent_directory : FilePath → Exec System (Unit {0})
  flush_parent_directory path s = after_directory (open_directory (directory_of path) s)

  -- Behind `std::filesystem::exists`.
  abbrev pub after_exists : Option Bool → Exec System (Unit {0})
  after_exists none s = (err (backend "File status check failed"), s)
  after_exists (some true) s = (err output_exists, s)
  after_exists (some false) s = (ok tt, s)

  unfoldable pub ensure_output_does_not_exist : FilePath → Exec System (Unit {0})
  ensure_output_does_not_exist output s = after_exists (exists output s) s

  unfoldable pub remove_quietly : FilePath → System → System
  remove_quietly path s = remove path s

  abbrev pub after_link :
      FilePath → FilePath → Answer (Unit {0}) × System → Result (Unit {0}) × System
  after_link temp_path output (done tt, s) =
      flush_parent_directory output (remove_quietly temp_path s)
  after_link temp_path output (exists_already, s) = (err output_exists, s)
  after_link temp_path output (fails, s) = (err (backend "File rename failed"), s)

  unfoldable pub commit_temp_file : FilePath → FilePath → Exec System (Unit {0})
  commit_temp_file temp_path output s = after_link temp_path output (link temp_path output s)

  module _ (gen : Generator) where
    open gen use {Source}

    abbrev pub World : Type 0
    World = Source × System

    unfoldable pub make_unique_temp_path : FilePath → Exec Source FilePath
    make_unique_temp_path output = do token ← random_bytes gen 16; pure (temp_path_of output token)

    abbrev pub from_source : {A : Type 0} → Exec Source A → Exec World A
    from_source m (source, s) = let (r, source') = m source in (r, (source', s))

    abbrev pub from_system : {A : Type 0} → Exec System A → Exec World A
    from_system m (source, s) = let (r, s') = m s in (r, (source, s'))

    abbrev pub attempt_open : FilePath → Exec World (ExclusiveOpenResult File)
    attempt_open path (source, s) =
        let (result, s') = try_open_output_exclusive path s in (ok result, (source, s'))

    -- The loop of `open_unique_temp_output`, over the attempts that are left.
    unfoldable pub open_attempts : ℕ → FilePath → Exec World (OutputFile File)
    open_attempts zero output = raise (backend "Temporary file creation failed")
    open_attempts (suc attempts) output =
        let rest = open_attempts attempts output in
        do
          temp_path ← from_source (make_unique_temp_path output)
          result ← attempt_open temp_path
          elim result [
            | opened temp ↦ pure temp
            | failed ↦ raise (backend "File open failed")
            | already_exists ↦ rest
          ]

    unfoldable pub open_unique_temp_output : FilePath → Exec World (OutputFile File)
    unfolding open_attempts
    open_unique_temp_output output = open_attempts 32 output
