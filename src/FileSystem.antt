-- ===== src/FileSystem.antt =====
-- The calls of the operating system that src/file_io.cpp makes: POSIX `open`, `fdopen`, `fsync`,
-- `close` and `link`, the C streams, and the parts of std::filesystem and std::ifstream that ask the
-- system. They are a parameter.
pub mod Laws
use securekit.Prelude.{ℕ, Bool, Option, List}
use securekit.IoStream.{IStream}

abbrev pub FilePath : Type 0
FilePath = List ℕ

-- What a call answers that returns -1 with a cause: `exists_already` is EEXIST.
pub data Answer (A : Type 0) : Type 0 where
  done : A → Answer A
  exists_already fails : Answer A

pub record FileSystem : Type 1 where
  pub System : Type 0
  -- descriptors, and `FILE *`
  pub Fd : Type 0
  pub File : Type 0
  -- `open(path, O_WRONLY | O_CREAT | O_EXCL, 0600)`
  pub open_exclusive : FilePath → System → Answer Fd × System
  -- `open(path, O_RDONLY)` of a directory
  pub open_directory : FilePath → System → Option Fd × System
  -- whether `fsync` and `close` return 0
  pub fsync : Fd → System → Bool × System
  pub close : Fd → System → Bool × System
  pub link : FilePath → FilePath → System → Answer (Unit {0}) × System
  pub fdopen : Fd → System → Option File × System
  pub fileno : File → Fd
  -- how many bytes `fwrite` wrote
  pub fwrite : List ℕ → File → System → ℕ × System
  -- whether `fflush` and `fclose` return 0
  pub fflush : File → System → Bool × System
  pub fclose : File → System → Bool × System
  -- `std::filesystem::exists`, `none` if it sets the error code
  pub exists : FilePath → System → Option Bool
  -- `std::filesystem::remove`, whose result is ignored
  pub remove : FilePath → System → System
  -- `std::ifstream`, `none` if it is not good after it was opened
  pub ifstream : FilePath → System → Option IStream
  pub parent_path : FilePath → FilePath
