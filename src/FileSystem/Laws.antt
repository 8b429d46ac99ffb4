-- ===== src/FileSystem/Laws.antt =====
-- What is asked of the operating system: which files a call can change, and what a call that
-- succeeds has done. Any call may fail at any time, if its answer says so.
use securekit.Prelude.{ℕ, ◌≡◌, ◌≢◌, true, Option, none, some, List, [], ◌++◌, length}
use securekit.FileSystem.{FileSystem, FilePath, done, exists_already, fails}

-- `contents` is what a reader finds under a path. A file is attached while it is open under the path
-- by which it was created, and `written` is what was written to it.
pub record IsFileSystem (os : FileSystem) : Type 1 where
  pub contents : os.System → FilePath → Option (List ℕ)
  pub fd_path : os.Fd → FilePath
  pub file_path : os.File → FilePath
  pub written : os.File → os.System → List ℕ
  pub Attached : os.File → os.System → Type 0
  pub exclusive_done :
      (p : FilePath) (s s' : os.System) (fd : os.Fd)
      → os.open_exclusive p s ≡ (done fd, s')
      → (contents s p ≡ none)
        × (contents s' p ≡ some [])
        × (fd_path fd ≡ p)
        × ((q : FilePath) → q ≢ p → contents s' q ≡ contents s q)
  pub exclusive_exists :
      (p : FilePath) (s s' : os.System)
      → os.open_exclusive p s ≡ (exists_already, s')
      → (q : FilePath) → contents s' q ≡ contents s q
  pub exclusive_fails :
      (p : FilePath) (s s' : os.System)
      → os.open_exclusive p s ≡ (fails, s')
      → (q : FilePath) → contents s' q ≡ contents s q
  pub directory_frame :
      (p : FilePath) (s : os.System) (q : FilePath)
      → contents (os.open_directory p s).1 q ≡ contents s q
  pub fsync_frame :
      (fd : os.Fd) (s : os.System) (q : FilePath) → contents (os.fsync fd s).1 q ≡ contents s q
  pub fsync_keeps :
      (fd : os.Fd) (s : os.System) (file : os.File)
      → Attached file s
      → Attached file (os.fsync fd s).1 × (written file (os.fsync fd s).1 ≡ written file s)
  pub close_frame :
      (fd : os.Fd) (s : os.System) (q : FilePath) → contents (os.close fd s).1 q ≡ contents s q
  pub link_done :
      (p q : FilePath) (s s' : os.System)
      → os.link p q s ≡ (done tt, s')
      → (contents s q ≡ none)
        × (contents s' q ≡ contents s p)
        × ((r : FilePath) → r ≢ q → contents s' r ≡ contents s r)
  pub link_exists :
      (p q : FilePath) (s s' : os.System)
      → os.link p q s ≡ (exists_already, s')
      → (r : FilePath) → contents s' r ≡ contents s r
  pub link_fails :
      (p q : FilePath) (s s' : os.System)
      → os.link p q s ≡ (fails, s')
      → (r : FilePath) → contents s' r ≡ contents s r
  pub fdopen_frame :
      (fd : os.Fd) (s : os.System) (q : FilePath) → contents (os.fdopen fd s).1 q ≡ contents s q
  pub fdopen_some :
      (fd : os.Fd) (s s' : os.System) (file : os.File)
      → os.fdopen fd s ≡ (some file, s')
      → contents s (fd_path fd) ≡ some []
      → (file_path file ≡ fd_path fd) × Attached file s' × (written file s' ≡ [])
  pub fwrite_frame :
      (x : List ℕ) (file : os.File) (s : os.System) (q : FilePath)
      → q ≢ file_path file
      → contents (os.fwrite x file s).1 q ≡ contents s q
  pub fwrite_all :
      (x : List ℕ) (file : os.File) (s s' : os.System)
      → os.fwrite x file s ≡ (length x, s')
      → Attached file s
      → Attached file s' × (written file s' ≡ written file s ++ x)
  pub fflush_frame :
      (file : os.File) (s : os.System) (q : FilePath)
      → q ≢ file_path file
      → contents (os.fflush file s).1 q ≡ contents s q
  pub fflush_keeps :
      (file : os.File) (s : os.System)
      → Attached file s
      → Attached file (os.fflush file s).1 × (written file (os.fflush file s).1 ≡ written file s)
  pub fclose_frame :
      (file : os.File) (s : os.System) (q : FilePath)
      → q ≢ file_path file
      → contents (os.fclose file s).1 q ≡ contents s q
  pub fclose_done :
      (file : os.File) (s s' : os.System)
      → os.fclose file s ≡ (true, s')
      → Attached file s
      → contents s' (file_path file) ≡ some (written file s)
  pub remove_frame :
      (p : FilePath) (s : os.System) (q : FilePath)
      → q ≢ p
      → contents (os.remove p s) q ≡ contents s q
