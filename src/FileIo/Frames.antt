-- ===== src/FileIo/Frames.antt =====
-- What the steps on an output file leave alone: every file but the one that they write to.
use securekit.Prelude.{
  ℕ, ◌≡◌, ◌≢◌, refl, ◌∙◌, Bool, true, false, Option, none, some, List, length, ◌==◌, Bool-cases,
  inl, inr,
}
use securekit.Exec.Keeps.{Keeps}
use securekit.FileSystem.{FileSystem, FilePath}
use securekit.FileSystem.Laws.{IsFileSystem}
use securekit.FileIo.{
  OutputFile, Out, write_output, write_file, flush, sync_file, flush_file, close_output, close_file,
  close_quietly, quiet_file, closed,
}

module _ (os : FileSystem) (law : IsFileSystem os) where
  open os use {System, File}
  open law use {contents, file_path}

  -- The files under all other paths are the same.
  abbrev pub SameBut : FilePath → System → System → Type 0
  SameBut p s s' = (q : FilePath) → q ≢ p → contents s' q ≡ contents s q

  -- The open file is the one under the path.
  abbrev pub IsBound : OutputFile File → Type 0
  IsBound out = (file : File) → out.file ≡ some file → file_path file ≡ out.path

  abbrev pub Within : Out os → Out os → Type 0
  Within o o' = IsBound o.0 → (o'.0.path ≡ o.0.path) × IsBound o'.0 × SameBut o.0.path o.1 o'.1

  pub Within-refl : (o : Out os) → Within o o
  Within-refl o bound = (refl, bound, λ q other. refl)

  pub Within-trans : (o p q : Out os) → Within o p → Within p q → Within o q
  Within-trans o p q first second bound =
      let (e, b, f) = first bound in
      let (e', b', f') = second b in (e' ∙ e, b', λ r other. f' r (λ k. other (k ∙ e)) ∙ f r other)

  -- A step that may change the file that is open.
  touch :
      (out out' : OutputFile File) (file : File) (s s' : System)
      → out.file ≡ some file
      → out'.path ≡ out.path
      → (IsBound out → IsBound out')
      → ((q : FilePath) → q ≢ file_path file → contents s' q ≡ contents s q)
      → Within (out, s) (out', s')
  touch out out' file s s' has path still frame bound =
      (path, still bound, λ q other. frame q (λ e. other (e ∙ bound file has)))

  write_file-Within :
      (x : List ℕ) (out : OutputFile File) (o : Option File) (s : System)
      → out.file ≡ o
      → Within (out, s) (write_file os x out o s).1
  write_file-Within x out none s has = Within-refl (out, s)
  write_file-Within x out (some file) s has =
      touch out out file s (os.fwrite x file s).1 has refl (λ b. b) (law.fwrite_frame x file s)

  pub write_output-Within : (x : List ℕ) → Keeps Within (write_output os x)
  unfolding write_output
  write_output-Within x (out, s) = elim (Bool-cases (length x == 0)) [
    | inl none_left ↦ rw none_left (Within-refl (out, s))
    | inr more ↦ rw more (write_file-Within x out out.file s refl)
  ]

  sync_file-Within :
      (out : OutputFile File) (file : File) (r : Bool × System) (s : System)
      → Within (out, s) (out, r.1)
      → Within (out, s) (sync_file os out file r).1
  sync_file-Within out file (false, t) s h = h
  sync_file-Within out file (true, t) s h =
      Within-trans (out, s) (out, t) _ h
        λ b. (refl, b, λ q other. law.fsync_frame (os.fileno file) t q)

  flush_file-Within :
      (out : OutputFile File) (o : Option File) (s : System)
      → out.file ≡ o
      → Within (out, s) (flush_file os out o s).1
  flush_file-Within out none s has = Within-refl (out, s)
  flush_file-Within out (some file) s has =
      sync_file-Within out file (os.fflush file s) s
        (touch out out file s (os.fflush file s).1 has refl (λ b. b) (law.fflush_frame file s))

  pub flush-Within : Keeps Within (flush os)
  unfolding flush
  flush-Within (out, s) = flush_file-Within out out.file s refl

  closed-IsBound : (out : OutputFile File) → IsBound (closed os out)
  closed-IsBound out file h = absurd (none≢some h)
    where
      none≢some : none ≡ some file → ⊥
      none≢some h = cc

  close_file-Within :
      (out : OutputFile File) (o : Option File) (s : System)
      → out.file ≡ o
      → Within (out, s) (close_file os out o s).1
  close_file-Within out none s has = Within-refl (out, s)
  close_file-Within out (some file) s has =
      touch out (closed os out) file s (os.fclose file s).1 has refl (λ b. closed-IsBound out)
        (law.fclose_frame file s)

  pub close_output-Within : Keeps Within (close_output os)
  unfolding close_output
  close_output-Within (out, s) = close_file-Within out out.file s refl

  quiet_file-Within :
      (out : OutputFile File) (o : Option File) (s : System)
      → out.file ≡ o
      → Within (out, s) (quiet_file os out o s)
  quiet_file-Within out none s has = Within-refl (out, s)
  quiet_file-Within out (some file) s has =
      touch out (closed os out) file s (os.fclose file s).1 has refl (λ b. closed-IsBound out)
        (law.fclose_frame file s)

  pub close_quietly-Within : (o : Out os) → Within o (close_quietly os o)
  unfolding close_quietly
  close_quietly-Within (out, s) = quiet_file-Within out out.file s refl
