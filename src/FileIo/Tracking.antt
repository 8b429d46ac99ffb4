-- ===== src/FileIo/Tracking.antt =====
-- An output file tracks a stream to which the same bytes were written.
use securekit.Prelude.{
  ℕ, ◌≡◌, refl, sym, ap, ◌∙◌, Bool, true, false, none, some, List, [], ◌++◌, length, append-nil,
  inl, inr, ◌⊎◌, ◌∷◌, arith,
}
use mathlib.Core.Path.{subst}
use securekit.Errors.{Result, ok, ok≢err}
use securekit.IoStream.{OStream, write_all}
use securekit.IoStream.Sinks.{IsOpen, stream, write_all-open}
use securekit.FileSystem.{FileSystem, FilePath}
use securekit.FileSystem.Laws.{IsFileSystem}
use securekit.FileIo.{
  OutputFile, Out, write_output, after_write, write_file, flush, sync_file, flush_file,
  close_output, close_file, closed, after_close,
}

module _ (os : FileSystem) (law : IsFileSystem os) where
  open os use {System, File}
  open law use {contents, file_path, written, Attached}

  abbrev pub Tracks : FilePath → Out os → OStream → Type 0
  Tracks p o out =
      ((file : File) × (o.0.file ≡ some file)
        × Attached file o.1
        × (written file o.1 ≡ out.written)
        × (file_path file ≡ p))
      × IsOpen out

  after_write_inv :
      (n : ℕ) (out : OutputFile File) (r : ℕ × System) (o' : Out os)
      → after_write os n out r ≡ (ok tt, o')
      → (r.0 ≡ n) × (o' ≡ (out, r.1))
  after_write_inv n out (count, s) o' e = ground (arith, e)

  write_inv :
      (x : List ℕ) (f : OutputFile File) (s : System) (o' : Out os)
      → write_output os x (f, s) ≡ (ok tt, o')
      → ((x ≡ []) × (o' ≡ (f, s))) ⊎ (write_file os x f f.file s ≡ (ok tt, o'))
  unfolding write_output
  write_inv [] f s o' e = inl (refl, sym (ap (λ (t : Result (Unit {0}) × Out os). t.1) e))
  write_inv (b ∷ x) f s o' e = inr (ground (arith, e))

  pub write_output-Tracks :
      (p : FilePath) (x : List ℕ) (o o' : Out os) (out : OStream)
      → Tracks p o out
      → write_output os x o ≡ (ok tt, o')
      → (out' : OStream) × (write_all x out ≡ (ok tt, out')) × Tracks p o' out'
  write_output-Tracks p x (f, s) o' out ((file, has, attached, same, path), (room, fine)) e = (
    stream (out.written ++ x) none false,
    write_all-open x out.written out.room out.bad room fine,
    (
      elim (write_inv x f s o' e) [
        | inl (nothing, still) ↦
            subst (λ (t : Out os). Tracked t) (sym still)
              (
                file,
                has,
                attached,
                same ∙ sym (append-nil out.written) ∙ ap (λ t. out.written ++ t) (sym nothing),
                path,
              )
        | inr wrote ↦
            let (all, after) =
              after_write_inv (length x) f (os.fwrite x file s) o'
                (ap (λ t. write_file os x f t s) (sym has) ∙ wrote) in
            let (attached', more) =
              law.fwrite_all x file s (os.fwrite x file s).1
                (ap (λ n. (n, (os.fwrite x file s).1)) all) attached in
            subst (λ (t : Out os). Tracked t) (sym after)
              (file, has, attached', more ∙ ap (λ t. t ++ x) same, path)
      ],
      (refl, refl),
    ),
  )
    where
      Tracked : Out os → Type 0
      Tracked t =
          (file : File) × (t.0.file ≡ some file)
          × Attached file t.1
          × (written file t.1 ≡ out.written ++ x)
          × (file_path file ≡ p)

  sync_file_inv :
      (f : OutputFile File) (file : File) (r : Bool × System) (o' : Out os)
      → sync_file os f file r ≡ (ok tt, o')
      → o' ≡ (f, (os.fsync (os.fileno file) r.1).1)
  sync_file_inv f file (false, s) o' e =
      absurd (ok≢err (sym (ap (λ (t : Result (Unit {0}) × Out os). t.0) e)))
  sync_file_inv f file (true, s) o' e = sym (ap (λ (t : Result (Unit {0}) × Out os). t.1) e)

  pub flush-Tracks :
      (p : FilePath) (o o' : Out os) (out : OStream)
      → Tracks p o out
      → flush os o ≡ (ok tt, o')
      → Tracks p o' out
  unfolding flush
  flush-Tracks p (f, s) o' out ((file, has, attached, same, path), fine) e =
      let after =
        sync_file_inv f file (os.fflush file s) o' (ap (λ t. flush_file os f t s) (sym has) ∙ e) in
      let (attached1, same1) = law.fflush_keeps file s attached in
      let (attached2, same2) =
        law.fsync_keeps (os.fileno file) (os.fflush file s).1 file attached1 in
      (subst Tracked (sym after) (file, has, attached2, same2 ∙ same1 ∙ same, path), fine)
    where
      Tracked : Out os → Type 0
      Tracked t =
          (file : File) × (t.0.file ≡ some file)
          × Attached file t.1
          × (written file t.1 ≡ out.written)
          × (file_path file ≡ p)

  closed_inv :
      (f : OutputFile File) (r : Bool × System) (o' : Out os)
      → after_close os f r ≡ (ok tt, o')
      → (r.0 ≡ true) × (o' ≡ (closed os f, r.1))
  closed_inv f (true, s) o' e = (refl, sym (ap (λ (t : Result (Unit {0}) × Out os). t.1) e))
  closed_inv f (false, s) o' e =
      absurd (ok≢err (sym (ap (λ (t : Result (Unit {0}) × Out os). t.0) e)))

  -- What was written is what the file holds once it is closed.
  pub close_output-Tracks :
      (p : FilePath) (o o' : Out os) (out : OStream)
      → Tracks p o out
      → close_output os o ≡ (ok tt, o')
      → contents o'.1 p ≡ some out.written
  unfolding close_output
  close_output-Tracks p (f, s) o' out ((file, has, attached, same, path), fine) e =
      let (fine', after) =
        closed_inv f (os.fclose file s) o' (ap (λ t. close_file os f t s) (sym has) ∙ e) in
      ap (λ (t : Out os). contents t.1 p) after
      ∙ ap (contents (os.fclose file s).1) (sym path)
      ∙ law.fclose_done file s (os.fclose file s).1 (ap (λ b. (b, (os.fclose file s).1)) fine')
          attached
      ∙ ap some same
