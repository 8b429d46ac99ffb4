-- ===== src/FileIo/Leftovers.antt =====
-- A failure of `fdopen`, behind an `open` that has created the file.
use securekit.Prelude.{ℕ, ◌≡◌, refl, sym, ap, ◌∙◌, Option, none, some, List, []}
use securekit.Errors.{ok, err}
use securekit.Random.{Generator, random_bytes}
use securekit.FileSystem.{FileSystem, FilePath, done}
use securekit.FileSystem.Laws.{IsFileSystem}
use securekit.FileIo.{
  backend, temp_path_of, try_open_output_exclusive, make_unique_temp_path, open_attempts,
  open_unique_temp_output, World,
}

module _ (os : FileSystem) (law : IsFileSystem os) (gen : Generator) where
  open law use {contents}

  -- If the first temporary file is created and `fdopen` finds no stream for it,
  -- `open_unique_temp_output` throws, and leaves the empty temporary file behind, which was not
  -- there before.
  pub open_unique_temp_output-fdopen_none :
      (output : FilePath) (token : List ℕ) (source source' : gen.Source) (s s1 s2 : os.System)
      (fd : os.Fd)
      → random_bytes gen 16 source ≡ (ok token, source')
      → os.open_exclusive (temp_path_of output token) s ≡ (done fd, s1)
      → os.fdopen fd s1 ≡ (none, s2)
      → (w : World os gen) × (open_unique_temp_output os gen output (source, s)
          ≡ (err (backend "File open failed"), w))
        × (contents s (temp_path_of output token) ≡ none)
        × (contents w.1 (temp_path_of output token) ≡ some [])
  unfolding open_unique_temp_output open_attempts make_unique_temp_path try_open_output_exclusive
  open_unique_temp_output-fdopen_none output token source source' s s1 s2 fd drawn created failed =
      let p = temp_path_of output token in
      let (absent, start, name, frame) = law.exclusive_done p s s1 fd created in
      (
        (source', (os.close fd s2).1),
        rw (drawn, created, failed) refl,
        absent,
        law.close_frame fd s2 p
            ∙ ap (λ (t : Option os.File × os.System). contents t.1 p) (sym failed)
            ∙ law.fdopen_frame fd s1 p
            ∙ start,
      )
