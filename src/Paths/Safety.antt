-- ===== src/Paths/Safety.antt =====
-- The path functions, and what they promise of the files that they find.
use securekit.Prelude.{
  ℕ, ◌≡◌, sym, ap, ◌∙◌, inl, inr, some, none, List, [], ◌∷◌, bytes_eq, bytes_eq→eq, bytes_eq_refl,
  Bool-cases, true≢false,
}
use securekit.Errors.{Error, Result, err, ok≢err}
use securekit.Evp.{Evp}
use securekit.Hash.{Hashing}
use securekit.Random.{Generator}
use securekit.FileSystem.{FileSystem, FilePath}
use securekit.FileSystem.Laws.{IsFileSystem}
use securekit.FileIo.{World}
use securekit.FileIo.Temporaries.{Same, Spares, HasStreams}
use securekit.FileIo.Commits.{SyncsDirectories}
use securekit.Paths.{Call, perform}
use securekit.Paths.Attempts.{Ended, committed, stopped, Ended-Spares}
use securekit.Paths.Calls.{Concluded, Removes, Discarded, perform-Concludes, output_of}

module _ (os : FileSystem) (law : IsFileSystem os) (gen : Generator) (hashing : Hashing)
    (evp : Evp) where
  open os use {System}
  open law use {contents}

  -- The world after some calls, whose results are ignored.
  abbrev pub perform_all : List (Call os gen hashing evp) → World os gen → World os gen
  perform_all [] w = w
  perform_all (call ∷ calls) w = perform_all calls (perform os gen hashing evp call w).1

  Concluded-Spares :
      (output : FilePath) (s : System) (r : Result (Unit {0}) × System)
      → Concluded os law output s r
      → Spares os law s r.1
  Concluded-Spares output s r (inl (p, absent, ended, gone)) =
      Ended-Spares os law p output s r absent ended
  Concluded-Spares output s r (inr (e, failed, (spares, same))) = spares

  -- On an operating system that meets the laws of its calls, any of which may fail, and for every
  -- backend and generator, a file that exists keeps its contents through any sequence of sealing
  -- and opening by path, with a key or a password, whichever of the calls succeed.
  pub perform_all-Spares :
      (calls : List (Call os gen hashing evp)) (w : World os gen) (q : FilePath) (c : List ℕ)
      → contents w.1 q ≡ some c
      → contents (perform_all calls w).1 q ≡ some c
  perform_all-Spares [] w q c h = h
  perform_all-Spares (call ∷ calls) w q c h =
      let r = perform os gen hashing evp call w in
      perform_all-Spares calls r.1 q c (
        Concluded-Spares (output_of os law gen hashing evp call) w.1 (r.0, r.1.1)
          (perform-Concludes os law gen hashing evp call w) q c h)

  Ended-undone :
      (p output : FilePath) (s : System) (r : Result (Unit {0}) × System) (e : Error)
      → r.0 ≡ err e
      → contents s p ≡ none
      → Ended os law p output s r
      → Discarded os law p r
      → Removes os law
      → SyncsDirectories os law
      → Same os law s r.1
  Ended-undone p output s _ e failed absent (committed r s' free same syncs) gone removes synced q =
      absurd (ok≢err (sym (syncs synced) ∙ failed))
  Ended-undone p output s _ e failed absent (stopped e' s' same) gone removes synced q =
      elim (Bool-cases (bytes_eq q p)) [
        | inl here ↦
            let at : q ≡ p = bytes_eq→eq q p here in
            ap (contents s') at ∙ gone e failed removes ∙ sym absent ∙ ap (contents s) (sym at)
        | inr there ↦ same q (λ at. true≢false (sym (bytes_eq_refl q) ∙ ap (bytes_eq q) at ∙ there))
      ]

  -- On an operating system that meets the laws of its calls, any of which may fail, but on which
  -- `fdopen` finds a stream, a file that is removed is gone, and directories can be opened and
  -- synced, a call that seals or opens by path and throws leaves every file as it was, and none
  -- that was not there.
  pub perform-err :
      (call : Call os gen hashing evp) (w w' : World os gen) (e : Error)
      → HasStreams os law
      → Removes os law
      → SyncsDirectories os law
      → perform os gen hashing evp call w ≡ (err e, w')
      → Same os law w.1 w'.1
  perform-err call w w' e streams removes syncs failed q =
      ap (λ (t : Result (Unit {0}) × World os gen). contents t.1.1 q) (sym failed)
      ∙ undone (perform-Concludes os law gen hashing evp call w) q
    where
      undone :
          let r = perform os gen hashing evp call w in
          Concluded os law (output_of os law gen hashing evp call) w.1 (r.0, r.1.1)
          → Same os law w.1 r.1.1
      undone (inl (p, absent, ended, gone)) =
          Ended-undone p (output_of os law gen hashing evp call) w.1 _ e
            (ap (λ (t : Result (Unit {0}) × World os gen). t.0) failed) absent ended gone removes
            syncs
      undone (inr (e', failed', (spares, same))) = same streams
