-- ===== src/Paths/Calls.antt =====
-- The four path functions, as calls that go through a temporary file.
use securekit.Prelude.{
  ℕ, ◌≡◌, ◌≢◌, refl, sym, ap, ◌∙◌, ◌⊎◌, inl, inr, Bool, true, false, Option, none, some, List, ◌++◌,
  length, length-append, codes, arith,
}
use mathlib.Core.Path.{subst}
use securekit.Errors.{Error, Result, ok, err, ok≢err}
use securekit.Exec.{Exec, lift, continue, ◌>>=◌}
use securekit.Exec.Keeps.{Keeps, continue-by}
use securekit.Evp.{Evp}
use securekit.Hash.{Hashing}
use securekit.Random.{Generator}
use securekit.IoStream.{IStream}
use securekit.Files.Frames.{
  seal_stream_payload-Keeps, open_file-Keeps, open_file_with_password-Keeps,
}
use securekit.Files.{open_file, open_file_with_password}
use securekit.FileStream.{seal_stream_payload}
use securekit.FileSystem.{FileSystem, FilePath}
use securekit.FileSystem.Laws.{IsFileSystem}
use securekit.FileIo.{
  OutputFile, Out, output_sink, World, from_source, from_system, temp_path_of,
  open_unique_temp_output, ensure_output_does_not_exist, token_digits, discard, remove_quietly,
  after_exists,
}
use securekit.FileIo.Frames.{Within, Within-refl, Within-trans, write_output-Within}
use securekit.FileIo.Temporaries.{Failure, Created, open_unique_temp_output-Created}
use securekit.Paths.{
  finish, attempt, run_attempt, through_temp, seal_file_payload, seal_path, seal_path_with_password,
  open_path, open_path_with_password, Call, sealing, opening, password_sealing, password_opening,
  perform,
}
use securekit.Paths.Attempts.{WritesOnly, Ended, attempt-Ended}

-- The name of the temporary file is longer than that of the output.
pub temp_path_of-ne : (output token : List ℕ) → output ≢ temp_path_of output token
temp_path_of-ne output token e =
    let suffix = codes ".securekit." ++ (token_digits token ++ codes ".tmp") in
    absurd (
      omega (
        arith,
        ap (λ (t : List ℕ). length t) e,
        length-append output suffix,
        length-append (codes ".securekit.") (token_digits token ++ codes ".tmp"),
      ))

module _ (os : FileSystem) (law : IsFileSystem os) where
  open os use {System, File}
  open law use {contents}

  -- Removing a file removes it.
  abbrev pub Removes : Type 0
  Removes = (p : FilePath) (s : System) → contents (os.remove p s) p ≡ none

  -- The file that was created is gone after a failure, if files can be removed.
  abbrev pub Discarded : FilePath → Result (Unit {0}) × System → Type 0
  Discarded p r = (e : Error) → r.0 ≡ err e → Removes → contents r.1 p ≡ none

  finish-Discarded : (p : FilePath) (r : Result (Unit {0}) × Out os) → Discarded p (finish os p r)
  unfolding finish remove_quietly
  finish-Discarded p (ok tt, o) e h removes = absurd (ok≢err h)
  finish-Discarded p (err thrown, o) e h removes = removes p (discard os o).1

  -- How a call ends: its temporary file was created and dealt with, or could not be created.
  abbrev pub Concluded : FilePath → System → Result (Unit {0}) × System → Type 0
  Concluded output s r =
      ((p : FilePath) × (contents s p ≡ none) × Ended os law p output s r × Discarded p r)
      ⊎ ((e : Error) × (r.0 ≡ err e) × Failure os law s r.1)

  module _ (gen : Generator) (hashing : Hashing) (evp : Evp) where
    open gen use {Source}

    abbrev pub Concludes : FilePath → Exec (World os gen) (Unit {0}) → Type 0
    Concludes output m = (w : World os gen) → Concluded output w.1 ((m w).0, (m w).1.1)

    -- A step that does not touch the system.
    abbrev Quiet : {A : Type 0} → Exec (World os gen) A → Type 0
    Quiet m = Keeps (λ (v w : World os gen). w.1 ≡ v.1) m

    quietly :
        {A : Type 0} (output : FilePath) (m : Exec (World os gen) A)
        (next : A → Exec (World os gen) (Unit {0}))
        → Quiet m
        → ((a : A) → Concludes output (next a))
        → Concludes output (m >>= next)
    quietly {A = A} output m next quiet then w =
        continue-by (λ r. Concluded output w.1 (r.0, r.1.1)) next (m w)
          (λ a v e.
            let r = next a v in
            subst (λ s. Concluded output s (r.0, r.1.1)) (still v _ e) (then a v))
          (λ thrown v e. inr (
            thrown,
            refl,
            (
              λ q c h. ap (λ s. contents s q) (still v _ e) ∙ h,
              λ streams q. ap (λ s. contents s q) (still v _ e),
            ),
          ))
      where
        still : (v : World os gen) (r : Result A) → m w ≡ (r, v) → v.1 ≡ w.1
        still v r e = ap (λ (t : Result A × World os gen). t.1.1) (sym e) ∙ quiet w

    lift-Quiet : {A : Type 0} (r : Result A) → Quiet (lift r)
    lift-Quiet r w = refl

    source-Quiet : {A : Type 0} (m : Exec Source A) → Quiet (from_source os gen m)
    source-Quiet m w = refl

    after_exists-Quiet : (found : Option Bool) → Quiet (from_system os gen (after_exists os found))
    after_exists-Quiet none w = refl
    after_exists-Quiet (some true) w = refl
    after_exists-Quiet (some false) w = refl

    ensure-Quiet :
        (output : FilePath) → Quiet (from_system os gen (ensure_output_does_not_exist os output))
    unfolding ensure_output_does_not_exist
    ensure-Quiet output (source, s) = after_exists-Quiet (os.exists output s) (source, s)

    module _ (input output : FilePath) (payload : Exec (IStream × Out os) (Unit {0}))
        (writes : WritesOnly os law payload) where
      Created-Concludes :
          (s : System) (r : Result (OutputFile File) × World os gen)
          → Created os law gen output s r
          → let t = continue (run_attempt os gen hashing evp input output payload) r in
            Concluded output s (t.0, t.1.1)
      unfolding run_attempt
      Created-Concludes s (ok out, (source, t)) ((token, path), fresh) = inl (
        out.path,
        fresh.absent,
        attempt-Ended os law input output payload writes s (out, t)
            (λ e. temp_path_of-ne output token (e ∙ path)) fresh,
        finish-Discarded out.path (attempt os out.path input output payload (out, t)),
      )
      Created-Concludes s (err e, (source, t)) failure = inr (e, refl, failure)

      through_temp-Concludes :
          Concludes output (through_temp os gen hashing evp input output payload)
      unfolding through_temp
      through_temp-Concludes w =
          Created-Concludes w.1 (open_unique_temp_output os gen output w)
            (open_unique_temp_output-Created os law gen output w)

    pub sealing-WritesOnly :
        (header prefix key aad : List ℕ)
        → WritesOnly os law (seal_stream_payload evp (output_sink os) header prefix key aad)
    sealing-WritesOnly =
        seal_stream_payload-Keeps evp (output_sink os) (Within os law) (Within-refl os law)
          (Within-trans os law) (write_output-Within os law)

    seal_file_payload-Concludes :
        (input output : FilePath) (header prefix key aad : List ℕ)
        → Concludes output (seal_file_payload os gen hashing evp input output header prefix key aad)
    unfolding seal_file_payload
    seal_file_payload-Concludes input output header prefix key aad =
        through_temp-Concludes input output
          (seal_stream_payload evp (output_sink os) header prefix key aad)
          (sealing-WritesOnly header prefix key aad)

    abbrev pub output_of : Call os gen hashing evp → FilePath
    output_of (sealing input output key aad) = output
    output_of (opening input output key aad) = output
    output_of (password_sealing input output password aad) = output
    output_of (password_opening input output password aad) = output

    pub perform-Concludes :
        (call : Call os gen hashing evp)
        → Concludes (output_of call) (perform os gen hashing evp call)
    unfolding perform seal_path seal_path_with_password open_path open_path_with_password
    perform-Concludes (sealing input output key aad) =
        search (quietly, ensure-Quiet, source-Quiet, lift-Quiet, seal_file_payload-Concludes)
    perform-Concludes (opening input output key aad) = search (
      quietly,
      ensure-Quiet,
      through_temp-Concludes input output (open_file evp (output_sink os) hashing key aad) (
          open_file-Keeps evp (output_sink os) (Within os law) (Within-refl os law)
            (Within-trans os law) (write_output-Within os law) hashing key aad),
    )
    perform-Concludes (password_sealing input output password aad) =
        search (quietly, ensure-Quiet, source-Quiet, lift-Quiet, seal_file_payload-Concludes)
    perform-Concludes (password_opening input output password aad) = search (
      quietly,
      ensure-Quiet,
      lift-Quiet,
      through_temp-Concludes input output
          (open_file_with_password evp (output_sink os) hashing password aad)
          (open_file_with_password-Keeps evp (output_sink os) (Within os law) (Within-refl os law)
            (Within-trans os law) (write_output-Within os law) hashing password aad),
    )
