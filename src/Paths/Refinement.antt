-- ===== src/Paths/Refinement.antt =====
-- A path function that succeeds has done what the stream overload does.
use securekit.Prelude.{false, ◌≡◌, ◌≢◌, refl, sym, ap, ◌∙◌, Option, none, some, []}
use mathlib.Core.Path.{subst}
use securekit.Errors.{Result, ok, err, ok≢err}
use securekit.Exec.{Exec, continue, >>=-eq-ok, ◌>>◌}
use securekit.Evp.{Evp}
use securekit.Hash.{Hashing}
use securekit.Random.{Generator}
use securekit.IoStream.{IStream, OStream, ostream}
use securekit.IoStream.Sinks.{stream}
use securekit.FileSystem.{FileSystem, FilePath}
use securekit.FileSystem.Laws.{IsFileSystem}
use securekit.FileIo.{
  OutputFile, Out, output_sink, World, open_input, opened_input, flush, close_output,
  commit_temp_file, open_unique_temp_output,
}
use securekit.FileIo.Frames.{IsBound, Within}
use securekit.FileIo.Temporaries.{
  IsFresh, Spares, created-Spares, Created, open_unique_temp_output-Created,
}
use securekit.FileIo.Commits.{Committed, linked, unlinked, commit_temp_file-Committed}
use securekit.FileIo.Tracking.{Tracks, flush-Tracks, close_output-Tracks}
use securekit.Files.Simulation.{Simulates, Alike}
use securekit.Paths.{on_system, with_input, write_temp, attempt, finish, run_attempt, through_temp}
use securekit.Paths.Attempts.{WritesOnly, write_temp-Within, finish-SameBut, finish-result}
use securekit.Paths.Calls.{temp_path_of-ne}

abbrev pub empty : OStream
empty = stream [] none false

module _ (os : FileSystem) (law : IsFileSystem os) where
  open os use {System, File}
  open law use {contents}

  opened_input_inv :
      (found : Option IStream) (i : IStream) (s s' : System)
      → opened_input os found s ≡ (ok i, s')
      → (found ≡ some i) × (s' ≡ s)
  opened_input_inv none i s s' e =
      absurd (ok≢err (sym (ap (λ (t : Result IStream × System). t.0) e)))
  opened_input_inv (some j) i s s' e = (
    ap some (ok_inj (ap (λ (t : Result IStream × System). t.0) e)),
    sym (ap (λ (t : Result IStream × System). t.1) e),
  )
    where
      ok_inj : {a b : IStream} → ok a ≡ ok b → a ≡ b
      ok_inj h = cc

  module _ (evp : Evp) (payload : Exec (IStream × Out os) (Unit {0}))
      (model : Exec (IStream × OStream) (Unit {0})) (input : FilePath) (p : FilePath)
      (simulates : Simulates
        (Alike evp (output_sink os) ostream (Tracks os law p))
        payload
        model) where
    write_temp_inv :
        (o o' : Out os) (out : OStream)
        → Tracks os law p o out
        → write_temp os input payload o ≡ (ok tt, o')
        → (i : IStream) × (io : IStream × OStream) × (os.ifstream input o.1 ≡ some i)
          × (model (i, out) ≡ (ok tt, io))
          × (contents o'.1 p ≡ some io.1.written)
    unfolding write_temp open_input
    write_temp_inv o o' out tracks e =
        let (i, o1, e1, rest1) =
          >>=-eq-ok (on_system os (open_input os input))
            (λ i. do with_input os payload i; flush os; close_output os) o e in
        let (found, same) =
          opened_input_inv (os.ifstream input o.1) i o.1 o1.1
            (ap (λ (t : Result IStream × Out os). (t.0, t.1.1)) e1) in
        let still : on_system os (opened_input os (os.ifstream input o.1)) o ≡ (ok i, o) =
          rw found refl in
        let (done, o2, e2, rest2) =
          >>=-eq-ok (with_input os payload i) (λ done. do flush os; close_output os) o1 rest1 in
        let (done', o3, e3, e4) = >>=-eq-ok (flush os) (λ done'. close_output os) o2 rest2 in
        let ran = payload (i, o1) in
        let (io, f, (input_same, tracks2)) =
          simulates (i, o1) (i, out) tt ran.1
            (
              refl,
              subst (λ (t : Out os). Tracks os law p t out)
                  (ap (λ (t : Result IStream × Out os). t.1) (sym still ∙ e1)) tracks,
            )
            (ap (λ (r : Result (Unit {0})). (r, ran.1))
              (ap (λ (t : Result (Unit {0}) × Out os). t.0) e2)) in
        let tracks3 =
          flush-Tracks os law p o2 o3 io.1
            (subst (λ (t : Out os). Tracks os law p t io.1)
              (ap (λ (t : Result (Unit {0}) × Out os). t.1) e2) tracks2)
            e3 in
        (i, io, found, f, close_output-Tracks os law p o3 o' io.1 tracks3 e4)

  Committed-eq-ok :
      (p output : FilePath) (s s' : System) (r : Result (Unit {0}) × System)
      → r ≡ (ok tt, s')
      → output ≢ p
      → Committed os law p output s r
      → contents s' output ≡ contents s p
  Committed-eq-ok p output s s' _ e apart (linked r t absent there same syncs) =
      ap (λ (x : Result (Unit {0}) × System). contents x.1 output) (sym e) ∙ there apart
  Committed-eq-ok p output s s' _ e apart (unlinked thrown t same) =
      absurd (ok≢err (sym (ap (λ (x : Result (Unit {0}) × System). x.0) e)))

  finish-ok :
      (p : FilePath) (r : Result (Unit {0}) × Out os) (s' : System)
      → finish os p r ≡ (ok tt, s')
      → (r.0 ≡ ok tt) × ((finish os p r).1 ≡ s')
  finish-ok p r s' e = (
    sym (finish-result os law p r.0 r.1) ∙ ap (λ (x : Result (Unit {0}) × System). x.0) e,
    ap (λ (x : Result (Unit {0}) × System). x.1) e,
  )

  -- What the temporary file held is what the output holds at the end.
  commit_holds :
      (p output : FilePath) (s' : System) (o1 : Out os) (r : Result (Unit {0}) × Out os)
      → o1.0.path ≡ p
      → IsBound os law o1.0
      → output ≢ p
      → on_system os (commit_temp_file os p output) o1 ≡ (ok tt, r.1)
      → (finish os p r).1 ≡ s'
      → contents s' output ≡ contents o1.1 p
  commit_holds p output s' o1 r path bound apart e last =
      let out : o1.0 ≡ r.1.0 = ap (λ (x : Result (Unit {0}) × Out os). x.1.0) e in
      ap (λ t. contents t output) (sym last)
      ∙ finish-SameBut os law p r.0 r.1 (ap (λ (x : OutputFile File). x.path) (sym out) ∙ path)
          (subst (λ (x : OutputFile File). IsBound os law x) out bound) output apart
      ∙ Committed-eq-ok p output o1.1 r.1.1 (commit_temp_file os p output o1.1)
          (ap (λ (x : Result (Unit {0}) × Out os). (x.0, x.1.1)) e) apart
          (commit_temp_file-Committed os law p output o1.1)

  module _ (evp : Evp) (payload : Exec (IStream × Out os) (Unit {0}))
      (model : Exec (IStream × OStream) (Unit {0})) (input output : FilePath)
      (writes : WritesOnly os law payload) where
    -- The `try` block that succeeds, once the temporary file is there.
    attempt_inv :
        (s s' : System) (o : Out os)
        → Simulates (Alike evp (output_sink os) ostream (Tracks os law o.0.path)) payload model
        → output ≢ o.0.path
        → IsFresh os law s o
        → finish os o.0.path (attempt os o.0.path input output payload o) ≡ (ok tt, s')
        → (i : IStream) × (io : IStream × OStream) × (os.ifstream input o.1 ≡ some i)
          × (model (i, empty) ≡ (ok tt, io))
          × (contents s' output ≡ some io.1.written)
    unfolding attempt
    attempt_inv s s' o simulates apart fresh e =
        let p = o.0.path in
        let r = attempt os p input output payload o in
        let (fine, last) = finish-ok p r s' e in
        let (done, o1, e1, e2) =
          >>=-eq-ok (write_temp os input payload)
            (λ done. on_system os (commit_temp_file os p output)) o
            (ap (λ (x : Result (Unit {0})). (x, r.1)) fine) in
        let (i, io, found, f, holds) =
          write_temp_inv evp payload model input p simulates o o1 empty (fresh_tracks fresh) e1 in
        let (path, bound, frame) =
          subst (λ (t : Result (Unit {0}) × Out os). Within os law o t.1) e1
            (write_temp-Within os law input payload writes o) fresh.bound in
        (i, io, found, f, commit_holds p output s' o1 r path bound apart e2 last ∙ holds)
      where
        fresh_tracks : IsFresh os law s o → Tracks os law o.0.path o empty
        fresh_tracks fresh = (fresh.attached, (refl, refl))

    module _ (gen : Generator) (hashing : Hashing)
        (simulates : (p : FilePath)
          → Simulates (Alike evp (output_sink os) ostream (Tracks os law p)) payload model) where
      -- The call succeeds: some input was opened, and the output holds what `model` writes of it.
      abbrev pub Done : System → System → Type 0
      Done s s' =
          (i : IStream) × (t : System) × (io : IStream × OStream) × Spares os law s t
          × (os.ifstream input t ≡ some i)
          × (model (i, empty) ≡ (ok tt, io))
          × (contents s' output ≡ some io.1.written)

      Created-eq-ok :
          (s : System) (r : Result (OutputFile File) × World os gen) (w' : World os gen)
          → Created os law gen output s r
          → continue (run_attempt os gen hashing evp input output payload) r ≡ (ok tt, w')
          → Done s w'.1
      unfolding run_attempt
      Created-eq-ok s (ok out, (source, t)) w' ((token, path), fresh) e =
          let (i, io, found, f, holds) =
            attempt_inv s w'.1 (out, t) (simulates out.path)
              (λ same. temp_path_of-ne output token (same ∙ path)) fresh
              (ap (λ (x : Result (Unit {0}) × World os gen). (x.0, x.1.1)) e) in
          (i, t, io, created-Spares os law out.path s t fresh.absent fresh.frame, found, f, holds)
      Created-eq-ok s (err thrown, w) w' failure e =
          absurd (ok≢err (sym (ap (λ (x : Result (Unit {0}) × World os gen). x.0) e)))

      pub through_temp_inv :
          (w w' : World os gen)
          → through_temp os gen hashing evp input output payload w ≡ (ok tt, w')
          → Done w.1 w'.1
      unfolding through_temp
      through_temp_inv w w' e =
          Created-eq-ok w.1 (open_unique_temp_output os gen output w) w'
            (open_unique_temp_output-Created os law gen output w) e
