-- ===== src/Paths/Attempts.antt =====
-- What the `try` block and its end do to the files, whatever fails.
use securekit.Prelude.{◌≡◌, ◌≢◌, refl, sym, ap, ◌∙◌, Option, none, some, some≢none}
use mathlib.Core.Path.{subst}
use securekit.Errors.{Error, Result, ok, err}
use securekit.Exec.{Exec}
use securekit.Exec.Keeps.{Keeps, >>=-Keeps, continue-by}
use securekit.IoStream.{IStream}
use securekit.FileSystem.{FileSystem, FilePath}
use securekit.FileSystem.Laws.{IsFileSystem}
use securekit.FileIo.{
  Out, open_input, opened_input, close_quietly, discard, remove_quietly, commit_temp_file,
}
use securekit.FileIo.Frames.{
  SameBut, IsBound, Within, Within-refl, Within-trans, flush-Within, close_output-Within,
  close_quietly-Within,
}
use securekit.FileIo.Temporaries.{Spares, IsFresh, created-Spares}
use securekit.FileIo.Commits.{
  SyncsDirectories, Committed, linked, unlinked, commit_temp_file-Committed,
}
use securekit.Paths.{on_system, with_input, write_temp, attempt, finish}

module _ (os : FileSystem) (law : IsFileSystem os) where
  open os use {System, File}
  open law use {contents}

  -- The payload writes to its output only.
  abbrev pub WritesOnly : Exec (IStream × Out os) (Unit {0}) → Type 0
  WritesOnly payload = (io : IStream × Out os) → Within os law io.1 (payload io).1.1

  opened_input-Within :
      (found : Option IStream) → Keeps (Within os law) (on_system os (opened_input os found))
  opened_input-Within none o = Within-refl os law o
  opened_input-Within (some input) o = Within-refl os law o

  open_input-Within :
      (input : FilePath) → Keeps (Within os law) (on_system os (open_input os input))
  unfolding open_input
  open_input-Within input (out, s) = opened_input-Within (os.ifstream input s) (out, s)

  pub write_temp-Within :
      (input : FilePath) (payload : Exec (IStream × Out os) (Unit {0}))
      → WritesOnly payload
      → Keeps (Within os law) (write_temp os input payload)
  unfolding write_temp
  write_temp-Within input payload writes = search (
    >>=-Keeps (Within os law) (Within-refl os law) (Within-trans os law),
    open_input-Within,
    payload_keeps,
    flush-Within os law,
    close_output-Within os law,
  )
    where
      payload_keeps : (i : IStream) → Keeps (Within os law) (with_input os payload i)
      payload_keeps i out = writes (i, out)

  -- How a call ends whose temporary file is `p`: the output was committed, or only `p` is touched.
  pub data Ended (p output : FilePath) (s : System) : Result (Unit {0}) × System → Type 0 where
    committed :
        (r : Result (Unit {0})) (s' : System)
        → contents s output ≡ none
        → ((q : FilePath) → q ≢ p → q ≢ output → contents s' q ≡ contents s q)
        → (SyncsDirectories os law → r ≡ ok tt)
        → Ended p output s (r, s')
    stopped : (e : Error) (s' : System) → SameBut os law p s s' → Ended p output s (err e, s')

  -- The two ways to leave touch the temporary file only.
  pub finish-SameBut :
      (p : FilePath) (r : Result (Unit {0})) (o : Out os)
      → o.0.path ≡ p
      → IsBound os law o.0
      → SameBut os law p o.1 (finish os p (r, o)).1
  unfolding finish discard remove_quietly
  finish-SameBut p (ok tt) o path bound q other =
      (close_quietly-Within os law o bound).2 q (λ e. other (e ∙ path))
  finish-SameBut p (err e) o path bound q other =
      law.remove_frame p (close_quietly os o).1 q other
      ∙ (close_quietly-Within os law o bound).2 q (λ e. other (e ∙ path))

  pub finish-result :
      (p : FilePath) (r : Result (Unit {0})) (o : Out os) → (finish os p (r, o)).0 ≡ r
  unfolding finish
  finish-result p (ok tt) o = refl
  finish-result p (err e) o = refl

  -- What touches `p` only keeps what is known of the other files.
  Ended-SameBut :
      (p output : FilePath) (s : System) (r : Result (Unit {0}) × System) (t : System)
      → SameBut os law p r.1 t
      → Ended p output s r
      → Ended p output s (r.0, t)
  Ended-SameBut p output s _ t frame (committed r s' absent same syncs) =
      committed r t absent (λ q not_p not_output. frame q not_p ∙ same q not_p not_output) syncs
  Ended-SameBut p output s _ t frame (stopped e s' same) =
      stopped e t (λ q other. frame q other ∙ same q other)

  finish-Ended :
      (p output : FilePath) (s : System) (r : Result (Unit {0})) (o : Out os)
      → o.0.path ≡ p
      → IsBound os law o.0
      → Ended p output s (r, o.1)
      → Ended p output s (finish os p (r, o))
  finish-Ended p output s r o path bound ended =
      subst (λ t. Ended p output s (t, (finish os p (r, o)).1)) (sym (finish-result p r o))
        (Ended-SameBut p output s (r, o.1) (finish os p (r, o)).1 (finish-SameBut p r o path bound)
          ended)

  commit-Ended :
      (p output : FilePath) (s t : System)
      → output ≢ p
      → SameBut os law p s t
      → (r : Result (Unit {0}) × System) → Committed os law p output t r
      → Ended p output s r
  commit-Ended p output s t apart frame _ (linked r s' absent there same syncs) =
      committed r s' (sym (frame output apart) ∙ absent)
        (λ q not_p not_output. same q not_p not_output ∙ frame q not_p) syncs
  commit-Ended p output s t apart frame _ (unlinked e s' same) =
      stopped e s' (λ q other. same q ∙ frame q other)

  module _ (input output : FilePath) (payload : Exec (IStream × Out os) (Unit {0}))
      (writes : WritesOnly payload) where
    -- The whole call, once its temporary file is there.
    pub attempt-Ended :
        (s : System) (o : Out os)
        → output ≢ o.0.path
        → IsFresh os law s o
        → Ended o.0.path output s (finish os o.0.path (attempt os o.0.path input output payload o))
    unfolding attempt
    attempt-Ended s o apart fresh =
        continue-by (λ r. Ended o.0.path output s (finish os o.0.path r))
          (λ done. on_system os (commit_temp_file os o.0.path output))
          (write_temp os input payload o)
          (λ done o' e.
            let (path, bound, frame) = within o' (ok done) e in
            let r = commit_temp_file os o.0.path output o'.1 in
            finish-Ended o.0.path output s r.0 (o'.0, r.1) path bound
              (commit-Ended o.0.path output s o'.1 apart frame r
                (commit_temp_file-Committed os law o.0.path output o'.1)))
          (λ thrown o' e.
            let (path, bound, frame) = within o' (err thrown) e in
            finish-Ended o.0.path output s (err thrown) o' path bound (stopped thrown o'.1 frame))
      where
        within :
            (o' : Out os) (r : Result (Unit {0}))
            → write_temp os input payload o ≡ (r, o')
            → (o'.0.path ≡ o.0.path) × IsBound os law o'.0 × SameBut os law o.0.path s o'.1
        within o' r e =
            let (path, bound, frame) =
              subst (λ (t : Result (Unit {0}) × Out os). Within os law o t.1) e
                (write_temp-Within input payload writes o) fresh.bound in
            (path, bound, λ q other. frame q other ∙ fresh.frame q other)

  -- A call that has ended lost no file.
  pub Ended-Spares :
      (p output : FilePath) (s : System) (r : Result (Unit {0}) × System)
      → contents s p ≡ none
      → Ended p output s r
      → Spares os law s r.1
  Ended-Spares p output s _ absent (committed r s' free same syncs) q c h =
      same q (λ e. some≢none (sym h ∙ ap (contents s) e ∙ absent))
        (λ e. some≢none (sym h ∙ ap (contents s) e ∙ free))
      ∙ h
  Ended-Spares p output s _ absent (stopped e s' same) q c h =
      created-Spares os law p s s' absent same q c h
