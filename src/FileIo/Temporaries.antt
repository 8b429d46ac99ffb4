-- ===== src/FileIo/Temporaries.antt =====
-- Creating the temporary file, and what a failure to create it leaves.
use securekit.Prelude.{
  ℕ, zero, suc, ◌≡◌, ◌≢◌, refl, sym, ap, ◌∙◌, Option, none, some, some≢none, List, [],
}
use securekit.Errors.{Result, ok, err}
use securekit.Exec.{Exec, continue, pure, raise, ◌>>=◌}
use securekit.Exec.Keeps.{continue-by}
use securekit.Random.{Generator, random_bytes}
use securekit.FileSystem.{FileSystem, FilePath, Answer, done, exists_already, fails}
use securekit.FileSystem.Laws.{IsFileSystem}
use securekit.FileIo.{
  OutputFile, Out, ExclusiveOpenResult, opened, already_exists, failed, wrap_fd, after_open,
  try_open_output_exclusive, make_unique_temp_path, World, from_source, attempt_open, open_attempts,
  open_unique_temp_output, temp_path_of, backend,
}
use securekit.FileIo.Frames.{SameBut, IsBound}

module _ (os : FileSystem) (law : IsFileSystem os) where
  open os use {System, Fd, File}
  open law use {contents, fd_path, file_path, written, Attached}

  abbrev pub Same : System → System → Type 0
  Same s s' = (q : FilePath) → contents s' q ≡ contents s q

  -- Every file that is there before is there afterwards, with the same contents.
  abbrev pub Spares : System → System → Type 0
  Spares s s' = (q : FilePath) (c : List ℕ) → contents s q ≡ some c → contents s' q ≡ some c

  -- `fdopen` finds a stream for every descriptor.
  abbrev pub HasStreams : Type 0
  HasStreams = (fd : Fd) (s : System) → (os.fdopen fd s).0 ≢ none

  -- A file that was just created, seen from the state before.
  pub record IsFresh (s : System) (o : Out os) : Type 0 where
    pub absent : contents s o.0.path ≡ none
    pub bound : IsBound os law o.0
    pub frame : SameBut os law o.0.path s o.1
    pub attached :
        (file : File) × (o.0.file ≡ some file)
        × Attached file o.1
        × (written file o.1 ≡ [])
        × (file_path file ≡ o.0.path)

  abbrev pub Failure : System → System → Type 0
  Failure s s' = Spares s s' × (HasStreams → Same s s')

  -- What an attempt to create the file under `p` does.
  abbrev Attempted : FilePath → System → ExclusiveOpenResult File × System → Type 0
  Attempted p s (opened out, s') = (out.path ≡ p) × IsFresh s (out, s')
  Attempted p s (already_exists, s') = Same s s'
  Attempted p s (failed, s') = Failure s s'

  Same→Failure : (s s' : System) → Same s s' → Failure s s'
  Same→Failure s s' same = (λ q c h. same q ∙ h, λ streams. same)

  pub created-Spares :
      (p : FilePath) (s s' : System) → contents s p ≡ none → SameBut os law p s s' → Spares s s'
  created-Spares p s s' absent frame q c h =
      frame q (λ e. some≢none (sym h ∙ ap (contents s) e ∙ absent)) ∙ h

  wrap_fd-Attempted :
      (p : FilePath) (fd : Fd) (s s1 : System) (r : Option File × System)
      → os.fdopen fd s1 ≡ r
      → (contents s p ≡ none) × (contents s1 p ≡ some []) × (fd_path fd ≡ p) × SameBut os law p s s1
      → Attempted p s (wrap_fd os p fd r)
  wrap_fd-Attempted p fd s s1 (none, s2) e (absent, start, name, frame) = (
    created-Spares p s _ absent (λ q other.
        law.close_frame fd s2 q
        ∙ ap (λ (t : Option File × System). contents t.1 q) (sym e)
        ∙ law.fdopen_frame fd s1 q
        ∙ frame q other),
    λ streams. absurd (streams fd s1 (ap (λ (t : Option File × System). t.0) e)),
  )
  wrap_fd-Attempted p fd s s1 (some file, s2) e (absent, start, name, frame) =
      let (path, attached, nothing) =
        law.fdopen_some fd s1 s2 file e (ap (contents s1) name ∙ start) in
      (
        refl,
        record {
          absent = absent;
          bound = λ file' h. ap file_path (sym (some_inj file file' h)) ∙ path ∙ name;
          frame = λ q other.
              ap (λ (t : Option File × System). contents t.1 q) (sym e)
              ∙ law.fdopen_frame fd s1 q
              ∙ frame q other;
          attached = (file, refl, attached, nothing, path ∙ name);
        },
      )
    where
      some_inj : (a b : File) → some a ≡ some b → a ≡ b
      some_inj a b h = cc

  after_open-Attempted :
      (p : FilePath) (s : System) (r : Answer Fd × System)
      → os.open_exclusive p s ≡ r
      → Attempted p s (after_open os p r)
  after_open-Attempted p s (done fd, s1) e =
      wrap_fd-Attempted p fd s s1 (os.fdopen fd s1) refl (law.exclusive_done p s s1 fd e)
  after_open-Attempted p s (exists_already, s1) e = law.exclusive_exists p s s1 e
  after_open-Attempted p s (fails, s1) e = Same→Failure s s1 (law.exclusive_fails p s s1 e)

  try_open_output_exclusive-Attempted :
      (p : FilePath) (s : System) → Attempted p s (try_open_output_exclusive os p s)
  unfolding try_open_output_exclusive
  try_open_output_exclusive-Attempted p s = after_open-Attempted p s (os.open_exclusive p s) refl

  IsFresh-Same : (s t : System) (o : Out os) → Same s t → IsFresh t o → IsFresh s o
  IsFresh-Same s t o same fresh = record {
    absent = sym (same o.0.path) ∙ fresh.absent;
    bound = fresh.bound;
    frame = λ q other. fresh.frame q other ∙ same q;
    attached = fresh.attached;
  }

  Failure-Same : (s t u : System) → Same s t → Failure t u → Failure s u
  Failure-Same s t u same (spares, still) =
      (λ q c h. spares q c (same q ∙ h), λ streams q. still streams q ∙ same q)

  module _ (gen : Generator) where
    -- Under some token of 16 drawn bytes beside the output, the file is new; or nothing is lost.
    abbrev pub Created : FilePath → System → Result (OutputFile File) × World os gen → Type 0
    Created output s (ok out, (source, s')) =
        ((token : List ℕ) × (out.path ≡ temp_path_of output token)) × IsFresh s (out, s')
    Created output s (err e, (source, s')) = Failure s s'

    Created-Same :
        (output : FilePath) (s t : System) (r : Result (OutputFile File) × World os gen)
        → Same s t
        → Created output t r
        → Created output s r
    Created-Same output s t (ok out, (source, s')) same (named, fresh) =
        (named, IsFresh-Same s t (out, s') same fresh)
    Created-Same output s t (err e, (source, s')) same failure = Failure-Same s t s' same failure

    -- The state of the system beside a call of the generator.
    abbrev Drawn : FilePath → System → Result FilePath × World os gen → Type 0
    Drawn output s (ok temp_path, (source, s')) =
        ((token : List ℕ) × (temp_path ≡ temp_path_of output token)) × (s' ≡ s)
    Drawn output s (err e, (source, s')) = s' ≡ s

    make_unique_temp_path-Drawn :
        (output : FilePath) (source : gen.Source) (s : System)
        → Drawn output s (from_source os gen (make_unique_temp_path os gen output) (source, s))
    unfolding make_unique_temp_path
    make_unique_temp_path-Drawn output source s =
        continue-by (λ r. Drawn output s (r.0, (r.1, s)))
          (λ token. pure (temp_path_of output token)) (random_bytes gen 16 source)
          (λ token source' e. ((token, refl), refl)) (λ e source' k. refl)

    abbrev on_result :
        ℕ → FilePath → ExclusiveOpenResult File → Exec (World os gen) (OutputFile File)
    on_result n output result =
        let rest = open_attempts os gen n output in
        elim result [
          | opened temp ↦ pure temp
          | failed ↦ raise (backend "File open failed")
          | already_exists ↦ rest
        ]

    on_result-Created :
        (n : ℕ) (output temp_path : FilePath) (token : List ℕ) (source : gen.Source) (s : System)
        (r : ExclusiveOpenResult File × System)
        → temp_path ≡ temp_path_of output token
        → Attempted temp_path s r
        → ((w : World os gen) → Created output w.1 (open_attempts os gen n output w))
        → Created output s (on_result n output r.0 (source, r.1))
    on_result-Created n output temp_path token source s (opened out, s') named (path, fresh) rest =
        ((token, path ∙ named), fresh)
    on_result-Created n output temp_path token source s (failed, s') named failure rest = failure
    on_result-Created n output temp_path token source s (already_exists, s') named same rest =
        Created-Same output s s' _ same (rest (source, s'))

    attempt-Created :
        (n : ℕ) (output : FilePath) (s : System) (r : Result FilePath × World os gen)
        → ((w : World os gen) → Created output w.1 (open_attempts os gen n output w))
        → Drawn output s r
        → Created output s
            (continue (λ temp_path. attempt_open os gen temp_path >>= on_result n output) r)
    attempt-Created n output s (ok temp_path, (source, s')) rest ((token, named), still) =
        Created-Same output s s' _ (λ q. ap (λ t. contents t q) still)
          (on_result-Created n output temp_path token source s'
            (try_open_output_exclusive os temp_path s') named
            (try_open_output_exclusive-Attempted temp_path s') rest)
    attempt-Created n output s (err e, (source, s')) rest still =
        Same→Failure s s' (λ q. ap (λ t. contents t q) still)

    open_attempts-Created :
        (n : ℕ) (output : FilePath) (w : World os gen)
        → Created output w.1 (open_attempts os gen n output w)
    unfolding open_attempts
    open_attempts-Created zero output (source, s) = Same→Failure s s (λ q. refl)
    open_attempts-Created (suc n) output (source, s) =
        attempt-Created n output s
          (from_source os gen (make_unique_temp_path os gen output) (source, s))
          (open_attempts-Created n output) (make_unique_temp_path-Drawn output source s)

    pub open_unique_temp_output-Created :
        (output : FilePath) (w : World os gen)
        → Created output w.1 (open_unique_temp_output os gen output w)
    unfolding open_unique_temp_output
    open_unique_temp_output-Created output w = open_attempts-Created 32 output w
