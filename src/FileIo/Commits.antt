-- ===== src/FileIo/Commits.antt =====
-- Committing the temporary file: either the link is made, or nothing has changed.
use securekit.Prelude.{◌≡◌, ◌≢◌, refl, ◌∙◌, true, Option, none, some}
use securekit.Errors.{Error, Result, ok, err}
use securekit.FileSystem.{FileSystem, FilePath, Answer, done, exists_already, fails}
use securekit.FileSystem.Laws.{IsFileSystem}
use securekit.FileIo.{
  after_link, commit_temp_file, flush_parent_directory, remove_quietly, directory_of,
  after_directory,
}
use securekit.FileIo.Temporaries.{Same}

module _ (os : FileSystem) (law : IsFileSystem os) where
  open os use {System}
  open law use {contents}

  -- A directory can be opened, synced and closed.
  abbrev pub SyncsDirectories : Type 0
  SyncsDirectories =
      (p : FilePath) (s : System)
      → (fd : os.Fd) × (s1 : System) × (os.open_directory p s ≡ (some fd, s1))
        × ((os.fsync fd s1).0 ≡ true)
        × ((os.close fd (os.fsync fd s1).1).0 ≡ true)

  synced-Same :
      (fd : Option os.Fd) (s s1 : System)
      → Same os law s s1
      → Same os law s (after_directory os (fd, s1)).1
  synced-Same none s s1 same q = same q
  synced-Same (some fd) s s1 same q =
      law.close_frame fd (os.fsync fd s1).1 q ∙ law.fsync_frame fd s1 q ∙ same q

  flush_parent_directory-Same :
      (p : FilePath) (s : System) → Same os law s (flush_parent_directory os p s).1
  unfolding flush_parent_directory
  flush_parent_directory-Same p s =
      let (fd, s1) = os.open_directory (directory_of os p) s in
      synced-Same fd s s1 (law.directory_frame (directory_of os p) s)

  flush_parent_directory-ok :
      SyncsDirectories → (p : FilePath) (s : System) → (flush_parent_directory os p s).0 ≡ ok tt
  unfolding flush_parent_directory
  flush_parent_directory-ok syncs p s =
      let (fd, s1, e, synced, closed) = syncs (directory_of os p) s in rw (e, synced, closed) refl

  -- A commit of `temp` as `output`.
  pub data Committed (temp output : FilePath) (s : System)
      : Result (Unit {0}) × System → Type 0 where
    linked :
        (r : Result (Unit {0})) (s' : System)
        → contents s output ≡ none
        → (output ≢ temp → contents s' output ≡ contents s temp)
        → ((q : FilePath) → q ≢ temp → q ≢ output → contents s' q ≡ contents s q)
        → (SyncsDirectories → r ≡ ok tt)
        → Committed temp output s (r, s')
    unlinked : (e : Error) (s' : System) → Same os law s s' → Committed temp output s (err e, s')

  after_link-Committed :
      (temp output : FilePath) (s : System) (r : Answer (Unit {0}) × System)
      → os.link temp output s ≡ r
      → Committed temp output s (after_link os temp output r)
  unfolding remove_quietly
  after_link-Committed temp output s (done tt, s1) e =
      let (absent, there, frame) = law.link_done temp output s s1 e in
      let s2 = os.remove temp s1 in
      let rest = flush_parent_directory-Same output s2 in
      linked (flush_parent_directory os output s2).0 (flush_parent_directory os output s2).1 absent
        (λ other. rest output ∙ law.remove_frame temp s1 output other ∙ there)
        (λ q not_temp not_output. rest q ∙ law.remove_frame temp s1 q not_temp ∙ frame q not_output)
        (λ syncs. flush_parent_directory-ok syncs output s2)
  after_link-Committed temp output s (exists_already, s1) e =
      unlinked _ s1 (law.link_exists temp output s s1 e)
  after_link-Committed temp output s (fails, s1) e =
      unlinked _ s1 (law.link_fails temp output s s1 e)

  pub commit_temp_file-Committed :
      (temp output : FilePath) (s : System)
      → Committed temp output s (commit_temp_file os temp output s)
  unfolding commit_temp_file
  commit_temp_file-Committed temp output s =
      after_link-Committed temp output s (os.link temp output s) refl
