-- ===== src/Tests/Disk.antt =====
-- A small file system that meets the laws: a map from paths to contents, on which no call fails.
use securekit.Prelude.{
  ℕ, ◌≡◌, ◌≢◌, refl, sym, ap, ◌∙◌, Bool, true, false, Option, none, some, List, [], ◌++◌, length,
  bytes_eq, bytes_eq_refl, bytes_eq→eq, Bool-cases, inl, inr, if◌then◌else◌, some≢none,
}
use securekit.IoStream.Laws.{clean}
use securekit.FileSystem.{FileSystem, FilePath, Answer, done, exists_already, fails}
use securekit.FileSystem.Laws.{IsFileSystem}

abbrev pub Disk : Type 0
Disk = FilePath → Option (List ℕ)

abbrev pub update : FilePath → Option (List ℕ) → Disk → Disk
update p c s q = if bytes_eq q p then c else s q

abbrev pub or_empty : Option (List ℕ) → List ℕ
or_empty none = []
or_empty (some c) = c

abbrev create : FilePath → Disk → Option (List ℕ) → Answer FilePath × Disk
create p s none = (done p, update p (some []) s)
create p s (some c) = (exists_already, s)

abbrev name_again : FilePath → FilePath → Disk → Option (List ℕ) → Answer (Unit {0}) × Disk
name_again p q s none = (done tt, update q (s p) s)
name_again p q s (some c) = (exists_already, s)

-- If `streams` is false, `fdopen` fails.
abbrev pub disk : Bool → FileSystem
disk streams = record {
  System = Disk;
  Fd = FilePath;
  File = FilePath;
  open_exclusive = λ p s. create p s (s p);
  open_directory = λ p s. (some p, s);
  fsync = λ fd s. (true, s);
  close = λ fd s. (true, s);
  link = λ p q s. name_again p q s (s q);
  fdopen = λ fd s. (if streams then some fd else none, s);
  fileno = λ file. file;
  fwrite = λ x file s. (length x, update file (some (or_empty (s file) ++ x)) s);
  fflush = λ file s. (true, s);
  fclose = λ file s. (true, s);
  exists = λ p s. elim (s p) [ none ↦ some false | some c ↦ some true ];
  remove = λ p s. update p none s;
  ifstream = λ p s. elim (s p) [ none ↦ none | some c ↦ some (clean c) ];
  parent_path = λ p. [];
}

pub update_self : (p : FilePath) (c : Option (List ℕ)) (s : Disk) → update p c s p ≡ c
update_self p c s = rw (bytes_eq_refl p) refl

pub update_other :
    (p : FilePath) (c : Option (List ℕ)) (s : Disk) (q : FilePath) → q ≢ p → update p c s q ≡ s q
update_other p c s q other = elim (Bool-cases (bytes_eq q p)) [
  | inl same ↦ absurd (other (bytes_eq→eq q p same))
  | inr different ↦ rw different refl
]

done_inj : {A : Type 0} {a b : A} → done a ≡ done b → a ≡ b
done_inj h = cc

done≢exists : {A : Type 0} {a : A} → exists_already ≡ done a → ⊥
done≢exists h = cc

fails≢done : {A : Type 0} {a : A} → done a ≡ fails → ⊥
fails≢done h = cc

fails≢exists : {A : Type 0} (x y : Answer A) → x ≡ exists_already → y ≡ fails → x ≡ y → ⊥
fails≢exists x y h k e = cc

pub create-eq-done :
    (p : FilePath) (s s' : Disk) (o : Option (List ℕ)) (fd : FilePath)
    → create p s o ≡ (done fd, s')
    → (o ≡ none) × (update p (some []) s ≡ s') × (fd ≡ p)
create-eq-done p s s' none fd e = (
  refl,
  ap (λ (t : Answer FilePath × Disk). t.1) e,
  sym (done_inj (ap (λ (t : Answer FilePath × Disk). t.0) e)),
)
create-eq-done p s s' (some c) fd e =
    absurd (done≢exists (ap (λ (t : Answer FilePath × Disk). t.0) e))

pub create_other :
    (p : FilePath) (s s' : Disk) (o : Option (List ℕ))
    → create p s o ≡ (exists_already, s')
    → s ≡ s'
create_other p s s' none e = absurd (done≢exists (sym (ap (λ (t : Answer FilePath × Disk). t.0) e)))
create_other p s s' (some c) e = ap (λ (t : Answer FilePath × Disk). t.1) e

pub create_fails :
    (p : FilePath) (s s' : Disk) (o : Option (List ℕ)) → create p s o ≡ (fails, s') → ⊥
create_fails p s s' none e = fails≢done (ap (λ (t : Answer FilePath × Disk). t.0) e)
create_fails p s s' (some c) e =
    fails≢exists _ _ refl refl (ap (λ (t : Answer FilePath × Disk). t.0) e)

pub name_done :
    (p q : FilePath) (s s' : Disk) (o : Option (List ℕ))
    → name_again p q s o ≡ (done tt, s')
    → (o ≡ none) × (update q (s p) s ≡ s')
name_done p q s s' none e = (refl, ap (λ (t : Answer (Unit {0}) × Disk). t.1) e)
name_done p q s s' (some c) e = absurd (done≢exists (ap (λ (t : Answer (Unit {0}) × Disk). t.0) e))

pub name_other :
    (p q : FilePath) (s s' : Disk) (o : Option (List ℕ))
    → name_again p q s o ≡ (exists_already, s')
    → s ≡ s'
name_other p q s s' none e =
    absurd (done≢exists (sym (ap (λ (t : Answer (Unit {0}) × Disk). t.0) e)))
name_other p q s s' (some c) e = ap (λ (t : Answer (Unit {0}) × Disk). t.1) e

pub name_fails :
    (p q : FilePath) (s s' : Disk) (o : Option (List ℕ)) → name_again p q s o ≡ (fails, s') → ⊥
name_fails p q s s' none e = fails≢done (ap (λ (t : Answer (Unit {0}) × Disk). t.0) e)
name_fails p q s s' (some c) e =
    fails≢exists _ _ refl refl (ap (λ (t : Answer (Unit {0}) × Disk). t.0) e)

pub some_inj : {a b : FilePath} → some a ≡ some b → a ≡ b
some_inj h = cc

pub read_written : {o : Option (List ℕ)} → o ≢ none → o ≡ some (or_empty o)
read_written {o = none} h = absurd (h refl)
read_written {o = some c} h = refl

pub stream_inv :
    (streams : Bool) (fd file : FilePath)
    → (if streams then some fd else none) ≡ some file
    → fd ≡ file
stream_inv true fd file e = some_inj e
stream_inv false fd file e = absurd (some≢none (sym e))

abbrev pub disk_laws : (streams : Bool) → IsFileSystem (disk streams)
disk_laws streams = record {
  contents = λ s q. s q;
  fd_path = λ fd. fd;
  file_path = λ file. file;
  written = λ file s. or_empty (s file);
  Attached = λ file s. s file ≢ none;
  exclusive_done = λ p s s' fd e.
      let (absent, after, name) = create-eq-done p s s' (s p) fd e in
      (
        absent,
        ap (λ (t : Disk). t p) (sym after) ∙ update_self p (some []) s,
        name,
        λ q other. ap (λ (t : Disk). t q) (sym after) ∙ update_other p (some []) s q other,
      );
  exclusive_exists = λ p s s' e q. ap (λ (t : Disk). t q) (sym (create_other p s s' (s p) e));
  exclusive_fails = λ p s s' e q. absurd (create_fails p s s' (s p) e);
  directory_frame = λ p s q. refl;
  fsync_frame = λ fd s q. refl;
  fsync_keeps = λ fd s file h. (h, refl);
  close_frame = λ fd s q. refl;
  link_done = λ p q s s' e.
      let (absent, after) = name_done p q s s' (s q) e in
      (
        absent,
        ap (λ (t : Disk). t q) (sym after) ∙ update_self q (s p) s,
        λ r other. ap (λ (t : Disk). t r) (sym after) ∙ update_other q (s p) s r other,
      );
  link_exists = λ p q s s' e r. ap (λ (t : Disk). t r) (sym (name_other p q s s' (s q) e));
  link_fails = λ p q s s' e r. absurd (name_fails p q s s' (s q) e);
  fdopen_frame = λ fd s q. refl;
  fdopen_some = λ fd s s' file e start.
      let name : fd ≡ file =
        stream_inv streams fd file (ap (λ (t : Option FilePath × Disk). t.0) e) in
      let after : s ≡ s' = ap (λ (t : Option FilePath × Disk). t.1) e in
      let here : s' file ≡ some [] =
        ap (λ (t : Disk). t file) (sym after) ∙ ap s (sym name) ∙ start in
      (sym name, (λ h. some≢none (sym here ∙ h)), ap or_empty here);
  fwrite_frame = λ x file s q other. update_other file (some (or_empty (s file) ++ x)) s q other;
  fwrite_all = λ x file s s' e h.
      let here : s' file ≡ some (or_empty (s file) ++ x) =
        ap (λ (t : ℕ × Disk). t.1 file) (sym e)
        ∙ update_self file (some (or_empty (s file) ++ x)) s in
      ((λ k. some≢none (sym here ∙ k)), ap or_empty here);
  fflush_frame = λ file s q other. refl;
  fflush_keeps = λ file s h. (h, refl);
  fclose_frame = λ file s q other. refl;
  fclose_done = λ file s s' e h. ap (λ (t : Bool × Disk). t.1 file) (sym e) ∙ read_written h;
  remove_frame = λ p s q other. update_other p none s q other;
}
