-- ===== src/Tests/Outputs.antt =====
-- The new files that commands write, on a small disk.
use securekit.Prelude.{
  ℕ, ◌≡◌, refl, Bool, true, false, Option, none, some, List, [], ◌∷◌, ◌++◌, codes, replicate,
  bytes_eq, if◌then◌else◌,
}
use securekit.Random.{random_bytes, fill_random, fill_loop}
use securekit.FileSystem.{FilePath}
use securekit.FileIo.{temp_path_of, token_digits}
use securekit.Cli.{returned}
use securekit.Cli.OutputFiles.{
  OutputStreams, Writer, write_new_output_file, write_binary_file, write_block, write_out,
  close_out, commit_out, commit_output_file, conclude, open_rounds, open_cli_output_file, try_open,
  temporary_output_path_for, remove_file_quietly, ensure_output_file_does_not_exist,
}
use securekit.Cli.OutputFiles.Laws.{IsOutputStreams}
use securekit.Cli.OutputFiles.Written.{Created, write_binary_file-Created}
use securekit.Prelude.{◌≢◌, sym, ap, ◌∙◌, some≢none, true≢false}
use securekit.Tests.Codecs.{counting}
use securekit.Tests.Disk.{
  update_self, update_other, read_written, some_inj, Disk, disk, update, or_empty,
}

abbrev link_if_free : FilePath → FilePath → Disk → Option (List ℕ) → Bool × Disk
link_if_free p q s none = (true, update q (s p) s)
link_if_free p q s (some c) = (false, s)

abbrev pub disk_streams : OutputStreams (disk true)
disk_streams = record {
  Stream = FilePath;
  open_truncated = λ p s. (some p, update p (some []) s);
  put = λ x stream s. (true, update stream (some (or_empty (s stream) ++ x)) s);
  close_stream = λ stream s. (true, s);
  create_hard_link = λ p q s. link_if_free p q s (s q);
  status_error = λ p. [];
}

abbrev output : FilePath
output = codes "k"

abbrev empty_disk : Disk
empty_disk q = none

-- A packet is written, and no temporary file stays.
written :
    (n : Disk) × (write_binary_file
        (disk true)
        disk_streams
        counting
        output
        (10 ∷ 20 ∷ [])
        (5, empty_disk)
      ≡ (returned tt, (6, n)))
    × (n output ≡ some (10 ∷ 20 ∷ []))
    × (n (temp_path_of output (replicate 16 5)) ≡ none)
unfolding write_binary_file write_new_output_file write_block write_out close_out commit_out
    commit_output_file conclude open_rounds open_cli_output_file try_open temporary_output_path_for
    remove_file_quietly ensure_output_file_does_not_exist random_bytes fill_random fill_loop
    bytes_eq token_digits
written = (_, refl, refl, refl)

-- A disk with every file but the output.
abbrev crowded : Disk
crowded q = if bytes_eq q output then none else some (7 ∷ [])

abbrev nothing : Writer (disk true) disk_streams counting
nothing stream s = (returned true, s)

link_inv :
    (p q : FilePath) (s s' : Disk) (o : Option (List ℕ))
    → link_if_free p q s o ≡ (true, s')
    → (o ≡ none) × (update q (s p) s ≡ s')
link_inv p q s s' none e = (refl, ap (λ (t : Bool × Disk). t.1) e)
link_inv p q s s' (some c) e = absurd (true≢false (sym (ap (λ (t : Bool × Disk). t.0) e)))

exists_inv :
    (o : Option (List ℕ))
    → elim o [ none ↦ some false | some c ↦ some true ] ≡ some false
    → o ≡ none
exists_inv none e = refl
exists_inv (some c) e = absurd (true≢false (some_inj e))
  where
    some_inj : {a b : Bool} → some a ≡ some b → a ≡ b
    some_inj h = cc

abbrev disk_streams_laws : IsOutputStreams (disk true) disk_streams
disk_streams_laws = record {
  contents = λ s q. s q;
  stream_path = λ f. f;
  written = λ f s. or_empty (s f);
  Attached = λ f s. s f ≢ none;
  exists_false = λ p s e. exists_inv (s p) e;
  open_some = λ p s s' f e.
      let name : p ≡ f = some_inj (ap (λ (t : Option FilePath × Disk). t.0) e) in
      let here : s' f ≡ some [] =
        ap (λ (t : Option FilePath × Disk). t.1 f) (sym e)
        ∙ ap (update p (some []) s) (sym name)
        ∙ update_self p (some []) s in
      (sym name, (λ h. some≢none (sym here ∙ h)), ap or_empty here);
  open_frame = λ p s q other. update_other p (some []) s q other;
  put_frame = λ x f s q other. update_other f (some (or_empty (s f) ++ x)) s q other;
  put_good = λ x f s s' e h.
      let here : s' f ≡ some (or_empty (s f) ++ x) =
        ap (λ (t : Bool × Disk). t.1 f) (sym e) ∙ update_self f (some (or_empty (s f) ++ x)) s in
      ((λ k. some≢none (sym here ∙ k)), ap or_empty here);
  close_frame = λ f s q other. refl;
  close_good = λ f s s' e h. ap (λ (t : Bool × Disk). t.1 f) (sym e) ∙ read_written h;
  link_done = λ p q s s' e.
      let (free, after) = link_inv p q s s' (s q) e in
      (
        free,
        ap (λ (t : Disk). t q) (sym after) ∙ update_self q (s p) s,
        λ r other. ap (λ (t : Disk). t r) (sym after) ∙ update_other q (s p) s r other,
      );
  remove_frame = λ p s q other. update_other p none s q other;
}

write_binary_file-Created_example :
    Created
      (disk true)
      disk_streams
      counting
      disk_streams_laws
      output
      (10 ∷ 20 ∷ [])
      empty_disk
      written.0
write_binary_file-Created_example =
    write_binary_file-Created (disk true) disk_streams counting disk_streams_laws output
      (10 ∷ 20 ∷ []) 5 6 empty_disk written.0 written.1
