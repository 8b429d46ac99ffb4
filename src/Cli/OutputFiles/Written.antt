-- ===== src/Cli/OutputFiles/Written.antt =====
-- src/cli/commands.cpp: what a command has written when it returns.
use securekit.Prelude.{
  ℕ, ◌≡◌, ◌≢◌, refl, sym, ap, ◌∙◌, Bool, true, false, Option, none, some, some≢none, List, [], ◌++◌,
  codes, if◌then◌else◌,
}
use securekit.Random.{Generator}
use securekit.FileSystem.{FileSystem, FilePath}
use securekit.FileIo.{temp_path_of}
use securekit.Paths.Calls.{temp_path_of-ne}
use securekit.Cli.{Outcome, returned, thrown}
use securekit.Cli.OutputFiles.{
  OutputStreams, Writing, with_system, quiet, use_stream, released, committed, after_hard_link,
  is_there, close_open, conclude, after_ensure, after_status, write_block, write_out, close_out,
  commit_out, commit_output_file, open_cli_output_file, remove_file_quietly,
  ensure_output_file_does_not_exist, write_new_output_file, write_binary_file,
}
use securekit.Cli.Runs.{Run, throw, unless}
use securekit.Cli.OutputFiles.Laws.{IsOutputStreams, Spares}
use securekit.Cli.OutputFiles.Steps.{returned_inj, returned≢thrown, >>=-eq-returned, unless_inv}
use securekit.Cli.OutputFiles.Rounds.{open_rounds-Opened}

module _ (os : FileSystem) (streams : OutputStreams os) (gen : Generator) where
  abbrev Local : Type 0
  Local = Writing os streams gen

  quiet_inv :
      (w w' : Local) (r : Bool × os.System)
      → with_system os streams gen w (quiet os streams gen r) ≡ (returned true, w')
      → (r ≡ (true, w'.system)) × (w'.temp_path ≡ w.temp_path) × (w'.out ≡ w.out)
  quiet_inv w w' (good, s) e =
      let same = ap (λ (x : Outcome Bool × Local). x.1) e in
      (
        ap (λ b. (b, s)) (returned_inj (ap (λ (x : Outcome Bool × Local). x.0) e))
            ∙ ap (λ (v : Local). (true, v.system)) same,
        ap (λ (v : Local). v.temp_path) (sym same),
        ap (λ (v : Local). v.out) (sym same),
      )

  -- `commit_output_file` has returned.
  commit_inv :
      (path : FilePath) (w w' : Local) (r : Bool × os.System)
      → committed os streams gen w (after_hard_link os streams w.temp_path path r)
        ≡ (returned tt, w')
      → (r.0 ≡ true) × (w'.system ≡ os.remove w.temp_path r.1) × (w'.out ≡ w.out)
  unfolding remove_file_quietly
  commit_inv path w w' (true, s) e =
      let same = ap (λ (x : Outcome (Unit {0}) × Local). x.1) e in
      (refl, ap (λ (v : Local). v.system) (sym same), ap (λ (v : Local). v.out) (sym same))
  commit_inv path w w' (false, s) e =
      absurd (thrown_anyway (is_there os streams (os.exists path s)) e)
    where
      thrown_anyway :
          (b : Bool)
          → committed os streams gen w (
              if b
              then throw "Output file already exists" s
              else throw "failed to write output file" s)
            ≡ (returned tt, w')
          → ⊥
      thrown_anyway true h = returned≢thrown (ap (λ (x : Outcome (Unit {0}) × Local). x.0) h)
      thrown_anyway false h = returned≢thrown (ap (λ (x : Outcome (Unit {0}) × Local). x.0) h)

  status_inv :
      (path : FilePath) (s : os.System) (status : Option Bool) (s' : os.System)
      → after_status os streams path status s ≡ (returned tt, s')
      → (status ≡ some false) × (s ≡ s')
  status_inv path s none s' e =
      absurd (returned≢thrown (ap (λ (x : Outcome (Unit {0}) × os.System). x.0) e))
  status_inv path s (some true) s' e =
      absurd (returned≢thrown (ap (λ (x : Outcome (Unit {0}) × os.System). x.0) e))
  status_inv path s (some false) s' e = (refl, ap (λ (x : Outcome (Unit {0}) × os.System). x.1) e)

  conclude_inv :
      (r : Outcome (Unit {0}) × Local) (source : gen.Source) (s : os.System)
      → conclude os streams gen r ≡ (returned tt, (source, s))
      → (w : Local) × (r ≡ (returned tt, w)) × (close_open os streams gen w.out w.system ≡ s)
  unfolding conclude
  conclude_inv (returned done, w) source s e =
      (w, refl, ap (λ (x : Outcome (Unit {0}) × (gen.Source × os.System)). x.1.1) e)
  conclude_inv (thrown x, w) source s e =
      absurd (returned≢thrown (ap (λ (x : Outcome (Unit {0}) × (gen.Source × os.System)). x.0) e))

  ensure_inv :
      (path : FilePath) (writer : streams.Stream → Run os.System Bool) (source source' : gen.Source)
      (s' : os.System) (r : Outcome (Unit {0}) × os.System)
      → after_ensure os streams gen path writer source r ≡ (returned tt, (source', s'))
      → (s : os.System) × (r ≡ (returned tt, s))
        × (conclude os streams gen (
              write_block os streams gen path writer
                (record { temp_path = codes ""; out = none; source = source; system = s }))
            ≡ (returned tt, (source', s')))
  ensure_inv path writer source source' s' (returned done, s) e = (s, refl, e)
  ensure_inv path writer source source' s' (thrown x, s) e =
      absurd (returned≢thrown (ap (λ (x : Outcome (Unit {0}) × (gen.Source × os.System)). x.0) e))

  close_inv :
      (w w' : Local) (f : streams.Stream)
      → w.out ≡ some f
      → close_out os streams gen w ≡ (returned true, w')
      → (streams.close_stream f w.system ≡ (true, w'.system))
        × (w'.temp_path ≡ w.temp_path)
        × (w'.out ≡ none)
  unfolding close_out write_out
  close_inv w w' f out e =
      let closing : streams.Stream → Run os.System Bool =
        λ stream s. quiet os streams gen (streams.close_stream stream s) in
      let run : Option streams.Stream → Outcome Bool × Local =
        λ o. use_stream os streams gen closing o w in
      let e' = ap (λ o. ((run o).0, released os streams gen (run o).1)) (sym out) ∙ e in
      let after = (run (some f)).1 in
      let (shut, kept, still) =
        quiet_inv w after (streams.close_stream f w.system)
          (ap (λ (x : Outcome Bool × Local). (x.0, after)) e') in
      let same = ap (λ (x : Outcome Bool × Local). x.1) e' in
      (
        shut ∙ ap (λ (v : Local). (true, v.system)) same,
        ap (λ (v : Local). v.temp_path) (sym same) ∙ kept,
        ap (λ (v : Local). v.out) (sym same),
      )

  module _ (law : IsOutputStreams os streams) where
    open law use {contents, stream_path, written, Attached}

    -- The file under `path` is new, it holds `bytes`, and every other file is as it was.
    abbrev pub Created : FilePath → List ℕ → os.System → os.System → Type 0
    Created path bytes s s' =
        (contents s path ≡ none) × (contents s' path ≡ some bytes) × Spares os streams law s s'

    -- The calls of the block, one behind the other.
    calls-Created :
        (path temp token bytes : List ℕ) (f : streams.Stream) (s s1 s2 s3 s4 : os.System)
        → contents s path ≡ none
        → Spares os streams law s s1
        → ((q : FilePath) (c : List ℕ) → contents s q ≡ some c → q ≢ temp)
        → temp ≡ temp_path_of path token
        → stream_path f ≡ temp
        → Attached f s1
        → written f s1 ≡ []
        → streams.put bytes f s1 ≡ (true, s2)
        → streams.close_stream f s2 ≡ (true, s3)
        → streams.create_hard_link temp path s3 ≡ (true, s4)
        → Created path bytes s (os.remove temp s4)
    calls-Created path temp token bytes f s s1 s2 s3 s4 absent spares apart name at attached start
          put closed linked =
        let (attached2, grew) = law.put_good bytes f s1 s2 put attached in
        let (free, held, frame) = law.link_done temp path s3 s4 linked in
        (
          absent,
          law.remove_frame temp s4 path (λ h. temp_path_of-ne path token (h ∙ name))
              ∙ held
              ∙ ap (contents s3) (sym at)
              ∙ law.close_good f s2 s3 closed attached2
              ∙ ap some (grew ∙ ap (λ (x : List ℕ). x ++ bytes) start),
          λ q c h.
              let away = apart q c h in
              law.remove_frame temp s4 q away
              ∙ frame q (λ k. some≢none (sym h ∙ ap (contents s) k ∙ absent))
              ∙ ap (λ (x : Bool × os.System). contents x.1 q) (sym closed)
              ∙ law.close_frame f s2 q (λ k. away (k ∙ at))
              ∙ ap (λ (x : Bool × os.System). contents x.1 q) (sym put)
              ∙ law.put_frame bytes f s1 q (λ k. away (k ∙ at))
              ∙ spares q c h,
        )

    write_block-Created :
        (path : FilePath) (bytes : List ℕ) (w w' : Local)
        → contents w.system path ≡ none
        → write_block os streams gen path
            (λ stream s. quiet os streams gen (streams.put bytes stream s))
            w
          ≡ (returned tt, w')
        → Created path bytes w.system w'.system × (w'.out ≡ none)
    unfolding write_block open_cli_output_file write_out close_out commit_out commit_output_file
    write_block-Created path bytes w w' absent e =
        let writer : streams.Stream → Run os.System Bool =
          λ stream s. quiet os streams gen (streams.put bytes stream s) in
        let (d1, w1, opening, e1) =
          >>=-eq-returned (open_cli_output_file os streams gen path) _ w tt w' e in
        let (good, w2, writing, e2) =
          >>=-eq-returned (write_out os streams gen writer) _ w1 tt w' e1 in
        let (d2, w2', test, e3) =
          >>=-eq-returned (unless good "failed to write output file") _ w2 tt w' e2 in
        let (good_yes, same2) = unless_inv good "failed to write output file" w2 w2' test in
        let (fine, w3, shutting, e4) = >>=-eq-returned (close_out os streams gen) _ w2' tt w' e3 in
        let (d3, w3', test', e5) =
          >>=-eq-returned (unless fine "failed to write output file") _ w3 tt w' e4 in
        let (fine_yes, same3) = unless_inv fine "failed to write output file" w3 w3' test' in
        let (spares, (token, name), (f, out, at, attached, start), apart) =
          open_rounds-Opened os streams law gen 32 path w w1 opening in
        let (put, kept2, out2) = quiet_inv w1 w2 (streams.put bytes f w1.system) (
          ap (λ o. use_stream os streams gen writer o w1) (sym out)
          ∙ writing
          ∙ ap (λ b. (returned b, w2)) good_yes) in
        let (closed, kept3, out3) =
          close_inv w2 w3 f (out2 ∙ out) (
            ap (close_out os streams gen) same2 ∙ shutting ∙ ap (λ b. (returned b, w3)) fine_yes) in
        let link = streams.create_hard_link w3.temp_path path w3.system in
        let (linked, removed, out4) =
          commit_inv path w3 w' link (ap (commit_out os streams gen path) same3 ∙ e5) in
        let temp = kept3 ∙ kept2 in
        (
          rw removed (
              calls-Created path w3.temp_path token bytes f w.system w1.system w2.system w3.system
                link.1 absent spares (λ q c h k. apart q c h (k ∙ temp)) (temp ∙ name)
                (at ∙ sym temp) attached start put closed (ap (λ b. (b, link.1)) linked)),
          out4 ∙ out3,
        )

    -- On an operating system that meets the laws of its calls, any of which may fail, if
    -- `write_binary_file` returns, there was no file under the path, the file there holds the
    -- bytes that it was given, and every file that was there before holds what it held.
    pub write_binary_file-Created :
        (path : FilePath) (bytes : List ℕ) (source source' : gen.Source) (s s' : os.System)
        → write_binary_file os streams gen path bytes (source, s) ≡ (returned tt, (source', s'))
        → Created path bytes s s'
    unfolding write_binary_file write_new_output_file ensure_output_file_does_not_exist
    write_binary_file-Created path bytes source source' s s' e =
        let writer : streams.Stream → Run os.System Bool =
          λ stream t. quiet os streams gen (streams.put bytes stream t) in
        let (s1, ensured, run) =
          ensure_inv path writer source source' s'
            (after_status os streams path (os.exists path s) s) e in
        let (status, same) = status_inv path s (os.exists path s) s1 ensured in
        let start : os.System → Local =
          λ t. record { temp_path = codes ""; out = none; source = source; system = t } in
        let (w, block, ended) =
          conclude_inv (write_block os streams gen path writer (start s1)) source' s' run in
        let (created, out) =
          write_block-Created path bytes (start s) w (law.exists_false path s status)
            (ap (λ t. write_block os streams gen path writer (start t)) same ∙ block) in
        rw (← ended, out) created
