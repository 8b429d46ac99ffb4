-- ===== src/Cli/OutputFiles/Rounds.antt =====
-- src/cli/commands.cpp: what the loop of `open_cli_output_file` has done when it returns.
use securekit.Prelude.{
  ℕ, zero, suc, ◌≡◌, ◌≢◌, refl, sym, ap, ◌∙◌, Bool, true, false, Option, none, some, List, [],
  true≢false, some≢none, if◌then◌else◌,
}
use securekit.Errors.{Result, ok, err}
use securekit.Random.{Generator, random_bytes}
use securekit.FileSystem.{FileSystem, FilePath}
use securekit.FileIo.{temp_path_of}
use securekit.Cli.{Outcome, returned}
use securekit.Cli.OutputFiles.{
  OutputStreams, Writing, open_rounds, try_open, temporary_output_path_for, renamed, is_taken,
  with_stream,
}
use securekit.Cli.Runs.{Run, give, ◌>>=◌}
use securekit.Cli.OutputFiles.Laws.{IsOutputStreams, Spares, frame-Spares}
use securekit.Cli.OutputFiles.Steps.{returned_inj, returned≢thrown, >>=-eq-returned}

module _ (os : FileSystem) (streams : OutputStreams os) (law : IsOutputStreams os streams)
    (gen : Generator) where
  open law use {contents, stream_path, written, Attached}

  abbrev Local : Type 0
  Local = Writing os streams gen

  renamed_inv :
      (output : FilePath) (w w1 : Local) (r : Result (List ℕ) × gen.Source)
      → renamed os streams gen output w r ≡ (returned tt, w1)
      → (token : List ℕ) × (w1.temp_path ≡ temp_path_of output token) × (w1.system ≡ w.system)
  renamed_inv output w w1 (ok token, source) e =
      let same = ap (λ (r : Outcome (Unit {0}) × Local). r.1) e in
      (token, ap (λ (v : Local). v.temp_path) (sym same), ap (λ (v : Local). v.system) (sym same))
  renamed_inv output w w1 (err x, source) e =
      absurd (returned≢thrown (ap (λ (r : Outcome (Unit {0}) × Local). r.0) e))

  -- The stream of `w` is fresh, and opened under its temporary name.
  abbrev pub Fresh : Local → Type 0
  Fresh w =
      (f : streams.Stream) × (w.out ≡ some f)
      × (stream_path f ≡ w.temp_path)
      × Attached f w.system
      × (written f w.system ≡ [])

  -- What a round does that ends with `is_open`.
  abbrev Tried : Local → Bool → Local → Type 0
  Tried w is_open w1 =
      Spares os streams law w.system w1.system
      × (w1.temp_path ≡ w.temp_path)
      × (is_open ≡ true → Fresh w1 × (contents w.system w.temp_path ≡ none))

  with_stream-Tried :
      (w : Local) (r : Option streams.Stream × os.System) (is_open : Bool) (w1 : Local)
      → streams.open_truncated w.temp_path w.system ≡ r
      → contents w.system w.temp_path ≡ none
      → with_stream os streams gen w r ≡ (returned is_open, w1)
      → Tried w is_open w1
  with_stream-Tried w (none, s) is_open w1 opened absent e =
      let closed = returned_inj (ap (λ (r : Outcome Bool × Local). r.0) e) in
      let same = ap (λ (r : Outcome Bool × Local). r.1) e in
      (
        rw (← same) (
            frame-Spares os streams law w.temp_path w.system s absent (λ q other.
              ap (λ (r : Option streams.Stream × os.System). contents r.1 q) (sym opened)
              ∙ law.open_frame w.temp_path w.system q other)),
        ap (λ (v : Local). v.temp_path) (sym same),
        λ h. absurd (true≢false (sym h ∙ sym closed)),
      )
  with_stream-Tried w (some f, s) is_open w1 opened absent e =
      let same = ap (λ (r : Outcome Bool × Local). r.1) e in
      let (name, attached, start) = law.open_some w.temp_path w.system s f opened in
      (
        rw (← same) (
            frame-Spares os streams law w.temp_path w.system s absent (λ q other.
              ap (λ (r : Option streams.Stream × os.System). contents r.1 q) (sym opened)
              ∙ law.open_frame w.temp_path w.system q other)),
        ap (λ (v : Local). v.temp_path) (sym same),
        λ h. (rw (← same) (f, refl, name, attached, start), absent),
      )

  kept-Tried :
      (w : Local) (is_open : Bool) (w1 : Local)
      → give false w ≡ (returned is_open, w1)
      → Tried w is_open w1
  kept-Tried w is_open w1 e =
      let closed = returned_inj (ap (λ (r : Outcome Bool × Local). r.0) e) in
      let same = ap (λ (r : Outcome Bool × Local). r.1) e in
      (
        (λ q c h. ap (λ (v : Local). contents v.system q) (sym same) ∙ h),
        ap (λ (v : Local). v.temp_path) (sym same),
        λ h. absurd (true≢false (sym h ∙ sym closed)),
      )

  taken-Tried :
      (w : Local) (status : Option Bool) (is_open : Bool) (w1 : Local)
      → os.exists w.temp_path w.system ≡ status
      → (if is_taken os streams gen status
          then give false w
          else with_stream os streams gen w (streams.open_truncated w.temp_path w.system))
        ≡ (returned is_open, w1)
      → Tried w is_open w1
  taken-Tried w (some false) is_open w1 there e =
      with_stream-Tried w (streams.open_truncated w.temp_path w.system) is_open w1 refl
        (law.exists_false w.temp_path w.system there) e
  taken-Tried w (some true) is_open w1 there e = kept-Tried w is_open w1 e
  taken-Tried w none is_open w1 there e = kept-Tried w is_open w1 e

  -- The loop returns with a fresh stream under a temporary name, which no file had.
  abbrev pub Opened : FilePath → Local → Local → Type 0
  Opened output w w' =
      Spares os streams law w.system w'.system
      × ((token : List ℕ) × (w'.temp_path ≡ temp_path_of output token))
      × Fresh w'
      × ((q : FilePath) (c : List ℕ) → contents w.system q ≡ some c → q ≢ w'.temp_path)

  after-Opened :
      (output : FilePath) (w w1 w2 w3 : Local) (is_open : Bool) (rest : Run Local (Unit {0}))
      → ((token : List ℕ) × (w1.temp_path ≡ temp_path_of output token) × (w1.system ≡ w.system))
      → Tried w1 is_open w2
      → (rest w2 ≡ (returned tt, w3) → Opened output w2 w3)
      → (if is_open then give tt else rest) w2 ≡ (returned tt, w3)
      → Opened output w w3
  after-Opened output w w1 w2 w3 true rest (token, name, still) (spares, kept, fresh) later e =
      let same : w2 ≡ w3 = ap (λ (r : Outcome (Unit {0}) × Local). r.1) e in
      let (opened, absent) = fresh refl in
      rw (← same) (
        rw (← still) (
          spares,
          (token, kept ∙ name),
          opened,
          λ q c h here. some≢none (sym h ∙ ap (contents w1.system) (here ∙ kept) ∙ absent),
        ))
  after-Opened output w w1 w2 w3 false rest (token, name, still) (spares, kept, fresh) later e =
      let (spares', named, opened, apart) = later e in
      rw (← still)
        ((λ q c h. spares' q c (spares q c h)), named, opened, λ q c h. apart q c (spares q c h))

  pub open_rounds-Opened :
      (n : ℕ) (output : FilePath) (w w' : Local)
      → open_rounds os streams gen n output w ≡ (returned tt, w')
      → Opened output w w'
  unfolding open_rounds try_open temporary_output_path_for
  open_rounds-Opened zero output w w' e =
      absurd (returned≢thrown (ap (λ (r : Outcome (Unit {0}) × Local). r.0) e))
  open_rounds-Opened (suc n) output w w' e =
      let rest = open_rounds os streams gen n output in
      let (done, w1, named, e1) =
        >>=-eq-returned (temporary_output_path_for os streams gen output)
          (λ done. do is_open ← try_open os streams gen; if is_open then give tt else rest) w tt w'
          e in
      let (is_open, w2, tried, e2) =
        >>=-eq-returned (try_open os streams gen) (λ is_open. if is_open then give tt else rest) w1
          tt w' e1 in
      after-Opened output w w1 w2 w' is_open rest
        (renamed_inv output w w1 (random_bytes gen 16 w.source) named)
        (taken-Tried w1 (os.exists w1.temp_path w1.system) is_open w2 refl tried)
        (open_rounds-Opened n output w2 w') e2
