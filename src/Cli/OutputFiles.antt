-- ===== src/Cli/OutputFiles.antt =====
-- src/cli/commands.cpp: the new files that the commands on keys and packets write, first under a
-- temporary name beside the output.
pub mod Laws
pub mod Steps
pub mod Rounds
pub mod Written
pub mod Taken
use securekit.Prelude.{
  ℕ, zero, suc, Bool, true, false, Option, none, some, List, length, codes, ◌==◌, if◌then◌else◌,
  String,
}
use securekit.Errors.{Result, ok, err}
use securekit.Random.{Generator, random_bytes, generate_key}
use securekit.Hex.{hex_encode}
use securekit.FileSystem.{FileSystem, FilePath}
use securekit.FileIo.{temp_path_of}
use securekit.Cli.Runs.{Run, followed, give, throw, unless, ◌>>=◌, ◌>>◌}
use securekit.Cli.{Thrown, runtime_error, library_error, Outcome, returned, thrown}

-- The calls of `std::ofstream` and `std::filesystem` that are not in FileSystem: they are a
-- parameter, like the others.
pub record OutputStreams (os : FileSystem) : Type 1 where
  -- a `std::ofstream` that is open
  pub Stream : Type 0
  -- `open(path, binary | trunc)`, `none` if the stream fails
  pub open_truncated : FilePath → os.System → Option Stream × os.System
  -- whether the stream is good behind `write` and behind `close`
  pub put : List ℕ → Stream → os.System → Bool × os.System
  pub close_stream : Stream → os.System → Bool × os.System
  -- `std::filesystem::create_hard_link`: whether it leaves the error code clear
  pub create_hard_link : FilePath → FilePath → os.System → Bool × os.System
  -- the text of the `filesystem_error` that `std::filesystem::exists` throws
  pub status_error : FilePath → List ℕ

module _ (os : FileSystem) (streams : OutputStreams os) where
  open os use {System, exists, remove}
  open streams use {Stream, open_truncated, put, close_stream, create_hard_link, status_error}

  unfoldable pub remove_file_quietly : FilePath → System → System
  remove_file_quietly path s = remove path s

  abbrev pub after_status : FilePath → Option Bool → Run System (Unit {0})
  after_status path none s = (thrown (runtime_error (status_error path)), s)
  after_status path (some there) s =
      if there then throw "Output file already exists" s else give tt s

  unfoldable pub ensure_output_file_does_not_exist : FilePath → Run System (Unit {0})
  ensure_output_file_does_not_exist path s = after_status path (exists path s) s

  -- `std::filesystem::exists(output, ec)` in a condition
  abbrev pub is_there : Option Bool → Bool
  is_there none = false
  is_there (some there) = there

  abbrev pub after_hard_link : FilePath → FilePath → Bool × System → Outcome (Unit {0}) × System
  after_hard_link temp_path output (true, s) = (returned tt, remove_file_quietly temp_path s)
  after_hard_link temp_path output (false, s) =
      if is_there (exists output s)
      then throw "Output file already exists" s
      else throw "failed to write output file" s

  unfoldable pub commit_output_file : FilePath → FilePath → Run System (Unit {0})
  commit_output_file temp_path output s =
      after_hard_link temp_path output (create_hard_link temp_path output s)

  module _ (gen : Generator) where
    open gen use {Source}

    -- The local variables of `write_new_output_file`, whose `temp_path` is empty at first, and
    -- whose `out` is `none` while it is not open; and the world they stand in.
    pub record Writing : Type 0 where
      pub temp_path : FilePath
      pub out : Option Stream
      pub source : Source
      pub system : System

    abbrev pub renamed :
        FilePath → Writing → Result (List ℕ) × Source → Outcome (Unit {0}) × Writing
    renamed output w (ok token, source) = (
      returned tt,
      record {
        temp_path = temp_path_of output token;
        out = w.out;
        source = source;
        system = w.system;
      },
    )
    renamed output w (err e, source) = (
      thrown (library_error e),
      record { temp_path = w.temp_path; out = w.out; source = source; system = w.system },
    )

    -- `temp_path = temporary_output_path_for(output);`
    unfoldable pub temporary_output_path_for : FilePath → Run Writing (Unit {0})
    temporary_output_path_for output w = renamed output w (random_bytes gen 16 w.source)

    -- `std::filesystem::exists(temp_path, ec) || ec`
    abbrev pub is_taken : Option Bool → Bool
    is_taken none = true
    is_taken (some there) = there

    abbrev pub with_stream : Writing → Option Stream × System → Outcome Bool × Writing
    with_stream w (none, s) = (
      returned false,
      record { temp_path = w.temp_path; out = none; source = w.source; system = s },
    )
    with_stream w (some stream, s) = (
      returned true,
      record { temp_path = w.temp_path; out = some stream; source = w.source; system = s },
    )

    -- A round of the loop behind the new name: whether the stream is open.
    unfoldable pub try_open : Run Writing Bool
    try_open w =
        if is_taken (exists w.temp_path w.system)
        then give false w
        else with_stream w (open_truncated w.temp_path w.system)

    -- The loop of `open_cli_output_file`, over the attempts that are left.
    unfoldable pub open_rounds : ℕ → FilePath → Run Writing (Unit {0})
    open_rounds zero output = throw "failed to open output file"
    open_rounds (suc attempts) output =
        let rest = open_rounds attempts output in
        do temporary_output_path_for output; is_open ← try_open; if is_open then give tt else rest

    unfoldable pub open_cli_output_file : FilePath → Run Writing (Unit {0})
    open_cli_output_file output = open_rounds 32 output

    -- What is called on `out`, which may throw: whether the stream is good behind it.
    abbrev pub Writer : Type 0
    Writer = Stream → Run System Bool

    abbrev pub quiet : Bool × System → Outcome Bool × System
    quiet (good, s) = (returned good, s)

    abbrev pub with_system : Writing → Outcome Bool × System → Outcome Bool × Writing
    with_system w (outcome, s) =
        (outcome, record { temp_path = w.temp_path; out = w.out; source = w.source; system = s })

    abbrev pub use_stream : Writer → Option Stream → Run Writing Bool
    use_stream writer none w = (returned false, w)
    use_stream writer (some stream) w = with_system w (writer stream w.system)

    unfoldable pub write_out : Writer → Run Writing Bool
    write_out writer w = use_stream writer w.out w

    abbrev pub released : Writing → Writing
    released w = record {
      temp_path = w.temp_path;
      out = none;
      source = w.source;
      system = w.system;
    }

    -- `out.close();`: the file is closed even if the stream fails.
    unfoldable pub close_out : Run Writing Bool
    unfolding write_out
    close_out w =
        let (good, w') = write_out (λ stream s. quiet (close_stream stream s)) w in
        (good, released w')

    abbrev pub committed : Writing → Outcome (Unit {0}) × System → Outcome (Unit {0}) × Writing
    committed w (outcome, s) =
        (outcome, record { temp_path = w.temp_path; out = w.out; source = w.source; system = s })

    unfoldable pub commit_out : FilePath → Run Writing (Unit {0})
    commit_out path w = committed w (commit_output_file w.temp_path path w.system)

    -- The `try` block.
    unfoldable pub write_block : FilePath → Writer → Run Writing (Unit {0})
    write_block path writer = do
      open_cli_output_file path
      written ← write_out writer
      unless written "failed to write output file"
      closed ← close_out
      unless closed "failed to write output file"
      commit_out path

    abbrev pub close_open : Option Stream → System → System
    close_open none s = s
    close_open (some stream) s = (close_stream stream s).1

    abbrev pub remove_named : FilePath → System → System
    remove_named temp_path s = if length temp_path == 0 then s else remove_file_quietly temp_path s

    -- The `catch` block and its `throw`, or the end of the function.
    unfoldable pub conclude : Outcome (Unit {0}) × Writing → Outcome (Unit {0}) × (Source × System)
    conclude (returned done, w) = (returned done, (w.source, close_open w.out w.system))
    conclude (thrown e, w) =
        (thrown e, (w.source, remove_named w.temp_path (close_open w.out w.system)))

    abbrev pub after_ensure :
        FilePath
        → Writer
        → Source
        → Outcome (Unit {0}) × System
        → Outcome (Unit {0}) × (Source × System)
    after_ensure path writer source (thrown e, s) = (thrown e, (source, s))
    after_ensure path writer source (returned done, s) = conclude (
        write_block path writer
          (record { temp_path = codes ""; out = none; source = source; system = s }))

    unfoldable pub write_new_output_file : FilePath → Writer → Run (Source × System) (Unit {0})
    write_new_output_file path writer (source, s) =
        after_ensure path writer source (ensure_output_file_does_not_exist path s)

    unfoldable pub write_binary_file : FilePath → List ℕ → Run (Source × System) (Unit {0})
    write_binary_file path bytes =
        write_new_output_file path (λ stream s. quiet (put bytes stream s))

    -- `out << ... << '\n'`: a stream that fails takes no more.
    abbrev pub end_line : Stream → Bool × System → Bool × System
    end_line stream (good, s) = if good then put (codes "\n") stream s else (false, s)

    abbrev pub key_line : Result (List ℕ) → Writer
    key_line (err e) stream s = (thrown (library_error e), s)
    key_line (ok text) stream s = quiet (end_line stream (put text stream s))

    unfoldable pub write_key_file : ℕ → FilePath → List ℕ → Run (Source × System) (Unit {0})
    write_key_file string_max path key =
        write_new_output_file path (key_line (hex_encode string_max key))

    abbrev pub write_drawn :
        ℕ → FilePath → System → Result (List ℕ) × Source → Outcome (Unit {0}) × (Source × System)
    write_drawn string_max path s (err e, source) = (thrown (library_error e), (source, s))
    write_drawn string_max path s (ok key, source) = write_key_file string_max path key (source, s)

    unfoldable pub write_generated_key : ℕ → FilePath → Run (Source × System) (Unit {0})
    write_generated_key string_max path (source, s) =
        write_drawn string_max path s (generate_key gen source)
