-- ===== src/Cli/Options.antt =====
-- src/cli/commands.cpp: the options of the commands on files. The arguments behind the command are
-- taken in pairs; the values of keys, passwords and associated data are read as they are met.
use securekit.Prelude.{
  ℕ, ◌-◌, ◌%◌, Bool, true, false, not, ◌&&◌, ◌||◌, List, [], ◌∷◌, ◌++◌, length, drop, get_or,
  bytes_eq, codes, ltb, ◌==◌, if◌then◌else◌, String,
}
use securekit.Cli.{Outcome, returned, thrown, runtime_error, ◌>>=◌, ◌>>◌}
use securekit.Cli.Values.{key_from_option, password_from_file, aad_from_option}
use securekit.Cli.Usage.{file_command_usage, password_file_command_usage}

unfoldable pub reject_duplicate : Bool → List ℕ → Outcome (Unit {0})
reject_duplicate already_set option =
    if already_set
    then thrown (runtime_error (codes "duplicate option: " ++ option))
    else returned tt

abbrev pub throw_if : Bool → List ℕ → Outcome (Unit {0})
throw_if condition message = if condition then thrown (runtime_error message) else returned tt

unfoldable pub is_standard_stream_marker : List ℕ → Bool
is_standard_stream_marker value = bytes_eq value (codes "-")

abbrev pub is_option : String → List ℕ → Bool
is_option name option = bytes_eq option (codes name)

-- The loop over the pairs. The number of arguments has been tested to be even.
abbrev pub fold_pairs {ℓ} :
    {A : Type ℓ} → (List ℕ → List ℕ → A → Outcome A) → List (List ℕ) → A → Outcome A
fold_pairs step [] options = returned options
fold_pairs step (option ∷ []) options = returned options
fold_pairs step (option ∷ value ∷ rest) options = step option value options >>= fold_pairs step rest

abbrev pub is_malformed : ℕ → List (List ℕ) → Bool
is_malformed fewest argv = ltb (length argv) fewest || not ((length argv - 2) % 2 == 0)

pub record FileCommandOptions : Type 0 where
  pub input : List ℕ
  pub output : List ℕ
  pub key : List ℕ
  pub aad : List ℕ
  pub has_input : Bool
  pub has_output : Bool
  pub has_key : Bool
  pub has_aad : Bool
  pub input_is_stdin : Bool
  pub output_is_stdout : Bool

abbrev pub no_file_options : FileCommandOptions
no_file_options = record {
  input = [];
  output = [];
  key = [];
  aad = [];
  has_input = false;
  has_output = false;
  has_key = false;
  has_aad = false;
  input_is_stdin = false;
  output_is_stdout = false;
}

pub record PasswordFileCommandOptions : Type 0 where
  pub input : List ℕ
  pub output : List ℕ
  pub password : List ℕ
  pub aad : List ℕ
  pub has_input : Bool
  pub has_output : Bool
  pub has_password : Bool
  pub has_aad : Bool
  pub input_is_stdin : Bool
  pub output_is_stdout : Bool

abbrev pub no_password_options : PasswordFileCommandOptions
no_password_options = record {
  input = [];
  output = [];
  password = [];
  aad = [];
  has_input = false;
  has_output = false;
  has_password = false;
  has_aad = false;
  input_is_stdin = false;
  output_is_stdout = false;
}

module _ (read_file : List ℕ → Outcome (List ℕ)) where
  -- One round of the loop of `parse_file_command_options`.
  unfoldable pub file_option :
      Bool → List ℕ → List ℕ → FileCommandOptions → Outcome FileCommandOptions
  file_option requires_output option value options =
      if is_option "--in" option
      then (do
        reject_duplicate options.has_input option
        returned (record options {
          input = value;
          input_is_stdin = is_standard_stream_marker value;
          has_input = true;
        }))
      else if is_option "--out" option
      then (do
        throw_if (not requires_output) (codes "unsupported file option: " ++ option)
        reject_duplicate options.has_output option
        returned (record options {
          output = value;
          output_is_stdout = is_standard_stream_marker value;
          has_output = true;
        }))
      else if is_option "--key-hex" option || is_option "--key-file" option
      then (do
        throw_if options.has_key (codes "conflicting key options")
        key ← key_from_option read_file option value
        returned (record options { key = key; has_key = true }))
      else if is_option "--aad-text" option || is_option "--aad-hex" option
      then (do
        throw_if options.has_aad (codes "conflicting AAD options")
        aad ← aad_from_option option value
        returned (record options { aad = aad; has_aad = true }))
      else thrown (runtime_error (codes "unsupported file option: " ++ option))

  unfoldable pub parse_file_command_options : List (List ℕ) → Outcome FileCommandOptions
  parse_file_command_options argv = do
    let command = get_or argv 1 []
    let requires_output = not (bytes_eq command (codes "verify-file"))
    throw_if (is_malformed (if requires_output then 8 else 6) argv) (file_command_usage command)
    options ← fold_pairs (file_option requires_output) (drop 2 argv) no_file_options
    throw_if
        (not options.has_input
          || (requires_output && not options.has_output)
          || not options.has_key)
        (file_command_usage command)
    returned options

  -- One round of the loop of `parse_password_file_command_options`.
  unfoldable pub password_file_option :
      Bool → List ℕ → List ℕ → PasswordFileCommandOptions → Outcome PasswordFileCommandOptions
  password_file_option requires_output option value options =
      if is_option "--in" option
      then (do
        reject_duplicate options.has_input option
        returned (record options {
          input = value;
          input_is_stdin = is_standard_stream_marker value;
          has_input = true;
        }))
      else if is_option "--out" option
      then (do
        throw_if (not requires_output) (codes "unsupported password file option: " ++ option)
        reject_duplicate options.has_output option
        returned (record options {
          output = value;
          output_is_stdout = is_standard_stream_marker value;
          has_output = true;
        }))
      else if is_option "--password-file" option
      then (do
        reject_duplicate options.has_password option
        password ← password_from_file read_file value
        returned (record options { password = password; has_password = true }))
      else if is_option "--aad-text" option || is_option "--aad-hex" option
      then (do
        throw_if options.has_aad (codes "conflicting AAD options")
        aad ← aad_from_option option value
        returned (record options { aad = aad; has_aad = true }))
      else thrown (runtime_error (codes "unsupported password file option: " ++ option))

  unfoldable pub parse_password_file_command_options :
      List (List ℕ) → Outcome PasswordFileCommandOptions
  parse_password_file_command_options argv = do
    let command = get_or argv 1 []
    let requires_output = not (bytes_eq command (codes "verify-file-password"))
    throw_if (is_malformed (if requires_output then 8 else 6) argv)
        (password_file_command_usage command)
    options ← fold_pairs (password_file_option requires_output) (drop 2 argv) no_password_options
    throw_if
        (not options.has_input
          || (requires_output && not options.has_output)
          || not options.has_password)
        (password_file_command_usage command)
    returned options
