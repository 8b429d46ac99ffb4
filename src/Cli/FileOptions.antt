-- ===== src/Cli/FileOptions.antt =====
-- What the options of the commands on files hold when they have been accepted.
use securekit.Prelude.{
  ℕ, ◌-◌, ◌%◌, ◌≡◌, refl, sym, ap, Bool, true, false, not, ◌&&◌, ◌||◌, List, [], codes, length,
  drop, get_or, bytes_eq, if◌then◌else◌, arith, Bool-cases, inl, inr, ◌⊎◌, true≢false,
}
use securekit.Cli.{Outcome, returned}
use securekit.Cli.Values.{key_from_option, aad_from_option}
use securekit.Cli.Usage.{file_command_usage}
use securekit.Cli.Options.{
  FileCommandOptions, no_file_options, file_option, is_standard_stream_marker, reject_duplicate,
  fold_pairs, is_malformed, parse_file_command_options,
}
use securekit.Cli.Once.{
  SetsOnce, count, bit, Each, IsGiven, fold_pairs-Each, fold_pairs-count, checked_inv,
  fold_pairs-Given,
}
use securekit.Cli.Groups.{is_input, is_output, is_key, is_aad, output_apart, key_apart, aad_apart}

abbrev known : List ℕ → Bool
known o = is_input o || is_output o || is_key o || is_aad o

module _ (read_file : List ℕ → Outcome (List ℕ)) (requires_output : Bool) where
  abbrev step : List ℕ → List ℕ → FileCommandOptions → Outcome FileCommandOptions
  step = file_option read_file requires_output

  abbrev InputHolds : List ℕ → List ℕ → FileCommandOptions → Type 0
  InputHolds o v a = (a.input ≡ v) × (a.input_is_stdin ≡ is_standard_stream_marker v)

  input_once : SetsOnce step is_input (λ a. a.has_input) InputHolds
  unfolding file_option reject_duplicate
  input_once = record {
    sets = λ o v a a' e h. ground (arith, e, h);
    keeps = λ o v a a' e h. (ground (arith, e, h), λ o' v' holds. ground (arith, e, h, holds));
  }

  abbrev OutputHolds : List ℕ → List ℕ → FileCommandOptions → Type 0
  OutputHolds o v a =
      (requires_output ≡ true) × (a.output ≡ v) × (a.output_is_stdout ≡ is_standard_stream_marker v)

  output_once : SetsOnce step is_output (λ a. a.has_output) OutputHolds
  unfolding file_option reject_duplicate
  output_once = record {
    sets = λ o v a a' e h. ground (arith, e, h, output_apart o h);
    keeps = λ o v a a' e h. (ground (arith, e, h), λ o' v' holds. ground (arith, e, h, holds));
  }

  abbrev SecretHolds : List ℕ → List ℕ → FileCommandOptions → Type 0
  SecretHolds o v a = key_from_option read_file o v ≡ returned a.key

  key_once : SetsOnce step is_key (λ a. a.has_key) SecretHolds
  unfolding file_option reject_duplicate
  key_once = record {
    sets = λ o v a a' e h. ground (arith, e, h, key_apart o h);
    keeps = λ o v a a' e h. (ground (arith, e, h), λ o' v' holds. ground (arith, e, h, holds));
  }

  abbrev AadHolds : List ℕ → List ℕ → FileCommandOptions → Type 0
  AadHolds o v a = aad_from_option o v ≡ returned a.aad

  aad_once : SetsOnce step is_aad (λ a. a.has_aad) AadHolds
  unfolding file_option reject_duplicate
  aad_once = record {
    sets = λ o v a a' e h. ground (arith, e, h, aad_apart o h);
    keeps = λ o v a a' e h. (ground (arith, e, h), λ o' v' holds. ground (arith, e, h, holds));
  }

  step-known :
      (o v : List ℕ) (a a' : FileCommandOptions) → step o v a ≡ returned a' → known o ≡ true
  unfolding file_option reject_duplicate
  step-known o v a a' e = ground (arith, e)

module _ (read_file : List ℕ → Outcome (List ℕ)) where
  abbrev pub requires_output : List (List ℕ) → Bool
  requires_output argv = not (bytes_eq (get_or argv 1 []) (codes "verify-file"))

  -- The command line has pairs of known options behind the command. The input and the key are
  -- given once, the output once if the command has one and not at all otherwise, and the associated
  -- data at most once; and the options hold what is given.
  pub record IsFileAccepted (argv : List (List ℕ)) (a : FileCommandOptions) : Type 0 where
    pub even : (length argv - 2) % 2 ≡ 0
    pub known_only : Each known (drop 2 argv)
    pub one_input : count is_input (drop 2 argv) ≡ 1
    pub input_given :
        IsGiven is_input (drop 2 argv) (λ o v. InputHolds read_file (requires_output argv) o v a)
    pub one_output : count is_output (drop 2 argv) ≡ bit (requires_output argv)
    pub output_given :
        (requires_output argv ≡ false)
        ⊎ IsGiven is_output
            (drop 2 argv)
            (λ o v. OutputHolds read_file (requires_output argv) o v a)
    pub one_key : count is_key (drop 2 argv) ≡ 1
    pub key_given :
        IsGiven is_key (drop 2 argv) (λ o v. SecretHolds read_file (requires_output argv) o v a)
    pub one_aad : count is_aad (drop 2 argv) ≡ bit a.has_aad
    pub aad_given :
        (a.has_aad ≡ false)
        ⊎ IsGiven is_aad (drop 2 argv) (λ o v. AadHolds read_file (requires_output argv) o v a)

  tests_passed :
      (argv : List (List ℕ)) (a : FileCommandOptions)
      → parse_file_command_options read_file argv ≡ returned a
      → ((length argv - 2) % 2 ≡ 0)
        × (fold_pairs (step read_file (requires_output argv)) (drop 2 argv) no_file_options
            ≡ returned a)
        × (a.has_input ≡ true)
        × (requires_output argv ≡ true → a.has_output ≡ true)
        × (a.has_key ≡ true)
  unfolding parse_file_command_options
  tests_passed argv a e =
      let needed = requires_output argv in
      let (even, ran, complete) =
        checked_inv (is_malformed (if needed then 8 else 6) argv)
          (file_command_usage (get_or argv 1 []))
          (fold_pairs (step read_file needed) (drop 2 argv) no_file_options)
          (λ b. not b.has_input || (needed && not b.has_output) || not b.has_key) a e in
      (
        ground (arith, even),
        ran,
        ground (arith, complete),
        λ h. ground (arith, complete, h),
        ground (arith, complete),
      )

  output_count :
      (needed : Bool) (ps : List (List ℕ)) (a : FileCommandOptions)
      → fold_pairs (step read_file needed) ps no_file_options ≡ returned a
      → (needed ≡ true → a.has_output ≡ true)
      → a.has_output ≡ needed
  output_count true ps a e h = h refl
  output_count false ps a e h = elim (Bool-cases a.has_output) [
    | inr unset ↦ unset
    | inl set ↦
        let (o, v, given, mine, (never, name, marker)) =
          fold_pairs-Given (step read_file false) is_output (λ a. a.has_output)
            (OutputHolds read_file false) (output_once read_file false) ps no_file_options a e refl
            set in
        absurd (true≢false (sym never))
  ]

  -- If the options of seal-file, open-file or verify-file are accepted, then behind the command
  -- there are pairs of known options, the input and the key are given once, the output is given
  -- once for the first two commands and not at all for the third, associated data is given at most
  -- once, and the options hold the values given, with - as the mark of a standard stream.
  pub parse_file_command_options-IsFileAccepted :
      (argv : List (List ℕ)) (a : FileCommandOptions)
      → parse_file_command_options read_file argv ≡ returned a
      → IsFileAccepted argv a
  parse_file_command_options-IsFileAccepted argv a e =
      let (even, ran, input, output, key) = tests_passed argv a e in
      let needed = requires_output argv in
      let s = step read_file needed in
      let ps = drop 2 argv in
      record {
        even = even;
        known_only = fold_pairs-Each s known (step-known read_file needed) ps no_file_options a ran;
        one_input = omega (
          arith,
          fold_pairs-count s is_input (λ a. a.has_input) (InputHolds read_file needed)
              (input_once read_file needed) ps no_file_options a ran,
          ap bit input,
        );
        input_given =
            fold_pairs-Given s is_input (λ a. a.has_input) (InputHolds read_file needed)
              (input_once read_file needed) ps no_file_options a ran refl input;
        one_output = omega (
          arith,
          fold_pairs-count s is_output (λ a. a.has_output) (OutputHolds read_file needed)
              (output_once read_file needed) ps no_file_options a ran,
          ap bit (output_count needed ps a ran output),
        );
        output_given = elim (Bool-cases needed) [
          | inr free ↦ inl free
          | inl h ↦ inr (
              fold_pairs-Given s is_output (λ a. a.has_output) (OutputHolds read_file needed)
                (output_once read_file needed) ps no_file_options a ran refl (output h))
        ];
        one_key = omega (
          arith,
          fold_pairs-count s is_key (λ a. a.has_key) (SecretHolds read_file needed)
              (key_once read_file needed) ps no_file_options a ran,
          ap bit key,
        );
        key_given =
            fold_pairs-Given s is_key (λ a. a.has_key) (SecretHolds read_file needed)
              (key_once read_file needed) ps no_file_options a ran refl key;
        one_aad = omega (
          arith,
          fold_pairs-count s is_aad (λ a. a.has_aad) (AadHolds read_file needed)
              (aad_once read_file needed) ps no_file_options a ran,
        );
        aad_given = elim (Bool-cases a.has_aad) [
          | inr unset ↦ inl unset
          | inl h ↦ inr (
              fold_pairs-Given s is_aad (λ a. a.has_aad) (AadHolds read_file needed)
                (aad_once read_file needed) ps no_file_options a ran refl h)
        ];
      }
