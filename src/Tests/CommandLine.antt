-- ===== src/Tests/CommandLine.antt =====
-- The command line at concrete arguments.
use securekit.Prelude.{
  ℕ, ◌<◌, ◌^◌, ◌≡◌, ◌↔◌, refl, true, false, List, [], ◌∷◌, ◌++◌, codes, length, map, replicate, All,
  IsByte, arith, bytes_eq,
}
use securekit.Errors.{ok}
use securekit.Hex.{
  hex_encode, encode_bytes, decode_nibble, decode_pair, decode_pairs, hex_decode, encode_nibble,
}
use securekit.Hex.Tables.{to_lower}
use securekit.Cli.{Outcome, returned}
use securekit.Cli.Values.{
  trim_ascii_whitespace, key_from_hex, key_from_file, parse_size, is_hex_char, key_from_option,
  password_from_file, aad_from_option, bytes_from_text, last_of, skip_spaces, is_space,
}
use securekit.Cli.Trim.{IsSpace, IsTrimmed, trim_ascii_whitespace_lem}
use securekit.Cli.Sizes.{IsDigit, numeral, parse_size_iff}
use securekit.Cli.Keys.{key_from_hex_iff, key_from_file-encode_bytes}
use securekit.Cli.Options.{
  FileCommandOptions, PasswordFileCommandOptions, parse_file_command_options, file_option,
  parse_password_file_command_options, password_file_option, reject_duplicate,
  is_standard_stream_marker,
}
use securekit.Cli.FileOptions.{IsFileAccepted, parse_file_command_options-IsFileAccepted}
use securekit.Cli.PasswordOptions.{
  IsPasswordAccepted, parse_password_file_command_options-IsPasswordAccepted,
}
use securekit.Cli.PacketOptions.{
  EncryptOptions, parse_encrypt_options, encrypt_option, plaintext_from_option,
}
use securekit.Cli.Accepted.{encrypting, parse_options, IsAccepted, parse_options-IsAccepted}

trim_runs : trim_ascii_whitespace (codes " a b \t") ≡ codes "a b"
unfolding trim_ascii_whitespace last_of skip_spaces is_space
trim_runs = refl

trim_ascii_whitespace_lem_example :
    (front back : List ℕ) × (codes " ab  "
      ≡ front ++ (trim_ascii_whitespace (codes " ab  ") ++ back))
    × All IsSpace front
    × All IsSpace back
    × IsTrimmed (trim_ascii_whitespace (codes " ab  "))
trim_ascii_whitespace_lem_example = trim_ascii_whitespace_lem (codes " ab  ")

abbrev hex_key : List ℕ
hex_key = replicate 64 b'a'

abbrev byte_key : List ℕ
byte_key = replicate 32 0xaa

key_from_hex_iff_example : (key_from_hex hex_key ≡ returned byte_key) ↔ (
    (length byte_key ≡ 32)
    × All IsByte byte_key
    × (hex_encode 100 byte_key ≡ ok (map to_lower hex_key)))
key_from_hex_iff_example = key_from_hex_iff 100 hex_key byte_key (omega arith)

-- One file, with a key and a newline.
abbrev one_file : List ℕ → Outcome (List ℕ)
one_file path = returned (encode_bytes byte_key ++ (10 ∷ []))

key_from_file-encode_bytes_example : key_from_file one_file (codes "k") ≡ returned byte_key
unfolding is_space
key_from_file-encode_bytes_example =
    key_from_file-encode_bytes one_file (codes "k") byte_key (10 ∷ []) refl (omega arith) (refl, tt)
      refl

parse_size_iff_example :
    (parse_size (codes "016") ≡ returned 16)
    ↔ (All IsDigit (codes "016") × (numeral (codes "016") ≡ 16) × (0 < 16) × (16 < 2 ^ 64))
parse_size_iff_example = parse_size_iff (codes "016") 16

abbrev file_command : List (List ℕ)
file_command =
    codes "securekit"
    ∷ codes "seal-file"
    ∷ codes "--out"
    ∷ codes "o"
    ∷ codes "--key-hex"
    ∷ hex_key
    ∷ codes "--in"
    ∷ codes "-"
    ∷ []

abbrev file_options : FileCommandOptions
file_options = record {
  input = codes "-";
  output = codes "o";
  key = byte_key;
  aad = [];
  has_input = true;
  has_output = true;
  has_key = true;
  has_aad = false;
  input_is_stdin = true;
  output_is_stdout = false;
}

file_options_parsed : parse_file_command_options one_file file_command ≡ returned file_options
unfolding parse_file_command_options file_option bytes_eq reject_duplicate key_from_option
    key_from_hex is_hex_char hex_decode decode_pairs decode_pair decode_nibble
    is_standard_stream_marker
file_options_parsed = refl

parse_file_command_options-IsFileAccepted_example :
    IsFileAccepted one_file file_command file_options
parse_file_command_options-IsFileAccepted_example =
    parse_file_command_options-IsFileAccepted one_file file_command file_options file_options_parsed

abbrev password_command : List (List ℕ)
password_command =
    codes "securekit"
    ∷ codes "verify-file-password"
    ∷ codes "--password-file"
    ∷ codes "p"
    ∷ codes "--in"
    ∷ codes "i"
    ∷ []

abbrev password_options : PasswordFileCommandOptions
password_options = record {
  input = codes "i";
  output = [];
  password = encode_bytes byte_key ++ (10 ∷ []);
  aad = [];
  has_input = true;
  has_output = false;
  has_password = true;
  has_aad = false;
  input_is_stdin = false;
  output_is_stdout = false;
}

password_options_parsed :
    parse_password_file_command_options one_file password_command ≡ returned password_options
unfolding parse_password_file_command_options password_file_option bytes_eq reject_duplicate
    password_from_file is_standard_stream_marker encode_bytes encode_nibble
password_options_parsed = refl

parse_password_file_command_options-IsPasswordAccepted_example :
    IsPasswordAccepted one_file password_command password_options
parse_password_file_command_options-IsPasswordAccepted_example =
    parse_password_file_command_options-IsPasswordAccepted one_file password_command
      password_options password_options_parsed

abbrev encrypt_command : List (List ℕ)
encrypt_command =
    codes "securekit"
    ∷ codes "encrypt"
    ∷ codes "--text"
    ∷ codes "t"
    ∷ codes "--key-file"
    ∷ codes "k"
    ∷ codes "--aad-text"
    ∷ codes "a"
    ∷ []

abbrev encrypt_options : EncryptOptions
encrypt_options = record {
  plaintext = codes "t";
  key = byte_key;
  aad = codes "a";
  output = [];
  has_plaintext = true;
  has_key = true;
  has_aad = true;
  has_output = false;
}

encrypt_options_parsed :
    parse_options one_file encrypting encrypt_command ≡ returned encrypt_options
unfolding parse_encrypt_options encrypt_option plaintext_from_option bytes_from_text aad_from_option
    key_from_file trim_ascii_whitespace last_of skip_spaces is_space encode_bytes encode_nibble
    bytes_eq reject_duplicate key_from_option key_from_hex is_hex_char hex_decode decode_pairs
    decode_pair decode_nibble is_standard_stream_marker
encrypt_options_parsed = refl

parse_options-IsAccepted_example : IsAccepted one_file encrypting encrypt_command encrypt_options
parse_options-IsAccepted_example =
    parse_options-IsAccepted one_file encrypting encrypt_command encrypt_options
      encrypt_options_parsed
