-- ===== src/Cli/PacketOptions.antt =====
-- src/cli/commands.cpp: the options of the commands on packets and on wrapped keys.
use securekit.Prelude.{
  ℕ, Bool, true, false, not, ◌||◌, List, [], ◌++◌, drop, get_or, codes, if◌then◌else◌,
}
use securekit.Hex.{hex_decode}
use securekit.Cli.{Outcome, returned, thrown, runtime_error, ◌>>=◌, ◌>>◌, library}
use securekit.Cli.Values.{
  key_from_option, wrapping_key_from_option, aad_from_option, bytes_from_text,
}
use securekit.Cli.Usage.{wrap_key_usage, unwrap_key_usage, packet_command_usage}
use securekit.Cli.Options.{reject_duplicate, throw_if, is_option, fold_pairs, is_malformed}

pub record WrapKeyOptions : Type 0 where
  pub key : List ℕ
  pub wrapping_key : List ℕ
  pub output : List ℕ
  pub has_key : Bool
  pub has_wrapping_key : Bool
  pub has_output : Bool

abbrev pub no_wrap_key_options : WrapKeyOptions
no_wrap_key_options = record {
  key = [];
  wrapping_key = [];
  output = [];
  has_key = false;
  has_wrapping_key = false;
  has_output = false;
}

pub record UnwrapKeyOptions : Type 0 where
  pub packet : List ℕ
  pub wrapping_key : List ℕ
  pub output : List ℕ
  pub has_packet : Bool
  pub has_wrapping_key : Bool
  pub has_output : Bool

abbrev pub no_unwrap_key_options : UnwrapKeyOptions
no_unwrap_key_options = record {
  packet = [];
  wrapping_key = [];
  output = [];
  has_packet = false;
  has_wrapping_key = false;
  has_output = false;
}

pub record EncryptOptions : Type 0 where
  pub plaintext : List ℕ
  pub key : List ℕ
  pub aad : List ℕ
  pub output : List ℕ
  pub has_plaintext : Bool
  pub has_key : Bool
  pub has_aad : Bool
  pub has_output : Bool

abbrev pub no_encrypt_options : EncryptOptions
no_encrypt_options = record {
  plaintext = [];
  key = [];
  aad = [];
  output = [];
  has_plaintext = false;
  has_key = false;
  has_aad = false;
  has_output = false;
}

pub record DecryptOptions : Type 0 where
  pub packet : List ℕ
  pub key : List ℕ
  pub aad : List ℕ
  pub output : List ℕ
  pub has_packet : Bool
  pub has_key : Bool
  pub has_aad : Bool
  pub has_output : Bool

abbrev pub no_decrypt_options : DecryptOptions
no_decrypt_options = record {
  packet = [];
  key = [];
  aad = [];
  output = [];
  has_packet = false;
  has_key = false;
  has_aad = false;
  has_output = false;
}

module _ (read_file : List ℕ → Outcome (List ℕ)) where
  -- The value of an option of which a hexadecimal text or a file may be given.
  unfoldable pub packet_from_option : List ℕ → List ℕ → Outcome (List ℕ)
  packet_from_option option value =
      if is_option "--packet-hex" option then library (hex_decode value) else read_file value

  unfoldable pub plaintext_from_option : List ℕ → List ℕ → Outcome (List ℕ)
  plaintext_from_option option value =
      if is_option "--text" option then returned (bytes_from_text value) else read_file value

  -- One round of the loop of `parse_wrap_key_options`.
  unfoldable pub wrap_key_option : List ℕ → List ℕ → WrapKeyOptions → Outcome WrapKeyOptions
  wrap_key_option option value options =
      if is_option "--key-hex" option || is_option "--key-file" option
      then (do
        throw_if options.has_key (codes "conflicting key options")
        key ← key_from_option read_file option value
        returned (record options { key = key; has_key = true }))
      else if is_option "--wrapping-key-hex" option || is_option "--wrapping-key-file" option
      then (do
        throw_if options.has_wrapping_key (codes "conflicting wrapping key options")
        wrapping_key ← wrapping_key_from_option read_file option value
        returned (record options { wrapping_key = wrapping_key; has_wrapping_key = true }))
      else if is_option "--out" option
      then (do
        reject_duplicate options.has_output option
        returned (record options { output = value; has_output = true }))
      else thrown (runtime_error (codes "unsupported key wrapping option: " ++ option))

  unfoldable pub parse_wrap_key_options : List (List ℕ) → Outcome WrapKeyOptions
  parse_wrap_key_options argv = do
    throw_if (is_malformed 6 argv) wrap_key_usage
    options ← fold_pairs wrap_key_option (drop 2 argv) no_wrap_key_options
    throw_if (not options.has_key || not options.has_wrapping_key) wrap_key_usage
    returned options

  -- One round of the loop of `parse_unwrap_key_options`.
  unfoldable pub unwrap_key_option : List ℕ → List ℕ → UnwrapKeyOptions → Outcome UnwrapKeyOptions
  unwrap_key_option option value options =
      if is_option "--packet-hex" option || is_option "--packet-file" option
      then (do
        throw_if options.has_packet (codes "conflicting packet options")
        packet ← packet_from_option option value
        returned (record options { packet = packet; has_packet = true }))
      else if is_option "--wrapping-key-hex" option || is_option "--wrapping-key-file" option
      then (do
        throw_if options.has_wrapping_key (codes "conflicting wrapping key options")
        wrapping_key ← wrapping_key_from_option read_file option value
        returned (record options { wrapping_key = wrapping_key; has_wrapping_key = true }))
      else if is_option "--out" option
      then (do
        reject_duplicate options.has_output option
        returned (record options { output = value; has_output = true }))
      else thrown (runtime_error (codes "unsupported key wrapping option: " ++ option))

  unfoldable pub parse_unwrap_key_options : List (List ℕ) → Outcome UnwrapKeyOptions
  parse_unwrap_key_options argv = do
    throw_if (is_malformed 6 argv) unwrap_key_usage
    options ← fold_pairs unwrap_key_option (drop 2 argv) no_unwrap_key_options
    throw_if (not options.has_packet || not options.has_wrapping_key) unwrap_key_usage
    returned options

  -- One round of the loop of `parse_encrypt_options`.
  unfoldable pub encrypt_option : List ℕ → List ℕ → EncryptOptions → Outcome EncryptOptions
  encrypt_option option value options =
      if is_option "--text" option || is_option "--in" option
      then (do
        throw_if options.has_plaintext (codes "conflicting input options")
        plaintext ← plaintext_from_option option value
        returned (record options { plaintext = plaintext; has_plaintext = true }))
      else if is_option "--key-hex" option || is_option "--key-file" option
      then (do
        throw_if options.has_key (codes "conflicting key options")
        key ← key_from_option read_file option value
        returned (record options { key = key; has_key = true }))
      else if is_option "--aad-text" option || is_option "--aad-hex" option
      then (do
        throw_if options.has_aad (codes "conflicting AAD options")
        aad ← aad_from_option option value
        returned (record options { aad = aad; has_aad = true }))
      else if is_option "--out" option
      then (do
        reject_duplicate options.has_output option
        returned (record options { output = value; has_output = true }))
      else thrown (runtime_error (codes "unsupported packet option: " ++ option))

  unfoldable pub parse_encrypt_options : List (List ℕ) → Outcome EncryptOptions
  parse_encrypt_options argv = do
    throw_if (is_malformed 6 argv) (packet_command_usage (get_or argv 1 []))
    options ← fold_pairs encrypt_option (drop 2 argv) no_encrypt_options
    throw_if (not options.has_plaintext || not options.has_key)
        (packet_command_usage (get_or argv 1 []))
    returned options

  -- One round of the loop of `parse_decrypt_options`.
  unfoldable pub decrypt_option : List ℕ → List ℕ → DecryptOptions → Outcome DecryptOptions
  decrypt_option option value options =
      if is_option "--packet-hex" option || is_option "--packet-file" option
      then (do
        throw_if options.has_packet (codes "conflicting packet options")
        packet ← packet_from_option option value
        returned (record options { packet = packet; has_packet = true }))
      else if is_option "--key-hex" option || is_option "--key-file" option
      then (do
        throw_if options.has_key (codes "conflicting key options")
        key ← key_from_option read_file option value
        returned (record options { key = key; has_key = true }))
      else if is_option "--aad-text" option || is_option "--aad-hex" option
      then (do
        throw_if options.has_aad (codes "conflicting AAD options")
        aad ← aad_from_option option value
        returned (record options { aad = aad; has_aad = true }))
      else if is_option "--out" option
      then (do
        reject_duplicate options.has_output option
        returned (record options { output = value; has_output = true }))
      else thrown (runtime_error (codes "unsupported packet option: " ++ option))

  unfoldable pub parse_decrypt_options : List (List ℕ) → Outcome DecryptOptions
  parse_decrypt_options argv = do
    throw_if (is_malformed 6 argv) (packet_command_usage (get_or argv 1 []))
    options ← fold_pairs decrypt_option (drop 2 argv) no_decrypt_options
    throw_if (not options.has_packet || not options.has_key)
        (packet_command_usage (get_or argv 1 []))
    returned options
