-- ===== src/Cli/Accepted.antt =====
-- The four commands on packets and wrapped keys, together.
use securekit.Prelude.{ℕ, ◌≡◌, List}
use securekit.Cli.{Outcome, returned}
use securekit.Cli.PacketOptions.{
  WrapKeyOptions, UnwrapKeyOptions, EncryptOptions, DecryptOptions, parse_wrap_key_options,
  parse_unwrap_key_options, parse_encrypt_options, parse_decrypt_options,
}
use securekit.Cli.KeyCommands.{
  IsWrapKeyAccepted, IsUnwrapKeyAccepted, parse_wrap_key_options-IsWrapKeyAccepted,
  parse_unwrap_key_options-IsUnwrapKeyAccepted,
}
use securekit.Cli.PacketCommands.{
  IsEncryptAccepted, IsDecryptAccepted, parse_encrypt_options-IsEncryptAccepted,
  parse_decrypt_options-IsDecryptAccepted,
}

pub data PacketCommand : Type 0 where
  wrapping unwrapping encrypting decrypting : PacketCommand

abbrev pub OptionsOf : PacketCommand → Type 0
OptionsOf wrapping = WrapKeyOptions
OptionsOf unwrapping = UnwrapKeyOptions
OptionsOf encrypting = EncryptOptions
OptionsOf decrypting = DecryptOptions

module _ (read_file : List ℕ → Outcome (List ℕ)) where
  abbrev pub parse_options : (command : PacketCommand) → List (List ℕ) → Outcome (OptionsOf command)
  parse_options wrapping argv = parse_wrap_key_options read_file argv
  parse_options unwrapping argv = parse_unwrap_key_options read_file argv
  parse_options encrypting argv = parse_encrypt_options read_file argv
  parse_options decrypting argv = parse_decrypt_options read_file argv

  -- Pairs of known options, each required one given once and each other one at most once, and the
  -- options hold what is given.
  abbrev pub IsAccepted : (command : PacketCommand) → List (List ℕ) → OptionsOf command → Type 0
  IsAccepted wrapping argv a = IsWrapKeyAccepted read_file argv a
  IsAccepted unwrapping argv a = IsUnwrapKeyAccepted read_file argv a
  IsAccepted encrypting argv a = IsEncryptAccepted read_file argv a
  IsAccepted decrypting argv a = IsDecryptAccepted read_file argv a

  -- If the options of wrap-key, unwrap-key, encrypt or decrypt are accepted, then behind the
  -- command there are pairs of known options, each of the two that the command needs is given once
  -- in one of its forms, each other one at most once, and the options hold the values given.
  pub parse_options-IsAccepted :
      (command : PacketCommand) (argv : List (List ℕ)) (a : OptionsOf command)
      → parse_options command argv ≡ returned a
      → IsAccepted command argv a
  parse_options-IsAccepted wrapping argv a e =
      parse_wrap_key_options-IsWrapKeyAccepted read_file argv a e
  parse_options-IsAccepted unwrapping argv a e =
      parse_unwrap_key_options-IsUnwrapKeyAccepted read_file argv a e
  parse_options-IsAccepted encrypting argv a e =
      parse_encrypt_options-IsEncryptAccepted read_file argv a e
  parse_options-IsAccepted decrypting argv a e =
      parse_decrypt_options-IsDecryptAccepted read_file argv a e
