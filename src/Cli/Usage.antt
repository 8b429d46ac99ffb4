-- ===== src/Cli/Usage.antt =====
-- src/cli/commands.cpp: the usage texts and the help of a command.
use securekit.Prelude.{ℕ, Option, none, some, List, [], ◌∷◌, ◌++◌, bytes_eq, codes, if◌then◌else◌}

-- Lines with `\n` between them.
abbrev unlines : List (List ℕ) → List ℕ
unlines [] = []
unlines (l ∷ []) = l
unlines (l ∷ k ∷ rest) = l ++ (10 ∷ unlines (k ∷ rest))

unfoldable pub version_usage : List ℕ
version_usage =
    unlines (codes "Usage:" ∷ codes "  securekit version" ∷ codes "  securekit --version" ∷ [])

unfoldable pub token_usage : List ℕ
token_usage = unlines (codes "Usage:" ∷ codes "  securekit token <byte-size>" ∷ [])

unfoldable pub sha256_usage : List ℕ
sha256_usage = unlines (
    codes "Usage:"
    ∷ codes "  securekit sha256 --text <text>"
    ∷ codes "  securekit sha256 --file <path>"
    ∷ [])

unfoldable pub hmac_sha256_usage : List ℕ
hmac_sha256_usage = unlines (
    codes "Usage:"
    ∷ codes "  securekit hmac-sha256 --key-hex <hex> --text <text>"
    ∷ codes "  securekit hmac-sha256 --key-hex <hex> --file <path>"
    ∷ [])

unfoldable pub hkdf_sha256_usage : List ℕ
hkdf_sha256_usage = unlines (
    codes "Usage:"
    ∷ (codes "  securekit hkdf-sha256 --key-hex <hex> --salt-hex <hex> --info-hex "
        ++ (codes "<hex> --out-size <byte-size>"))
    ∷ (codes "  securekit hkdf-sha256 --key-hex <hex> --salt-hex <hex> --info-text "
        ++ (codes "<text> --out-size <byte-size>"))
    ∷ [])

unfoldable pub hex_encode_usage : List ℕ
hex_encode_usage = unlines (codes "Usage:" ∷ codes "  securekit hex-encode --text <text>" ∷ [])

unfoldable pub hex_decode_usage : List ℕ
hex_decode_usage = unlines (codes "Usage:" ∷ codes "  securekit hex-decode --text <hex>" ∷ [])

unfoldable pub base64url_encode_usage : List ℕ
base64url_encode_usage =
    unlines (codes "Usage:" ∷ codes "  securekit base64url-encode --text <text>" ∷ [])

unfoldable pub base64url_decode_usage : List ℕ
base64url_decode_usage =
    unlines (codes "Usage:" ∷ codes "  securekit base64url-decode --text <base64url>" ∷ [])

unfoldable pub keygen_usage : List ℕ
keygen_usage = unlines (codes "Usage:" ∷ codes "  securekit keygen --out <path>" ∷ [])

unfoldable pub wrap_key_usage : List ℕ
wrap_key_usage = unlines (
    codes "Usage:"
    ∷ (codes "  securekit wrap-key (--key-hex <64-hex>|--key-file <path>) "
        ++ (codes "(--wrapping-key-hex <64-hex>|--wrapping-key-file <path>) [--out "
            ++ (codes "<path>]")))
    ∷ [])

unfoldable pub unwrap_key_usage : List ℕ
unwrap_key_usage = unlines (
    codes "Usage:"
    ∷ (codes "  securekit unwrap-key (--packet-hex <hex>|--packet-file <path>) "
        ++ (codes "(--wrapping-key-hex <64-hex>|--wrapping-key-file <path>) [--out "
            ++ (codes "<path>]")))
    ∷ [])

unfoldable pub packet_command_usage : List ℕ → List ℕ
packet_command_usage command =
    if bytes_eq command (codes "encrypt")
    then unlines (
        codes "Usage:"
        ∷ (codes "  securekit encrypt (--text <text>|--in <path>) (--key-hex "
            ++ (codes "<64-hex>|--key-file <path>) [--aad-text <text>|--aad-hex <hex>] "
                ++ (codes "[--out <path>]")))
        ∷ [])
    else unlines (
        codes "Usage:"
        ∷ (codes "  securekit decrypt (--packet-hex <hex>|--packet-file <path>) "
            ++ (codes "(--key-hex <64-hex>|--key-file <path>) [--aad-text <text>|--aad-hex "
                ++ (codes "<hex>] [--out <path>]")))
        ∷ [])

unfoldable pub file_command_usage : List ℕ → List ℕ
file_command_usage command =
    if bytes_eq command (codes "seal-file")
    then unlines (
        codes "Usage:"
        ∷ (codes "  securekit seal-file --in <path|-> --out <path|-> (--key-hex "
            ++ (codes "<64-hex>|--key-file <path>) [--aad-text <text>|--aad-hex <hex>]"))
        ∷ [])
    else if bytes_eq command (codes "open-file")
    then unlines (
        codes "Usage:"
        ∷ (codes "  securekit open-file --in <path|-> --out <path|-> (--key-hex "
            ++ (codes "<64-hex>|--key-file <path>) [--aad-text <text>|--aad-hex <hex>]"))
        ∷ [])
    else unlines (
        codes "Usage:"
        ∷ (codes "  securekit verify-file --in <path|-> (--key-hex <64-hex>|--key-file "
            ++ (codes "<path>) [--aad-text <text>|--aad-hex <hex>]"))
        ∷ [])

unfoldable pub password_file_command_usage : List ℕ → List ℕ
password_file_command_usage command =
    if bytes_eq command (codes "seal-file-password")
    then unlines (
        codes "Usage:"
        ∷ (codes "  securekit seal-file-password --in <path|-> --out <path|-> "
            ++ (codes "--password-file <path> [--aad-text <text>|--aad-hex <hex>]"))
        ∷ [])
    else if bytes_eq command (codes "open-file-password")
    then unlines (
        codes "Usage:"
        ∷ (codes "  securekit open-file-password --in <path|-> --out <path|-> "
            ++ (codes "--password-file <path> [--aad-text <text>|--aad-hex <hex>]"))
        ∷ [])
    else unlines (
        codes "Usage:"
        ∷ (codes "  securekit verify-file-password --in <path|-> --password-file <path> "
            ++ (codes "[--aad-text <text>|--aad-hex <hex>]"))
        ∷ [])

-- What is printed, without the newline, or `none` if the function returns false.
unfoldable pub print_command_help : List ℕ → Option (List ℕ)
print_command_help command =
    if bytes_eq command (codes "version")
    then some version_usage
    else if bytes_eq command (codes "token")
    then some token_usage
    else if bytes_eq command (codes "sha256")
    then some sha256_usage
    else if bytes_eq command (codes "hmac-sha256")
    then some hmac_sha256_usage
    else if bytes_eq command (codes "hkdf-sha256")
    then some hkdf_sha256_usage
    else if bytes_eq command (codes "hex-encode")
    then some hex_encode_usage
    else if bytes_eq command (codes "hex-decode")
    then some hex_decode_usage
    else if bytes_eq command (codes "base64url-encode")
    then some base64url_encode_usage
    else if bytes_eq command (codes "base64url-decode")
    then some base64url_decode_usage
    else if bytes_eq command (codes "keygen")
    then some keygen_usage
    else if bytes_eq command (codes "wrap-key")
    then some wrap_key_usage
    else if bytes_eq command (codes "unwrap-key")
    then some unwrap_key_usage
    else if bytes_eq command (codes "encrypt")
    then some (packet_command_usage command)
    else if bytes_eq command (codes "decrypt")
    then some (packet_command_usage command)
    else if bytes_eq command (codes "seal-file")
    then some (file_command_usage command)
    else if bytes_eq command (codes "open-file")
    then some (file_command_usage command)
    else if bytes_eq command (codes "verify-file")
    then some (file_command_usage command)
    else if bytes_eq command (codes "seal-file-password")
    then some (password_file_command_usage command)
    else if bytes_eq command (codes "open-file-password")
    then some (password_file_command_usage command)
    else if bytes_eq command (codes "verify-file-password")
    then some (password_file_command_usage command)
    else none
