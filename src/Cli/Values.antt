-- ===== src/Cli/Values.antt =====
-- The values of arguments: keys, sizes, and files that hold keys.
use securekit.Prelude.{
  ℕ, zero, suc, ◌+◌, ◌-◌, ◌*◌, ◌^◌, Bool, true, not, ◌&&◌, ◌||◌, Option, none, some, List, [], ◌∷◌,
  length, take, get_or, bytes_eq, codes, leb, ltb, ◌==◌, if◌then◌else◌,
}
use securekit.Hex.{hex_decode}
use securekit.Cli.{Outcome, returned, ◌>>=◌, library, fail_with}

-- A loop that tests every character.
abbrev pub all : (ℕ → Bool) → List ℕ → Bool
all test [] = true
all test (c ∷ text) = test c && all test text

unfoldable pub is_hex_char : ℕ → Bool
is_hex_char c =
    (leb b'0' c && leb c b'9') || (leb b'a' c && leb c b'f') || (leb b'A' c && leb c b'F')

-- `hex_decode` of 64 characters gives 32 bytes, and the loop copies them all.
unfoldable pub key_from_hex : List ℕ → Outcome (List ℕ)
key_from_hex text =
    if not (length text == 64)
    then fail_with "key must be 64 hex characters"
    else if not (all is_hex_char text)
    then fail_with "key must be 64 hex characters"
    else do decoded ← library (hex_decode text); returned (take 32 decoded)

unfoldable pub is_space : ℕ → Bool
is_space c = c == 32 || c == 9 || c == 10 || c == 13 || c == 12 || c == 11

-- The first loop: the text from the first character that is no space.
unfoldable pub skip_spaces : List ℕ → List ℕ
skip_spaces [] = []
skip_spaces (c ∷ text) = let rest = skip_spaces text in if is_space c then rest else c ∷ text

-- The second loop: `last`, counted from `first`.
unfoldable pub last_of : List ℕ → ℕ → ℕ
last_of text zero = zero
last_of text (suc last) =
    let rest = last_of text last in if is_space (get_or text last 0) then rest else suc last

unfoldable pub trim_ascii_whitespace : List ℕ → List ℕ
trim_ascii_whitespace text = let kept = skip_spaces text in take (last_of kept (length kept)) kept

unfoldable pub is_digit : ℕ → Bool
is_digit c = leb b'0' c && leb c b'9'

-- `std::from_chars` in base 10: the value of the digits at the front and the characters behind them,
-- or `none` if there is no digit or the value does not fit into `std::size_t` of 64 bits.
abbrev pub scan : ℕ → List ℕ → ℕ × List ℕ
scan value [] = (value, [])
scan value (c ∷ text) =
    let rest = scan (10 * value + (c - b'0')) text in if is_digit c then rest else (value, c ∷ text)

abbrev pub in_range : ℕ × List ℕ → Option (ℕ × List ℕ)
in_range (value, rest) = if ltb value (2 ^ 64) then some (value, rest) else none

unfoldable pub from_chars : List ℕ → Option (ℕ × List ℕ)
from_chars [] = none
from_chars (c ∷ text) = if is_digit c then in_range (scan 0 (c ∷ text)) else none

abbrev pub not_a_size {ℓ} : {A : Type ℓ} → Outcome A
not_a_size = fail_with "byte-size must be a positive decimal integer"

-- The tests behind `std::from_chars`.
abbrev pub size_of : Option (ℕ × List ℕ) → Outcome ℕ
size_of none = not_a_size
size_of (some (value, rest)) =
    if not (length rest == 0) || value == 0 then not_a_size else returned value

unfoldable pub parse_size : List ℕ → Outcome ℕ
parse_size text = if length text == 0 then not_a_size else size_of (from_chars text)

-- `bytes_from_text` copies the characters.
unfoldable pub bytes_from_text : List ℕ → List ℕ
bytes_from_text [] = []
bytes_from_text (c ∷ text) = c ∷ bytes_from_text text

-- `read_file` as a parameter: the bytes of the file under a path, or an exception.
module _ (read_file : List ℕ → Outcome (List ℕ)) where
  unfoldable pub password_from_file : List ℕ → Outcome (List ℕ)
  password_from_file path = do
    password ← read_file path
    if length password == 0 then fail_with "password must not be empty" else returned password

  unfoldable pub key_from_file : List ℕ → Outcome (List ℕ)
  key_from_file path = do key_bytes ← read_file path; key_from_hex (trim_ascii_whitespace key_bytes)

  unfoldable pub key_from_option : List ℕ → List ℕ → Outcome (List ℕ)
  key_from_option option value =
      if bytes_eq option (codes "--key-hex")
      then key_from_hex value
      else if bytes_eq option (codes "--key-file")
      then key_from_file value
      else fail_with "unsupported command"

  unfoldable pub wrapping_key_from_option : List ℕ → List ℕ → Outcome (List ℕ)
  wrapping_key_from_option option value =
      if bytes_eq option (codes "--wrapping-key-hex")
      then key_from_hex value
      else if bytes_eq option (codes "--wrapping-key-file")
      then key_from_file value
      else fail_with "unsupported command"

unfoldable pub aad_from_option : List ℕ → List ℕ → Outcome (List ℕ)
aad_from_option option value =
    if bytes_eq option (codes "--aad-text")
    then returned (bytes_from_text value)
    else if bytes_eq option (codes "--aad-hex")
    then library (hex_decode value)
    else fail_with "unsupported command"
