-- ===== src/Cli/Groups.antt =====
-- The groups of options of which one may be given, and that they do not overlap.
use securekit.Prelude.{
  ℕ, ◌≡◌, refl, ap, ◌∙◌, Bool, true, false, ◌||◌, List, codes, bytes_eq, bytes_eq→eq, arith, String,
}
use securekit.Cli.Options.{is_option}

-- An option has one name.
pub one_name :
    (name other : String) (o : List ℕ)
    → bytes_eq (codes name) (codes other) ≡ false
    → is_option name o ≡ true
    → is_option other o ≡ false
one_name name other o apart h =
    ap (λ t. bytes_eq t (codes other)) (bytes_eq→eq o (codes name) h) ∙ apart

abbrev pub is_input : List ℕ → Bool
is_input o = is_option "--in" o

abbrev pub is_output : List ℕ → Bool
is_output o = is_option "--out" o

abbrev pub is_key : List ℕ → Bool
is_key o = is_option "--key-hex" o || is_option "--key-file" o

abbrev pub is_wrapping_key : List ℕ → Bool
is_wrapping_key o = is_option "--wrapping-key-hex" o || is_option "--wrapping-key-file" o

abbrev pub is_packet : List ℕ → Bool
is_packet o = is_option "--packet-hex" o || is_option "--packet-file" o

abbrev pub is_plaintext : List ℕ → Bool
is_plaintext o = is_option "--text" o || is_option "--in" o

abbrev pub is_password : List ℕ → Bool
is_password o = is_option "--password-file" o

abbrev pub is_aad : List ℕ → Bool
is_aad o = is_option "--aad-text" o || is_option "--aad-hex" o

pub key_apart : (o : List ℕ) → is_key o ≡ true → (is_input o ≡ false) × (is_output o ≡ false)
unfolding bytes_eq
key_apart o h = ground (
  arith,
  h,
  one_name "--key-hex" "--in" o refl,
  one_name "--key-file" "--in" o refl,
  one_name "--key-hex" "--out" o refl,
  one_name "--key-file" "--out" o refl,
)

pub aad_apart :
    (o : List ℕ)
    → is_aad o ≡ true
    → (is_input o ≡ false) × (is_output o ≡ false) × (is_key o ≡ false)
unfolding bytes_eq
aad_apart o h = ground (
  arith,
  h,
  one_name "--aad-text" "--in" o refl,
  one_name "--aad-hex" "--in" o refl,
  one_name "--aad-text" "--out" o refl,
  one_name "--aad-hex" "--out" o refl,
  one_name "--aad-text" "--key-hex" o refl,
  one_name "--aad-hex" "--key-hex" o refl,
  one_name "--aad-text" "--key-file" o refl,
  one_name "--aad-hex" "--key-file" o refl,
)

pub output_apart : (o : List ℕ) → is_output o ≡ true → is_input o ≡ false
unfolding bytes_eq
output_apart o h = one_name "--out" "--in" o refl h

pub password_apart :
    (o : List ℕ) → is_password o ≡ true → (is_input o ≡ false) × (is_output o ≡ false)
unfolding bytes_eq
password_apart o h =
    (one_name "--password-file" "--in" o refl h, one_name "--password-file" "--out" o refl h)

pub aad_apart_password :
    (o : List ℕ)
    → is_aad o ≡ true
    → (is_input o ≡ false) × (is_output o ≡ false) × (is_password o ≡ false)
unfolding bytes_eq
aad_apart_password o h = ground (
  arith,
  h,
  aad_apart o h,
  one_name "--aad-text" "--password-file" o refl,
  one_name "--aad-hex" "--password-file" o refl,
)
