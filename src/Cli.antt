-- ===== src/Cli.antt =====
-- src/cli/commands.cpp and src/cli/main.cpp: the command line. A text is the list of its bytes.
pub mod Values
pub mod Trim
pub mod Runs
pub mod OutputFiles
pub mod Sizes
pub mod Keys
pub mod Usage
pub mod Options
pub mod Once
pub mod PacketOptions
pub mod Groups
pub mod KeyCommands
pub mod PacketCommands
pub mod Accepted
pub mod FileOptions
pub mod PasswordOptions
use securekit.Prelude.{ℕ, List, codes, String}
use securekit.Errors.{Error, error, Result, ok, err}

-- `std::runtime_error` with its message, or an error of the library.
pub data Thrown : Type 0 where
  runtime_error : List ℕ → Thrown
  library_error : Error → Thrown

pub data Outcome {ℓ} (A : Type ℓ) : Type ℓ where
  returned : A → Outcome A
  thrown : Thrown → Outcome A

module _ {ℓ κ} {A : Type ℓ} {B : Type κ} where
  infixl 5 ◌>>=◌
  abbrev pub ◌>>=◌ : Outcome A → (A → Outcome B) → Outcome B
  thrown e >>= next = thrown e
  returned value >>= next = next value

infixl 5 ◌>>◌
abbrev pub ◌>>◌ {ℓ} : {B : Type ℓ} → Outcome (Unit {0}) → Outcome B → Outcome B
first >> second = first >>= λ done. second

-- A call of the library.
abbrev pub library {ℓ} : {A : Type ℓ} → Result A → Outcome A
library (ok value) = returned value
library (err e) = thrown (library_error e)

-- `throw std::runtime_error(message);`
abbrev pub fail_with {ℓ} : {A : Type ℓ} → String → Outcome A
fail_with message = thrown (runtime_error (codes message))
