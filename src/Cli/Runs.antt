-- ===== src/Cli/Runs.antt =====
-- src/cli/commands.cpp: steps on a state that return or throw.
use securekit.Prelude.{Bool, String, codes, if◌then◌else◌}
use securekit.Cli.{runtime_error, Outcome, returned, thrown}

-- A step on a state that returns or throws.
abbrev pub Run : Type 0 → Type 0 → Type 0
Run S A = S → Outcome A × S

module _ {S A B : Type 0} where
  abbrev pub followed : (A → Run S B) → Outcome A × S → Outcome B × S
  followed next (returned value, s) = next value s
  followed next (thrown e, s) = (thrown e, s)

  infixl 5 ◌>>=◌
  abbrev pub ◌>>=◌ : Run S A → (A → Run S B) → Run S B
  (first >>= next) s = followed next (first s)

module _ {S A : Type 0} where
  infixl 5 ◌>>◌
  abbrev pub ◌>>◌ : Run S (Unit {0}) → Run S A → Run S A
  first >> second = first >>= λ done. second

  abbrev pub give : A → Run S A
  give value s = (returned value, s)

  abbrev pub throw : String → Run S A
  throw message s = (thrown (runtime_error (codes message)), s)

-- `if (!good) throw std::runtime_error(message);`
abbrev pub unless : {S : Type 0} → Bool → String → Run S (Unit {0})
unless good message = if good then give tt else throw message
