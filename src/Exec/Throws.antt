-- ===== src/Exec/Throws.antt =====
-- Which errors a run may throw.
use securekit.Prelude.{Bool, true, false}
use securekit.Errors.{Error, Result, ok, err}
use securekit.Exec.{Exec, lift, pure, raise_if, continue, ◌>>=◌}

-- An error, if there is one, is one of `Q`.
abbrev pub Only : (Q : Error → Type 0) {A : Type 0} → Result A → Type 0
Only Q (ok value) = Unit
Only Q (err e) = Q e

module _ (Q : Error → Type 0) where
  abbrev pub Throws : {S A : Type 0} → Exec S A → Type 0
  Throws {S = S} m = (s : S) → Only Q (m s).0

  continue-Throws :
      {S A B : Type 0} (next : A → Exec S B) (r : Result A × S)
      → Only Q r.0
      → ((a : A) → Throws (next a))
      → Only Q (continue next r).0
  continue-Throws next (ok a, s) h rest = rest a s
  continue-Throws next (err e, s) h rest = h

  pub >>=-Throws :
      {S A B : Type 0} (m : Exec S A) (next : A → Exec S B)
      → Throws m
      → ((a : A) → Throws (next a))
      → Throws (m >>= next)
  >>=-Throws m next first rest s = continue-Throws next (m s) (first s) rest

  pub lift-Throws : {S A : Type 0} (r : Result A) → Only Q r → Throws {S = S} (lift r)
  lift-Throws r h s = h

  pub pure-Throws : {S A : Type 0} (a : A) → Throws {S = S} (pure a)
  pure-Throws a s = tt

  pub raise_if-Throws : {S : Type 0} (b : Bool) (e : Error) → Q e → Throws {S = S} (raise_if b e)
  raise_if-Throws true e h s = h
  raise_if-Throws false e h s = tt
